-- ===== src/Grants.antt =====
-- grants.py: the tables that a profile declares.
pub mod Sets
pub mod Reconcile
pub mod Whole
use django_mcp_sql.Prelude.{String, List, [], ◌∷◌, map, str_eq, if◌then◌else◌}
use django_mcp_sql.Raise.{Try, returned, ◌>>=◌}
use django_mcp_sql.Models.{Profile}

-- `out[entry] = table`
unfoldable pub set_item : String → String → List (String × String) → List (String × String)
set_item key value [] = (key, value) ∷ []
set_item key value ((k, v) ∷ rest) =
    if str_eq k key then (key, value) ∷ rest else (k, v) ∷ set_item key value rest

-- `table_of` is `apps.get_model(entry)._meta.db_table`, which raises for a model that is not there.
unfoldable pub declare_loop :
    (String → Try String) → List String → List (String × String) → Try (List (String × String))
declare_loop table_of [] out = returned out
declare_loop table_of (entry ∷ rest) out =
    table_of entry >>= λ table. declare_loop table_of rest (set_item entry table out)

unfoldable pub declared_tables : (String → Try String) → Profile → Try (List (String × String))
unfolding declare_loop set_item
declared_tables table_of profile = declare_loop table_of profile.allowed_models []

-- `.values()`
abbrev pub values : List (String × String) → List String
values items = map (λ (i : String × String). i.1) items
