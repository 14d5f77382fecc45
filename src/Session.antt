-- ===== src/Session.antt =====
-- session.py: the statements that make a connection read-only, and the shape of a hook's result.
pub mod Drift
use Prim.Native.Char.{code}
use django_mcp_sql.Prelude.{
  ℕ, String, Bool, true, false, ◌&&◌, ◌||◌, not, Option, none, some, List, [], ◌∷◌, ◌++◌, map, leb,
  ◌==◌, is_empty, format, if◌then◌else◌,
}
use django_mcp_sql.Raise.{type_error, value_error, Try, returned, raised, for_each}
use django_mcp_sql.Models.{Key, name, other_key, HookResult, no_context, mapping, not_mapping}
use django_mcp_sql.World
use django_mcp_sql.World.{Statement, Act}
use django_mcp_sql.Database.{Db}

-- `EXPECTED_SESSION_GUCS`
abbrev pub expected_session_gucs : List (String × String)
expected_session_gucs =
    ("statement_timeout", "5s")
    ∷ ("lock_timeout", "1s")
    ∷ ("idle_in_transaction_session_timeout", "10s")
    ∷ ("default_transaction_read_only", "on")
    ∷ []

-- `[a-z_]`
unfoldable pub is_guc_char : ℕ → Bool
is_guc_char c = (leb b'a' c && leb c b'z') || (c == b'_')

-- `[a-z_]*`, the whole text.
unfoldable pub all_guc_chars : String → Bool
all_guc_chars String.[] = true
all_guc_chars (String.◌∷◌ c s) = is_guc_char (code c) && all_guc_chars s

-- What follows a literal text, if the text begins with it.
unfoldable pub after : String → String → Option String
after String.[] s = some s
after (String.◌∷◌ c p) String.[] = none
after (String.◌∷◌ c p) (String.◌∷◌ d s) =
    let rest = after p s in if code c == code d then rest else none

name_after : Option String → Bool
name_after none = false
name_after (some s) = not (is_empty s) && all_guc_chars s

-- `_SAFE_CONTEXT_GUC_NAME.fullmatch`, of `mcp_sql\.[a-z_]+`.
unfoldable pub is_safe_context_guc_name : String → Bool
unfolding after name_after all_guc_chars is_guc_char
is_safe_context_guc_name s = name_after (after "mcp_sql." s)

-- One round of the loop over the names. (A name is quoted as `repr` does, but for its escapes.)
unfoldable pub check_key : Key × String → Try (Unit {0})
check_key (name s, v) =
    if is_safe_context_guc_name s
    then returned tt
    else raised (value_error (format ("unsafe SESSION_CONTEXT GUC name: '" ∷ s ∷ "'" ∷ [])))
check_key (other_key r, v) =
    raised (value_error (format ("unsafe SESSION_CONTEXT GUC name: " ∷ r ∷ [])))

unfoldable pub validate_session_context : HookResult → Try (Unit {0})
unfolding check_key
validate_session_context (mapping items) = for_each items check_key
validate_session_context no_context =
    raised (type_error "SESSION_CONTEXT hook must return a Mapping (or None), got NoneType")
validate_session_context (not_mapping type_name) = raised (
    type_error
      (format ("SESSION_CONTEXT hook must return a Mapping (or None), got " ∷ type_name ∷ [])))

guard_statement : String × String → Statement
guard_statement (n, v) = record {
  sql = format ("SET LOCAL " ∷ n ∷ " = '" ∷ v ∷ "'" ∷ []);
  params = [];
}

-- `SET LOCAL ROLE` and one `SET LOCAL` for each guard.
unfoldable pub guard_statements : String → List Statement
unfolding guard_statement
guard_statements role =
    record { sql = format ("SET LOCAL ROLE " ∷ role ∷ []); params = [] }
    ∷ map guard_statement expected_session_gucs

-- A key as the text that the loop binds; keys of other types do not pass the check.
abbrev key_text : Key → String
key_text (name s) = s
key_text (other_key r) = r

context_statement : Key × String → Statement
context_statement (k, v) = record {
  sql = "SELECT set_config(%s, %s, true)";
  params = key_text k ∷ v ∷ [];
}

unfoldable pub context_statements : HookResult → List Statement
unfolding context_statement
context_statements (mapping items) = map context_statement items
context_statements _ = []

-- `if session_context: validate_session_context(session_context)`; an empty mapping is skipped.
unfoldable pub recheck : HookResult → Try (Unit {0})
recheck no_context = returned tt
recheck (mapping []) = returned tt
recheck h = validate_session_context h

module _ {C : Type 0} (db : Db) where
  -- `cursor.execute` on the read-only alias; what was executed stays on record.
  unfoldable pub execute : Statement → Act C (Unit {0})
  execute s w = (db.execute w.executed s, record w { executed = w.executed ++ s ∷ [] })

  unfoldable pub execute_all : List Statement → Act C (Unit {0})
  unfolding execute
  execute_all [] = World.pure tt
  execute_all (s ∷ rest) = World.◌>>◌ (execute s) (execute_all rest)

  unfoldable pub enter_readonly_session : String → HookResult → Act C (Unit {0})
  unfolding execute_all
  enter_readonly_session role context =
      World.◌>>◌ (execute_all (guard_statements role))
        (World.◌>>◌ (World.lift (recheck context)) (execute_all (context_statements context)))
