-- ===== src/Executor/Sent/Entered.antt =====
-- session.py: the statements that open a read-only session, written out.
use django_mcp_sql.Prelude.{String, ◌≡◌, refl, ap, List, [], ◌∷◌, ◌++◌, format}
use django_mcp_sql.Models.{Key, name, other_key, HookResult, no_context, mapping, not_mapping}
use django_mcp_sql.Database.{Db}
use django_mcp_sql.World.{Statement}
use django_mcp_sql.World.Frames.{Ensures}
use django_mcp_sql.Session.{guard_statements, context_statements, enter_readonly_session}
use django_mcp_sql.Executor.Sent.{Sends, entering-Sends}

abbrev plain : String → Statement
plain sql = record { sql = sql; params = [] }

-- One setting of the hook, with its name and its value as parameters.
set_config : Key × String → Statement
set_config (name s, value) = record {
  sql = "SELECT set_config(%s, %s, true)";
  params = s ∷ value ∷ [];
}
set_config (other_key r, value) = record {
  sql = "SELECT set_config(%s, %s, true)";
  params = r ∷ value ∷ [];
}

settings : List (Key × String) → List Statement
settings [] = []
settings (item ∷ rest) = set_config item ∷ settings rest

settings_of : HookResult → List Statement
settings_of no_context = []
settings_of (mapping items) = settings items
settings_of (not_mapping type_name) = []

-- The role, the four guards, all of them local to the transaction, and the settings of the hook.
unfoldable pub session_plan : String → HookResult → List Statement
unfolding settings_of settings set_config
session_plan role context =
    (plain (format ("SET LOCAL ROLE " ∷ role ∷ []))
      ∷ plain "SET LOCAL statement_timeout = '5s'"
      ∷ plain "SET LOCAL lock_timeout = '1s'"
      ∷ plain "SET LOCAL idle_in_transaction_session_timeout = '10s'"
      ∷ plain "SET LOCAL default_transaction_read_only = 'on'"
      ∷ [])
    ++ settings_of context

context_statements-settings :
    (items : List (Key × String)) → context_statements (mapping items) ≡ settings items
unfolding context_statements settings set_config
context_statements-settings [] = refl
context_statements-settings ((name s, value) ∷ rest) =
    ap (λ l. set_config (name s, value) ∷ l) (context_statements-settings rest)
context_statements-settings ((other_key r, value) ∷ rest) =
    ap (λ l. set_config (other_key r, value) ∷ l) (context_statements-settings rest)

context_statements-of : (context : HookResult) → context_statements context ≡ settings_of context
unfolding context_statements settings_of
context_statements-of no_context = refl
context_statements-of (not_mapping type_name) = refl
context_statements-of (mapping items) = context_statements-settings items

plan_eq :
    (role : String) (context : HookResult)
    → guard_statements role ++ context_statements context ≡ session_plan role context
unfolding guard_statements session_plan format
plan_eq role context = rw (context_statements-of context) refl

-- Entering a session sends `SET LOCAL ROLE` with the role, then the four guards, each a `SET LOCAL` with
-- the value written out here, then one parameterized `set_config` for each setting of the hook, in this
-- order, and nothing else; where it raises, it has sent a part from the first statement on.
pub enter_readonly_session-Sends :
    {C : Type 0} (db : Db) (role : String) (context : HookResult)
    → Ensures (Sends {C = C} (session_plan role context)) (enter_readonly_session db role context)
enter_readonly_session-Sends {C} db role context =
    rw (plan_eq role context) at (entering-Sends {C = C} db role context)
