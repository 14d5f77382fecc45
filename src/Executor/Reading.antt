-- ===== src/Executor/Reading.antt =====
-- executor.py, `run_query`: the session hook, and the `with` block that reads the rows.
use django_mcp_sql.Prelude.{String, Option, none, some, List, []}
use django_mcp_sql.Raise
use django_mcp_sql.Raise.{
  Exn, DbError, parse_failure, recursion_error, query_rejected, database_error,
  executor_misconfigured, connection_error, value_error, type_error, other_error, Try, returned,
  raised,
}
use django_mcp_sql.Models.{User, HookResult, no_context}
use django_mcp_sql.Database.{Value}
use django_mcp_sql.World.{Act, ◌>>=◌, ◌>>◌}
use django_mcp_sql.Session.{validate_session_context, execute, enter_readonly_session}
use django_mcp_sql.Executor.Audit.{Env, Request}

-- `profile.session_context(user, profile) if profile.session_context else None`
unfoldable pub call_hook : Option (User → Try HookResult) → User → Try HookResult
call_hook none user = returned no_context
call_hook (some hook) user = hook user

-- `if session_ctx is not None: validate_session_context(session_ctx)`
unfoldable pub checked_context : HookResult → Try HookResult
checked_context no_context = returned no_context
checked_context h = Raise.◌>>=◌ (validate_session_context h) (λ u. returned h)

abbrev pub columns_of : Option (List String) → List String
columns_of none = []
columns_of (some names) = names

module _ {Node C : Type 0} (env : Env Node C) (req : Request) where
  -- Opening the `with` block, fetching, and leaving the block.
  unfoldable pub enter_database : Act C (Unit {0})
  enter_database w = (env.db.enter w.executed, w)

  unfoldable pub fetch_rows : Act C (List (List Value))
  fetch_rows w = (env.db.fetchall w.executed, w)

  unfoldable pub leave_database : List (List Value) → Act C (List (List Value) × List String)
  leave_database rows w = (
    Raise.◌>>◌ (env.db.leave w.executed)
        (returned (rows, columns_of (env.db.description w.executed))),
    w,
  )

  -- The `with` block: the rows and the column names.
  unfoldable pub read_rows : String → HookResult → Act C (List (List Value) × List String)
  unfolding execute enter_readonly_session enter_database fetch_rows leave_database
  read_rows wrapped context =
      enter_database
      >> (enter_readonly_session env.db req.profile.role context
          >> (execute env.db (record { sql = wrapped; params = [] })
              >> (fetch_rows >>= leave_database)))
