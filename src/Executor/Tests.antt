-- ===== src/Executor/Tests.antt =====
-- executor.py: one request from the parser to its answer.
use django_mcp_sql.Prelude.{◌≤◌, ◌↔◌, none, some, List, [], ◌∷◌}
use django_mcp_sql.Prelude.Int.{pos}
use django_mcp_sql.Database.{Value, int, text}
use django_mcp_sql.Models.{no_context}
use django_mcp_sql.World.Frames.{Ensures}
use django_mcp_sql.Session.{enter_readonly_session}
use django_mcp_sql.Executor.Sent.{Sends}
use django_mcp_sql.Executor.Sent.Entered.{session_plan, enter_readonly_session-Sends}
use django_mcp_sql.Executor.Sample.{sample_env, sample_request, empty_world}
use django_mcp_sql.Executor.Cells.{cap_rows}
use django_mcp_sql.Executor.Cells.Capped.{IsCapped, cap_rows-IsCapped}
use django_mcp_sql.Executor.Limit.{effective_limit}
use django_mcp_sql.Executor.Limit.Least.{IsAllowed, effective_limit_iff}
use django_mcp_sql.Executor.Pipeline.{run_query}
use django_mcp_sql.Executor.AuditOnce.{AuditedOnce}
use django_mcp_sql.Executor.AuditOnce.Answers.{run_query-audited}
use django_mcp_sql.Executor.Sent.Planned.{OnlyPlanned, run_query-sends}
use django_mcp_sql.Prelude.{ℕ, ◌≡◌, none, inr, refl}
use django_mcp_sql.Raise.{raised, database_error}
use django_mcp_sql.Caching.Memory.{Memory}
use django_mcp_sql.Executor.Audit.{Env}
use django_mcp_sql.Executor.Unaffected.{FailsAsDatabase, with_audit}
use django_mcp_sql.Executor.Unaffected.Steps.{run_query-unaffected}

run_query-audited_example :
    AuditedOnce sample_request empty_world
      (run_query sample_env sample_request empty_world).0
      (run_query sample_env sample_request empty_world).1
run_query-audited_example = run_query-audited sample_env sample_request empty_world

run_query-sends_example :
    OnlyPlanned sample_env sample_request empty_world
      (run_query sample_env sample_request empty_world).0
      (run_query sample_env sample_request empty_world).1
run_query-sends_example = run_query-sends sample_env sample_request empty_world

abbrev two_rows : List (List Value)
two_rows = (int (pos 1) ∷ text "a" ∷ []) ∷ (int (pos 2) ∷ text "b" ∷ []) ∷ []

cap_rows-IsCapped_example :
    let (out, total, truncated) = cap_rows 10 two_rows in IsCapped 10 two_rows out total truncated
cap_rows-IsCapped_example = cap_rows-IsCapped 10 two_rows

effective_limit_iff_example :
    (10 ≤ effective_limit 100 1000 (some (pos 10)) none)
    ↔ IsAllowed 100 1000 (some (pos 10)) none 10
effective_limit_iff_example = effective_limit_iff 100 1000 (some (pos 10)) none 9

-- A database that takes no audit row.
abbrev refusing_env : Env ℕ Memory
refusing_env = record sample_env {
  insert = λ tried fields.
      raised
        (database_error (record { pgcode = none; cause_sqlstate = none; message = "disk full" }));
}

refusing_env-FailsAsDatabase : FailsAsDatabase refusing_env
refusing_env-FailsAsDatabase tried fields = inr (_, refl)

run_query-unaffected_example :
    (run_query refusing_env sample_request empty_world).0
    ≡ (run_query (with_audit refusing_env) sample_request empty_world).0
run_query-unaffected_example =
    run_query-unaffected refusing_env refusing_env-FailsAsDatabase sample_request empty_world

enter_readonly_session-Sends_example :
    Ensures
      (Sends {C = Memory} (session_plan "mcp_analyst" no_context))
      (enter_readonly_session sample_env.db "mcp_analyst" no_context)
enter_readonly_session-Sends_example =
    enter_readonly_session-Sends sample_env.db "mcp_analyst" no_context
