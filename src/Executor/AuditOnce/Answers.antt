-- ===== src/Executor/AuditOnce/Answers.antt =====
-- executor.py: each way through `run_query` leaves one audit row.
use django_mcp_sql.Prelude.{String, refl, inl, inr, List, [], ◌∷◌, contains, format}
use django_mcp_sql.Outcome.{misconfigured, reason_value}
use django_mcp_sql.Raise
use django_mcp_sql.Raise.{
  Exn, DbError, parse_failure, recursion_error, query_rejected, database_error,
  executor_misconfigured, connection_error, value_error, type_error, other_error, Try, returned,
  raised,
}
use django_mcp_sql.Models.{rejected, HookResult}
use django_mcp_sql.Database.{Value}
use django_mcp_sql.World.{World, pure, raise, lift, error, log, ◌>>◌, try_else}
use django_mcp_sql.World.Frames.{
  Moves-lift, Ensures, Ensures-if, Ensures-try_else, Ensures-bind, Ensures-raise,
}
use django_mcp_sql.Grants.{declared_tables, values}
use django_mcp_sql.Parser.Validate.{ParsedQuery, parse_and_validate}
use django_mcp_sql.Executor.Audit.{Env, Request, base_fields, audit_safely}
use django_mcp_sql.Executor.Reading.{call_hook, checked_context, read_rows}
use django_mcp_sql.Executor.Pipeline.{
  exn_text, failure, hook_failure, read_failed, answer, read_step, alias_step, wrap_failed,
  metadata_only, limit_step, rejected_by_parser, parse_step, run_query,
}
use django_mcp_sql.Executor.AuditOnce.{
  SameAttempts-frame, AuditedOnce, AuditedOnce-stable, audit-pure, misconfig-raise,
  read_rows-SameAttempts,
}

module _ {Node C : Type 0} (env : Env Node C) (req : Request) where
  -- An exception that no branch catches.
  escapes : (e : Exn) → Ensures (AuditedOnce {C = C} req) (raise e)
  escapes = Ensures-raise (AuditedOnce-stable req) SameAttempts-frame

  hook_failure-AuditedOnce :
      (parsed : ParsedQuery Node) (wrapped : String) (e : Exn)
      → Ensures (AuditedOnce req) (hook_failure env req parsed wrapped e)
  unfolding hook_failure
  hook_failure-AuditedOnce parsed wrapped e =
      let message : String = format ("SESSION_CONTEXT hook failure: " ∷ exn_text e ∷ []) in
      Ensures-bind (AuditedOnce-stable req)
        (log (error (format ("MCP executor misconfigured: " ∷ message ∷ []))))
        (λ u.
          audit_safely env (record (base_fields req env.now) {
            decision = rejected;
            rejection_reason = reason_value misconfigured;
            normalized_sql = parsed.normalized_sql;
            wrapped_sql = wrapped;
            error = message;
          })
          >> pure (failure misconfigured message))
        (record { at = λ w. refl })
        (λ u. audit-pure env req _ _ (record {
          user = refl;
          profile = refl;
          raw_sql = refl;
          reason = refl;
          error = refl;
          truncated = refl;
          duration = refl;
          row_count = refl;
          counted = refl;
          allowed_or_empty = inr refl;
        }))

  read_failed-AuditedOnce :
      (parsed : ParsedQuery Node) (wrapped : String) (e : Exn)
      → Ensures (AuditedOnce req) (read_failed env req parsed wrapped e)
  unfolding read_failed
  read_failed-AuditedOnce parsed wrapped (database_error e) = audit-pure env req _ _ (record {
    user = refl;
    profile = refl;
    raw_sql = refl;
    reason = refl;
    error = refl;
    truncated = refl;
    duration = refl;
    row_count = refl;
    counted = refl;
    allowed_or_empty = inr refl;
  })
  read_failed-AuditedOnce parsed wrapped e = escapes e

  answer-AuditedOnce :
      (parsed : ParsedQuery Node) (wrapped : String) (fetched : List (List Value) × List String)
      → Ensures (AuditedOnce req) (answer env req parsed wrapped fetched)
  unfolding answer
  answer-AuditedOnce parsed wrapped fetched = audit-pure env req _ _ (record {
    user = refl;
    profile = refl;
    raw_sql = refl;
    reason = refl;
    error = refl;
    truncated = refl;
    duration = refl;
    row_count = refl;
    counted = refl;
    allowed_or_empty = inl refl;
  })

  read_step-AuditedOnce :
      (parsed : ParsedQuery Node) (wrapped : String)
      → Ensures (AuditedOnce req) (read_step env req parsed wrapped)
  unfolding read_step
  read_step-AuditedOnce parsed wrapped =
      let context : Try HookResult =
        Raise.◌>>=◌ (call_hook req.profile.session_context req.user) checked_context in
      Ensures-try_else (AuditedOnce-stable req) (lift context)
        (λ context.
          try_else (read_rows env req wrapped context) (answer env req parsed wrapped)
            (read_failed env req parsed wrapped))
        (hook_failure env req parsed wrapped) (Moves-lift SameAttempts-frame context)
        (λ context.
          Ensures-try_else (AuditedOnce-stable req) (read_rows env req wrapped context)
            (answer env req parsed wrapped) (read_failed env req parsed wrapped)
            (read_rows-SameAttempts env req wrapped context) (answer-AuditedOnce parsed wrapped)
            (read_failed-AuditedOnce parsed wrapped))
        (hook_failure-AuditedOnce parsed wrapped)

  alias_step-AuditedOnce :
      (parsed : ParsedQuery Node) (wrapped : String)
      → Ensures (AuditedOnce req) (alias_step env req parsed wrapped)
  unfolding alias_step
  alias_step-AuditedOnce parsed wrapped =
      Ensures-if (AuditedOnce-stable req) _ _ _ (read_step-AuditedOnce parsed wrapped)
        (misconfig-raise env req _ _)

  wrap_failed-AuditedOnce :
      (parsed : ParsedQuery Node) (e : Exn)
      → Ensures (AuditedOnce req) (wrap_failed env req parsed e)
  unfolding wrap_failed
  wrap_failed-AuditedOnce parsed recursion_error = audit-pure env req _ _ (record {
    user = refl;
    profile = refl;
    raw_sql = refl;
    reason = refl;
    error = refl;
    truncated = refl;
    duration = refl;
    row_count = refl;
    counted = refl;
    allowed_or_empty = inr refl;
  })
  wrap_failed-AuditedOnce parsed e = escapes e

  metadata_only-AuditedOnce :
      (parsed : ParsedQuery Node) → Ensures (AuditedOnce req) (metadata_only env req parsed)
  unfolding metadata_only
  metadata_only-AuditedOnce parsed = audit-pure env req _ _ (record {
    user = refl;
    profile = refl;
    raw_sql = refl;
    reason = refl;
    error = refl;
    truncated = refl;
    duration = refl;
    row_count = refl;
    counted = refl;
    allowed_or_empty = inr refl;
  })

  limit_step-AuditedOnce :
      (parsed : ParsedQuery Node) → Ensures (AuditedOnce req) (limit_step env req parsed)
  unfolding limit_step
  limit_step-AuditedOnce parsed =
      Ensures-if (AuditedOnce-stable req) _ _ _ (metadata_only-AuditedOnce parsed) (
        Ensures-try_else (AuditedOnce-stable req) (lift _) (alias_step env req parsed)
          (wrap_failed env req parsed) (Moves-lift SameAttempts-frame _)
          (alias_step-AuditedOnce parsed) (wrap_failed-AuditedOnce parsed))

  rejected_by_parser-AuditedOnce :
      (e : Exn) → Ensures (AuditedOnce req) (rejected_by_parser env req e)
  unfolding rejected_by_parser
  rejected_by_parser-AuditedOnce (query_rejected reason detail) = audit-pure env req _ _ (record {
    user = refl;
    profile = refl;
    raw_sql = refl;
    reason = refl;
    error = refl;
    truncated = refl;
    duration = refl;
    row_count = refl;
    counted = refl;
    allowed_or_empty = inr refl;
  })
  rejected_by_parser-AuditedOnce e = escapes e

  parse_step-AuditedOnce :
      (tables : List String) → Ensures (AuditedOnce req) (parse_step env req tables)
  unfolding parse_step
  parse_step-AuditedOnce tables =
      let parsed : Try (ParsedQuery Node) =
        parse_and_validate env.ast req.raw_sql tables env.ban_select_star in
      Ensures-try_else (AuditedOnce-stable req) (lift parsed) (limit_step env req)
        (rejected_by_parser env req) (Moves-lift SameAttempts-frame parsed) limit_step-AuditedOnce
        rejected_by_parser-AuditedOnce

  run_query-AuditedOnce : Ensures (AuditedOnce req) (run_query env req)
  unfolding run_query
  run_query-AuditedOnce =
      Ensures-if (AuditedOnce-stable req) (contains env.databases env.db_alias) _ _
        (Ensures-bind (AuditedOnce-stable req) (lift (declared_tables env.table_of req.profile))
          (λ declared. parse_step env req (values declared)) (Moves-lift SameAttempts-frame _)
          (λ declared. parse_step-AuditedOnce (values declared)))
        (misconfig-raise env req _ _)

-- Every request that is answered tries exactly one audit INSERT, whatever else fails, and the row agrees
-- with the answer on reason, error, truncation, duration and row count, and belongs to the user and the
-- text of the request; a row that says `rejected` goes with an answer without rows. A request that ends
-- in an exception has tried one INSERT at most.
pub run_query-audited :
    {Node C : Type 0} (env : Env Node C) (req : Request) (w : World C)
    → AuditedOnce req w (run_query env req w).0 (run_query env req w).1
run_query-audited env req w = (run_query-AuditedOnce env req).at w
