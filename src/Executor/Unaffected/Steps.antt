-- ===== src/Executor/Unaffected/Steps.antt =====
-- executor.py: each step ends as it would with a working audit table.
use django_mcp_sql.Prelude.{
  String, ◌≡◌, refl, sym, ap, ◌∙◌, inl, inr, List, ◌==◌, contains, str_eq, Bool-cases,
}
use django_mcp_sql.Outcome.{QueryResult}
use django_mcp_sql.Raise
use django_mcp_sql.Raise.{
  Exn, DbError, query_rejected, recursion_error, database_error, Try, returned, raised,
}
use django_mcp_sql.Models.{HookResult}
use django_mcp_sql.World.{World, Act, continue, settle, try_else}
use django_mcp_sql.Grants.{declared_tables, values}
use django_mcp_sql.Parser.Validate.{ParsedQuery, parse_and_validate}
use django_mcp_sql.Parser.Limits.{extract_limit}
use django_mcp_sql.Executor.Audit.{Env, Request}
use django_mcp_sql.Executor.Limit.{effective_limit}
use django_mcp_sql.Executor.Reading.{call_hook, checked_context, read_rows}
use django_mcp_sql.Executor.Pipeline.{
  hook_failure, read_failed, answer, read_step, alias_step, wrap_failed, metadata_only, limit_step,
  rejected_by_parser, parse_step, run_query,
}
use django_mcp_sql.Executor.Unaffected.{
  FailsAsDatabase, with_audit, SameResult, settle-SameResult, same_end, same_misconfig,
  hook_failure-SameResult, read_failed-SameResult, answer-SameResult, wrap_failed-SameResult,
  rejected_by_parser-SameResult, read_rows-with_audit,
}

module _ {Node C : Type 0} (env : Env Node C) (t : FailsAsDatabase env) (req : Request) where
  read-result :
      (parsed : ParsedQuery Node) (wrapped : String) (h : HookResult) (w : World C)
      → (try_else
          (read_rows env req wrapped h)
          (answer env req parsed wrapped)
          (read_failed env req parsed wrapped)
          w).0
        ≡ (try_else
            (read_rows (with_audit env) req wrapped h)
            (answer (with_audit env) req parsed wrapped)
            (read_failed (with_audit env) req parsed wrapped)
            w).0
  read-result parsed wrapped h w =
      settle-SameResult (read_rows env req wrapped h w).0 (answer env req parsed wrapped)
        (answer (with_audit env) req parsed wrapped) (read_failed env req parsed wrapped)
        (read_failed (with_audit env) req parsed wrapped)
        (answer-SameResult env t req parsed wrapped)
        (read_failed-SameResult env t req parsed wrapped) (read_rows env req wrapped h w).1
        (read_rows env req wrapped h w).1
      ∙ ap
          (λ m.
            (try_else m (answer (with_audit env) req parsed wrapped)
              (read_failed (with_audit env) req parsed wrapped) w).0)
          (sym (read_rows-with_audit env t req wrapped h))

  -- The parts of the pipeline, from one world.
  settle_here :
      {A : Type 0} (r : Try A) (f g : A → Act C QueryResult) (h k : Exn → Act C QueryResult)
      (w : World C)
      → ((a : A) → (f a w).0 ≡ (g a w).0)
      → ((e : Exn) → SameResult (h e) (k e))
      → (settle r f h w).0 ≡ (settle r g k w).0
  settle_here (returned a) f g h k w l m = l a
  settle_here (raised e) f g h k w l m = m e w w

  read_step-result :
      (parsed : ParsedQuery Node) (wrapped : String) (w : World C)
      → (read_step env req parsed wrapped w).0 ≡ (read_step (with_audit env) req parsed wrapped w).0
  unfolding read_step
  read_step-result parsed wrapped w =
      settle_here (Raise.◌>>=◌ (call_hook req.profile.session_context req.user) checked_context)
        (λ h.
          try_else (read_rows env req wrapped h) (answer env req parsed wrapped)
            (read_failed env req parsed wrapped))
        (λ h.
          try_else (read_rows (with_audit env) req wrapped h)
            (answer (with_audit env) req parsed wrapped)
            (read_failed (with_audit env) req parsed wrapped))
        (hook_failure env req parsed wrapped) (hook_failure (with_audit env) req parsed wrapped) w
        (λ h. read-result parsed wrapped h w) (hook_failure-SameResult env t req parsed wrapped)

  alias_step-result :
      (parsed : ParsedQuery Node) (wrapped : String) (w : World C)
      → (alias_step env req parsed wrapped w).0
        ≡ (alias_step (with_audit env) req parsed wrapped w).0
  unfolding alias_step
  alias_step-result parsed wrapped w =
      elim (Bool-cases (str_eq (env.alias_of env.db_alias) env.db_alias)) [
        | inl right ↦ rw right (read_step-result parsed wrapped w)
        | inr wrong ↦ rw wrong (same_misconfig env t req _ _ w w)
      ]

  metadata_only-result :
      (parsed : ParsedQuery Node)
      → SameResult (metadata_only env req parsed) (metadata_only (with_audit env) req parsed)
  unfolding metadata_only
  metadata_only-result parsed v w = same_end env t req _ _ _ _

  wrapped-result :
      (l : Try String) (parsed : ParsedQuery Node) (w : World C)
      → (settle l (alias_step env req parsed) (wrap_failed env req parsed) w).0
        ≡ (settle l
            (alias_step (with_audit env) req parsed)
            (wrap_failed (with_audit env) req parsed)
            w).0
  wrapped-result l parsed w =
      settle_here l (alias_step env req parsed) (alias_step (with_audit env) req parsed)
        (wrap_failed env req parsed) (wrap_failed (with_audit env) req parsed) w
        (λ wrapped. alias_step-result parsed wrapped w) (wrap_failed-SameResult env t req parsed)

  limit_step-result :
      (parsed : ParsedQuery Node) (w : World C)
      → (limit_step env req parsed w).0 ≡ (limit_step (with_audit env) req parsed w).0
  unfolding limit_step
  limit_step-result parsed w =
      let limit =
        effective_limit env.default_limit env.hard_limit req.limit
          (extract_limit env.ast parsed.ast) in
      elim (Bool-cases (limit == 0)) [
        | inl zero_ ↦ rw zero_ (metadata_only-result parsed w w)
        | inr some_ ↦ rw some_ (wrapped-result _ parsed w)
      ]

  parse_step-result :
      (tables : List String) (w : World C)
      → (parse_step env req tables w).0 ≡ (parse_step (with_audit env) req tables w).0
  unfolding parse_step
  parse_step-result tables w =
      settle_here (parse_and_validate env.ast req.raw_sql tables env.ban_select_star)
        (limit_step env req) (limit_step (with_audit env) req) (rejected_by_parser env req)
        (rejected_by_parser (with_audit env) req) w (λ parsed. limit_step-result parsed w)
        (rejected_by_parser-SameResult env t req)

  continue_here :
      {A : Type 0} (r : Try A) (f g : A → Act C QueryResult) (w : World C)
      → ((a : A) → (f a w).0 ≡ (g a w).0)
      → (continue r f w).0 ≡ (continue r g w).0
  continue_here (returned a) f g w l = l a
  continue_here (raised e) f g w l = refl

  run_query-result : (w : World C) → (run_query env req w).0 ≡ (run_query (with_audit env) req w).0
  unfolding run_query
  run_query-result w = elim (Bool-cases (contains env.databases env.db_alias)) [
    | inl present ↦ rw present (
        continue_here (declared_tables env.table_of req.profile)
          (λ declared. parse_step env req (values declared))
          (λ declared. parse_step (with_audit env) req (values declared)) w
          (λ declared. parse_step-result (values declared) w))
    | inr absent ↦ rw absent (same_misconfig env t req _ _ w w)
  ]

-- Where the database refuses audit rows, some or all, each request ends as it would if every row were
-- stored: with the same answer, or the same exception.
pub run_query-unaffected :
    {Node C : Type 0} (env : Env Node C)
    → FailsAsDatabase env
    → (req : Request) (w : World C) → (run_query env req w).0 ≡ (run_query (with_audit env) req w).0
run_query-unaffected env t req w = run_query-result env t req w
