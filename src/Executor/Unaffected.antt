-- ===== src/Executor/Unaffected.antt =====
-- executor.py: the audit table and the counters do not change an answer.
pub mod Steps
use django_mcp_sql.Prelude.{
  ℕ, ◌+◌, String, ◌≡◌, refl, sym, ap, ◌∙◌, ◌⊎◌, inl, inr, Bool, true, false, Option, none, some,
  List, [], ◌∷◌, ◌==◌, contains, str_eq, if◌then◌else◌, Bool-cases,
}
use django_mcp_sql.Outcome.{QueryResult}
use django_mcp_sql.Raise
use django_mcp_sql.Raise.{
  Exn, DbError, query_rejected, recursion_error, database_error, Try, returned, raised,
}
use django_mcp_sql.Models.{AuditFields, HookResult}
use django_mcp_sql.Database.{Value}
use django_mcp_sql.World.{World, Act, pure, raise, lift, continue, settle, ◌>>=◌, ◌>>◌, try_else}
use django_mcp_sql.Grants.{declared_tables, values}
use django_mcp_sql.Parser.Validate.{ParsedQuery, parse_and_validate}
use django_mcp_sql.Parser.Limits.{inject_limit, extract_limit}
use django_mcp_sql.Executor.Audit.{
  Env, Request, insert_row, insert_failed, count_volume, audit_safely, audit_misconfig,
}
use django_mcp_sql.Executor.Limit.{effective_limit}
use django_mcp_sql.Executor.Reading.{
  call_hook, checked_context, enter_database, fetch_rows, leave_database, read_rows,
}
use django_mcp_sql.Executor.Pipeline.{
  hook_failure, read_failed, answer, read_step, alias_step, wrap_failed, metadata_only, limit_step,
  rejected_by_parser, parse_step, run_query,
}

-- The INSERT succeeds, or the database refuses it.
abbrev pub FailsAsDatabase : {Node C : Type 0} → Env Node C → Type 0
FailsAsDatabase env =
    (tried : List AuditFields) (fields : AuditFields)
    → (env.insert tried fields ≡ returned tt)
      ⊎ ((d : DbError) × (env.insert tried fields ≡ raised (database_error d)))

-- The same services, with an INSERT that succeeds.
abbrev pub with_audit : {Node C : Type 0} → Env Node C → Env Node C
with_audit env = record env { insert = λ tried fields. returned tt }

with_audit-FailsAsDatabase : {Node C : Type 0} (env : Env Node C) → FailsAsDatabase (with_audit env)
with_audit-FailsAsDatabase env tried fields = inl refl

module _ {Node C : Type 0} (env : Env Node C) where
  swallowed :
      (r : Try (Unit {0})) (fields : AuditFields) (w : World C) (h : Exn → Act C (Unit {0}))
      → ((e : Exn) (v : World C) → (h e v).0 ≡ returned tt)
      → (settle r pure h w).0 ≡ returned tt
  swallowed (returned u) fields w h k = refl
  swallowed (raised e) fields w h k = k e w

  count_volume-returned :
      (fields : AuditFields) (w : World C) → (count_volume env fields w).0 ≡ returned tt
  unfolding count_volume
  count_volume-returned fields w = swallowed _ fields _ _ (λ e v. refl)

module _ {Node C : Type 0} (env : Env Node C) (t : FailsAsDatabase env) where
  audit_safely-returned :
      (fields : AuditFields) (w : World C) → (audit_safely env fields w).0 ≡ returned tt
  unfolding audit_safely insert_row insert_failed
  audit_safely-returned fields w = elim (t w.attempts fields) [
    | inl ok ↦ rw ok (count_volume-returned env fields _)
    | inr (d, e) ↦ rw e refl
  ]

  -- What stands behind the audit write is the answer.
  audit-pure :
      (fields : AuditFields) (r : QueryResult) (w : World C)
      → ((audit_safely env fields >> pure r) w).0 ≡ returned r
  audit-pure fields r w = rw (audit_safely-returned fields w) refl

  audit_misconfig-raise :
      (req : Request) (message : String) (e : Exn) (w : World C)
      → ((audit_misconfig env req message >> raise {A = QueryResult} e) w).0 ≡ raised e
  unfolding audit_misconfig
  audit_misconfig-raise req message e w = rw (audit_safely-returned _ _) refl

-- Two actions with the same result, from whatever worlds.
abbrev pub SameResult : {C A : Type 0} → Act C A → Act C A → Type 0
SameResult {C} m n = (v w : World C) → (m v).0 ≡ (n w).0

pub settle-SameResult :
    {C A B : Type 0} (r : Try A) (f g : A → Act C B) (h k : Exn → Act C B)
    → ((a : A) → SameResult (f a) (g a))
    → ((e : Exn) → SameResult (h e) (k e))
    → (v w : World C) → (settle r f h v).0 ≡ (settle r g k w).0
settle-SameResult (returned a) f g h k l m v w = l a v w
settle-SameResult (raised e) f g h k l m v w = m e v w

module _ {Node C : Type 0} (env : Env Node C) (t : FailsAsDatabase env) (req : Request) where
  pub same_end :
      (fields : AuditFields) (r : QueryResult)
      → SameResult
          (audit_safely env fields >> pure r)
          (audit_safely (with_audit env) fields >> pure r)
  same_end fields r v w =
      audit-pure env t fields r v
      ∙ sym (audit-pure (with_audit env) (with_audit-FailsAsDatabase env) fields r w)

  pub same_misconfig :
      (message : String) (e : Exn)
      → SameResult
          (audit_misconfig env req message >> raise {A = QueryResult} e)
          (audit_misconfig (with_audit env) req message >> raise {A = QueryResult} e)
  same_misconfig message e v w =
      audit_misconfig-raise env t req message e v
      ∙ sym
          (audit_misconfig-raise (with_audit env) (with_audit-FailsAsDatabase env) req message e w)

  pub hook_failure-SameResult :
      (parsed : ParsedQuery Node) (wrapped : String) (e : Exn)
      → SameResult
          (hook_failure env req parsed wrapped e)
          (hook_failure (with_audit env) req parsed wrapped e)
  unfolding hook_failure
  hook_failure-SameResult parsed wrapped e v w = same_end _ _ _ _

  pub read_failed-SameResult :
      (parsed : ParsedQuery Node) (wrapped : String) (e : Exn)
      → SameResult
          (read_failed env req parsed wrapped e)
          (read_failed (with_audit env) req parsed wrapped e)
  unfolding read_failed
  read_failed-SameResult parsed wrapped (database_error e) v w = same_end _ _ _ _
  read_failed-SameResult parsed wrapped e v w = refl

  pub answer-SameResult :
      (parsed : ParsedQuery Node) (wrapped : String) (fetched : List (List Value) × List String)
      → SameResult
          (answer env req parsed wrapped fetched)
          (answer (with_audit env) req parsed wrapped fetched)
  unfolding answer
  answer-SameResult parsed wrapped fetched v w = same_end _ _ _ _

  pub wrap_failed-SameResult :
      (parsed : ParsedQuery Node) (e : Exn)
      → SameResult (wrap_failed env req parsed e) (wrap_failed (with_audit env) req parsed e)
  unfolding wrap_failed
  wrap_failed-SameResult parsed recursion_error v w = same_end _ _ _ _
  wrap_failed-SameResult parsed e v w = refl

  pub rejected_by_parser-SameResult :
      (e : Exn)
      → SameResult (rejected_by_parser env req e) (rejected_by_parser (with_audit env) req e)
  unfolding rejected_by_parser
  rejected_by_parser-SameResult (query_rejected reason detail) v w = same_end _ _ _ _
  rejected_by_parser-SameResult e v w = refl

  pub read_rows-with_audit :
      (wrapped : String) (context : HookResult)
      → read_rows (with_audit env) req wrapped context ≡ read_rows env req wrapped context
  unfolding read_rows enter_database fetch_rows leave_database
  read_rows-with_audit wrapped values_set = refl
