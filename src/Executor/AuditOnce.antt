-- ===== src/Executor/AuditOnce.antt =====
-- executor.py: every answered request leaves one audit row, and the row agrees with the answer.
pub mod Answers
use django_mcp_sql.Prelude.{
  ℕ, ◌+◌, String, ◌≡◌, refl, ap, sym, ◌∙◌, ◌⊎◌, inl, inr, Bool, true, false, Option, none, some,
  List, [], ◌∷◌, ◌++◌, ◌==◌, length, contains, str_eq, if◌then◌else◌,
}
use django_mcp_sql.Outcome.{
  OutcomeReason, parse_error, misconfigured, reason_value, QueryResult, default_result,
}
use django_mcp_sql.Raise.{
  Exn, DbError, parse_failure, recursion_error, query_rejected, database_error,
  executor_misconfigured, connection_error, value_error, type_error, other_error, Try, returned,
  raised,
}
use django_mcp_sql.Models.{User, Decision, allowed, rejected, AuditFields, HookResult}
use django_mcp_sql.Caching.{or_else}
use django_mcp_sql.Database.{Db, Value}
use django_mcp_sql.World
use django_mcp_sql.World.{
  World, Statement, Act, pure, raise, lift, continue, log, settle, ◌>>=◌, ◌>>◌, try_else,
}
use django_mcp_sql.World.Frames.{
  Moves, IsFrame, Moves-pure, Moves-raise, Moves-lift, Moves-if, Moves-try_else, Moves-bind,
  Ensures, IsStable, Ensures-if, Ensures-try_else, Ensures-bind, Ensures-raise,
}
use django_mcp_sql.Parser.Validate.{ParsedQuery, parse_and_validate}
use django_mcp_sql.Session.{
  execute, execute_all, guard_statements, recheck, context_statements, enter_readonly_session,
}
use django_mcp_sql.Executor.Audit.{Env, Request, base_fields, audit_safely, audit_misconfig}
use django_mcp_sql.Executor.Books.{log-SameBooks, Wrote, audit_safely-Wrote}
use django_mcp_sql.Executor.Reading.{enter_database, fetch_rows, leave_database, read_rows}

-- The audit row and the answer tell the same story about the request.
pub record Agrees (req : Request) (fields : AuditFields) (r : QueryResult) : Type 0 where
  pub user : fields.user ≡ req.user
  pub profile : fields.profile ≡ req.profile.name
  pub raw_sql : fields.raw_sql ≡ req.raw_sql
  pub reason : fields.rejection_reason ≡ r.rejection_reason
  pub error : fields.error ≡ r.error
  pub truncated : fields.truncated ≡ r.truncated
  pub duration : or_else fields.duration_ms 0 ≡ r.duration_ms
  pub row_count : or_else fields.row_count 0 ≡ r.row_count
  pub counted : length r.rows ≡ r.row_count
  pub allowed_or_empty : (fields.decision ≡ allowed) ⊎ (r.rows ≡ [])

module _ {C : Type 0} where
  abbrev pub SameAttempts : World C → World C → Type 0
  SameAttempts a b = b.attempts ≡ a.attempts

  -- One row was tried.
  abbrev pub OneMore : World C → World C → Type 0
  OneMore a b = (fields : AuditFields) × (b.attempts ≡ a.attempts ++ fields ∷ [])

  pub SameAttempts-frame : IsFrame SameAttempts
  SameAttempts-frame = record { same = λ w. refl; then_ = λ a b c h k. k ∙ h }

  -- An answer comes with one row, which agrees with it; an exception with one row at most.
  abbrev pub AuditedOnce : Request → World C → Try QueryResult → World C → Type 0
  AuditedOnce req a (returned r) b =
      (fields : AuditFields) × (b.attempts ≡ a.attempts ++ fields ∷ []) × Agrees req fields r
  AuditedOnce req a (raised e) b = (b.attempts ≡ a.attempts) ⊎ OneMore a b

  onto :
      (a b c : World C) (fields : AuditFields)
      → b.attempts ≡ a.attempts
      → c.attempts ≡ b.attempts ++ fields ∷ []
      → c.attempts ≡ a.attempts ++ fields ∷ []
  onto a b c fields k h = h ∙ ap (λ l. l ++ fields ∷ []) k

  pub AuditedOnce-stable : (req : Request) → IsStable SameAttempts (AuditedOnce req)
  AuditedOnce-stable req = record { earlier = earlier; of_raise = λ a b e k. inl k }
    where
      earlier :
          (a b : World C) (r : Try QueryResult) (c : World C)
          → SameAttempts a b
          → AuditedOnce req b r c
          → AuditedOnce req a r c
      earlier a b (returned r) c k (f, h, m) = (f, onto a b c f k h, m)
      earlier a b (raised e) c k (inl h) = inl (h ∙ k)
      earlier a b (raised e) c k (inr (f, h)) = inr (f, onto a b c f k h)

module _ {Node C : Type 0} (env : Env Node C) (req : Request) where
  answered :
      (fields : AuditFields) (r : QueryResult) (result : Try (Unit {0})) (a b : World C)
      → b.attempts ≡ a.attempts ++ fields ∷ []
      → Agrees req fields r
      → AuditedOnce req a ((lift result >> pure r) b).0 ((lift result >> pure r) b).1
  answered fields r (returned u) a b h m = (fields, h, m)
  answered fields r (raised e) a b h m = inr (fields, h)

  pub audit-pure :
      (fields : AuditFields) (r : QueryResult)
      → Agrees req fields r
      → Ensures (AuditedOnce req) (audit_safely env fields >> pure r)
  audit-pure fields r m = record {
    at = λ w.
        let (result, w') = audit_safely env fields w in
        answered fields r result w w' ((audit_safely-Wrote env fields).at w).attempts m;
  }

  stopped :
      (e : Exn) (result : Try (Unit {0})) (a b : World C)
      → OneMore a b
      → AuditedOnce req a
          (continue result (λ u. raise {A = QueryResult} e) b).0
          (continue result (λ u. raise {A = QueryResult} e) b).1
  stopped e (returned u) a b h = inr h
  stopped e (raised e') a b h = inr h

  audit_misconfig-OneMore : (message : String) → Moves OneMore (audit_misconfig env req message)
  unfolding audit_misconfig
  audit_misconfig-OneMore message = record {
    at = λ w. (_, ((audit_safely-Wrote env _).at _).attempts);
  }

  pub misconfig-raise :
      (message : String) (e : Exn)
      → Ensures (AuditedOnce req) (audit_misconfig env req message >> raise {A = QueryResult} e)
  misconfig-raise message e = record {
    at = λ w.
        let (result, w') = audit_misconfig env req message w in
        stopped e result w w' ((audit_misconfig-OneMore message).at w);
  }

module _ {C : Type 0} (db : Db) where
  -- What runs on the read-only database writes no audit row.
  execute-SameAttempts : (s : Statement) → Moves (SameAttempts {C = C}) (execute db s)
  unfolding execute
  execute-SameAttempts s = record { at = λ w. refl }

  execute_all-SameAttempts : (l : List Statement) → Moves (SameAttempts {C = C}) (execute_all db l)
  unfolding execute_all
  execute_all-SameAttempts [] = Moves-pure SameAttempts-frame tt
  execute_all-SameAttempts (s ∷ rest) =
      Moves-bind SameAttempts-frame (execute db s) (λ u. execute_all db rest)
        (execute-SameAttempts s) (λ u. execute_all-SameAttempts rest)

  enter_readonly_session-SameAttempts :
      (role : String) (context : HookResult)
      → Moves (SameAttempts {C = C}) (enter_readonly_session db role context)
  unfolding enter_readonly_session
  enter_readonly_session-SameAttempts role context =
      Moves-bind SameAttempts-frame (execute_all db (guard_statements role))
        (λ u. lift (recheck context) >> execute_all db (context_statements context))
        (execute_all-SameAttempts (guard_statements role))
        (λ u.
          Moves-bind SameAttempts-frame (lift (recheck context))
            (λ u. execute_all db (context_statements context))
            (Moves-lift SameAttempts-frame (recheck context))
            (λ u. execute_all-SameAttempts (context_statements context)))

module _ {Node C : Type 0} (env : Env Node C) (req : Request) where
  pub read_rows-SameAttempts :
      (wrapped : String) (context : HookResult)
      → Moves SameAttempts (read_rows env req wrapped context)
  unfolding read_rows enter_database fetch_rows leave_database
  read_rows-SameAttempts wrapped context =
      let query : Statement = record { sql = wrapped; params = [] } in
      let fetch : Act C (List (List Value) × List String) =
        fetch_rows env req >>= leave_database env req in
      Moves-bind SameAttempts-frame (enter_database env req)
        (λ u.
          enter_readonly_session env.db req.profile.role context >> (execute env.db query >> fetch))
        (record { at = λ w. refl })
        (λ u.
          Moves-bind SameAttempts-frame (enter_readonly_session env.db req.profile.role context)
            (λ u. execute env.db query >> fetch)
            (enter_readonly_session-SameAttempts env.db req.profile.role context)
            (λ u.
              Moves-bind SameAttempts-frame (execute env.db query) (λ u. fetch)
                (execute-SameAttempts env.db query)
                (λ u.
                  Moves-bind SameAttempts-frame (fetch_rows env req) (leave_database env req)
                    (record { at = λ w. refl }) (λ rows. record { at = λ w. refl }))))
