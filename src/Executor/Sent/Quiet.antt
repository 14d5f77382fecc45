-- ===== src/Executor/Sent/Quiet.antt =====
-- executor.py: the ends of a request that send nothing.
use django_mcp_sql.Prelude.{String, ◌≡◌, refl, ◌⊎◌, List, [], ◌++◌}
use django_mcp_sql.Outcome.{QueryResult}
use django_mcp_sql.Raise.{
  Exn, query_rejected, recursion_error, database_error, Try, returned, raised,
}
use django_mcp_sql.Models.{AuditFields}
use django_mcp_sql.World.{World, Statement, pure, raise, continue, ◌>>◌}
use django_mcp_sql.World.Frames.{Ensures}
use django_mcp_sql.Parser.Validate.{ParsedQuery}
use django_mcp_sql.Executor.Audit.{Env, Request, audit_safely, audit_misconfig}
use django_mcp_sql.Executor.Books.{audit_safely-Wrote}
use django_mcp_sql.Executor.Pipeline.{
  hook_failure, read_failed, wrap_failed, metadata_only, rejected_by_parser,
}
use django_mcp_sql.Executor.Sent.{Begun}

abbrev pub NoRows : Try QueryResult → Type 0
NoRows (returned r) = r.rows ≡ []
NoRows (raised e) = Unit {0}

module _ {C : Type 0} where
  -- Nothing was sent, and no row comes back.
  pub record NotSent (a : World C) (r : Try QueryResult) (b : World C) : Type 0 where
    pub executed : b.executed ≡ a.executed
    pub no_rows : NoRows r

  -- The plan was followed from its first statement on, and to its end where rows come back.
  pub record Followed (plan : List Statement) (a : World C) (r : Try QueryResult) (b : World C)
      : Type 0 where
    pub begun : Begun plan a b
    pub to_the_end : NoRows r ⊎ (b.executed ≡ a.executed ++ plan)

module _ {Node C : Type 0} (env : Env Node C) (req : Request) where
  quiet_end :
      (r : QueryResult) (result : Try (Unit {0})) (a b : World C)
      → b.executed ≡ a.executed
      → r.rows ≡ []
      → NotSent a (continue result (λ u. pure r) b).0 (continue result (λ u. pure r) b).1
  quiet_end r (returned u) a b h k = record { executed = h; no_rows = k }
  quiet_end r (raised e) a b h k = record { executed = h; no_rows = tt }

  pub audit-NotSent :
      (fields : AuditFields) (r : QueryResult)
      → r.rows ≡ []
      → Ensures NotSent (audit_safely env fields >> pure r)
  audit-NotSent fields r k = record {
    at = λ w.
        let (result, w') = audit_safely env fields w in
        quiet_end r result w w' ((audit_safely-Wrote env fields).at w).executed k;
  }

  pub raise-NotSent : (e : Exn) → Ensures (NotSent {C = C}) (raise e)
  raise-NotSent e = record { at = λ w. record { executed = refl; no_rows = tt } }

  pub hook_failure-NotSent :
      (parsed : ParsedQuery Node) (wrapped : String) (e : Exn)
      → Ensures NotSent (hook_failure env req parsed wrapped e)
  unfolding hook_failure
  hook_failure-NotSent parsed wrapped e = record {
    at = λ w.
        let h = (audit-NotSent _ _ refl).at _ in
        record { executed = h.executed; no_rows = h.no_rows };
  }

  pub read_failed-NotSent :
      (parsed : ParsedQuery Node) (wrapped : String) (e : Exn)
      → Ensures NotSent (read_failed env req parsed wrapped e)
  unfolding read_failed
  read_failed-NotSent parsed wrapped (database_error e) = audit-NotSent _ _ refl
  read_failed-NotSent parsed wrapped e = raise-NotSent e

  pub wrap_failed-NotSent :
      (parsed : ParsedQuery Node) (e : Exn) → Ensures NotSent (wrap_failed env req parsed e)
  unfolding wrap_failed
  wrap_failed-NotSent parsed recursion_error = audit-NotSent _ _ refl
  wrap_failed-NotSent parsed e = raise-NotSent e

  pub metadata_only-NotSent :
      (parsed : ParsedQuery Node) → Ensures NotSent (metadata_only env req parsed)
  unfolding metadata_only
  metadata_only-NotSent parsed = audit-NotSent _ _ refl

  pub rejected_by_parser-NotSent : (e : Exn) → Ensures NotSent (rejected_by_parser env req e)
  unfolding rejected_by_parser
  rejected_by_parser-NotSent (query_rejected reason detail) = audit-NotSent _ _ refl
  rejected_by_parser-NotSent e = raise-NotSent e

  misconfig_end :
      (e : Exn) (result : Try (Unit {0})) (a b : World C)
      → b.executed ≡ a.executed
      → NotSent a
          (continue result (λ u. raise {A = QueryResult} e) b).0
          (continue result (λ u. raise {A = QueryResult} e) b).1
  misconfig_end e (returned u) a b h = record { executed = h; no_rows = tt }
  misconfig_end e (raised e') a b h = record { executed = h; no_rows = tt }

  pub misconfig-NotSent :
      (message : String) (e : Exn)
      → Ensures NotSent (audit_misconfig env req message >> raise {A = QueryResult} e)
  unfolding audit_misconfig
  misconfig-NotSent message e = record {
    at = λ w.
        let (result, w') = audit_misconfig env req message w in
        misconfig_end e result w w' ((audit_safely-Wrote env _).at _).executed;
  }
