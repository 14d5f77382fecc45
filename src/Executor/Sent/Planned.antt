-- ===== src/Executor/Sent/Planned.antt =====
-- executor.py: only what was validated and limited reaches the read-only database.
use django_mcp_sql.Prelude.{
  ℕ, ◌+◌, String, ◌≡◌, refl, ◌∙◌, ◌⊎◌, inl, inr, true, false, List, [], ◌==◌, ◌≤◌, length, take,
  length-take, arith, contains, str_eq,
}
use django_mcp_sql.Outcome.{QueryResult}
use django_mcp_sql.Raise
use django_mcp_sql.Raise.{
  Exn, query_rejected, recursion_error, database_error, executor_misconfigured, Try, returned,
  raised,
}
use django_mcp_sql.Models.{HookResult}
use django_mcp_sql.Database.{Value}
use django_mcp_sql.World.{World, Statement, Act, pure, continue, settle, try_else}
use django_mcp_sql.World.Frames.{
  Ensures, Ensures-lift, Ensures-lift_bind, Ensures-weaken, Ensures-either,
}
use django_mcp_sql.Grants.{declared_tables, values}
use django_mcp_sql.Parser.Validate.{ParsedQuery, parse_and_validate}
use django_mcp_sql.Parser.Limits.{inject_limit, extract_limit}
use django_mcp_sql.Executor.Audit.{Env, Request}
use django_mcp_sql.Executor.Books.{audit_safely-Wrote}
use django_mcp_sql.Executor.Cells.{cap_rows}
use django_mcp_sql.Executor.Cells.Capped.{length-cap_rows}
use django_mcp_sql.Executor.Limit.{effective_limit}
use django_mcp_sql.Executor.Reading.{call_hook, checked_context, read_rows}
use django_mcp_sql.Executor.Pipeline.{
  hook_failure, read_failed, answer, read_step, alias_step, wrap_failed, limit_step,
  rejected_by_parser, parse_step, run_query,
}
use django_mcp_sql.Executor.Sent.{Sends, query_plan, read_rows-Sends, append_nil}
use django_mcp_sql.Executor.Sent.Quiet.{
  NoRows, NotSent, Followed, hook_failure-NotSent, read_failed-NotSent, wrap_failed-NotSent,
  metadata_only-NotSent, rejected_by_parser-NotSent, misconfig-NotSent, raise-NotSent,
}

abbrev pub AtMost : ℕ → Try QueryResult → Type 0
AtMost n (returned r) = length r.rows ≤ n
AtMost n (raised e) = Unit {0}

NoRows-AtMost : (n : ℕ) (r : Try QueryResult) → NoRows r → AtMost n r
NoRows-AtMost n (returned r) h = rw h (omega arith)
NoRows-AtMost n (raised e) h = tt

module _ {Node C : Type 0} (env : Env Node C) (req : Request) where
  abbrev pub hook_outcome : Try HookResult
  hook_outcome = Raise.◌>>=◌ (call_hook req.profile.session_context req.user) checked_context

  abbrev pub request_limit : ParsedQuery Node → ℕ
  request_limit parsed =
      effective_limit env.default_limit env.hard_limit req.limit (extract_limit env.ast parsed.ast)

  -- What `run_query` may send: the session of the profile, then the validated query under the limit.
  pub record IsPlan (plan : List Statement) : Type 0 where
    pub configured : contains env.databases env.db_alias ≡ true
    pub declared : List (String × String)
    pub declared_eq : declared_tables env.table_of req.profile ≡ returned declared
    pub parsed : ParsedQuery Node
    pub validated :
        parse_and_validate env.ast req.raw_sql (values declared) env.ban_select_star
        ≡ returned parsed
    pub some_rows : (request_limit parsed == 0) ≡ false
    pub wrapped : String
    pub limited :
        env.ast.sql (inject_limit env.ast parsed.ast (request_limit parsed + 1)) ≡ returned wrapped
    pub right_alias : str_eq (env.alias_of env.db_alias) env.db_alias ≡ true
    pub context : HookResult
    pub checked : hook_outcome ≡ returned context
    pub plan_eq : plan ≡ query_plan req.profile.role context wrapped

  -- What is known behind the parser: nothing was sent, or the plan for this query was followed.
  abbrev Planned : ParsedQuery Node → String → World C → Try QueryResult → World C → Type 0
  Planned parsed wrapped a r b =
      NotSent a r b
      ⊎ ((context : HookResult) × (hook_outcome ≡ returned context)
          × (str_eq (env.alias_of env.db_alias) env.db_alias ≡ true)
          × Followed (query_plan req.profile.role context wrapped) a r b
          × AtMost (request_limit parsed) r)

  abbrev pub OnlyPlanned : World C → Try QueryResult → World C → Type 0
  OnlyPlanned a r b =
      NotSent a r b
      ⊎ ((plan : List Statement) × (p : IsPlan plan) × Followed plan a r b
          × AtMost (request_limit p.parsed) r)

  quiet : {m : Act C QueryResult} → Ensures NotSent m → Ensures OnlyPlanned m
  quiet = Ensures-weaken (λ a r b h. inl h)

  -- What `answer` does to the database, which is nothing, and how many rows it gives.
  record Bounded (n : ℕ) (a : World C) (r : Try QueryResult) (b : World C) : Type 0 where
    executed : b.executed ≡ a.executed
    at_most : AtMost n r

  answer_end :
      (n : ℕ) (r : QueryResult) (result : Try (Unit {0})) (a b : World C)
      → b.executed ≡ a.executed
      → length r.rows ≤ n
      → Bounded n a (continue result (λ u. pure r) b).0 (continue result (λ u. pure r) b).1
  answer_end n r (returned u) a b h k = record { executed = h; at_most = k }
  answer_end n r (raised e) a b h k = record { executed = h; at_most = tt }

  answer-Bounded :
      (parsed : ParsedQuery Node) (wrapped : String) (fetched : List (List Value) × List String)
      → Ensures (Bounded (request_limit parsed)) (answer env req parsed wrapped fetched)
  unfolding answer
  answer-Bounded parsed wrapped fetched = record {
    at = λ w.
        answer_end (request_limit parsed) _ _ w _ ((audit_safely-Wrote env _).at w).executed
          (within (request_limit parsed) fetched.0);
  }
    where
      within :
          (n : ℕ) (rows : List (List Value)) → length (cap_rows env.bytes_limit (take n rows)).0 ≤ n
      within n rows =
          omega (arith, length-cap_rows env.bytes_limit (take n rows), length-take n rows)

  read_end :
      (parsed : ParsedQuery Node) (wrapped : String) (plan : List Statement)
      (r : Try (List (List Value) × List String)) (a b : World C)
      → Sends plan a r b
      → let (o, c) =
          settle r (answer env req parsed wrapped) (read_failed env req parsed wrapped) b in
        Followed plan a o c × AtMost (request_limit parsed) o
  read_end parsed wrapped plan (returned fetched) a b h =
      let k = (answer-Bounded parsed wrapped fetched).at b in
      let e = k.executed ∙ h in
      (record { begun = (plan, [], e, append_nil plan); to_the_end = inr e }, k.at_most)
  read_end parsed wrapped plan (raised e) a b (done, rest, h, s) =
      let k = (read_failed-NotSent env req parsed wrapped e).at b in
      (
        record { begun = (done, rest, k.executed ∙ h, s); to_the_end = inl k.no_rows },
        NoRows-AtMost _ _ k.no_rows,
      )

  read_step-Planned :
      (parsed : ParsedQuery Node) (wrapped : String)
      → str_eq (env.alias_of env.db_alias) env.db_alias ≡ true
      → Ensures (Planned parsed wrapped) (read_step env req parsed wrapped)
  unfolding read_step
  read_step-Planned parsed wrapped right =
      Ensures-lift hook_outcome
        (λ context.
          try_else (read_rows env req wrapped context) (answer env req parsed wrapped)
            (read_failed env req parsed wrapped))
        (hook_failure env req parsed wrapped)
        (λ context checked. record {
          at = λ w.
              let (followed, bounded) =
                read_end parsed wrapped (query_plan req.profile.role context wrapped)
                  (read_rows env req wrapped context w).0 w (read_rows env req wrapped context w).1
                  ((read_rows-Sends env req wrapped context).at w) in
              inr (context, checked, right, followed, bounded);
        })
        (λ e h. Ensures-weaken (λ a r b k. inl k) (hook_failure-NotSent env req parsed wrapped e))

  alias_step-Planned :
      (parsed : ParsedQuery Node) (wrapped : String)
      → Ensures (Planned parsed wrapped) (alias_step env req parsed wrapped)
  unfolding alias_step
  alias_step-Planned parsed wrapped =
      Ensures-either _ _ _ (read_step-Planned parsed wrapped)
        (λ h. Ensures-weaken (λ a r b k. inl k) (misconfig-NotSent env req _ _))

  limit_step-OnlyPlanned :
      (declared : List (String × String)) (parsed : ParsedQuery Node)
      → contains env.databases env.db_alias ≡ true
      → declared_tables env.table_of req.profile ≡ returned declared
      → parse_and_validate env.ast req.raw_sql (values declared) env.ban_select_star
        ≡ returned parsed
      → Ensures OnlyPlanned (limit_step env req parsed)
  unfolding limit_step
  limit_step-OnlyPlanned declared parsed configured d v =
      Ensures-either (request_limit parsed == 0) _ _
        (λ h. quiet (metadata_only-NotSent env req parsed))
        (λ n.
          Ensures-lift (env.ast.sql (inject_limit env.ast parsed.ast (request_limit parsed + 1)))
            (alias_step env req parsed) (wrap_failed env req parsed)
            (λ wrapped l. Ensures-weaken (planned wrapped n l) (alias_step-Planned parsed wrapped))
            (λ e h. quiet (wrap_failed-NotSent env req parsed e)))
    where
      planned :
          (wrapped : String)
          → (request_limit parsed == 0) ≡ false
          → env.ast.sql (inject_limit env.ast parsed.ast (request_limit parsed + 1))
            ≡ returned wrapped
          → (a : World C) (r : Try QueryResult) (b : World C) → Planned parsed wrapped a r b
          → OnlyPlanned a r b
      planned wrapped n l a r b (inl h) = inl h
      planned wrapped n l a r b (inr (context, checked, right, followed, bounded)) = inr (
        query_plan req.profile.role context wrapped,
        record {
          configured = configured;
          declared = declared;
          declared_eq = d;
          parsed = parsed;
          validated = v;
          some_rows = n;
          wrapped = wrapped;
          limited = l;
          right_alias = right;
          context = context;
          checked = checked;
          plan_eq = refl;
        },
        followed,
        bounded,
      )

  parse_step-OnlyPlanned :
      (declared : List (String × String))
      → contains env.databases env.db_alias ≡ true
      → declared_tables env.table_of req.profile ≡ returned declared
      → Ensures OnlyPlanned (parse_step env req (values declared))
  unfolding parse_step
  parse_step-OnlyPlanned declared configured d =
      Ensures-lift (parse_and_validate env.ast req.raw_sql (values declared) env.ban_select_star)
        (limit_step env req) (rejected_by_parser env req)
        (λ parsed v. limit_step-OnlyPlanned declared parsed configured d v)
        (λ e h. quiet (rejected_by_parser-NotSent env req e))

  run_query-OnlyPlanned : Ensures OnlyPlanned (run_query env req)
  unfolding run_query
  run_query-OnlyPlanned =
      Ensures-either (contains env.databases env.db_alias) _ _
        (λ configured.
          Ensures-lift_bind (declared_tables env.table_of req.profile)
            (λ declared. parse_step env req (values declared))
            (λ declared d. parse_step-OnlyPlanned declared configured d)
            (λ e h. quiet (raise-NotSent env req e)))
        (λ h. quiet (misconfig-NotSent env req _ _))

-- A request sends nothing to the read-only database and returns no row, or it follows one plan from its
-- first statement on, to the end where rows come back. The plan is: the role of the profile, the guards,
-- the checked context of the hook, and then the query that `parse_and_validate` accepted for the tables
-- of the profile, serialised under one more than the effective limit, which is not 0; and no more rows
-- come back than this limit.
pub run_query-sends :
    {Node C : Type 0} (env : Env Node C) (req : Request) (w : World C)
    → OnlyPlanned env req w (run_query env req w).0 (run_query env req w).1
run_query-sends env req w = (run_query-OnlyPlanned env req).at w
