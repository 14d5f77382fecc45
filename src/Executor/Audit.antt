-- ===== src/Executor/Audit.antt =====
-- executor.py: `_audit_safely` and what writes through it.
use django_mcp_sql.Prelude.{
  ℕ, String, Bool, true, false, Option, none, some, List, [], ◌∷◌, ◌++◌, is_empty, str_eq, format,
  if◌then◌else◌,
}
use django_mcp_sql.Prelude.Int.{ℤ}
use django_mcp_sql.Outcome.{OutcomeReason, ToolName, reason_value, tool_value}
use django_mcp_sql.Raise.{Exn, DbError, database_error, Try, returned, raised}
use django_mcp_sql.Models.{User, Profile, Decision, allowed, rejected, decision_value, AuditFields}
use django_mcp_sql.Ast.{Ast}
use django_mcp_sql.Caching.{Cache}
use django_mcp_sql.Database.{Db}
use django_mcp_sql.World.{Act, error, exception, pure, raise, log, ◌>>◌, try_else}
use django_mcp_sql.Observability.{record_query_volume}

-- The settings, and the services that the executor calls.
pub record Env (Node C : Type 0) : Type 0 where
  pub ast : Ast Node
  pub cache : Cache C
  pub db : Db
  -- the INSERT of `MCPQueryLog.objects.create`, given the INSERTs that were tried before it
  pub insert : List AuditFields → AuditFields → Try (Unit {0})
  -- `DB_ALIAS`, the names in `connections.databases`, and `connections[name].alias`
  pub db_alias : String
  pub databases : List String
  pub alias_of : String → String
  -- `LIMITS` and `BAN_SELECT_STAR`
  pub default_limit : ℕ
  pub hard_limit : ℕ
  pub bytes_limit : ℕ
  pub ban_select_star : Bool
  -- `VOLUME_ALERT_THRESHOLDS.get(decision)`
  pub volume_windows : Decision → List (ℕ × ℕ)
  -- `apps.get_model(entry)._meta.db_table`
  pub table_of : String → Try String
  -- `timezone.now()`, and the two readings of `perf_counter_ns()`, the second not before the first
  pub now : ℕ
  pub started_ns : ℕ
  pub ended_ns : ℕ

-- The arguments of `run_query`.
pub record Request : Type 0 where
  pub user : User
  pub profile : Profile
  pub raw_sql : String
  pub limit : Option ℤ
  pub token_id : String
  pub client_ip : Option String
  pub client_redirect : String

-- The fields that every row of a request has, and the defaults of the model for the others.
abbrev pub base_fields : Request → ℕ → AuditFields
base_fields req now = record {
  user = req.user;
  profile = req.profile.name;
  token_id = req.token_id;
  decision = allowed;
  rejection_reason = "";
  raw_sql = req.raw_sql;
  started_at = now;
  client_ip = req.client_ip;
  client_redirect = req.client_redirect;
  error = "";
  normalized_sql = "";
  wrapped_sql = "";
  duration_ms = none;
  result_bytes = none;
  row_count = none;
  truncated = false;
  tool = "run_query";
}

abbrev stored : Try (Unit {0}) → Bool
stored (returned u) = true
stored (raised e) = false

module _ {Node C : Type 0} (env : Env Node C) where
  unfoldable pub insert_row : AuditFields → Act C (Unit {0})
  insert_row fields w =
      let r = env.insert w.attempts fields in
      (
        r,
        record w {
          attempts = w.attempts ++ fields ∷ [];
          rows = if stored r then w.rows ++ fields ∷ [] else w.rows;
        },
      )

  -- `except DatabaseError`: the response is returned anyway.
  unfoldable pub insert_failed : AuditFields → Exn → Act C (Unit {0})
  insert_failed fields (database_error e) = log (
      exception (
        format (
          "MCP audit row write failed (reason="
          ∷ (if is_empty fields.rejection_reason then "<allowed>" else fields.rejection_reason)
          ∷ "); response returned anyway"
          ∷ [])))
  insert_failed fields e = raise e

  -- The tripwire, under `except Exception`.
  unfoldable pub count_volume : AuditFields → Act C (Unit {0})
  count_volume fields =
      try_else
        (record_query_volume env.cache (env.volume_windows fields.decision) fields.user.pk
          (decision_value fields.decision) fields.user.username)
        pure (λ e. log (exception "MCP volume tripwire failed; query response unaffected"))

  unfoldable pub audit_safely : AuditFields → Act C (Unit {0})
  unfolding insert_row insert_failed count_volume
  audit_safely fields =
      try_else (insert_row fields) (λ u. count_volume fields) (insert_failed fields)

  unfoldable pub audit_misconfig : Request → String → Act C (Unit {0})
  unfolding audit_safely
  audit_misconfig req message =
      log (error (format ("MCP executor misconfigured: " ∷ message ∷ [])))
      >> audit_safely (record (base_fields req env.now) {
        decision = rejected;
        rejection_reason = reason_value OutcomeReason.misconfigured;
        error = message;
      })

  -- A metadata tool: `detail` stands where the SQL stands otherwise.
  unfoldable pub audit_tool_call : Request → ToolName → String → Act C (Unit {0})
  unfolding audit_safely
  audit_tool_call req tool detail =
      audit_safely (record (base_fields req env.now) { raw_sql = detail; tool = tool_value tool })

first_text : Option String → Option String → Option String
first_text none other = other
first_text (some code) other = if is_empty code then other else some code

-- `pgcode`: the SQLSTATE of the exception, or of its cause.
unfoldable pub pgcode : DbError → Option String
unfolding first_text
pgcode e = first_text e.pgcode e.cause_sqlstate

is_canceled : Option String → Bool
is_canceled none = false
is_canceled (some code) = str_eq code "57014"

unfoldable pub classify_db_error : DbError → OutcomeReason
unfolding pgcode is_canceled
classify_db_error e =
    if is_canceled (pgcode e) then OutcomeReason.timeout else OutcomeReason.execution_error
