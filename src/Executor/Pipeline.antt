-- ===== src/Executor/Pipeline.antt =====
-- executor.py: `run_query`, cut at its early returns; each part runs what stands behind it.
use django_mcp_sql.Prelude.{
  ℕ, ◌+◌, ◌-◌, ◌/◌, String, ◌&&◌, ◌||◌, not, some, List, [], ◌∷◌, ltb, ◌==◌, length, take, contains,
  str_eq, format, if◌then◌else◌,
}
use django_mcp_sql.Outcome.{
  OutcomeReason, parse_error, misconfigured, reason_value, hint_of, truncated_hint, QueryResult,
  default_result,
}
use django_mcp_sql.Raise
use django_mcp_sql.Raise.{
  Exn, DbError, parse_failure, recursion_error, query_rejected, database_error,
  executor_misconfigured, connection_error, value_error, type_error, authentication_failed,
  payload_too_large, grants_reconcile_error, improperly_configured, import_error, permission_denied,
  other_error, Try, returned, raised,
}
use django_mcp_sql.Models.{rejected}
use django_mcp_sql.Database.{Value}
use django_mcp_sql.World.{Act, error, pure, raise, lift, log, ◌>>=◌, ◌>>◌, try_else}
use django_mcp_sql.Grants.{declared_tables, values}
use django_mcp_sql.Parser.Validate.{ParsedQuery, parse_and_validate}
use django_mcp_sql.Parser.Limits.{inject_limit, extract_limit}
use django_mcp_sql.Executor.Audit.{
  Env, Request, base_fields, audit_safely, audit_misconfig, classify_db_error,
}
use django_mcp_sql.Executor.Reading.{call_hook, checked_context, read_rows}
use django_mcp_sql.Executor.Cells.{cap_rows}
use django_mcp_sql.Executor.Limit.{effective_limit, user_constrained}

-- `str(exc)`
unfoldable pub exn_text : Exn → String
exn_text (parse_failure m) = m
exn_text recursion_error = "maximum recursion depth exceeded"
exn_text (query_rejected reason detail) = detail
exn_text (database_error e) = e.message
exn_text (executor_misconfigured m) = m
exn_text connection_error = ""
exn_text (value_error m) = m
exn_text (type_error m) = m
exn_text (authentication_failed m) = m
exn_text payload_too_large = "Request body exceeds the /mcp/sql/ cap of 1048576 bytes."
exn_text (grants_reconcile_error m) = m
exn_text (improperly_configured m) = m
exn_text (import_error m) = m
exn_text (permission_denied m) = m
exn_text (other_error m) = m

-- The answer to a failure: the reason, its hint and the message.
abbrev pub failure : OutcomeReason → String → QueryResult
failure reason message = record default_result {
  hint = hint_of reason;
  rejection_reason = reason_value reason;
  error = message;
}

module _ {Node C : Type 0} (env : Env Node C) (req : Request) where
  abbrev pub duration : ℕ
  duration = (env.ended_ns - env.started_ns) / 1000000

  unfoldable pub hook_failure : ParsedQuery Node → String → Exn → Act C QueryResult
  unfolding exn_text
  hook_failure parsed wrapped e =
      let message = format ("SESSION_CONTEXT hook failure: " ∷ exn_text e ∷ []) in
      log (error (format ("MCP executor misconfigured: " ∷ message ∷ [])))
      >> (audit_safely env (record (base_fields req env.now) {
        decision = rejected;
        rejection_reason = reason_value misconfigured;
        normalized_sql = parsed.normalized_sql;
        wrapped_sql = wrapped;
        error = message;
      })
          >> pure (failure misconfigured message))

  -- `except DatabaseError` behind the `with` block; other exceptions pass.
  unfoldable pub read_failed : ParsedQuery Node → String → Exn → Act C QueryResult
  read_failed parsed wrapped (database_error e) =
      let reason = classify_db_error e in
      audit_safely env (record (base_fields req env.now) {
        rejection_reason = reason_value reason;
        normalized_sql = parsed.normalized_sql;
        wrapped_sql = wrapped;
        duration_ms = some duration;
        error = e.message;
      })
      >> pure (record (failure reason e.message) { duration_ms = duration })
  read_failed parsed wrapped e = raise e

  -- From the fetched rows to the answer.
  unfoldable pub answer :
      ParsedQuery Node → String → List (List Value) × List String → Act C QueryResult
  answer parsed wrapped (raw_rows, columns) =
      let sql_limit = extract_limit env.ast parsed.ast in
      let limit = effective_limit env.default_limit env.hard_limit req.limit sql_limit in
      let by_count =
        not (user_constrained env.default_limit env.hard_limit req.limit sql_limit)
        && ltb limit (length raw_rows) in
      let (rows, result_bytes, by_bytes) = cap_rows env.bytes_limit (take limit raw_rows) in
      let truncated = by_count || by_bytes in
      audit_safely env (record (base_fields req env.now) {
        normalized_sql = parsed.normalized_sql;
        wrapped_sql = wrapped;
        duration_ms = some duration;
        row_count = some (length rows);
        truncated = truncated;
        result_bytes = some result_bytes;
      })
      >> pure (record default_result {
        columns = columns;
        rows = rows;
        row_count = length rows;
        truncated = truncated;
        duration_ms = duration;
        hint = if truncated then truncated_hint else "";
      })

  -- The hook, under `except Exception`, and then the read.
  unfoldable pub read_step : ParsedQuery Node → String → Act C QueryResult
  unfolding hook_failure read_failed answer read_rows call_hook checked_context
  read_step parsed wrapped =
      try_else (lift (Raise.◌>>=◌ (call_hook req.profile.session_context req.user) checked_context))
        (λ context.
          try_else (read_rows env req wrapped context) (answer parsed wrapped)
            (read_failed parsed wrapped))
        (hook_failure parsed wrapped)

  unfoldable pub alias_step : ParsedQuery Node → String → Act C QueryResult
  unfolding read_step
  alias_step parsed wrapped =
      let message =
        format ("connections['" ∷ env.db_alias ∷ "'] resolved to a different alias" ∷ []) in
      if str_eq (env.alias_of env.db_alias) env.db_alias
      then read_step parsed wrapped
      else audit_misconfig env req message >> raise (executor_misconfigured message)

  -- `except RecursionError` behind the serialisation of the wrapped query; other exceptions pass.
  unfoldable pub wrap_failed : ParsedQuery Node → Exn → Act C QueryResult
  wrap_failed parsed recursion_error =
      let message : String = "SQL nesting is too deep to serialize" in
      audit_safely env (record (base_fields req env.now) {
        decision = rejected;
        rejection_reason = reason_value parse_error;
        normalized_sql = parsed.normalized_sql;
        error = message;
      })
      >> pure (failure parse_error message)
  wrap_failed parsed e = raise e

  -- The answer to `limit=0`: nothing reaches the database.
  unfoldable pub metadata_only : ParsedQuery Node → Act C QueryResult
  metadata_only parsed =
      audit_safely env (record (base_fields req env.now) {
        normalized_sql = parsed.normalized_sql;
        duration_ms = some 0;
        row_count = some 0;
        result_bytes = some 0;
      })
      >> pure default_result

  unfoldable pub limit_step : ParsedQuery Node → Act C QueryResult
  unfolding metadata_only wrap_failed alias_step
  limit_step parsed =
      let limit =
        effective_limit env.default_limit env.hard_limit req.limit
          (extract_limit env.ast parsed.ast) in
      if limit == 0
      then metadata_only parsed
      else try_else (lift (env.ast.sql (inject_limit env.ast parsed.ast (limit + 1))))
          (alias_step parsed) (wrap_failed parsed)

  -- `except QueryRejectedError`; other exceptions pass.
  unfoldable pub rejected_by_parser : Exn → Act C QueryResult
  rejected_by_parser (query_rejected reason detail) =
      audit_safely env (record (base_fields req env.now) {
        decision = rejected;
        rejection_reason = reason_value reason;
        error = detail;
      })
      >> pure (failure reason detail)
  rejected_by_parser e = raise e

  unfoldable pub parse_step : List String → Act C QueryResult
  unfolding limit_step rejected_by_parser
  parse_step tables =
      try_else (lift (parse_and_validate env.ast req.raw_sql tables env.ban_select_star)) limit_step
        rejected_by_parser

  unfoldable pub run_query : Act C QueryResult
  unfolding parse_step
  run_query =
      let message =
        format
          ("MCP_READONLY_DATABASE_URL is not configured; " ∷ env.db_alias ∷ " alias absent" ∷ []) in
      if contains env.databases env.db_alias
      then (lift (declared_tables env.table_of req.profile)
          >>= (λ declared. parse_step (values declared)))
      else audit_misconfig env req message >> raise (executor_misconfigured message)
