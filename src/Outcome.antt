-- ===== src/Outcome.antt =====
-- schemas.py: the closed vocabularies, the hints, the cells and the executor's result.
use django_mcp_sql.Prelude.{ℕ, String, Bool, false, List, []}
use django_mcp_sql.Prelude.Int.{ℤ}

pub data OutcomeReason : Type 0 where
  parse_error multi_statement non_select_root select_star disallowed_table : OutcomeReason
  disallowed_function disallowed_construct system_schema writeable_cte : OutcomeReason
  select_into execution_error timeout misconfigured : OutcomeReason

pub data AuthRejectionReason : Type 0 where
  bad_application bad_scope inactive_or_non_staff no_mfa no_perm : AuthRejectionReason
  ambiguous_profile no_session session_logout : AuthRejectionReason

pub data ToolName : Type 0 where
  run_query list_tables describe_table : ToolName

-- The value of a `StrEnum` member.
unfoldable pub reason_value : OutcomeReason → String
reason_value parse_error = "parse_error"
reason_value multi_statement = "multi_statement"
reason_value non_select_root = "non_select_root"
reason_value select_star = "select_star"
reason_value disallowed_table = "disallowed_table"
reason_value disallowed_function = "disallowed_function"
reason_value disallowed_construct = "disallowed_construct"
reason_value system_schema = "system_schema"
reason_value writeable_cte = "writeable_cte"
reason_value select_into = "select_into"
reason_value execution_error = "execution_error"
reason_value timeout = "timeout"
reason_value misconfigured = "misconfigured"

unfoldable pub tool_value : ToolName → String
tool_value run_query = "run_query"
tool_value list_tables = "list_tables"
tool_value describe_table = "describe_table"

-- `HINTS`: every reason has an entry.
pub hint_of : OutcomeReason → String
hint_of parse_error = "SQL did not parse. Submit a single Postgres-dialect SELECT statement."
hint_of multi_statement = "Only one statement per query. Submit them separately."
hint_of non_select_root =
    "Only SELECT (or a read-only CTE wrapping a SELECT) is allowed. DDL, DML, EXPLAIN, CALL, DO, and SELECT INTO are rejected."
hint_of select_star = "SELECT * is rejected. Enumerate the columns you need explicitly."
hint_of disallowed_table =
    "Query references a table that is not on the MCP whitelist. Use `list_tables` to see what is reachable."
hint_of disallowed_function =
    "Query uses a denied function (e.g. pg_read_file, dblink_*, lo_*, copy, current_setting). Those bypass the read-only contract."
hint_of system_schema =
    "Catalogs (pg_catalog, information_schema, pg_*) are off limits. Use `list_tables` to see what is reachable."
hint_of writeable_cte =
    "CTEs must be read-only. INSERT/UPDATE/DELETE inside a WITH clause is rejected even when the outer statement is a SELECT."
hint_of select_into = "SELECT INTO writes a new table. Use SELECT only."
hint_of disallowed_construct =
    "The SQL uses a construct that is not supported on the MCP surface. See `error` for the specific construct and the recommended alternative."
hint_of execution_error = "Postgres rejected the query at execution time. See `error` for detail."
hint_of timeout = "Statement exceeded the 5s timeout. Add filters or aggregate."
hint_of misconfigured =
    "The MCP read-only surface is misconfigured server-side. This is an operator issue, not a query issue. Notify the operators; retrying will not help until they fix it."

-- `HINTS["truncated"]`.
pub truncated_hint : String
truncated_hint =
    "Result truncated. Prefer aggregation (COUNT/GROUP BY/MAX/MIN) over pagination. For genuine result-set walking, use keyset pagination in your SQL: WHERE id > <last_seen_id> ORDER BY id LIMIT N. There is no OFFSET / FETCH / cursor / fetch_next; those are intentionally absent."

-- `Cell`: a value that JSON can hold. A float is given by its `repr`, which is what JSON prints.
pub data Cell : Type 0 where
  null : Cell
  bool : Bool → Cell
  int : ℤ → Cell
  float : String → Cell
  text : String → Cell

pub record QueryResult : Type 0 where
  pub columns : List String
  pub rows : List (List Cell)
  pub row_count : ℕ
  pub truncated : Bool
  pub duration_ms : ℕ
  pub hint : String
  pub rejection_reason : String
  pub error : String

-- `QueryResult()`: every field at its default.
abbrev pub default_result : QueryResult
default_result = record {
  columns = [];
  rows = [];
  row_count = 0;
  truncated = false;
  duration_ms = 0;
  hint = "";
  rejection_reason = "";
  error = "";
}
