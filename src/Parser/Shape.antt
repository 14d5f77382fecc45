-- ===== src/Parser/Shape.antt =====
-- parser.py: the checks on the shape of the query (CTEs, INTO, OFFSET, FETCH, locking reads).
pub mod Queries
use django_mcp_sql.Prelude.{[], ◌∷◌, is_some, is_empty, format, if◌then◌else◌}
use django_mcp_sql.Outcome.{disallowed_construct, select_into, writeable_cte}
use django_mcp_sql.Raise.{Try, returned, raised, query_rejected, for_each}
use django_mcp_sql.Ast.{Ast, Class}

module _ {Node : Type 0} (g : Ast Node) where
  unfoldable pub check_cte : Node → Try (Unit {0})
  check_cte c =
      if g.isinstance (g.this c) Class.query
      then returned tt
      else raised (
          query_rejected writeable_cte (
            format (
              "CTE '"
              ∷ (if is_empty (g.alias c) then "<unnamed>" else g.alias c)
              ∷ "' body is "
              ∷ g.type_name (g.this c)
              ∷ "; INSERT/UPDATE/DELETE inside WITH is not allowed"
              ∷ [])))

  unfoldable pub check_ctes_read_only : Node → Try (Unit {0})
  unfolding check_cte
  check_ctes_read_only ast = for_each (g.find_all ast Class.cte) check_cte

  unfoldable pub check_with : Node → Try (Unit {0})
  check_with w =
      if g.recursive_arg w
      then raised (
          query_rejected disallowed_construct
            "WITH RECURSIVE is not supported on the MCP surface. Use iterative aggregation (GROUP BY, window functions) or escalate to operators.")
      else returned tt

  unfoldable pub check_no_recursive_cte : Node → Try (Unit {0})
  unfolding check_with
  check_no_recursive_cte ast = for_each (g.find_all ast Class.with_clause) check_with

  unfoldable pub check_into : Node → Try (Unit {0})
  check_into sel =
      if is_some (g.into_arg sel)
      then raised (query_rejected select_into "SELECT INTO writes a new table and is not allowed")
      else returned tt

  unfoldable pub check_no_select_into : Node → Try (Unit {0})
  unfolding check_into
  check_no_select_into ast = for_each (g.find_all ast Class.select) check_into

  unfoldable pub check_no_offset : Node → Try (Unit {0})
  check_no_offset ast =
      if is_some (g.find ast Class.offset)
      then raised (
          query_rejected disallowed_construct
            "OFFSET is not supported. Use keyset pagination (WHERE id > <last_seen_id> ORDER BY id LIMIT N) instead.")
      else returned tt

  unfoldable pub check_no_fetch : Node → Try (Unit {0})
  check_no_fetch ast =
      if is_some (g.find ast Class.fetch)
      then raised (
          query_rejected disallowed_construct
            "FETCH FIRST/NEXT ROWS is not supported. Use LIMIT N instead; the server clamps it to the configured cap.")
      else returned tt

  unfoldable pub check_no_locking_reads : Node → Try (Unit {0})
  check_no_locking_reads ast =
      if is_some (g.find ast Class.lock)
      then raised (
          query_rejected disallowed_construct
            "Locking reads (FOR UPDATE / FOR SHARE) are not supported on the read-only MCP surface.")
      else returned tt
