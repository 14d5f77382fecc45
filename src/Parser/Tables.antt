-- ===== src/Parser/Tables.antt =====
-- parser.py: `_check_tables`, the whitelist.
pub mod Whitelist
pub mod Touched
use django_mcp_sql.Prelude.{
  String, ◌&&◌, ◌||◌, List, [], ◌∷◌, map, is_empty, contains, add, startswith, format,
  if◌then◌else◌,
}
use django_mcp_sql.Outcome.{disallowed_construct, disallowed_table, system_schema}
use django_mcp_sql.Raise.{Try, returned, raised, query_rejected, ◌>>=◌}
use django_mcp_sql.Ast.{Ast, Class}
use django_mcp_sql.Parser.DenyLists.{system_schemas}
use django_mcp_sql.Parser.Scope.{resolves_to_cte}

module _ {Node : Type 0} (g : Ast Node) where
  -- The body of the loop: the set of touched tables, with this table if it is no CTE reference.
  unfoldable pub check_table : List String → Node → List String → Try (List String)
  check_table allowed_lower table referenced =
      let schema = g.lower (g.db table) in
      let name = g.lower (g.name table) in
      if is_empty name
      then raised (
          query_rejected disallowed_construct
            "Table-valued functions in FROM (e.g. generate_series, unnest, dblink, json_to_recordset) are not supported on the MCP surface; query a whitelisted table instead.")
      else if contains system_schemas schema || startswith schema "pg_"
      then raised
          (query_rejected system_schema (format ("Schema '" ∷ schema ∷ "' is off limits" ∷ [])))
      else if is_empty schema && startswith name "pg_"
      then raised (
          query_rejected system_schema
            (format ("Table '" ∷ name ∷ "' is in the pg_* namespace" ∷ [])))
      else if resolves_to_cte g table name
      then returned referenced
      else if contains allowed_lower name
      then returned (add name referenced)
      else raised (
          query_rejected disallowed_table
            (format ("Table '" ∷ name ∷ "' is not on the MCP whitelist" ∷ [])))

  unfoldable pub tables_loop : List String → List Node → List String → Try (List String)
  tables_loop allowed_lower [] referenced = returned referenced
  tables_loop allowed_lower (t ∷ ts) referenced =
      check_table allowed_lower t referenced >>= tables_loop allowed_lower ts

  unfoldable pub check_tables : Node → List String → Try (List String)
  unfolding tables_loop check_table
  check_tables ast allowed_tables =
      tables_loop (map g.lower allowed_tables) (g.find_all ast Class.table) []
