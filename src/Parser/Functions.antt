-- ===== src/Parser/Functions.antt =====
-- parser.py: `_check_no_denied_functions` and `_check_no_bare_keyword_columns`.
pub mod Denied
use django_mcp_sql.Prelude.{
  String, ◌||◌, [], ◌∷◌, is_some, is_empty, contains, startswith, format, if◌then◌else◌,
}
use django_mcp_sql.Outcome.{disallowed_construct, disallowed_function}
use django_mcp_sql.Raise.{Try, returned, raised, query_rejected, for_each}
use django_mcp_sql.Ast.{Ast, Class}
use django_mcp_sql.Parser.DenyLists.{
  denied_functions_exact, denied_functions_prefix, denied_srf_functions, denied_bare_keywords,
}

-- `for prefix in DENIED_FUNCTIONS_PREFIX`
unfoldable pub check_prefix : String → String → Try (Unit {0})
check_prefix name prefix =
    if startswith name prefix
    then raised (
        query_rejected disallowed_function
          (format ("Function '" ∷ name ∷ "' (prefix '" ∷ prefix ∷ "*') is on the deny list" ∷ [])))
    else returned tt

-- The tests of a function's name.
unfoldable pub check_function_name : String → Try (Unit {0})
check_function_name name =
    if is_empty name
    then returned tt
    else if contains denied_srf_functions name
    then raised (
        query_rejected disallowed_construct (
          format (
            "Set-returning function '" ∷ name
            ∷ "' is not supported on the MCP surface; query a whitelisted table instead." ∷ [])))
    else if contains denied_functions_exact name
    then raised (
        query_rejected disallowed_function
          (format ("Function '" ∷ name ∷ "' is on the deny list" ∷ [])))
    else for_each denied_functions_prefix (check_prefix name)

module _ {Node : Type 0} (g : Ast Node) where
  -- `func.name if isinstance(func, exp.Anonymous) else func.sql_name()`, in lower case.
  pub function_name : Node → String
  function_name func =
      g.lower (if g.isinstance func Class.anonymous then g.name func else g.sql_name func)

  unfoldable pub check_function : Node → Try (Unit {0})
  unfolding check_function_name check_prefix
  check_function func =
      if g.isinstance func Class.generate_series || g.isinstance func Class.udtf
      then raised (
          query_rejected disallowed_construct
            "Set-returning / table functions (e.g. generate_series, unnest) are not supported on the MCP surface; query a whitelisted table instead.")
      else check_function_name (function_name func)

  unfoldable pub check_no_denied_functions : Node → Try (Unit {0})
  unfolding check_function function_name
  check_no_denied_functions ast = for_each (g.find_all ast Class.func) check_function

  unfoldable pub check_keyword : Node → Try (Unit {0})
  check_keyword col =
      if is_some (g.table_arg col)
      then returned tt
      else if contains denied_bare_keywords (g.lower (g.name col))
      then raised (
          query_rejected disallowed_function (
            format (
              "Built-in '"
              ∷ g.lower (g.name col)
              ∷ "' leaks server identity; the function-deny-list rejects both bare and parenthesised forms."
              ∷ [])))
      else returned tt

  unfoldable pub check_no_bare_keyword_columns : Node → Try (Unit {0})
  unfolding check_keyword
  check_no_bare_keyword_columns ast = for_each (g.find_all ast Class.column) check_keyword
