-- ===== src/Parser/Validate.antt =====
-- parser.py: `parse_and_validate`, the only entry point of the checks.
pub mod Accepts
pub mod Reasons
pub mod Run
pub mod Escapes
pub mod Order
use django_mcp_sql.Prelude.{
  String, Bool, Option, none, some, List, [], ◌∷◌, length, show, format, if◌then◌else◌,
}
use django_mcp_sql.Outcome.{parse_error, multi_statement, non_select_root}
use django_mcp_sql.Raise.{
  parse_failure, recursion_error, query_rejected, Try, returned, raised, ◌>>=◌, ◌>>◌,
}
use django_mcp_sql.Ast.{Ast, Class}
use django_mcp_sql.Parser.Shape.{
  check_ctes_read_only, check_no_recursive_cte, check_no_select_into, check_no_offset,
  check_no_fetch, check_no_locking_reads,
}
use django_mcp_sql.Parser.Tables.{check_tables}
use django_mcp_sql.Parser.Functions.{check_no_denied_functions, check_no_bare_keyword_columns}
use django_mcp_sql.Parser.Stars.{check_no_select_star, check_no_whole_row_refs}

pub record ParsedQuery (Node : Type 0) : Type 0 where
  pub ast : Node
  pub normalized_sql : String
  pub referenced_tables : List String

-- The `except` clauses behind `sqlglot.parse`; other exceptions pass.
unfoldable pub parse_caught {ℓ} : {A : Type ℓ} → Try A → Try A
parse_caught (returned a) = returned a
parse_caught (raised (parse_failure m)) = raised (query_rejected parse_error m)
parse_caught (raised recursion_error) =
    raised (query_rejected parse_error "SQL nesting is too deep to parse")
parse_caught (raised e) = raised e

-- The `except` clause behind `ast.sql`; other exceptions pass.
unfoldable pub serialize_caught {ℓ} : {A : Type ℓ} → Try A → Try A
serialize_caught (raised recursion_error) =
    raised (query_rejected parse_error "SQL nesting is too deep to serialize")
serialize_caught r = r

unfoldable pub single_statement {ℓ} : {A : Type ℓ} → List A → Try A
single_statement [] = raised (query_rejected parse_error "Empty SQL input")
single_statement (s ∷ []) = returned s
single_statement (s ∷ t ∷ rest) = raised (
    query_rejected multi_statement
      (format ("Got " ∷ show (length (s ∷ t ∷ rest)) ∷ " statements; only one is allowed" ∷ [])))

module _ {Node : Type 0} (g : Ast Node) where
  -- What is left of the parsed list without `None` and without semicolons.
  unfoldable pub statements : List (Option Node) → List Node
  statements [] = []
  statements (none ∷ rest) = statements rest
  statements (some p ∷ rest) =
      let kept = statements rest in if g.isinstance p Class.semicolon then kept else p ∷ kept

  unfoldable pub require_query : Node → Try (Unit {0})
  require_query ast =
      if g.isinstance ast Class.query
      then returned tt
      else raised (
          query_rejected non_select_root
            (format ("Root is " ∷ g.type_name ast ∷ ", not a SELECT-shaped query" ∷ [])))

  -- `if ban_select_star: ...`
  unfoldable pub ergonomic_checks : Bool → Node → Try (Unit {0})
  ergonomic_checks ban ast =
      if ban then check_no_select_star g ast >> check_no_whole_row_refs g ast else returned tt

  -- The checks that stand before the whitelist, in the order of the code.
  unfoldable pub shape_checks : Node → Try (Unit {0})
  shape_checks ast = do
    check_ctes_read_only g ast
    check_no_recursive_cte g ast
    check_no_select_into g ast
    check_no_offset g ast
    check_no_fetch g ast
    check_no_locking_reads g ast

  -- The checks that stand behind it.
  unfoldable pub name_checks : Bool → Node → Try (Unit {0})
  unfolding ergonomic_checks
  name_checks ban ast = do
    check_no_denied_functions g ast
    check_no_bare_keyword_columns g ast
    ergonomic_checks ban ast

  unfoldable pub parse_and_validate : String → List String → Bool → Try (ParsedQuery Node)
  parse_and_validate raw_sql allowed_tables ban_select_star = do
    parsed ← parse_caught (g.parse raw_sql)
    ast ← single_statement (statements parsed)
    require_query ast
    shape_checks ast
    referenced ← check_tables g ast allowed_tables
    name_checks ban_select_star ast
    normalized ← serialize_caught (g.normalized ast)
    returned (record { ast = ast; normalized_sql = normalized; referenced_tables = referenced })
