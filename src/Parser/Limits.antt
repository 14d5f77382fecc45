-- ===== src/Parser/Limits.antt =====
-- parser.py: `inject_limit` and `extract_limit`.
use django_mcp_sql.Prelude.{ℕ, Option, none, some, if◌then◌else◌}
use django_mcp_sql.Prelude.Int.{ℤ}
use django_mcp_sql.Ast.{Ast, Class}

module _ {Node : Type 0} (g : Ast Node) where
  unfoldable pub inject_limit : Node → ℕ → Node
  inject_limit ast n = g.limit ast n

  literal_value : Option Node → Option ℤ
  literal_value none = none
  literal_value (some expr) = if g.isinstance expr Class.literal then g.int_value expr else none

  limit_value : Option Node → Option ℤ
  limit_value none = none
  limit_value (some limit_node) = literal_value (g.expression limit_node)

  unfoldable pub extract_limit : Node → Option ℤ
  unfolding limit_value literal_value
  extract_limit ast =
      limit_value (g.limit_arg (if g.isinstance ast Class.with_clause then g.this ast else ast))
