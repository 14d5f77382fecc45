-- ===== src/Parser/Scope.antt =====
-- parser.py: `_resolves_to_cte`, which looks for a CTE of a name in the queries around a table.
pub mod Lexical
use django_mcp_sql.Prelude.{
  ℕ, zero, suc, String, Bool, true, false, ◌&&◌, not, Option, none, some, any, is_empty, str_eq,
  if◌then◌else◌,
}
use django_mcp_sql.Ast.{Ast}

module _ {Node : Type 0} (g : Ast Node) where
  -- `cte.alias and cte.alias.lower() == name`
  pub defines : String → Node → Bool
  defines name c = not (is_empty (g.alias c)) && str_eq (g.lower (g.alias c)) name

  -- `while node is not None`, on fuel.
  pub cte_above : ℕ → Option Node → String → Bool
  cte_above zero current name = false
  cte_above (suc f) none name = false
  cte_above (suc f) (some n) name =
      let rest = cte_above f (g.parent n) name in
      if any (defines name) (g.ctes n) then true else rest

  -- A node has as many proper ancestors as its depth, so that many rounds are enough.
  unfoldable pub resolves_to_cte : Node → String → Bool
  unfolding cte_above defines
  resolves_to_cte table name = cte_above (g.depth table) (g.parent table) name
