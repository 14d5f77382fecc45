-- ===== src/Parser/Scope/Lexical.antt =====
-- parser.py: `_resolves_to_cte` against the CTEs of the queries around a table.
use django_mcp_sql.Prelude.{
  ℕ, zero, suc, ◌<◌, String, ◌≡◌, refl, ◌≢◌, ◌↔◌, inl, inr, true, false, none, some, any, Any,
  any_iff, eq_iff, Bool-cases, Option-cases, arith,
}
use django_mcp_sql.Ast.{Ast, IsSqlglot}
use django_mcp_sql.Parser.Scope.{defines, cte_above, resolves_to_cte}

module _ {Node : Type 0} (g : Ast Node) where
  -- `a` is a proper ancestor of the node.
  pub data Above : Node → Node → Type 0 where
    parent : {n a : Node} → g.parent n ≡ some a → Above n a
    up : {n p a : Node} → g.parent n ≡ some p → Above p a → Above n a

  -- The CTE has an alias, which is `name` in lower case.
  pub record Names (name : String) (c : Node) : Type 0 where
    pub aliased : g.alias c ≢ ""
    pub lowered : g.lower (g.alias c) ≡ name

  -- A query around the table has a CTE of that name among its own. This is wider than the scope of the CTE:
  -- it holds of a table with a schema, and of a table in the body of the CTE itself or of an earlier one.
  abbrev pub IsNamedAbove : Node → String → Type 0
  IsNamedAbove table name = (a : Node) × Above table a × Any (Names name) (g.ctes a)

  pub defines_iff : (name : String) (c : Node) → (defines g name c ≡ true) ↔ Names name c
  unfolding defines
  defines_iff name c = (
    λ h. record {
      aliased = ground (arith, eq_iff (g.alias c) "");
      lowered = ground (arith, eq_iff (g.lower (g.alias c)) name);
    },
    λ n.
        ground
          (arith, n.aliased, n.lowered, eq_iff (g.alias c) "", eq_iff (g.lower (g.alias c)) name),
  )

  -- What the loop finds from a node on: in it, or above it.
  data Found (name : String) : Node → Type 0 where
    at : {n : Node} → Any (Names name) (g.ctes n) → Found name n
    above : {n p : Node} → g.parent n ≡ some p → Found name p → Found name n

  Found-IsNamedAbove :
      {name : String} {p : Node}
      → Found name p
      → (n : Node) → g.parent n ≡ some p
      → (a : Node) × Above n a × Any (Names name) (g.ctes a)
  Found-IsNamedAbove (at {n = p} m) n e = (p, parent e, m)
  Found-IsNamedAbove (above {n = p} e' f) n e =
      let (a, w, m) = Found-IsNamedAbove f p e' in (a, up e w, m)

  IsNamedAbove-Found :
      {name : String} {n a : Node}
      → Above n a
      → Any (Names name) (g.ctes a)
      → (p : Node) × (g.parent n ≡ some p) × Found name p
  IsNamedAbove-Found (parent {a} e) m = (a, e, at m)
  IsNamedAbove-Found (up {p} e w) m = let (q, e', f) = IsNamedAbove-Found w m in (p, e, above e' f)

  cte_above-none : (f : ℕ) (name : String) → cte_above g f none name ≡ false
  unfolding cte_above
  cte_above-none zero name = refl
  cte_above-none (suc f) name = refl

  cte_above_sound :
      (f : ℕ) (n : Node) (name : String) → cte_above g f (some n) name ≡ true → Found name n
  unfolding cte_above
  cte_above_sound zero n name h = cc
  cte_above_sound (suc f) n name h = elim (Bool-cases (any (defines g name) (g.ctes n))) [
    | inl here_ ↦ at ((any_iff (defines g name) (defines_iff name) (g.ctes n)).0 here_)
    | inr missing ↦ elim (Option-cases (g.parent n)) [
      | inl top ↦ cc (cte_above-none f name, rw (missing, top) at h)
      | inr (p, e) ↦ above e (cte_above_sound f p name (rw (missing, e) at h))
    ]
  ]

  cte_above_complete :
      (t : IsSqlglot g) (f : ℕ) (n : Node) (name : String)
      → g.depth n < f
      → Found name n
      → cte_above g f (some n) name ≡ true
  unfolding cte_above
  cte_above_complete t zero n name d h = elim d [ ]
  cte_above_complete t (suc f) n name d (at m) =
      rw ((any_iff (defines g name) (defines_iff name) (g.ctes n)).1 m)
  cte_above_complete t (suc f) n name d (above {p} e h) =
      let ih = cte_above_complete t f p name (omega (arith, t.parent_above n p e)) h in ground arith

-- A table's name is taken for a CTE exactly if a query around the table, and no other, defines one of
-- that name, whatever the case of its letters; the walk to the root is never cut short.
pub resolves_to_cte_iff :
    {Node : Type 0} (g : Ast Node)
    → IsSqlglot g
    → (table : Node) (name : String)
    → (resolves_to_cte g table name ≡ true) ↔ IsNamedAbove g table name
unfolding resolves_to_cte
resolves_to_cte_iff g t table name = elim (Option-cases (g.parent table)) [
  | inl top ↦ (
    λ h. cc (cte_above-none g (g.depth table) name, rw top at h),
    λ (a, w, m). let (p, e, f) = IsNamedAbove-Found g w m in cc (top, e),
  )
  | inr (p, e) ↦ (
    λ h. Found-IsNamedAbove g (cte_above_sound g (g.depth table) p name (rw e at h)) table e,
    λ (a, w, m).
        let (q, e', f) = IsNamedAbove-Found g w m in
        rw e' (cte_above_complete g t (g.depth table) q name (t.parent_above table q e') f),
  )
]
