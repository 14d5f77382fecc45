-- ===== src/Parser/Shape/Queries.antt =====
-- parser.py: what the checks on the shape of a query let pass.
use django_mcp_sql.Prelude.{
  ◌≡◌, refl, sym, ap, ◌∙◌, ◌↔◌, inl, inr, true, false, none, Bool-cases, Option-cases, List, [],
  ◌∷◌, All,
}
use django_mcp_sql.Raise.{returned, for_each_iff}
use django_mcp_sql.Ast.{Ast, Class, IsSqlglot, first}
use django_mcp_sql.Parser.Shape.{
  check_cte, check_ctes_read_only, check_with, check_no_recursive_cte, check_into,
  check_no_select_into, check_no_offset, check_no_fetch, check_no_locking_reads,
}

first-eq-none {ℓ} : {A : Type ℓ} (xs : List A) → first xs ≡ none → xs ≡ []
first-eq-none [] h = refl
first-eq-none (x ∷ xs) h = cc

module _ {Node : Type 0} (g : Ast Node) where
  check_cte_iff :
      (c : Node) → (check_cte g c ≡ returned tt) ↔ (g.isinstance (g.this c) Class.query ≡ true)
  unfolding check_cte
  check_cte_iff c = elim (Bool-cases (g.isinstance (g.this c) Class.query)) [
    | inl q ↦ (λ h. q, λ h. rw q)
    | inr n ↦ (λ h. cc (rw n at h), λ h. cc)
  ]

  pub check_ctes_read_only_iff :
      (ast : Node)
      → (check_ctes_read_only g ast ≡ returned tt)
        ↔ All (λ c. g.isinstance (g.this c) Class.query ≡ true) (g.find_all ast Class.cte)
  unfolding check_ctes_read_only
  check_ctes_read_only_iff ast = for_each_iff (check_cte g) check_cte_iff (g.find_all ast Class.cte)

  check_with_iff : (w : Node) → (check_with g w ≡ returned tt) ↔ (g.recursive_arg w ≡ false)
  unfolding check_with
  check_with_iff w = elim (Bool-cases (g.recursive_arg w)) [
    | inl r ↦ (λ h. cc (rw r at h), λ h. cc)
    | inr n ↦ (λ h. n, λ h. rw n)
  ]

  pub check_no_recursive_cte_iff :
      (ast : Node)
      → (check_no_recursive_cte g ast ≡ returned tt)
        ↔ All (λ w. g.recursive_arg w ≡ false) (g.find_all ast Class.with_clause)
  unfolding check_no_recursive_cte
  check_no_recursive_cte_iff ast =
      for_each_iff (check_with g) check_with_iff (g.find_all ast Class.with_clause)

  check_into_iff : (s : Node) → (check_into g s ≡ returned tt) ↔ (g.into_arg s ≡ none)
  unfolding check_into
  check_into_iff s = elim (Option-cases (g.into_arg s)) [
    | inl n ↦ (λ h. n, λ h. rw n)
    | inr (t, e) ↦ (λ h. cc (rw e at h), λ h. cc)
  ]

  pub check_no_select_into_iff :
      (ast : Node)
      → (check_no_select_into g ast ≡ returned tt)
        ↔ All (λ s. g.into_arg s ≡ none) (g.find_all ast Class.select)
  unfolding check_no_select_into
  check_no_select_into_iff ast =
      for_each_iff (check_into g) check_into_iff (g.find_all ast Class.select)

  -- A search that finds nothing, as `find` and `find_all` see it.
  find-eq-none :
      (t : IsSqlglot g) (ast : Node) (c : Class) → (g.find ast c ≡ none) ↔ (g.find_all ast c ≡ [])
  find-eq-none t ast c = (
    λ h. first-eq-none (g.find_all ast c) (sym (t.find_first ast c) ∙ h),
    λ h. t.find_first ast c ∙ ap first h,
  )

  module _ (t : IsSqlglot g) (ast : Node) where
    pub check_no_offset_iff :
        (check_no_offset g ast ≡ returned tt) ↔ (g.find_all ast Class.offset ≡ [])
    unfolding check_no_offset
    check_no_offset_iff = elim (Option-cases (g.find ast Class.offset)) [
      | inl n ↦ (λ h. (find-eq-none t ast Class.offset).0 n, λ h. rw n)
      | inr (x, e) ↦ (λ h. cc (rw e at h), λ h. cc ((find-eq-none t ast Class.offset).1 h))
    ]

    pub check_no_fetch_iff :
        (check_no_fetch g ast ≡ returned tt) ↔ (g.find_all ast Class.fetch ≡ [])
    unfolding check_no_fetch
    check_no_fetch_iff = elim (Option-cases (g.find ast Class.fetch)) [
      | inl n ↦ (λ h. (find-eq-none t ast Class.fetch).0 n, λ h. rw n)
      | inr (x, e) ↦ (λ h. cc (rw e at h), λ h. cc ((find-eq-none t ast Class.fetch).1 h))
    ]

    pub check_no_locking_reads_iff :
        (check_no_locking_reads g ast ≡ returned tt) ↔ (g.find_all ast Class.lock ≡ [])
    unfolding check_no_locking_reads
    check_no_locking_reads_iff = elim (Option-cases (g.find ast Class.lock)) [
      | inl n ↦ (λ h. (find-eq-none t ast Class.lock).0 n, λ h. rw n)
      | inr (x, e) ↦ (λ h. cc (rw e at h), λ h. cc ((find-eq-none t ast Class.lock).1 h))
    ]
