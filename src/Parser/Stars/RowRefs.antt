-- ===== src/Parser/Stars/RowRefs.antt =====
-- parser.py: `_check_no_whole_row_refs` against the aliases of the tables.
use django_mcp_sql.Prelude.{
  String, ◌≡◌, refl, ◌≢◌, ◌↔◌, inl, inr, true, none, Any, is_empty, str_eq, eq_iff, Bool-cases,
  Option-cases, arith, List, [], ◌∷◌, All, All-intro, All-map, contains, contains-add,
}
use django_mcp_sql.Raise.{returned, for_each_iff}
use django_mcp_sql.Ast.{Ast, Class}
use django_mcp_sql.Parser.Stars.{
  table_aliases, check_row_ref, check_projection, check_projections, check_aliases,
  check_no_whole_row_refs,
}

module _ {Node : Type 0} (g : Ast Node) where
  -- A table of the query goes by this name: its alias, or its own name, in lower case.
  pub record GoesBy (name : String) (table : Node) : Type 0 where
    pub labelled : g.lower (g.alias_or_name table) ≢ ""
    pub lowered : g.lower (g.alias_or_name table) ≡ name

  -- The column has no qualifier and its name is that of a row.
  pub record IsRowRef (ast col : Node) : Type 0 where
    pub bare : g.table_arg col ≡ none
    pub named : Any (GoesBy (g.lower (g.name col))) (g.find_all ast Class.table)

  table_aliases_sound :
      (name : String) (ts : List Node)
      → contains (table_aliases g ts) name ≡ true
      → Any (GoesBy name) ts
  unfolding table_aliases contains
  table_aliases_sound name [] h = cc
  table_aliases_sound name (t ∷ ts) h = elim (Bool-cases (is_empty (g.lower (g.alias_or_name t)))) [
    | inl e ↦ Any.there (table_aliases_sound name ts (rw e at h))
    | inr l ↦ elim (Bool-cases (str_eq (g.lower (g.alias_or_name t)) name)) [
      | inl now ↦ Any.here (record {
        labelled = ground (arith, eq_iff (g.lower (g.alias_or_name t)) "");
        lowered = (eq_iff _ _).0 now;
      })
      | inr other ↦ Any.there (
          table_aliases_sound name ts
            (ground (arith, contains-add (g.lower (g.alias_or_name t)) (table_aliases g ts) name)))
    ]
  ]

  table_aliases_complete :
      (name : String) (ts : List Node)
      → Any (GoesBy name) ts
      → contains (table_aliases g ts) name ≡ true
  unfolding table_aliases
  table_aliases_complete name [] m = elim m [ ]
  table_aliases_complete name (t ∷ ts) (Any.here b) = ground (
    arith,
    b.labelled,
    b.lowered,
    eq_iff (g.lower (g.alias_or_name t)) "",
    eq_iff (g.lower (g.alias_or_name t)) name,
    contains-add (g.lower (g.alias_or_name t)) (table_aliases g ts) name,
  )
  table_aliases_complete name (t ∷ ts) (Any.there m) = ground (
    arith,
    table_aliases_complete name ts m,
    contains-add (g.lower (g.alias_or_name t)) (table_aliases g ts) name,
  )

  -- A reference to one of the aliases.
  abbrev RefTo : List String → Node → Type 0
  RefTo aliases col = (g.table_arg col ≡ none) × (contains aliases (g.lower (g.name col)) ≡ true)

  check_row_ref_iff :
      (aliases : List String) (col : Node)
      → (check_row_ref g aliases col ≡ returned tt) ↔ ¬ RefTo aliases col
  unfolding check_row_ref
  check_row_ref_iff aliases col = elim (Option-cases (g.table_arg col)) [
    | inr (q, e) ↦ (λ h r. cc (r.0, e), λ h. rw e)
    | inl e ↦ elim (Bool-cases (contains aliases (g.lower (g.name col)))) [
      | inl m ↦ (λ h r. cc (rw (e, m) at h), λ h. absurd (h (e, m)))
      | inr m ↦ (λ h r. cc (r.1, m), λ h. rw (e, m))
    ]
  ]

  -- Of every projection of every select, every column.
  abbrev pub ProjectedColumns {ℓ} : (Node → Type ℓ) → Node → Type ℓ
  ProjectedColumns P ast =
      All (λ sel. All (λ p. All P (g.find_all p Class.column)) (g.expressions sel))
        (g.find_all ast Class.select)

  check_aliases_iff :
      (aliases : List String) (ast : Node)
      → (check_aliases g aliases ast ≡ returned tt) ↔ ProjectedColumns (λ c. ¬ RefTo aliases c) ast
  unfolding check_aliases contains
  check_aliases_iff [] ast =
      (λ h. All-intro (λ sel. All-intro (λ p. All-intro (λ c r. cc (r.1)) _) _) _, λ h. refl)
  check_aliases_iff (a ∷ rest) ast =
      unfold check_projections check_projection in
      for_each_iff (check_projections g (a ∷ rest))
        (λ sel.
          for_each_iff (check_projection g (a ∷ rest))
            (λ p.
              for_each_iff (check_row_ref g (a ∷ rest)) (check_row_ref_iff (a ∷ rest))
                (g.find_all p Class.column))
            (g.expressions sel))
        (g.find_all ast Class.select)

  RefTo-IsRowRef :
      (ast col : Node) → RefTo (table_aliases g (g.find_all ast Class.table)) col → IsRowRef ast col
  RefTo-IsRowRef ast col r = record {
    bare = r.0;
    named = table_aliases_sound (g.lower (g.name col)) _ r.1;
  }

  IsRowRef-RefTo :
      (ast col : Node) → IsRowRef ast col → RefTo (table_aliases g (g.find_all ast Class.table)) col
  IsRowRef-RefTo ast col r = (r.bare, table_aliases_complete (g.lower (g.name col)) _ r.named)

  ProjectedColumns-map :
      {P Q : Node → Type 0} (f : (c : Node) → P c → Q c) (ast : Node)
      → ProjectedColumns P ast
      → ProjectedColumns Q ast
  ProjectedColumns-map f ast =
      All-map (λ sel. All-map (λ p. All-map f (g.find_all p Class.column)) (g.expressions sel))
        (g.find_all ast Class.select)

  -- The check passes exactly if no projected column, at any depth of a projection, is such a reference.
  pub check_no_whole_row_refs_iff :
      (ast : Node)
      → (check_no_whole_row_refs g ast ≡ returned tt) ↔ ProjectedColumns (λ c. ¬ IsRowRef ast c) ast
  unfolding check_no_whole_row_refs
  check_no_whole_row_refs_iff ast =
      let aliases = table_aliases g (g.find_all ast Class.table) in
      (
        λ h.
            ProjectedColumns-map (λ c n r. n (IsRowRef-RefTo ast c r)) ast
              ((check_aliases_iff aliases ast).0 h),
        λ h.
            (check_aliases_iff aliases ast).1
              (ProjectedColumns-map (λ c n r. n (RefTo-IsRowRef ast c r)) ast h),
      )
