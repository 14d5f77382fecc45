-- ===== src/Parser/Stars/Projection.antt =====
-- parser.py: `_check_no_select_star` against the position of a star in the tree, and
-- `_check_no_whole_row_refs` against the aliases of the tables.
use django_mcp_sql.Prelude.{
  ℕ, zero, suc, ◌<◌, ◌≡◌, refl, ◌↔◌, inl, inr, true, false, none, some, Bool-cases, Option-cases,
  arith, All,
}
use django_mcp_sql.Raise.{returned, for_each_iff}
use django_mcp_sql.Ast.{Ast, Class, IsSqlglot}
use django_mcp_sql.Parser.Stars.{star_loop, check_star, check_no_select_star}

module _ {Node : Type 0} (g : Ast Node) where
  -- Going up from a node, itself included, a `Select` comes before any `Count`.
  pub data FirstIsSelect : Node → Type 0 where
    at :
        {n : Node}
        → g.isinstance n Class.count ≡ false
        → g.isinstance n Class.select ≡ true
        → FirstIsSelect n
    above :
        {n p : Node}
        → g.isinstance n Class.count ≡ false
        → g.isinstance n Class.select ≡ false
        → g.parent n ≡ some p
        → FirstIsSelect p
        → FirstIsSelect n

  -- The star stands in a projection, and in no `COUNT` below it.
  abbrev pub InProjection : Node → Type 0
  InProjection star = (p : Node) × (g.parent star ≡ some p) × FirstIsSelect p

  star_loop-none : (f : ℕ) (star : Node) → star_loop g f star none ≡ returned tt
  unfolding star_loop
  star_loop-none zero star = refl
  star_loop-none (suc f) star = refl

  -- With enough fuel the loop raises exactly at such a star.
  star_loop_sound :
      (t : IsSqlglot g) (f : ℕ) (star n : Node)
      → g.depth n < f
      → star_loop g f star (some n) ≡ returned tt
      → ¬ FirstIsSelect n
  unfolding star_loop
  star_loop_sound t zero star n d h s = elim d [ ]
  star_loop_sound t (suc f) star n d h (at c s) = cc (rw (c, s) at h)
  star_loop_sound t (suc f) star n d h (above {p} c s e w) =
      star_loop_sound t f star p (omega (arith, t.parent_above n p e)) (rw (c, s, e) at h) w

  star_loop_complete :
      (f : ℕ) (star n : Node) → ¬ FirstIsSelect n → star_loop g f star (some n) ≡ returned tt
  unfolding star_loop
  star_loop_complete zero star n h = refl
  star_loop_complete (suc f) star n h = elim (Bool-cases (g.isinstance n Class.count)) [
    | inl counted ↦ rw counted
    | inr c ↦ elim (Bool-cases (g.isinstance n Class.select)) [
      | inl s ↦ absurd (h (at c s))
      | inr s ↦ elim (Option-cases (g.parent n)) [
        | inl top ↦ rw (c, s, top) (star_loop-none f star)
        | inr (p, e) ↦ rw (c, s, e) (star_loop_complete f star p (λ w. h (above c s e w)))
      ]
    ]
  ]

  check_star_iff :
      (t : IsSqlglot g) (star : Node) → (check_star g star ≡ returned tt) ↔ ¬ InProjection star
  unfolding check_star
  check_star_iff t star = elim (Option-cases (g.parent star)) [
    | inl top ↦ (λ h (p, e, w). cc (top, e), λ h. rw top (star_loop-none (g.depth star) star))
    | inr (p, e) ↦ (
      λ h (q, e', w).
          star_loop_sound t (g.depth star) star q (t.parent_above star q e') (rw e' at h) w,
      λ h. rw e (star_loop_complete (g.depth star) star p (λ w. h (p, e, w))),
    )
  ]

  -- The check passes exactly if no star is projected: on its way up to the root, each meets a call of
  -- COUNT before any SELECT, or meets neither.
  pub check_no_select_star_iff :
      (t : IsSqlglot g) (ast : Node)
      → (check_no_select_star g ast ≡ returned tt)
        ↔ All (λ s. ¬ InProjection s) (g.find_all ast Class.star)
  unfolding check_no_select_star
  check_no_select_star_iff t ast =
      for_each_iff (check_star g) (check_star_iff t) (g.find_all ast Class.star)
