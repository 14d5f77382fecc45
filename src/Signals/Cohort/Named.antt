-- ===== src/Signals/Cohort/Named.antt =====
-- signals.py: the profiles that a page names.
use django_mcp_sql.Prelude.{
  ℕ, String, ◌≡◌, refl, sym, ap, ◌∙◌, ◌↔◌, inl, inr, true, false, Option, none, some, List, [], ◌∷◌,
  any, Any, here, there, any_complete, Any-map, contains, contains_iff, ◌==◌, ==_iff, Bool-cases,
}
use django_mcp_sql.Dict.{get}
use django_mcp_sql.Grants.Sets.{sorted, contains-sorted}
use django_mcp_sql.Signals.Cohort.{
  Cohort, name_to_profile, with_profile, pks_of, mcp_group_pks, profile_of, profile_names,
}
use django_mcp_sql.Signals.Cohort.Declared.{Declares, clash, name_to_profile_iff}

-- No two groups have one key.
unfoldable pub IsKeyed : List (ℕ × String) → Type 0
IsKeyed [] = Unit {0}
IsKeyed ((k, name) ∷ rest) = (any (λ (g : ℕ × String). g.0 == k) rest ≡ false) × IsKeyed rest

-- The user is in a group of the profile with this name.
pub IsIn : Cohort → List ℕ → String → Type 0
IsIn c found name =
    Any (λ (k : ℕ). Any (λ (g : ℕ × String). (g.0 ≡ k) × Declares g.1 name c.profiles) c.groups)
      found

module _ (names : List (String × String)) (name : String) where
  profile_of_sound :
      (groups : List (ℕ × String)) (k : ℕ)
      → profile_of (pks_of names groups) k ≡ some name
      → Any (λ (g : ℕ × String). (g.0 ≡ k) × (get names g.1 ≡ some name)) groups
  unfolding pks_of with_profile profile_of
  profile_of_sound [] k e = elim (empty e) [ ]
    where
      empty : none ≡ some name → ⊥
      empty h = cc
  profile_of_sound ((j, group) ∷ rest) k e = step (profile_of_sound rest k) (get names group) refl e
    where
      step :
          (profile_of (pks_of names rest) k ≡ some name
            → Any (λ (g : ℕ × String). (g.0 ≡ k) × (get names g.1 ≡ some name)) rest)
          → (found : Option String) → get names group ≡ found
          → profile_of (with_profile j found (pks_of names rest)) k ≡ some name
          → Any (λ (g : ℕ × String). (g.0 ≡ k) × (get names g.1 ≡ some name)) ((j, group) ∷ rest)
      step again none q e = there (again e)
      step again (some x) q e = elim (Bool-cases (j == k)) [
        | inl same ↦
            let e' : some x ≡ some name = rw same at e in here ((==_iff j k).0 same, q ∙ e')
        | inr other ↦
            let e' : profile_of (pks_of names rest) k ≡ some name = rw other at e in
            there (again e')
      ]

  profile_of_complete :
      (groups : List (ℕ × String)) (k : ℕ)
      → IsKeyed groups
      → Any (λ (g : ℕ × String). (g.0 ≡ k) × (get names g.1 ≡ some name)) groups
      → profile_of (pks_of names groups) k ≡ some name
  unfolding pks_of with_profile profile_of IsKeyed
  profile_of_complete [] k keyed m = elim m [ ]
  profile_of_complete ((j, group) ∷ rest) k keyed (here (at, found)) =
      rw (found, (==_iff j k).1 at) refl
  profile_of_complete ((j, group) ∷ rest) k (fresh, keyed) (there m) =
      step (profile_of_complete rest k keyed m) (get names group)
    where
      keys :
          {groups : List (ℕ × String)}
          → Any (λ (g : ℕ × String). (g.0 ≡ k) × (get names g.1 ≡ some name)) groups
          → Any (λ (g : ℕ × String). g.0 ≡ k) groups
      keys (here (at, found)) = here at
      keys (there n) = there (keys n)

      differs : (j == k) ≡ false
      differs = elim (Bool-cases (j == k)) [
        | inr other ↦ other
        | inl same ↦
            elim (clash
              (any_complete (λ (g : ℕ × String). g.0 == j) (λ g. ==_iff g.0 j)
                (rw (sym ((==_iff j k).0 same)) at (keys m)))
              fresh) [ ]
      ]

      step :
          profile_of (pks_of names rest) k ≡ some name
          → (found : Option String)
          → profile_of (with_profile j found (pks_of names rest)) k ≡ some name
      step again none = again
      step again (some x) = rw differs again

module _ (c : Cohort) (keyed : IsKeyed c.groups) (name : String) where
  profile_of_iff :
      (k : ℕ)
      → (profile_of (mcp_group_pks c) k ≡ some name)
        ↔ Any (λ (g : ℕ × String). (g.0 ≡ k) × Declares g.1 name c.profiles) c.groups
  unfolding mcp_group_pks
  profile_of_iff k = (
    λ e.
        Any-map (λ g q. (q.0, (name_to_profile_iff g.1 name c.profiles).0 q.1))
          (profile_of_sound (name_to_profile [] c.profiles) name c.groups k e),
    λ m.
        profile_of_complete (name_to_profile [] c.profiles) name c.groups k keyed
          (Any-map (λ g q. (q.0, (name_to_profile_iff g.1 name c.profiles).1 q.1)) m),
  )

  profile_names_sound :
      (found : List ℕ)
      → Any (λ n. n ≡ name) (profile_names (mcp_group_pks c) found)
      → Any (λ k. profile_of (mcp_group_pks c) k ≡ some name) found
  unfolding profile_names
  profile_names_sound [] m = elim m [ ]
  profile_names_sound (k ∷ rest) m =
      step (profile_names_sound rest) (profile_of (mcp_group_pks c) k) refl m
    where
      step :
          (Any (λ n. n ≡ name) (profile_names (mcp_group_pks c) rest)
            → Any (λ k. profile_of (mcp_group_pks c) k ≡ some name) rest)
          → (p : Option String) → profile_of (mcp_group_pks c) k ≡ p
          → Any
              (λ n. n ≡ name)
              (elim p [
                | none ↦ profile_names (mcp_group_pks c) rest
                | some x ↦ x ∷ profile_names (mcp_group_pks c) rest
              ])
          → Any (λ k. profile_of (mcp_group_pks c) k ≡ some name) (k ∷ rest)
      step again none q m = there (again m)
      step again (some x) q (here e) = here (q ∙ ap some e)
      step again (some x) q (there m) = there (again m)

  profile_names_complete :
      {found : List ℕ}
      → Any (λ k. profile_of (mcp_group_pks c) k ≡ some name) found
      → Any (λ n. n ≡ name) (profile_names (mcp_group_pks c) found)
  unfolding profile_names
  profile_names_complete (here {x = k} {xs = rest} e) = step (profile_of (mcp_group_pks c) k) e
    where
      inj : {a b : String} → some a ≡ some b → a ≡ b
      inj h = cc

      none_there : none ≡ some name → ⊥
      none_there h = cc

      step :
          (p : Option String)
          → p ≡ some name
          → Any
              (λ n. n ≡ name)
              (elim p [
                | none ↦ profile_names (mcp_group_pks c) rest
                | some x ↦ x ∷ profile_names (mcp_group_pks c) rest
              ])
      step none h = elim (none_there h) [ ]
      step (some x) h = here (inj h)
  profile_names_complete (there {x = k} {xs = rest} m) =
      step (profile_names_complete m) (profile_of (mcp_group_pks c) k)
    where
      step :
          Any (λ n. n ≡ name) (profile_names (mcp_group_pks c) rest)
          → (p : Option String)
          → Any
              (λ n. n ≡ name)
              (elim p [
                | none ↦ profile_names (mcp_group_pks c) rest
                | some x ↦ x ∷ profile_names (mcp_group_pks c) rest
              ])
      step again none = again
      step again (some x) = there again

  pub sorted-profile_names_iff :
      (found : List ℕ)
      → (contains (sorted (profile_names (mcp_group_pks c) found)) name ≡ true) ↔ IsIn c found name
  unfolding IsIn
  sorted-profile_names_iff found =
      rw (contains-sorted (profile_names (mcp_group_pks c) found) name) (
        λ h.
            Any-map (λ k. (profile_of_iff k).0)
              (profile_names_sound found
                ((contains_iff (profile_names (mcp_group_pks c) found) name).0 h)),
        λ m.
            (contains_iff (profile_names (mcp_group_pks c) found) name).1
              (profile_names_complete (Any-map (λ k. (profile_of_iff k).1) m)),
      )
