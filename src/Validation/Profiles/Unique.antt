-- ===== src/Validation/Profiles/Unique.antt =====
-- validation.py: what the registries of the loop come to.
use mathlib.Core.Logic.Iff
use django_mcp_sql.Prelude.{
  String, ◌≡◌, refl, ◌↔◌, inl, inr, false, none, List, [], ◌∷◌, contains, is_empty, str_eq,
  Bool-cases, or-eq-false, or_false, All,
}
use django_mcp_sql.Validation.Settings.{ProfileEntry}
use django_mcp_sql.Validation.Profiles.Registry.{seen_by, AllNew, Distinct, DistinctFrom, values}

seen_by-cons :
    (w v name : String) (registry : List (String × String))
    → (seen_by w ((v, name) ∷ registry) ≡ none)
      ↔ ((str_eq w v ≡ false) × (seen_by w registry ≡ none))
unfolding seen_by
seen_by-cons w v name registry = elim (Bool-cases (str_eq w v)) [
  | inl same ↦ (λ h. cc (rw same at h), λ h. cc)
  | inr other ↦ (λ h. (other, rw other at h), λ h. rw other (h.1))
]

pub absent-cons :
    (w v : String) (ws : List String)
    → (contains (w ∷ ws) v ≡ false) ↔ ((str_eq w v ≡ false) × (contains ws v ≡ false))
unfolding contains
absent-cons w v ws =
    (or-eq-false (str_eq w v) (contains ws v), λ h. or_false (str_eq w v) (contains ws v) h.0 h.1)

AllNew-cons :
    (v name : String) (registry l : List (String × String))
    → AllNew ((v, name) ∷ registry) l ↔ (AllNew registry l × (contains (values l) v ≡ false))
AllNew-cons v name registry [] = (λ h. (tt, unfold contains in refl), λ h. tt)
AllNew-cons v name registry ((w, n) ∷ l) =
    let (f, g) = AllNew-cons v name registry l in
    let (f', g') = seen_by-cons w v name registry in
    let (f'', g'') = absent-cons w v (values l) in
    (
      λ h.
          let (differs, new) = f' h.0.1 in
          let (rest, absent) = f h.1 in (((h.0.0, new), rest), g'' (differs, absent)),
      λ h. let (differs, absent) = f'' h.1 in ((h.0.0.0, g' (differs, h.0.0.1)), g (h.0.1, absent)),
    )

pub DistinctFrom-AllNew :
    (registry l : List (String × String))
    → DistinctFrom registry l ↔ (AllNew registry l × Distinct (values l))
DistinctFrom-AllNew registry [] = (λ h. (tt, tt), λ h. tt)
DistinctFrom-AllNew registry ((v, name) ∷ l) =
    let (f, g) = DistinctFrom-AllNew ((v, name) ∷ registry) l in
    let (f', g') = AllNew-cons v name registry l in
    (
      λ h.
          let (news, distinct) = f h.1 in
          let (rest, absent) = f' news in ((h.0, rest), (absent, distinct)),
      λ h. (h.0.0, g (g' (h.0.1, h.1.0), h.1.1)),
    )

-- One field of all the profiles.
abbrev pub column : (ProfileEntry → String) → List (String × ProfileEntry) → List (String × String)
column field [] = []
column field ((name, entry) ∷ rest) = (field entry, name) ∷ column field rest

-- The field is filled in every profile.
abbrev pub Filled : (ProfileEntry → String) → List (String × ProfileEntry) → Type 0
Filled field ps = All (λ (p : String × ProfileEntry). is_empty (field p.1) ≡ false) ps

AllNew-Filled :
    (field : ProfileEntry → String) (ps : List (String × ProfileEntry))
    → AllNew [] (column field ps) ↔ Filled field ps
AllNew-Filled field [] = Iff.rfl
AllNew-Filled field ((name, entry) ∷ rest) =
    let (f, g) = AllNew-Filled field rest in
    (λ h. (h.0.0, f h.1), λ h. ((h.0, unfold seen_by in refl), g h.1))

-- The field is filled in every profile, and no two have the same value.
abbrev pub IsKey : (ProfileEntry → String) → List (String × ProfileEntry) → Type 0
IsKey field ps = Filled field ps × Distinct (values (column field ps))

pub DistinctFrom-IsKey :
    (field : ProfileEntry → String) (ps : List (String × ProfileEntry))
    → DistinctFrom [] (column field ps) ↔ IsKey field ps
DistinctFrom-IsKey field ps =
    let (f, g) = DistinctFrom-AllNew [] (column field ps) in
    let (f', g') = AllNew-Filled field ps in (λ h. (f' (f h).0, (f h).1), λ h. g (g' h.0, h.1))
