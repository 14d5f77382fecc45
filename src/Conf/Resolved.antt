-- ===== src/Conf/Resolved.antt =====
-- conf.py: what a user is bound to.
use django_mcp_sql.Prelude.{
  String, ◌≡◌, refl, sym, ◌≢◌, ◌∙◌, ◌⊎◌, inl, inr, Bool, true, false, ◌&&◌, Option, none, some,
  List, [], ◌∷◌, map, contains, contains_iff, here, there, add, contains-add, str_eq, eq_iff,
  if◌then◌else◌, Bool-cases, arith,
}
use django_mcp_sql.Raise.{returned}
use django_mcp_sql.Models.{Profile}
use django_mcp_sql.Conf.{
  Resolution, bound, no_perm, ambiguous_profile, last_of, by_codename, matched_codenames, bound_to,
  outcome_of, resolve_profile,
}

abbrev pub codenames_of : List Profile → List String
codenames_of profiles = map (λ (p : Profile). p.codename) profiles

-- The set of matches has what is in both.
matched_codenames-contains :
    (codenames assigned : List String) (x : String)
    → contains (matched_codenames codenames assigned) x
      ≡ (contains codenames x && contains assigned x)
unfolding matched_codenames contains
matched_codenames-contains codenames [] x = ground arith
matched_codenames-contains codenames (c ∷ rest) x =
    let ih = matched_codenames-contains codenames rest x in
    elim (Bool-cases (contains codenames c)) [
      | inl listed ↦ elim (Bool-cases (str_eq c x)) [
        | inl e ↦
            let p : c ≡ x = (eq_iff c x).0 e in
            let found : contains codenames x ≡ true = rw p at listed in
            rw (listed, contains-add c (matched_codenames codenames rest) x, e, found) refl
        | inr n ↦ rw (listed, contains-add c (matched_codenames codenames rest) x, n) ih
      ]
      | inr other ↦ elim (Bool-cases (str_eq c x)) [
        | inl e ↦
            let p : c ≡ x = (eq_iff c x).0 e in
            let absent : contains codenames x ≡ false = rw p at other in
            rw (other, absent) (rw absent at ih)
        | inr n ↦ rw (other, n) ih
      ]
    ]

last_of-some :
    (later earlier : Option Profile) (p : Profile)
    → last_of later earlier ≡ some p
    → (later ≡ some p) ⊎ (earlier ≡ some p)
unfolding last_of
last_of-some none earlier p h = inr h
last_of-some (some q) earlier p h = inl h

-- `by_codename` gives a profile that has the codename.
by_codename-codename :
    (profiles : List Profile) (c : String) (p : Profile)
    → by_codename profiles c ≡ some p
    → p.codename ≡ c
unfolding by_codename
by_codename-codename [] c p h = cc
by_codename-codename (q ∷ rest) c p h =
    elim (last_of-some (by_codename rest c) (if str_eq q.codename c then some q else none) p h) [
      | inl later ↦ by_codename-codename rest c p later
      | inr now ↦ elim (Bool-cases (str_eq q.codename c)) [
        | inl e ↦ let same : q ≡ p = cc (rw e at now) in rw same at ((eq_iff q.codename c).0 e)
        | inr n ↦ cc (rw n at now)
      ]
    ]

last_of-finds :
    (later : Option Profile) (p : Profile) → (q : Profile) × (last_of later (some p) ≡ some q)
unfolding last_of
last_of-finds none p = (p, refl)
last_of-finds (some q) p = (q, refl)

-- It gives one for every codename of the list.
by_codename-finds :
    (profiles : List Profile) (c : String)
    → contains (codenames_of profiles) c ≡ true
    → (p : Profile) × (by_codename profiles c ≡ some p)
unfolding by_codename contains
by_codename-finds [] c h = cc
by_codename-finds (q ∷ rest) c h = elim (Bool-cases (str_eq q.codename c)) [
  | inl e ↦ rw e (last_of-finds (by_codename rest c) q)
  | inr n ↦
      let (p, found) = by_codename-finds rest c (rw n at h) in
      (p, unfold last_of in rw (n, found) refl)
]

abbrev Distinct : List String → Type 0
Distinct [] = Unit {0}
Distinct (x ∷ xs) = (contains xs x ≡ false) × Distinct xs

add-Distinct : (x : String) (xs : List String) → Distinct xs → Distinct (add x xs)
unfolding add
add-Distinct x xs h = elim (Bool-cases (contains xs x)) [
  | inl old ↦ rw old h
  | inr new ↦ rw new (new, h)
]

matched_codenames-Distinct :
    (codenames assigned : List String) → Distinct (matched_codenames codenames assigned)
unfolding matched_codenames
matched_codenames-Distinct codenames [] = tt
matched_codenames-Distinct codenames (c ∷ rest) = elim (Bool-cases (contains codenames c)) [
  | inl listed ↦ rw listed (add-Distinct c _ (matched_codenames-Distinct codenames rest))
  | inr other ↦ rw other (matched_codenames-Distinct codenames rest)
]

-- The user was assigned the codename, and it is one of a profile.
abbrev pub is_held : List Profile → List String → String → Bool
is_held profiles assigned x = contains (codenames_of profiles) x && contains assigned x

-- What a result says: the only codename that the user holds, and its profile; that there is none; or
-- two that differ.
abbrev pub Meaning : List Profile → List String → Resolution → Type 0
Meaning profiles assigned (bound p) =
    (by_codename profiles p.codename ≡ some p)
    × ((x : String) → is_held profiles assigned x ≡ str_eq p.codename x)
Meaning profiles assigned no_perm = (x : String) → is_held profiles assigned x ≡ false
Meaning profiles assigned ambiguous_profile =
    (c : String) × (d : String) × (c ≢ d)
    × (is_held profiles assigned c ≡ true)
    × (is_held profiles assigned d ≡ true)

contains-one : (c x : String) → contains (c ∷ []) x ≡ str_eq c x
unfolding contains
contains-one c x = ground arith

contains-head : (c : String) (l : List String) → contains (c ∷ l) c ≡ true
contains-head c l = (contains_iff (c ∷ l) c).1 (here refl)

contains-second : (c d : String) (l : List String) → contains (c ∷ d ∷ l) d ≡ true
contains-second c d l = (contains_iff (c ∷ d ∷ l) d).1 (there (here refl))

both_true : (a b : Bool) → (a && b) ≡ true → a ≡ true
both_true true b h = refl
both_true false b h = cc

absent-≢ : (c d : String) (l : List String) → contains (d ∷ l) c ≡ false → c ≢ d
absent-≢ c d l h e = cc (contains-head d l, rw e at h)

outcome_of-Meaning :
    (profiles : List Profile) (assigned matched : List String)
    → ((x : String) → contains matched x ≡ is_held profiles assigned x)
    → Distinct matched
    → (r : Resolution) × (outcome_of profiles matched ≡ returned r) × Meaning profiles assigned r
unfolding outcome_of bound_to
outcome_of-Meaning profiles assigned [] held distinct =
    (no_perm, refl, λ x. sym (held x) ∙ unfold contains in refl)
outcome_of-Meaning profiles assigned (c ∷ []) held distinct =
    let known : contains (codenames_of profiles) c ≡ true =
      both_true _ (contains assigned c) (sym (held c) ∙ contains-head c []) in
    let (p, found) = by_codename-finds profiles c known in
    let e = by_codename-codename profiles c p found in
    (bound p, rw found refl, (rw e found, λ x. rw e (sym (held x) ∙ contains-one c x)))
outcome_of-Meaning profiles assigned (c ∷ d ∷ rest) held distinct = (
  ambiguous_profile,
  refl,
  (
    c,
    d,
    absent-≢ c d rest distinct.0,
    sym (held c) ∙ contains-head c (d ∷ rest),
    sym (held d) ∙ contains-second c d rest,
  ),
)

-- `resolve_profile` always gives a result, never a KeyError: a profile exactly if its codename is the
-- only one of a profile that the user was assigned, however often; `NO_PERM` if there is none; and
-- `AMBIGUOUS_PROFILE` if there are two that differ.
pub resolve_profile-Meaning :
    (profiles : List Profile) (assigned : List String)
    → (r : Resolution) × (resolve_profile profiles assigned ≡ returned r)
      × Meaning profiles assigned r
unfolding resolve_profile
resolve_profile-Meaning profiles assigned =
    outcome_of-Meaning profiles assigned (matched_codenames (codenames_of profiles) assigned)
      (matched_codenames-contains (codenames_of profiles) assigned)
      (matched_codenames-Distinct (codenames_of profiles) assigned)
