-- ===== src/Signals/Profiles/Provisioned.antt =====
-- signals.py: what the provisioning grants, and that a second run changes nothing.
use django_mcp_sql.Prelude.{
  String, ◌≡◌, refl, inl, inr, Bool, true, false, ◌&&◌, ◌||◌, List, [], ◌∷◌, ◌++◌, contains, str_eq,
  eq_iff, Bool-cases, arith, if◌then◌else◌,
}
use django_mcp_sql.Signals.Profiles.{
  Group, has_group, ensure_group, with_permission, add_permission,
}

-- The group with the name carries the permission with the codename.
unfoldable pub carries : String → String → List Group → Bool
carries name codename [] = false
carries name codename (g ∷ rest) =
    let later = carries name codename rest in
    if str_eq g.name name then contains g.permissions codename else later

pub same_text : (s : String) → str_eq s s ≡ true
same_text s = (eq_iff s s).1 refl

contains-append :
    (xs ys : List String) (x : String) → contains (xs ++ ys) x ≡ (contains xs x || contains ys x)
unfolding contains
contains-append [] ys x = refl
contains-append (y ∷ xs) ys x = ground (arith, contains-append xs ys x)

contains-with_permission :
    (codename : String) (permissions : List String) (x : String)
    → contains (with_permission codename permissions) x
      ≡ (contains permissions x || str_eq codename x)
unfolding with_permission
contains-with_permission codename permissions x =
    elim (Bool-cases (contains permissions codename)) [
      | inl old ↦ elim (Bool-cases (str_eq codename x)) [
        | inl e ↦
            let p : codename ≡ x = (eq_iff codename x).0 e in
            let found : contains permissions x ≡ true = rw p at old in rw (old, found) refl
        | inr n ↦ rw (old, n) (or_false_right (contains permissions x))
      ]
      | inr new ↦
          rw (new, contains-append permissions (codename ∷ []) x) (unfold contains in ground arith)
    ]
  where
    or_false_right : (b : Bool) → b ≡ (b || false)
    or_false_right b = ground arith

-- The groups that the loop makes.
pub ensure_group-has_group :
    (name : String) (groups : List Group) → has_group name (ensure_group name groups) ≡ true
unfolding ensure_group has_group
ensure_group-has_group name groups = elim (Bool-cases (has_group name groups)) [
  | inl old ↦ rw (old, old) refl
  | inr new ↦ rw new (at_end groups)
]
  where
    at_end :
        (l : List Group)
        → has_group name (l ++ record { name = name; permissions = [] } ∷ []) ≡ true
    at_end [] = rw (same_text name) refl
    at_end (g ∷ l) = ground (arith, at_end l)

-- A new group carries nothing, and the others what they carried.
pub carries-ensure_group :
    (name : String) (groups : List Group) (m codename : String)
    → carries m codename (ensure_group name groups) ≡ carries m codename groups
unfolding ensure_group carries contains
carries-ensure_group name groups m codename = elim (Bool-cases (has_group name groups)) [
  | inl old ↦ rw old refl
  | inr new ↦ rw new (at_end groups)
]
  where
    at_end :
        (l : List Group)
        → carries m codename (l ++ record { name = name; permissions = [] } ∷ [])
          ≡ carries m codename l
    at_end [] = ground arith
    at_end (g ∷ l) = ground (arith, at_end l)

-- After the permission is added, the group with the name carries one more, and no other group does.
pub carries-add_permission :
    (name codename : String) (groups : List Group) (m c : String)
    → has_group name groups ≡ true
    → carries m c (add_permission name codename groups)
      ≡ (carries m c groups || (str_eq name m && str_eq codename c))
unfolding add_permission carries has_group
carries-add_permission name codename [] m c h = cc
carries-add_permission name codename (g ∷ rest) m c h = elim (Bool-cases (str_eq g.name name)) [
  | inl same ↦
      let e : g.name ≡ name = (eq_iff g.name name).0 same in
      elim (Bool-cases (str_eq name m)) [
        | inl hit ↦ rw (same, e, hit, contains-with_permission codename g.permissions c) refl
        | inr miss ↦ rw (same, e, miss) (or_false_right (carries m c rest))
      ]
  | inr other ↦
      let ih = carries-add_permission name codename rest m c (rw other at h) in
      elim (Bool-cases (str_eq g.name m)) [
        | inl hit ↦
            let p : g.name ≡ m = (eq_iff g.name m).0 hit in
            let miss : str_eq name m ≡ false = differs name g.name m p other in
            rw (other, hit, miss) (or_false_right (contains g.permissions c))
        | inr miss ↦ rw (other, miss) ih
      ]
]
  where
    or_false_right : (b : Bool) → b ≡ (b || false)
    or_false_right b = ground arith

    differs : (a b d : String) → b ≡ d → str_eq b a ≡ false → str_eq a d ≡ false
    differs a b d p n = ground (arith, eq_iff a d, eq_iff b a, p, n)
