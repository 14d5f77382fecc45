-- ===== src/Signals/Profiles/Idempotent.antt =====
-- signals.py: what the receiver grants, and that a second run changes nothing.
use django_mcp_sql.Prelude.{
  String, ◌≡◌, refl, ap, inl, inr, Bool, true, false, ◌&&◌, ◌||◌, Option, some, List, [], ◌∷◌, ◌++◌,
  All, All-map, str_eq, Bool-cases, arith,
}
use django_mcp_sql.Models.{Profile}
use django_mcp_sql.Signals.Profiles.{
  Permission, Group, Directory, is_own_sender, is_default_alias, has_permission, ensure_permission,
  has_group, ensure_group, with_permission, add_permission, provision_profile, provision_all,
  provision_mcp_profiles,
}
use django_mcp_sql.Signals.Profiles.Provisioned.{
  carries, same_text, ensure_group-has_group, carries-ensure_group, carries-add_permission,
}

-- Some profile has the group and the permission.
unfoldable pub declares : List Profile → String → String → Bool
declares [] name codename = false
declares (p ∷ rest) name codename =
    (str_eq p.group_name name && str_eq p.codename codename) || declares rest name codename

carries-provision_profile :
    (p : Profile) (d : Directory) (m c : String)
    → carries m c (provision_profile p d).groups
      ≡ (carries m c d.groups || (str_eq p.group_name m && str_eq p.codename c))
unfolding provision_profile
carries-provision_profile p d m c =
    rw
      (
        carries-add_permission p.group_name p.codename (ensure_group p.group_name d.groups) m c
            (ensure_group-has_group p.group_name d.groups),
        carries-ensure_group p.group_name d.groups m c,
      )
      refl

or_assoc : (a b c : Bool) → ((a || b) || c) ≡ (a || (b || c))
or_assoc a b c = ground arith

carries-provision_all :
    (ps : List Profile) (d : Directory) (m c : String)
    → carries m c (provision_all ps d).groups ≡ (carries m c d.groups || declares ps m c)
unfolding provision_all declares
carries-provision_all [] d m c = ground arith
carries-provision_all (p ∷ rest) d m c =
    rw (carries-provision_all rest (provision_profile p d) m c, carries-provision_profile p d m c)
      (or_assoc (carries m c d.groups) _ _)

abbrev IsProvisioned : Directory → Profile → Type 0
IsProvisioned d p =
    (has_permission p.codename d.permissions ≡ true)
    × (carries p.group_name p.codename d.groups ≡ true)

carries-has_group :
    (name codename : String) (groups : List Group)
    → carries name codename groups ≡ true
    → has_group name groups ≡ true
unfolding carries has_group
carries-has_group name codename [] h = cc
carries-has_group name codename (g ∷ rest) h = elim (Bool-cases (str_eq g.name name)) [
  | inl hit ↦ rw hit refl
  | inr miss ↦ rw miss (carries-has_group name codename rest (rw miss at h))
]

add_permission-same :
    (name codename : String) (groups : List Group)
    → carries name codename groups ≡ true
    → add_permission name codename groups ≡ groups
unfolding carries add_permission with_permission
add_permission-same name codename [] h = refl
add_permission-same name codename (g ∷ rest) h = elim (Bool-cases (str_eq g.name name)) [
  | inl hit ↦ rw (hit, rw hit at h) refl
  | inr miss ↦ rw miss (ap (λ l. g ∷ l) (add_permission-same name codename rest (rw miss at h)))
]

provision_profile-same :
    (p : Profile) (d : Directory) → IsProvisioned d p → provision_profile p d ≡ d
unfolding provision_profile ensure_permission ensure_group
provision_profile-same p d h =
    rw
      (
        h.0,
        carries-has_group p.group_name p.codename d.groups h.1,
        add_permission-same p.group_name p.codename d.groups h.1,
      )
      refl

provision_all-same :
    (ps : List Profile) (d : Directory) → All (IsProvisioned d) ps → provision_all ps d ≡ d
unfolding provision_all
provision_all-same [] d h = refl
provision_all-same (p ∷ rest) d h =
    rw (provision_profile-same p d h.0) (provision_all-same rest d h.1)

has_permission-append :
    (codename : String) (l m : List Permission)
    → has_permission codename (l ++ m) ≡ (has_permission codename l || has_permission codename m)
unfolding has_permission
has_permission-append codename [] m = refl
has_permission-append codename (p ∷ l) m = ground (arith, has_permission-append codename l m)

ensure_permission-keeps :
    (p : Profile) (permissions : List Permission) (codename : String)
    → has_permission codename permissions ≡ true
    → has_permission codename (ensure_permission p permissions) ≡ true
unfolding ensure_permission
ensure_permission-keeps p permissions codename h =
    elim (Bool-cases (has_permission p.codename permissions)) [
      | inl old ↦ rw old h
      | inr new ↦ rw (new, has_permission-append codename permissions, h) refl
    ]

or_yes : (b : Bool) → (b || true) ≡ true
or_yes b = ground arith

ensure_permission-has :
    (p : Profile) (permissions : List Permission)
    → has_permission p.codename (ensure_permission p permissions) ≡ true
unfolding ensure_permission
ensure_permission-has p permissions = elim (Bool-cases (has_permission p.codename permissions)) [
  | inl old ↦ rw (old, old) refl
  | inr new ↦
      rw (new, has_permission-append p.codename permissions)
        (unfold has_permission in rw (same_text p.codename) (or_yes _))
]

provision_profile-keeps :
    (p q : Profile) (d : Directory) → IsProvisioned d q → IsProvisioned (provision_profile p d) q
provision_profile-keeps p q d h = (
  unfold provision_profile in ensure_permission-keeps p d.permissions q.codename h.0,
  rw (carries-provision_profile p d q.group_name q.codename, h.1) refl,
)

provision_profile-IsProvisioned :
    (p : Profile) (d : Directory) → IsProvisioned (provision_profile p d) p
provision_profile-IsProvisioned p d = (
  unfold provision_profile in ensure_permission-has p d.permissions,
  rw
      (
        carries-provision_profile p d p.group_name p.codename,
        same_text p.group_name,
        same_text p.codename,
      )
      (or_yes _),
)

provision_all-keeps :
    (ps : List Profile) (q : Profile) (d : Directory)
    → IsProvisioned d q
    → IsProvisioned (provision_all ps d) q
unfolding provision_all
provision_all-keeps [] q d h = h
provision_all-keeps (p ∷ rest) q d h =
    provision_all-keeps rest q (provision_profile p d) (provision_profile-keeps p q d h)

provision_all-IsProvisioned :
    (ps : List Profile) (d : Directory) → All (IsProvisioned (provision_all ps d)) ps
unfolding provision_all
provision_all-IsProvisioned [] d = tt
provision_all-IsProvisioned (p ∷ rest) d = (
  provision_all-keeps rest p (provision_profile p d) (provision_profile-IsProvisioned p d),
  provision_all-IsProvisioned rest (provision_profile p d),
)

-- Behind a `migrate` of the default alias by this package, a group carries a permission exactly if it
-- did before or a profile has the two; every codename of a profile is a permission; and the same
-- `migrate` again changes nothing.
pub provision_mcp_profiles-grants :
    (ps : List Profile) (using : Option String) (d : Directory)
    → is_default_alias using ≡ true
    → let d' = provision_mcp_profiles ps (some "mcp_sql") using d in
      ((m c : String) → carries m c d'.groups ≡ (carries m c d.groups || declares ps m c))
      × All (λ (p : Profile). has_permission p.codename d'.permissions ≡ true) ps
      × (provision_mcp_profiles ps (some "mcp_sql") using d' ≡ d')
unfolding provision_mcp_profiles is_own_sender
provision_mcp_profiles-grants ps using d default = rw default (
  carries-provision_all ps d,
  All-map (λ p h. h.0) ps (provision_all-IsProvisioned ps d),
  provision_all-same ps (provision_all ps d) (provision_all-IsProvisioned ps d),
)
