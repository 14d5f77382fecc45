-- ===== src/Grants/Whole/Dry.antt =====
-- grants.py: a reconciliation that is not applied.
use django_mcp_sql.Prelude.{String, ◌≡◌, refl, Bool, true, false, List, [], ◌∷◌}
use django_mcp_sql.Raise.{Try, ◌>>=◌, ◌>>◌, returned, raised}
use django_mcp_sql.Models.{Profile}
use django_mcp_sql.World.{LogEntry}
use django_mcp_sql.Dict.{put}
use django_mcp_sql.Grants.{declared_tables}
use django_mcp_sql.Grants.Reconcile.{
  Catalog, ProfileDrift, Outcome, mismatches, raise_mismatches, verify_default_alias,
  granted_tables, role_exists, has_role_membership, self_referential, verify_view_parity,
  apply_drift, drift_of_profile, skip, member_step, role_step, preflight, reconcile_profile,
}
use django_mcp_sql.Grants.Whole.Unmoved.{returned-dry}
use django_mcp_sql.Grants.Whole.{
  DriftDiff, after_profile, reconcile_loop, alias_verified, reconcile_grants,
}

-- Where the run returns, these are the grants.
pub LeavesGrants : {G : Type 0} → G → Try (DriftDiff × G) → Type 0
LeavesGrants g (returned (out, g')) = g ≡ g'
LeavesGrants g (raised e) = Unit

-- The same database, of which `GRANT` and `REVOKE` do something else.
abbrev pub with_statements :
    {G : Type 0}
    → Catalog G
    → (G → String → String → Try G)
    → (G → String → String → Try G)
    → Catalog G
with_statements db grant revoke = record db { grant = grant; revoke = revoke }

module _ {G : Type 0} (db : Catalog G) (grant revoke : G → String → String → Try G)
    (strict : Bool) where
  mismatches-same :
      (declared : List (String × String))
      → mismatches (with_statements db grant revoke) declared ≡ mismatches db declared
  unfolding mismatches
  mismatches-same [] = refl
  mismatches-same ((entry, table) ∷ rest) = rw (mismatches-same rest) refl

  self_referential-same :
      (entries : List String)
      → self_referential (with_statements db grant revoke) entries ≡ self_referential db entries
  unfolding self_referential
  self_referential-same [] = refl
  self_referential-same (entry ∷ rest) = rw (self_referential-same rest) refl

  parity-same :
      (alias : Try (Unit {0})) (declared : Try (List (String × String)))
      → (alias
          >> (declared >>= λ d.
              (mismatches (with_statements db grant revoke) d >>= raise_mismatches)))
        ≡ (alias >> (declared >>= λ d. (mismatches db d >>= raise_mismatches)))
  parity-same (raised e) declared = refl
  parity-same (returned u) (raised e) = refl
  parity-same (returned u) (returned d) = rw (mismatches-same d) refl

  verify_view_parity-same :
      (profile : Profile)
      → verify_view_parity (with_statements db grant revoke) profile ≡ verify_view_parity db profile
  unfolding verify_view_parity verify_default_alias
  verify_view_parity-same profile =
      parity-same (verify_default_alias db) (declared_tables db.table_of profile)

  drift_of_profile-same :
      (profile : Profile) (g : G)
      → drift_of_profile (with_statements db grant revoke) false profile g
        ≡ drift_of_profile db false profile g
  unfolding drift_of_profile granted_tables apply_drift verify_default_alias
  drift_of_profile-same profile g = rw (verify_view_parity-same profile) refl

  member_step-same :
      (profile : Profile) (g : G) (r : Try Bool)
      → member_step (with_statements db grant revoke) strict false profile g r
        ≡ member_step db strict false profile g r
  unfolding member_step skip
  member_step-same profile g (raised e) = refl
  member_step-same profile g (returned true) = rw (drift_of_profile-same profile g) refl
  member_step-same profile g (returned false) = refl

  role_step-same :
      (profile : Profile) (g : G) (r : Try Bool)
      → role_step (with_statements db grant revoke) strict false profile g r
        ≡ role_step db strict false profile g r
  unfolding role_step skip has_role_membership verify_default_alias
  role_step-same profile g (raised e) = refl
  role_step-same profile g (returned true) =
      member_step-same profile g (has_role_membership db profile.role)
  role_step-same profile g (returned false) = refl

  preflight-same :
      (profile : Profile) (g : G) (bad : List String)
      → preflight (with_statements db grant revoke) strict false profile g bad
        ≡ preflight db strict false profile g bad
  unfolding preflight role_exists verify_default_alias
  preflight-same profile g [] = role_step-same profile g (role_exists db profile.role)
  preflight-same profile g (x ∷ xs) = refl

  reconcile_profile-same :
      (profile : Profile) (g : G)
      → reconcile_profile (with_statements db grant revoke) strict false profile g
        ≡ reconcile_profile db strict false profile g
  unfolding reconcile_profile
  reconcile_profile-same profile g =
      rw (self_referential-same profile.allowed_models)
        (preflight-same profile g (self_referential db profile.allowed_models))

  after_profile-same :
      (o : Outcome G) (f h : ProfileDrift → G → Try (DriftDiff × G) × List LogEntry)
      → ((d : ProfileDrift) (g : G) → f d g ≡ h d g)
      → after_profile db strict false o f ≡ after_profile db strict false o h
  unfolding after_profile
  after_profile-same (raised e, logs) f h same = refl
  after_profile-same (returned (d, g), logs) f h same = rw (same d g) refl

  reconcile_loop-same :
      (profiles : List Profile) (out : DriftDiff) (g : G)
      → reconcile_loop (with_statements db grant revoke) strict false profiles out g
        ≡ reconcile_loop db strict false profiles out g
  unfolding reconcile_loop
  reconcile_loop-same [] out g = refl
  reconcile_loop-same (p ∷ rest) out g = rw (reconcile_profile-same p g) (
      after_profile-same (reconcile_profile db strict false p g) _ _
        (λ d g'. reconcile_loop-same rest (put p.name d out) g'))

  reconcile_grants-same :
      (profiles : List Profile) (g : G)
      → reconcile_grants (with_statements db grant revoke) strict false profiles g
        ≡ reconcile_grants db strict false profiles g
  unfolding reconcile_grants verify_default_alias
  reconcile_grants-same profiles g = alias-same (verify_default_alias db)
    where
      alias-same :
          (a : Try (Unit {0}))
          → alias_verified (with_statements db grant revoke) strict false a profiles g
            ≡ alias_verified db strict false a profiles g
      alias-same (raised e) = refl
      alias-same (returned u) = reconcile_loop-same profiles [] g

  -- A reconciliation that is not applied, as after each `migrate`, executes no GRANT and no REVOKE,
  -- in either mode: whatever these two statements do, or raise, its result, its warnings and its
  -- exceptions are the same. Where it returns, the grants are as they were.
  pub reconcile_grants-dry :
      (profiles : List Profile) (g : G)
      → (reconcile_grants (with_statements db grant revoke) strict false profiles g
          ≡ reconcile_grants db strict false profiles g)
        × LeavesGrants g (reconcile_grants db strict false profiles g).0
  unfolding LeavesGrants
  reconcile_grants-dry profiles g = (
    reconcile_grants-same profiles g,
    leaves (reconcile_grants db strict false profiles g).0 (returned-dry db strict profiles) refl,
  )
    where
      leaves :
          (r : Try (DriftDiff × G))
          → ((out : DriftDiff) (g g' : G)
              → (reconcile_grants db strict false profiles g).0 ≡ returned (out, g')
              → g ≡ g')
          → (reconcile_grants db strict false profiles g).0 ≡ r
          → LeavesGrants g r
      leaves (returned (out, g')) dry h = dry out g g' h
      leaves (raised e) dry h = tt
