-- ===== src/Grants/Whole/Unmoved.antt =====
-- grants.py: the grants where a reconciliation that is not applied returns.
use django_mcp_sql.Prelude.{String, ◌≡◌, ◌∙◌, Bool, true, false, List, [], ◌∷◌}
use django_mcp_sql.Raise.{Try, returned, raised, >>=-eq-returned, seq-eq-returned}
use django_mcp_sql.Models.{Profile}
use django_mcp_sql.Dict.{put}
use django_mcp_sql.Grants.{declared_tables}
use django_mcp_sql.Grants.Reconcile.{
  Catalog, ProfileDrift, verify_default_alias, granted_tables, role_exists, has_role_membership,
  self_referential, verify_view_parity, apply_drift, drift_of_profile, skip, member_step, role_step,
  preflight, reconcile_profile,
}
use django_mcp_sql.Grants.Whole.{DriftDiff, reconcile_loop, alias_verified, reconcile_grants}
use django_mcp_sql.Grants.Whole.Exact.{after_profile-returned}

module _ {G : Type 0} (db : Catalog G) (strict : Bool) where
  drift_of_profile-dry :
      (profile : Profile) (g g' : G) (d : ProfileDrift)
      → drift_of_profile db false profile g ≡ returned (d, g')
      → g ≡ g'
  unfolding drift_of_profile apply_drift
  drift_of_profile-dry profile g g' d h =
      let (a, h1) = (seq-eq-returned (verify_view_parity db profile) _).0 h in
      let (items, b, h2) = >>=-eq-returned (declared_tables db.table_of profile) _ h1 in
      let (current, c, h3) = >>=-eq-returned (granted_tables db g profile.role) _ h2 in cc (h3)

  skip-dry :
      (b : Bool) (reason message : String) (g g' : G) (d : ProfileDrift)
      → (skip db b reason message g).0 ≡ returned (d, g')
      → g ≡ g'
  unfolding skip
  skip-dry true reason message g g' d h = cc
  skip-dry false reason message g g' d h = cc (h)

  member_step-dry :
      (profile : Profile) (g g' : G) (d : ProfileDrift) (r : Try Bool)
      → (member_step db strict false profile g r).0 ≡ returned (d, g')
      → g ≡ g'
  unfolding member_step
  member_step-dry profile g g' d (raised e) h = cc
  member_step-dry profile g g' d (returned true) h = drift_of_profile-dry profile g g' d h
  member_step-dry profile g g' d (returned false) h = skip-dry strict _ _ g g' d h

  role_step-dry :
      (profile : Profile) (g g' : G) (d : ProfileDrift) (r : Try Bool)
      → (role_step db strict false profile g r).0 ≡ returned (d, g')
      → g ≡ g'
  unfolding role_step
  role_step-dry profile g g' d (raised e) h = cc
  role_step-dry profile g g' d (returned true) h =
      member_step-dry profile g g' d (has_role_membership db profile.role) h
  role_step-dry profile g g' d (returned false) h = skip-dry strict _ _ g g' d h

  preflight-dry :
      (profile : Profile) (g g' : G) (d : ProfileDrift) (bad : List String)
      → (preflight db strict false profile g bad).0 ≡ returned (d, g')
      → g ≡ g'
  unfolding preflight
  preflight-dry profile g g' d [] h = role_step-dry profile g g' d (role_exists db profile.role) h
  preflight-dry profile g g' d (x ∷ xs) h = cc

  reconcile_loop-dry :
      (profiles : List Profile) (out out' : DriftDiff) (g g' : G)
      → (reconcile_loop db strict false profiles out g).0 ≡ returned (out', g')
      → g ≡ g'
  unfolding reconcile_loop reconcile_profile
  reconcile_loop-dry [] out out' g g' h = cc (h)
  reconcile_loop-dry (q ∷ rest) out out' g g' h =
      let (d, g1, e1, h1) =
        after_profile-returned db strict false (reconcile_profile db strict false q g)
          (λ d g'. reconcile_loop db strict false rest (put q.name d out) g') out' g' h in
      preflight-dry q g g1 d (self_referential db q.allowed_models) e1
      ∙ reconcile_loop-dry rest (put q.name d out) out' g1 g' h1

  alias_verified-dry :
      (a : Try (Unit {0})) (profiles : List Profile) (out : DriftDiff) (g g' : G)
      → (alias_verified db strict false a profiles g).0 ≡ returned (out, g')
      → g ≡ g'
  unfolding alias_verified
  alias_verified-dry (raised e) profiles out g g' h = cc
  alias_verified-dry (returned u) profiles out g g' h = reconcile_loop-dry profiles [] out g g' h

  pub returned-dry :
      (profiles : List Profile) (out : DriftDiff) (g g' : G)
      → (reconcile_grants db strict false profiles g).0 ≡ returned (out, g')
      → g ≡ g'
  unfolding reconcile_grants
  returned-dry profiles out g g' h =
      alias_verified-dry (verify_default_alias db) profiles out g g' h
