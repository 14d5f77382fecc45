-- ===== src/Issuance/Same.antt =====
-- views/oauth_authorize.py and auth.py: the two gates ask the same of the user.
use django_mcp_sql.Prelude.{◌≡◌, refl, ◌↔◌, Bool, true, false, ◌&&◌, not, contains}
use django_mcp_sql.Raise.{
  Exn, Try, returned, raised, ◌>>=◌, ◌>>◌, raise_if, >>=-eq-returned, raise_unless_iff, seq_iff,
}
use django_mcp_sql.World.{World}
use django_mcp_sql.Consts.{is_mcp_application_name}
use django_mcp_sql.Models.{User, Profile}
use django_mcp_sql.Conf.{Resolution, bound, resolve_profile}
use django_mcp_sql.Auth.{Token, HttpRequest, Gatekeeper, admitted, application_gate}
use django_mcp_sql.Auth.Gates.{HasSession, application_gate-returned, application_gate-admits}
use django_mcp_sql.Issuance.{outcome_step, enforce_gate}

outcome_step-bound : (r : Resolution) → outcome_step r ≡ returned tt → (p : Profile) × (r ≡ bound p)
unfolding outcome_step
outcome_step-bound Resolution.no_perm h = cc
outcome_step-bound Resolution.ambiguous_profile h = cc
outcome_step-bound (bound p) h = (p, refl)

verified_iff :
    (r : Try Bool) (e : Exn) (k : Try (Unit {0})) {P : Type 0}
    → (k ≡ returned tt) ↔ P
    → ((r >>= λ verified. raise_if (not verified) e >> k) ≡ returned tt) ↔ ((r ≡ returned true) × P)
verified_iff (returned true) e k h = (λ g. (refl, h.0 g), λ g. h.1 g.1)
verified_iff (returned false) e k h = (λ g. cc, λ g. cc)
verified_iff (raised f) e k h = (λ g. cc, λ g. cc)

module _ {C : Type 0} (env : Gatekeeper C) (user : User) where
  -- The second factor of the user is verified.
  abbrev IsVerified : Type 0
  IsVerified = env.mfa_checker user ≡ returned true

  -- The user is bound to one profile.
  abbrev IsBound : Type 0
  IsBound = (p : Profile) × (resolve_profile env.profiles (env.assigned user) ≡ returned (bound p))

  bound_iff :
      ((resolve_profile env.profiles (env.assigned user) >>= outcome_step) ≡ returned tt) ↔ IsBound
  unfolding outcome_step
  bound_iff = (
    λ h.
        let (r, e, k) =
          >>=-eq-returned (resolve_profile env.profiles (env.assigned user)) outcome_step h in
        let (p, q) = outcome_step-bound r k in (p, cc (e, q)),
    λ h. let (p, e) = h in rw e refl,
  )

  -- What the gate asks for.
  enforce_gate_iff :
      (enforce_gate env user ≡ returned tt)
      ↔ (((user.is_active && user.is_staff) ≡ true) × (IsVerified × IsBound))
  unfolding enforce_gate
  enforce_gate_iff =
      seq_iff _ _ (raise_unless_iff (user.is_active && user.is_staff) _)
        (verified_iff (env.mfa_checker user) _ _ bound_iff)

module _ {C : Type 0} (env : Gatekeeper C) (request : HttpRequest) where
  -- The gates of a request let a user with a token in exactly if the token is of an application of the
  -- package and has the scope, the user has a session where one is asked for, and the gate in front of
  -- the consent page, where such a token is granted, lets the same user pass.
  pub application_gate-enforce_gate :
      (user : User) (token : Token) (w : World C)
      → ((profile : Profile) × ((application_gate env request user token w).0
            ≡ returned (admitted user token profile)))
        ↔ ((is_mcp_application_name env.names token.application_name ≡ true)
            × (contains token.scopes env.scope ≡ true)
            × HasSession env request user
            × (enforce_gate env user ≡ returned tt))
  application_gate-enforce_gate user token w = (
    λ h.
        let (profile, e) = h in
        let (p, _, passes) =
          application_gate-returned env request user token w (admitted user token profile) e in
        (
          passes.application,
          passes.scoped,
          passes.session,
          (enforce_gate_iff env user).1 (passes.staff, (passes.mfa, (p, passes.resolved))),
        ),
    λ h.
        let (application, scoped, session, e) = h in
        let (staff, (mfa, (p, resolved))) = (enforce_gate_iff env user).0 e in
        (
          p,
          application_gate-admits env request user token p w (record {
            application = application;
            scoped = scoped;
            staff = staff;
            mfa = mfa;
            resolved = resolved;
            session = session;
          }),
        ),
  )
