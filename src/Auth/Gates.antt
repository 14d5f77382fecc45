-- ===== src/Auth/Gates.antt =====
-- auth.py: who is let in.
use django_mcp_sql.Prelude.{
  String, ◌≡◌, refl, ◌≢◌, ◌↔◌, ◌⊎◌, inl, inr, true, false, ◌&&◌, Option, none, some, contains,
  Bool-cases,
}
use django_mcp_sql.Outcome.{AuthRejectionReason}
use django_mcp_sql.Raise.{Exn, Try, returned, raised, authentication_failed}
use django_mcp_sql.Models.{User, Profile}
use django_mcp_sql.World.{World, Act, pure, raise, lift, continue, ◌>>=◌, ◌>>◌}
use django_mcp_sql.Consts.{is_mcp_application_name}
use django_mcp_sql.Conf.{Resolution, bound, resolve_profile}
use django_mcp_sql.Auth.{
  Token, HttpRequest, Gatekeeper, Verdict, anonymous, admitted, enforce_body_size_cap,
  audit_rejection, reject, warn_ambiguous, session_gate, profile_gate, mfa_gate, staff_gate,
  scope_gate, application_gate, token_step, is_blocked, authenticate, address,
}
use django_mcp_sql.Throttle.{record_attempt}

module _ {C : Type 0} where
  -- A block that gives `b` gives it from the value of its first part.
  pub bind-returned :
      {A B : Type 0} (m : Act C A) (f : A → Act C B) (w : World C) {b : B}
      → ((m >>= f) w).0 ≡ returned b
      → (a : A) × ((m w).0 ≡ returned a) × ((f a (m w).1).0 ≡ returned b)
  bind-returned m f w = of_result f (m w).0 (m w).1
    where
      of_result :
          {A B : Type 0} (f : A → Act C B) (r : Try A) (w' : World C) {b : B}
          → (continue r f w').0 ≡ returned b
          → (a : A) × (r ≡ returned a) × ((f a w').0 ≡ returned b)
      of_result f (returned a) w' h = (a, refl, h)
      of_result f (raised e) w' h = cc

  raise-returned : {B : Type 0} (e : Exn) (w : World C) {b : B} → (raise {A = B} e w).0 ≢ returned b
  raise-returned e w h = cc

module _ {C : Type 0} (env : Gatekeeper C) (request : HttpRequest) where
  -- No session is asked for, or the user has one.
  abbrev pub HasSession : User → Type 0
  HasSession user = (env.has_session_model ≡ false) ⊎ (env.live_session user ≡ returned true)

  -- The token and the user pass every gate, and the user is bound to the profile.
  pub record Passes (user : User) (token : Token) (profile : Profile) : Type 0 where
    pub application : is_mcp_application_name env.names token.application_name ≡ true
    pub scoped : contains token.scopes env.scope ≡ true
    pub staff : (user.is_active && user.is_staff) ≡ true
    pub mfa : env.mfa_checker user ≡ returned true
    pub resolved : resolve_profile env.profiles (env.assigned user) ≡ returned (bound profile)
    pub session : HasSession user

  -- The request comes with such a token, and nothing before the token refuses it.
  pub record Admitted (w : World C) (user : User) (token : Token) (profile : Profile) : Type 0 where
    pub size : enforce_body_size_cap request ≡ returned tt
    pub body : env.read_body request ≡ returned tt
    pub not_blocked : (is_blocked env request w).0 ≡ returned false
    pub token_valid : env.oauth request ≡ returned (some (user, token))
    pub passes : Passes user token profile

  reject-returned :
      (reason : AuthRejectionReason) (message : String) (user : User) (token : Token) (w : World C)
      {v : Verdict}
      → (reject env request reason message user token w).0 ≢ returned v
  unfolding reject
  reject-returned reason message user token w h =
      let m = audit_rejection env request reason message user token in
      let (u, e, k) =
        bind-returned m (λ u. raise {A = Verdict} (authentication_failed message)) w h in
      raise-returned (authentication_failed message) (m w).1 k

  session_gate-returned :
      (user : User) (token : Token) (profile : Profile) (w : World C) (v : Verdict)
      → (session_gate env request user token profile w).0 ≡ returned v
      → (v ≡ admitted user token profile) × HasSession user
  unfolding session_gate
  session_gate-returned user token profile w v h = elim (Bool-cases env.has_session_model) [
    | inr off ↦ (cc (rw off at h), inl off)
    | inl on ↦
        let (live, e, k) = bind-returned (lift (env.live_session user)) _ w (rw on at h) in
        elim (Bool-cases live) [
          | inl alive ↦ (cc (rw alive at k), inr (cc (e, alive)))
          | inr dead ↦ absurd (reject-returned _ _ user token w (rw dead at k))
        ]
  ]

  profile_gate-returned :
      (user : User) (token : Token) (r : Resolution) (w : World C) (v : Verdict)
      → (profile_gate env request user token r w).0 ≡ returned v
      → (p : Profile) × (r ≡ bound p) × (v ≡ admitted user token p) × HasSession user
  unfolding profile_gate
  profile_gate-returned user token Resolution.no_perm w v h =
      absurd (reject-returned _ _ user token w h)
  profile_gate-returned user token Resolution.ambiguous_profile w v h =
      let message : String =
        "User is assigned to more than one MCP profile; access is denied until exactly one remains." in
      let m =
        audit_rejection env request AuthRejectionReason.ambiguous_profile message user token in
      let stop : Act C Verdict = raise (authentication_failed message) in
      let (_, e, k) = bind-returned m (λ u. warn_ambiguous env request user >> stop) w h in
      let (_, e', k') = bind-returned (warn_ambiguous env request user) (λ u. stop) (m w).1 k in
      absurd (
        raise-returned (authentication_failed message) (warn_ambiguous env request user (m w).1).1
          k')
  profile_gate-returned user token (bound p) w v h =
      let (a, b) = session_gate-returned user token p w v h in (p, refl, a, b)

  mfa_gate-returned :
      (user : User) (token : Token) (w : World C) (v : Verdict)
      → (mfa_gate env request user token w).0 ≡ returned v
      → (p : Profile) × (v ≡ admitted user token p)
        × (env.mfa_checker user ≡ returned true)
        × (resolve_profile env.profiles (env.assigned user) ≡ returned (bound p))
        × HasSession user
  unfolding mfa_gate
  mfa_gate-returned user token w v h =
      let (verified, e, k) = bind-returned (lift (env.mfa_checker user)) _ w h in
      elim (Bool-cases verified) [
        | inr n ↦ absurd (reject-returned _ _ user token w (rw n at k))
        | inl y ↦
            let (r, e', k') =
              bind-returned (lift (resolve_profile env.profiles (env.assigned user)))
                (profile_gate env request user token) w (rw y at k) in
            let (p, q, a, b) = profile_gate-returned user token r w v k' in
            (p, a, cc (e, y), cc (e', q), b)
      ]

  pub application_gate-returned :
      (user : User) (token : Token) (w : World C) (v : Verdict)
      → (application_gate env request user token w).0 ≡ returned v
      → (p : Profile) × (v ≡ admitted user token p) × Passes user token p
  unfolding application_gate scope_gate staff_gate
  application_gate-returned user token w v h =
      elim (Bool-cases (is_mcp_application_name env.names token.application_name)) [
        | inr n ↦ absurd (reject-returned _ _ user token w (rw n at h))
        | inl application ↦ elim (Bool-cases (contains token.scopes env.scope)) [
          | inr n ↦ absurd (reject-returned _ _ user token w (rw (application, n) at h))
          | inl scoped ↦ elim (Bool-cases (user.is_active && user.is_staff)) [
            | inr n ↦ absurd (reject-returned _ _ user token w (rw (application, scoped, n) at h))
            | inl staff ↦
                let (p, a, mfa, resolved, session) =
                  mfa_gate-returned user token w v (rw (application, scoped, staff) at h) in
                (
                  p,
                  a,
                  record {
                    application = application;
                    scoped = scoped;
                    staff = staff;
                    mfa = mfa;
                    resolved = resolved;
                    session = session;
                  },
                )
          ]
        ]
      ]

  session_gate-admits :
      (user : User) (token : Token) (profile : Profile) (w : World C)
      → HasSession user
      → (session_gate env request user token profile w).0 ≡ returned (admitted user token profile)
  unfolding session_gate
  session_gate-admits user token profile w (inl off) = rw off refl
  session_gate-admits user token profile w (inr live) = elim (Bool-cases env.has_session_model) [
    | inl on ↦ rw (on, live) refl
    | inr off ↦ rw off refl
  ]

  pub application_gate-admits :
      (user : User) (token : Token) (profile : Profile) (w : World C)
      → Passes user token profile
      → (application_gate env request user token w).0 ≡ returned (admitted user token profile)
  unfolding application_gate scope_gate staff_gate mfa_gate profile_gate
  application_gate-admits user token profile w t =
      rw (t.application, t.scoped, t.staff, t.mfa, t.resolved)
        (session_gate-admits user token profile w t.session)

  anonymous-admitted :
      (user : User) (token : Token) (profile : Profile)
      → (returned anonymous) ≢ returned (admitted user token profile)
  anonymous-admitted user token profile h = cc

  token_step-returned :
      (o : Option (User × Token)) (w : World C) (user : User) (token : Token) (profile : Profile)
      → (token_step env request o w).0 ≡ returned (admitted user token profile)
      → (o ≡ some (user, token)) × Passes user token profile
  unfolding token_step
  token_step-returned none w user token profile h = elim (Bool-cases request.authorization) [
    | inr off ↦ absurd (anonymous-admitted user token profile (rw off at h))
    | inl on ↦
        let (n, e, k) =
          bind-returned
            (record_attempt env.cache (address request.remote_addr) "bad_token" env.bad_token_window
              env.bad_token_threshold)
            (λ count. pure anonymous) w (rw on at h) in
        absurd (anonymous-admitted user token profile k)
  ]
  token_step-returned (some (u, t)) w user token profile h =
      let (p, a, passes) = application_gate-returned u t w (admitted user token profile) h in
      let eu : u ≡ user = cc (a) in
      let et : t ≡ token = cc (a) in
      let ep : p ≡ profile = cc (a) in (cc (eu, et), rw (eu, et, ep) at passes)

  admitted-Admitted :
      (w : World C) (user : User) (token : Token) (profile : Profile)
      → (authenticate env request w).0 ≡ returned (admitted user token profile)
      → Admitted w user token profile
  unfolding authenticate
  admitted-Admitted w user token profile h =
      let (_, size, h1) = bind-returned (lift (enforce_body_size_cap request)) _ w h in
      let (_, body, h2) = bind-returned (lift (env.read_body request)) _ w h1 in
      let (blocked, b, h3) = bind-returned (is_blocked env request) _ w h2 in
      elim (Bool-cases blocked) [
        | inl y ↦ absurd (anonymous-admitted user token profile (rw y at h3))
        | inr n ↦
            let (o, valid, h4) =
              bind-returned (lift (env.oauth request)) (token_step env request)
                (is_blocked env request w).1 (rw n at h3) in
            let (e, passes) =
              token_step-returned o (is_blocked env request w).1 user token profile h4 in
            record {
              size = size;
              body = body;
              not_blocked = cc (b, n);
              token_valid = cc (valid, e);
              passes = passes;
            }
      ]

  Admitted-authenticate :
      (w : World C) (user : User) (token : Token) (profile : Profile)
      → Admitted w user token profile
      → (authenticate env request w).0 ≡ returned (admitted user token profile)
  unfolding authenticate token_step
  Admitted-authenticate w user token profile m =
      rw (m.size, m.body, m.not_blocked, m.token_valid)
        (application_gate-admits user token profile (is_blocked env request w).1 m.passes)

-- A request is let in as this user, with this token and this profile, exactly if its body is within the
-- cap and can be read, its address is not blocked, the OAuth library accepts the token for the user, the
-- application and the scope are those of this package, the user is an active staff member whose second
-- factor is verified and who is bound to the profile, and has a session where one is asked for.
pub authenticate_iff :
    {C : Type 0} (env : Gatekeeper C) (request : HttpRequest) (w : World C) (user : User)
    (token : Token) (profile : Profile)
    → ((authenticate env request w).0 ≡ returned (admitted user token profile))
      ↔ Admitted env request w user token profile
authenticate_iff env request w user token profile = (
  admitted-Admitted env request w user token profile,
  Admitted-authenticate env request w user token profile,
)
