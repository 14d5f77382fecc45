-- ===== src/Auth/Refused.antt =====
-- auth.py: what a refusal leaves behind.
use django_mcp_sql.Prelude.{
  String, ◌≡◌, refl, ◌∙◌, ◌⊎◌, inl, inr, Bool, true, false, ◌&&◌, List, [], ◌∷◌, ◌++◌, contains,
}
use django_mcp_sql.Outcome.{AuthRejectionReason}
use django_mcp_sql.Raise.{Exn, Try, returned, raised, authentication_failed, database_error}
use django_mcp_sql.Models.{User, Profile, RejectionRow}
use django_mcp_sql.World.{World, Act, pure, raise, continue, settle, ◌>>◌}
use django_mcp_sql.World.Frames.{Ensures, Ensures-lift_bind, Ensures-either}
use django_mcp_sql.Consts.{is_mcp_application_name}
use django_mcp_sql.Conf.{Resolution, bound, resolve_profile}
use django_mcp_sql.Auth.{
  Token, HttpRequest, Gatekeeper, Verdict, admitted, rejection, rejection_value, insert_rejection,
  insert_rejection_failed, audit_rejection, reject, warn_once, warn_ambiguous, session_gate,
  profile_gate, mfa_gate, staff_gate, scope_gate, application_gate,
}

module _ {C : Type 0} (env : Gatekeeper C) (request : HttpRequest) where
  -- What the agent is told: the message, unless the INSERT or the cache raised something else.
  pub data Told (message : String) (e : Exn) : Type 0 where
    refusal : e ≡ authentication_failed message → Told message e
    insert_raised :
        (rows : List RejectionRow) (row : RejectionRow)
        → env.insert rows row ≡ raised e
        → Told message e
    cache_raised :
        (c : C) (key : String) → (env.cache.add c key 1 3600).0 ≡ raised e → Told message e

  -- A service that a gate asks raised the exception.
  pub data FromService (user : User) (e : Exn) : Type 0 where
    mfa : env.mfa_checker user ≡ raised e → FromService user e
    profile : resolve_profile env.profiles (env.assigned user) ≡ raised e → FromService user e
    session : env.live_session user ≡ raised e → FromService user e

  -- One row about the user and the token, or none where a service stopped the request.
  abbrev pub Refused : User → Token → World C → Try Verdict → World C → Type 0
  Refused user token a (returned v) b =
      (p : Profile) × (v ≡ admitted user token p) × (b.rejections ≡ a.rejections)
  Refused user token a (raised e) b =
      ((reason : AuthRejectionReason) × (message : String) × (b.rejections
          ≡ a.rejections ++ rejection env request reason message user token ∷ [])
        × Told message e)
      ⊎ ((b.rejections ≡ a.rejections) × FromService user e)

  -- An action that ends in telling the message, and writes no row.
  record Tells (message : String) (n : Act C Verdict) : Type 0 where
    at :
        (w : World C)
        → (e : Exn) × ((n w).0 ≡ raised e) × Told message e × ((n w).1.rejections ≡ w.rejections)

  raise-Tells : (message : String) → Tells message (raise (authentication_failed message))
  raise-Tells message = record {
    at = λ w. (authentication_failed message, refl, refusal refl, refl);
  }

  module _ (reason : AuthRejectionReason) (message : String) (user : User) (token : Token) where
    told :
        (n : Act C Verdict)
        → Tells message n
        → (a b : World C)
        → b.rejections ≡ a.rejections ++ rejection env request reason message user token ∷ []
        → Refused user token a (n b).0 (n b).1
    told n t a b h = let (e, r, k, same) = t.at b in rw r (inl (reason, message, same ∙ h, k))

    audit_end :
        (n : Act C Verdict)
        → Tells message n
        → (r : Try (Unit {0})) (a b : World C)
        → env.insert a.rejections (rejection env request reason message user token) ≡ r
        → b.rejections ≡ a.rejections ++ rejection env request reason message user token ∷ []
        → let (o, c) =
            settle r pure (insert_rejection_failed env request (rejection_value reason)) b in
          Refused user token a (continue o (λ u. n) c).0 (continue o (λ u. n) c).1
    unfolding insert_rejection_failed
    audit_end n t (returned u) a b i h = told n t a b h
    audit_end n t (raised (database_error d)) a b i h = told n t a _ h
    audit_end n t (raised e) a b i h = inl (reason, message, h, insert_raised _ _ i)

    audit-Refused :
        (n : Act C Verdict)
        → Tells message n
        → Ensures (Refused user token) (audit_rejection env request reason message user token >> n)
    unfolding audit_rejection insert_rejection
    audit-Refused n t = record {
      at = λ w.
          audit_end n t (env.insert w.rejections (rejection env request reason message user token))
            w _ refl refl;
    }

    reject-Refused : Ensures (Refused user token) (reject env request reason message user token)
    unfolding reject
    reject-Refused = audit-Refused (raise (authentication_failed message)) (raise-Tells message)

  warn_end :
      (message : String) (user : User) (added : Try Bool) (w w' : World C)
      → ((e : Exn) → added ≡ raised e → Told message e)
      → w'.rejections ≡ w.rejections
      → let (o, c) = continue added (warn_once env request user) w' in
        let n : Unit {0} → Act C Verdict = λ u. raise (authentication_failed message) in
        (e : Exn) × ((continue o n c).0 ≡ raised e)
        × Told message e
        × ((continue o n c).1.rejections ≡ w.rejections)
  unfolding warn_once
  warn_end message user (returned true) w w' k h =
      (authentication_failed message, refl, refusal refl, h)
  warn_end message user (returned false) w w' k h =
      (authentication_failed message, refl, refusal refl, h)
  warn_end message user (raised e) w w' k h = (e, refl, k e refl, h)

  warn-Tells :
      (message : String) (user : User)
      → Tells message (warn_ambiguous env request user >> raise (authentication_failed message))
  unfolding warn_ambiguous
  warn-Tells message user = record {
    at = λ w. warn_end message user _ w _ (λ e h. cache_raised w.cache _ h) refl;
  }

  admits :
      (user : User) (token : Token) (p : Profile)
      → Ensures (Refused user token) (pure (admitted user token p))
  admits user token p = record { at = λ w. (p, refl, refl) }

  stops :
      (user : User) (token : Token) (e : Exn)
      → FromService user e
      → Ensures (Refused user token) (raise e)
  stops user token e f = record { at = λ w. inr (refl, f) }

  session_gate-Refused :
      (user : User) (token : Token) (p : Profile)
      → Ensures (Refused user token) (session_gate env request user token p)
  unfolding session_gate
  session_gate-Refused user token p =
      Ensures-either env.has_session_model _ _
        (λ on.
          Ensures-lift_bind (env.live_session user) _
            (λ live e.
              Ensures-either live _ _ (λ y. admits user token p)
                (λ n. reject-Refused _ _ user token))
            (λ e h. stops user token e (session h)))
        (λ off. admits user token p)

  profile_gate-Refused :
      (user : User) (token : Token) (r : Resolution)
      → Ensures (Refused user token) (profile_gate env request user token r)
  unfolding profile_gate
  profile_gate-Refused user token Resolution.no_perm = reject-Refused _ _ user token
  profile_gate-Refused user token Resolution.ambiguous_profile =
      audit-Refused _ _ user token _ (warn-Tells _ user)
  profile_gate-Refused user token (bound p) = session_gate-Refused user token p

  Ensures-application_gate :
      (user : User) (token : Token)
      → Ensures (Refused user token) (application_gate env request user token)
  unfolding application_gate scope_gate staff_gate mfa_gate
  Ensures-application_gate user token =
      Ensures-either (is_mcp_application_name env.names token.application_name) _ _
        (λ a.
          Ensures-either (contains token.scopes env.scope) _ _
            (λ s.
              Ensures-either (user.is_active && user.is_staff) _ _
                (λ t.
                  Ensures-lift_bind (env.mfa_checker user) _
                    (λ verified e.
                      Ensures-either verified _ _
                        (λ y.
                          Ensures-lift_bind (resolve_profile env.profiles (env.assigned user))
                            (profile_gate env request user token)
                            (λ r e. profile_gate-Refused user token r)
                            (λ e h. stops user token e (profile h)))
                        (λ n. reject-Refused _ _ user token))
                    (λ e h. stops user token e (mfa h)))
                (λ n. reject-Refused _ _ user token))
            (λ n. reject-Refused _ _ user token))
        (λ n. reject-Refused _ _ user token)

-- Behind the OAuth library, a user is let in, and no row is written; or one row about the user and the
-- token is tried, and the request ends with its message, unless the INSERT or the cache raised
-- something else; or the second-factor check, the binding or the session lookup raised, and no row is written.
pub application_gate-Refused :
    {C : Type 0} (env : Gatekeeper C) (request : HttpRequest) (user : User) (token : Token)
    (w : World C)
    → Refused env request user token w
        (application_gate env request user token w).0
        (application_gate env request user token w).1
application_gate-Refused env request user token w =
    (Ensures-application_gate env request user token).at w
