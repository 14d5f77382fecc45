-- ===== src/Auth.antt =====
-- auth.py: the gates in front of the endpoint, in the order of the code.
pub mod Gates
pub mod Refused
pub mod Sample
mod Tests
use django_mcp_sql.Prelude.{
  ℕ, String, Bool, true, false, ◌&&◌, not, Option, none, some, List, [], ◌∷◌, ◌++◌, contains,
  format, show, is_empty, if◌then◌else◌,
}
use django_mcp_sql.Prelude.Int.{ℤ, pos, leb_ℤ}
use django_mcp_sql.Outcome
use django_mcp_sql.Outcome.{
  AuthRejectionReason, bad_application, bad_scope, inactive_or_non_staff, no_mfa, ambiguous_profile,
  no_session,
}
use django_mcp_sql.Raise.{
  Exn, database_error, authentication_failed, payload_too_large, Try, returned, raised,
}
use django_mcp_sql.Models.{User, Profile, RejectionRow}
use django_mcp_sql.Caching.{Cache}
use django_mcp_sql.World.{
  World, Act, exception, warning, pure, raise, lift, log, ◌>>=◌, ◌>>◌, try_else,
}
use django_mcp_sql.Throttle.{is_ip_blocked, record_attempt}
use django_mcp_sql.Consts.{Names, is_mcp_application_name}
use django_mcp_sql.Conf.{Resolution, bound, resolve_profile}
use django_mcp_sql.Decorators.{ContentLength, normalize_content_length}

-- An access token and its application; `scopes` is `(token.scope or "").split()`.
pub record Token : Type 0 where
  pub pk : String
  pub application_name : String
  pub redirect_uris : String
  pub scopes : List String

-- `authorization` says whether there is such a header, which is not empty.
pub record HttpRequest : Type 0 where
  pub content_length : ContentLength
  pub authorization : Bool
  pub remote_addr : Option String

-- The settings and the services that the class calls.
pub record Gatekeeper (C : Type 0) : Type 0 where
  pub cache : Cache C
  pub names : Names
  pub scope : String
  pub bad_token_threshold : ℕ
  pub bad_token_window : ℕ
  -- the read of `request.body` that keeps the raw bytes
  pub read_body : HttpRequest → Try (Unit {0})
  -- `OAuth2Authentication.authenticate` of the OAuth library
  pub oauth : HttpRequest → Try (Option (User × Token))
  -- `MFA_CHECKER`, which is the project's own
  pub mfa_checker : User → Try Bool
  pub profiles : List Profile
  -- the codenames of the permissions that a user was assigned
  pub assigned : User → List String
  -- whether there is a `SESSION_MODEL`, and whether it has a session of the user that has not expired
  pub has_session_model : Bool
  pub live_session : User → Try Bool
  -- the INSERT of `MCPAuthRejectionLog.objects.create`
  pub insert : List RejectionRow → RejectionRow → Try (Unit {0})
  pub now : ℕ

-- `None`, or the user and the token, with the profile that the request is bound to.
pub data Verdict : Type 0 where
  anonymous : Verdict
  admitted : User → Token → Profile → Verdict

-- `AuthRejectionReason` as a `StrEnum`.
unfoldable pub rejection_value : AuthRejectionReason → String
rejection_value AuthRejectionReason.bad_application = "bad_application"
rejection_value AuthRejectionReason.bad_scope = "bad_scope"
rejection_value AuthRejectionReason.inactive_or_non_staff = "inactive_or_non_staff"
rejection_value AuthRejectionReason.no_mfa = "no_mfa"
rejection_value AuthRejectionReason.no_perm = "no_perm"
rejection_value AuthRejectionReason.ambiguous_profile = "ambiguous_profile"
rejection_value AuthRejectionReason.no_session = "no_session"
rejection_value AuthRejectionReason.session_logout = "session_logout"

abbrev pub body_max_bytes : ℕ
body_max_bytes = 1048576

unfoldable pub enforce_body_size_cap : HttpRequest → Try (Unit {0})
enforce_body_size_cap request =
    if leb_ℤ (normalize_content_length request.content_length).0 (pos body_max_bytes)
    then returned tt
    else raised payload_too_large

-- `request.META.get("REMOTE_ADDR") or "unknown"`
unfoldable pub address : Option String → String
address none = "unknown"
address (some ip) = if is_empty ip then "unknown" else ip

module _ {C : Type 0} (env : Gatekeeper C) (request : HttpRequest) where
  abbrev pub rejection : AuthRejectionReason → String → User → Token → RejectionRow
  rejection reason message user token = record {
    user = user;
    token_pk = token.pk;
    application_name = token.application_name;
    client_redirect = token.redirect_uris;
    reason = rejection_value reason;
    error = message;
    client_ip = request.remote_addr;
    started_at = env.now;
  }

  unfoldable pub insert_rejection : RejectionRow → Act C (Unit {0})
  insert_rejection row w =
      (env.insert w.rejections row, record w { rejections = w.rejections ++ row ∷ [] })

  unfoldable pub insert_rejection_failed : String → Exn → Act C (Unit {0})
  insert_rejection_failed reason (database_error e) =
      log (exception (format ("Failed to write MCPAuthRejectionLog (reason=" ∷ reason ∷ ")" ∷ [])))
  insert_rejection_failed reason e = raise e

  unfoldable pub audit_rejection : AuthRejectionReason → String → User → Token → Act C (Unit {0})
  unfolding insert_rejection insert_rejection_failed
  audit_rejection reason message user token =
      try_else (insert_rejection (rejection reason message user token)) pure
        (insert_rejection_failed (rejection_value reason))

  -- `self._audit_rejection(...)` and then `raise exceptions.AuthenticationFailed(msg)`.
  unfoldable pub reject : AuthRejectionReason → String → User → Token → Act C Verdict
  unfolding audit_rejection
  reject reason message user token =
      audit_rejection reason message user token >> raise (authentication_failed message)

  unfoldable pub warn_once : User → Bool → Act C (Unit {0})
  warn_once user added =
      if added
      then log (
          warning (
            format (
              "MCP profile resolution ambiguous for user "
              ∷ user.username
              ∷ " (pk="
              ∷ show user.pk
              ∷ "): assigned to >1 profile; denying until resolved."
              ∷ [])))
      else pure tt

  -- The warning about a user with several profiles, once an hour.
  unfoldable pub warn_ambiguous : User → Act C (Unit {0})
  unfolding warn_once
  warn_ambiguous user =
      (λ w.
        let (r, c) =
          env.cache.add w.cache (format ("mcp_sql:ambiguous_warned:" ∷ show user.pk ∷ [])) 1 3600 in
        (r, record w { cache = c }))
      >>= warn_once user

  unfoldable pub session_gate : User → Token → Profile → Act C Verdict
  unfolding reject
  session_gate user token profile =
      if env.has_session_model
      then (lift (env.live_session user) >>= λ live.
          if live
          then pure (admitted user token profile)
          else reject AuthRejectionReason.no_session
              "No active web session — re-login at the Django UI to re-issue MCP access." user
              token)
      else pure (admitted user token profile)

  unfoldable pub profile_gate : User → Token → Resolution → Act C Verdict
  unfolding reject warn_ambiguous session_gate
  profile_gate user token Resolution.no_perm =
      reject AuthRejectionReason.no_perm "User holds no MCP profile permission." user token
  profile_gate user token Resolution.ambiguous_profile =
      let message : String =
        "User is assigned to more than one MCP profile; access is denied until exactly one remains." in
      audit_rejection AuthRejectionReason.ambiguous_profile message user token
      >> (warn_ambiguous user >> raise (authentication_failed message))
  profile_gate user token (bound profile) = session_gate user token profile

  unfoldable pub mfa_gate : User → Token → Act C Verdict
  unfolding reject profile_gate
  mfa_gate user token = lift (env.mfa_checker user) >>= λ verified.
      if verified
      then (lift (resolve_profile env.profiles (env.assigned user)) >>= profile_gate user token)
      else reject no_mfa "User does not have a verified TOTP device." user token

  unfoldable pub staff_gate : User → Token → Act C Verdict
  unfolding reject mfa_gate
  staff_gate user token =
      if user.is_active && user.is_staff
      then mfa_gate user token
      else reject inactive_or_non_staff "User is not an active staff member." user token

  unfoldable pub scope_gate : User → Token → Act C Verdict
  unfolding reject staff_gate
  scope_gate user token =
      if contains token.scopes env.scope
      then staff_gate user token
      else reject bad_scope "Token does not carry the mcp:sql scope." user token

  unfoldable pub application_gate : User → Token → Act C Verdict
  unfolding reject scope_gate
  application_gate user token =
      if is_mcp_application_name env.names token.application_name
      then scope_gate user token
      else reject bad_application "Token was not issued by an mcp-sql Application." user token

  -- What follows the OAuth library's answer.
  unfoldable pub token_step : Option (User × Token) → Act C Verdict
  unfolding application_gate address
  token_step none =
      if request.authorization
      then (record_attempt env.cache (address request.remote_addr) "bad_token" env.bad_token_window
            env.bad_token_threshold
          >>= λ count. pure anonymous)
      else pure anonymous
  token_step (some (user, token)) = application_gate user token

  -- `has_auth_header and throttle.is_ip_blocked(...)`
  unfoldable pub is_blocked : Act C Bool
  unfolding address
  is_blocked =
      if request.authorization
      then is_ip_blocked env.cache (address request.remote_addr) "bad_token" env.bad_token_threshold
      else pure false

  unfoldable pub authenticate : Act C Verdict
  unfolding enforce_body_size_cap is_blocked token_step
  authenticate =
      lift (enforce_body_size_cap request)
      >> (lift (env.read_body request)
          >> (is_blocked >>= λ blocked.
              if blocked then pure anonymous else (lift (env.oauth request) >>= token_step)))
