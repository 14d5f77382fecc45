-- ===== src/Issuance.antt =====
-- views/oauth_authorize.py: the gate in front of the consent page.
pub mod Same
mod Tests
use django_mcp_sql.Prelude.{ℕ, String, Bool, true, false, ◌&&◌, not, Option, List, if◌then◌else◌}
use django_mcp_sql.Raise.{permission_denied, Try, returned, raised, ◌>>=◌, ◌>>◌, raise_if}
use django_mcp_sql.Models.{User}
use django_mcp_sql.Conf.{Resolution, bound, resolve_profile}
use django_mcp_sql.Auth.{Gatekeeper}

-- What follows the binding of the user.
unfoldable pub outcome_step : Resolution → Try (Unit {0})
outcome_step Resolution.no_perm = raised (
    permission_denied
      "MCP SQL access requires an MCP profile assignment. Ask an administrator to add you to an MCP profile group.")
outcome_step Resolution.ambiguous_profile = raised (
    permission_denied
      "Your account is assigned to more than one MCP profile, which is not allowed. Ask an administrator to leave you in exactly one MCP profile group.")
outcome_step (bound p) = returned tt

-- The settings and the services are those of the gates at request time. (A user model without
-- `is_staff` counts as not staff.)
module _ {C : Type 0} (env : Gatekeeper C) where
  unfoldable pub enforce_gate : User → Try (Unit {0})
  unfolding outcome_step
  enforce_gate user =
      raise_if (not (user.is_active && user.is_staff)) (
        permission_denied
          "MCP SQL access requires an active staff account. Contact an administrator.")
      >> (env.mfa_checker user >>= λ verified.
          raise_if (not verified) (
            permission_denied
              "MCP SQL access requires a verified TOTP device. Set up two-factor authentication and retry.")
          >> (resolve_profile env.profiles (env.assigned user) >>= outcome_step))

  -- `dispatch`: the gate is for a user who is logged in; `super_dispatch` is the OAuth library's, which
  -- sends anyone else to the login page.
  unfoldable pub dispatch : {A : Type 0} → Bool → User → Try A → Try A
  unfolding enforce_gate
  dispatch is_authenticated user super_dispatch =
      if is_authenticated then (enforce_gate user >> super_dispatch) else super_dispatch
