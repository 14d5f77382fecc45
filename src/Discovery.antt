-- ===== src/Discovery.antt =====
-- views/discovery.py: the two metadata documents.
pub mod Enforced
mod Tests
use django_mcp_sql.Prelude.{String, Bool, List, [], ◌∷◌, format, if◌then◌else◌}
use django_mcp_sql.Raise.{Try, returned, ◌>>=◌}

-- The settings, and what the views ask of the request; `get_host`, and with it `build_absolute_uri`,
-- raises where the host is not allowed.
pub record Origin : Type 0 where
  pub debug : Bool
  pub resource_name : String
  pub scope : String
  pub scheme : String
  pub get_host : Try String
  pub build_absolute_uri : String → Try String
  pub reverse : String → String

-- A JSON response, with the two headers of `_cors`.
pub record Published (A : Type 0) : Type 0 where
  pub body : A
  pub allow_origin : String
  pub allow_methods : String

pub record ProtectedResource : Type 0 where
  pub resource : String
  pub resource_name : String
  pub authorization_servers : List String
  pub scopes_supported : List String
  pub bearer_methods_supported : List String

pub record AuthorizationServer : Type 0 where
  pub issuer : String
  pub authorization_endpoint : String
  pub token_endpoint : String
  pub revocation_endpoint : String
  pub registration_endpoint : String
  pub scopes_supported : List String
  pub response_types_supported : List String
  pub grant_types_supported : List String
  pub code_challenge_methods_supported : List String
  pub token_endpoint_auth_methods_supported : List String
  pub revocation_endpoint_auth_methods_supported : List String

-- `_cors`
abbrev pub cors : {A : Type 0} → A → Published A
cors body = record { body = body; allow_origin = "*"; allow_methods = "GET, HEAD" }

module _ (site : Origin) where
  -- `_issuer`
  unfoldable pub issuer_of : Try String
  issuer_of = site.get_host >>= λ host.
      returned (format ((if site.debug then site.scheme else "https") ∷ "://" ∷ host ∷ "/o" ∷ []))

  abbrev pub absolute : String → Try String
  absolute name = site.build_absolute_uri (site.reverse name)

  unfoldable pub protected_resource_metadata : Try (Published ProtectedResource)
  unfolding issuer_of
  protected_resource_metadata = absolute "mcp_sql_endpoint" >>= λ resource. issuer_of >>= λ issuer.
      returned (
        cors (record {
          resource = resource;
          resource_name = site.resource_name;
          authorization_servers = issuer ∷ [];
          scopes_supported = site.scope ∷ [];
          bearer_methods_supported = "header" ∷ [];
        }))

  abbrev pub server_document : String → String → String → String → String → AuthorizationServer
  server_document issuer authorization token revocation registration = record {
    issuer = issuer;
    authorization_endpoint = authorization;
    token_endpoint = token;
    revocation_endpoint = revocation;
    registration_endpoint = registration;
    scopes_supported = site.scope ∷ [];
    response_types_supported = "code" ∷ [];
    grant_types_supported = "authorization_code" ∷ [];
    code_challenge_methods_supported = "S256" ∷ [];
    token_endpoint_auth_methods_supported = "none" ∷ [];
    revocation_endpoint_auth_methods_supported = "none" ∷ [];
  }

  unfoldable pub authorization_server_metadata : Try (Published AuthorizationServer)
  unfolding issuer_of
  authorization_server_metadata = issuer_of >>= λ issuer. absolute "authorize" >>= λ authorization.
      absolute "token" >>= λ token. absolute "revoke-token" >>= λ revocation.
      absolute "oauth_dynamic_client_registration" >>= λ registration.
      returned (cors (server_document issuer authorization token revocation registration))
