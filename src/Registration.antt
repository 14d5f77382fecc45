-- ===== src/Registration.antt =====
-- views/registration.py: the dynamic registration of a client.
pub mod Metadata
pub mod WellFormed
pub mod Joined
pub mod Rows
mod Tests
use django_mcp_sql.Prelude.{
  ℕ, String, Bool, true, false, Option, none, some, List, [], ◌∷◌, ◌++◌, format,
}
use django_mcp_sql.Raise.{Try, returned, raised}
use django_mcp_sql.Caching.{Cache}
use django_mcp_sql.World.{World}
use django_mcp_sql.Throttle.{is_ip_blocked, record_attempt}
use django_mcp_sql.Auth.{address}
use django_mcp_sql.Urls.{Urls}
use django_mcp_sql.Registration.Metadata.{Value, Body, Checked, refused, accepted, check_body}

-- A row of the OAuth library's `Application`.
pub record Application : Type 0 where
  pub name : String
  pub client_id : String
  pub client_secret : String
  pub client_type : String
  pub authorization_grant_type : String
  pub skip_authorization : Bool
  pub redirect_uris : String
  pub algorithm : String

-- What is answered: `_error` with its code and its description (400), or the body of
-- `_registration_response` (201), whose other fields are constants.
pub data Response : Type 0 where
  error_ : String → String → Response
  created :
      (client_id : String)
      → (issued_at : ℕ) → (client_name : Value) → (redirect_uris : List String) → Response

-- The state that a registration changes.
pub record Office (C : Type 0) : Type 0 where
  pub world : World C
  pub applications : List Application

-- The settings and the services that the view calls.
pub record Registrar (C : Type 0) : Type 0 where
  pub cache : Cache C
  pub urls : Urls
  pub prefix : String
  pub threshold : ℕ
  pub window : ℕ
  -- the INSERT of `Application.objects.create`
  pub create : List Application → Application → Try (Unit {0})

-- One request: its address and its body, which `json.loads` gives as `none` where it raises
-- JSONDecodeError; and what `secrets.token_urlsafe(16)` and the clock give while it is served.
pub record RegisterRequest : Type 0 where
  pub remote_addr : Option String
  pub body : Try (Option Body)
  pub token : String
  pub now : ℕ

-- `" ".join(redirect_uris)`
unfoldable pub joined_uris : List String → String
joined_uris [] = ""
joined_uris (s ∷ []) = s
joined_uris (s ∷ t ∷ rest) = format (s ∷ " " ∷ joined_uris (t ∷ rest) ∷ [])

-- The row of a new client.
abbrev pub application : String → List String → Application
application client_id redirect_uris = record {
  name = client_id;
  client_id = client_id;
  client_secret = "";
  client_type = "public";
  authorization_grant_type = "authorization-code";
  skip_authorization = false;
  redirect_uris = joined_uris redirect_uris;
  algorithm = "";
}

module _ {C : Type 0} (env : Registrar C) (request : RegisterRequest) where
  abbrev pub client_id : String
  client_id = format (env.prefix ∷ request.token ∷ [])

  abbrev pub registration_response : List String → Value → Response
  registration_response uris client_name = created client_id request.now client_name uris

  unfoldable pub answered : Response → Try ℕ → Try Response
  answered response (returned count) = returned response
  answered response (raised e) = raised e

  -- What follows the INSERT.
  unfoldable pub created_step :
      List String → Response → Try (Unit {0}) → Office C → Try Response × Office C
  unfolding answered address
  created_step uris response (raised e) office = (raised e, office)
  created_step uris response (returned u) office =
      let (count, w) =
        record_attempt env.cache (address request.remote_addr) "register" env.window env.threshold
          office.world in
      (
        answered response count,
        record { world = w; applications = office.applications ++ application client_id uris ∷ [] },
      )

  -- What follows the read of the counter.
  unfoldable pub block_step : List String → Response → Try Bool → Office C → Try Response × Office C
  unfolding created_step
  block_step uris response (raised e) office = (raised e, office)
  block_step uris response (returned true) office = (returned response, office)
  block_step uris response (returned false) office =
      created_step uris response (env.create office.applications (application client_id uris))
        office

  unfoldable pub checked_step : Try Checked → Office C → Try Response × Office C
  unfolding block_step address
  checked_step (raised e) office = (raised e, office)
  checked_step (returned (refused code description)) office =
      (returned (error_ code description), office)
  checked_step (returned (accepted uris client_name)) office =
      let (blocked, w) =
        is_ip_blocked env.cache (address request.remote_addr) "register" env.threshold
          office.world in
      block_step uris (registration_response uris client_name) blocked (record office { world = w })

  unfoldable pub register_client : Office C → Try Response × Office C
  unfolding checked_step
  register_client office = checked_step (check_body env.urls request.body) office
