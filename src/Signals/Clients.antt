-- ===== src/Signals/Clients.antt =====
-- signals.py: the rows of the cloud clients, provisioned behind `migrate`.
pub mod Rows
use django_mcp_sql.Prelude.{
  String, Bool, true, false, Option, none, some, List, [], ◌∷◌, ◌++◌, str_eq, format, if◌then◌else◌,
}
use django_mcp_sql.World.{info}
use django_mcp_sql.Conf.Clouds.{CloudClient}
use django_mcp_sql.Registration.{Application, Office}
use django_mcp_sql.Signals.Profiles.{is_own_sender, is_default_alias}

-- The row that the settings ask for.
abbrev pub cloud_row : CloudClient → Application
cloud_row client = record {
  name = client.client_id;
  client_id = client.client_id;
  client_secret = "";
  client_type = "public";
  authorization_grant_type = "authorization-code";
  skip_authorization = false;
  redirect_uris = client.redirect_uri;
  algorithm = "";
}

-- `Application.objects.update_or_create(client_id=..., defaults=...)`
unfoldable pub update_or_create : Application → List Application → List Application
update_or_create row [] = row ∷ []
update_or_create row (a ∷ rest) =
    let later = update_or_create row rest in
    if str_eq a.client_id row.client_id then row ∷ rest else a ∷ later

module _ {C : Type 0} where
  -- One round of the loop.
  unfoldable pub provision_client : CloudClient → Office C → Office C
  unfolding update_or_create
  provision_client client office =
      let w = office.world in
      record {
        world = record w {
          logs =
              w.logs
              ++ info (
                  format (
                    "MCP cloud client '" ∷ client.name ∷ "' provisioned — paste client_id '"
                    ∷ client.client_id
                    ∷ "' into your provider's connector as the OAuth Client ID (leave the secret blank); callback "
                    ∷ client.redirect_uri ∷ "." ∷ []))
                ∷ [];
        };
        applications = update_or_create (cloud_row client) office.applications;
      }

  unfoldable pub provision_clients : List CloudClient → Office C → Office C
  unfolding provision_client
  provision_clients [] office = office
  provision_clients (client ∷ rest) office = provision_clients rest (provision_client client office)

  unfoldable pub provision_mcp_cloud_clients :
      List CloudClient → Option String → Option String → Office C → Office C
  unfolding is_own_sender is_default_alias provision_clients
  provision_mcp_cloud_clients clients sender using office =
      if is_own_sender sender
      then (if is_default_alias using then provision_clients clients office else office)
      else office
