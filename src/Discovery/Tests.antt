-- ===== src/Discovery/Tests.antt =====
-- views/discovery.py: the metadata of one site.
use django_mcp_sql.Prelude.{◌≡◌, refl, false, true, none, [], format}
use django_mcp_sql.Raise.{returned}
use django_mcp_sql.Urls.{Urls}
use django_mcp_sql.Oauth.{Validator}
use django_mcp_sql.Discovery.{
  Origin, AuthorizationServer, cors, server_document, issuer_of, authorization_server_metadata,
}
use django_mcp_sql.Discovery.Enforced.{IsEnforced, authorization_server_metadata-IsEnforced}

abbrev site : Origin
site = record {
  debug = false;
  resource_name = "MCP SQL";
  scope = "mcp:sql";
  scheme = "http";
  get_host = returned "example.org";
  build_absolute_uri = λ path. returned path;
  reverse = λ name. name;
}

abbrev urls : Urls
urls = record {
  urlparse = λ uri. returned (record {
    scheme = "http";
    username = none;
    password = none;
    hostname = none;
    port = returned none;
    path = "/";
  });
  unquote = λ s. s;
}

abbrev validator : Validator
validator = record {
  urls = urls;
  names = record {
    application_name = "mcp-sql";
    application_name_prefix = "mcp-sql-";
    cloud_clients = [];
  };
  scope = "mcp:sql";
  cloud_clients = [];
  super_client_id = λ client_id. returned (false, none);
  first_application = λ client_id. returned none;
  super_redirect_uri = λ client_id uri. returned false;
  super_scopes = λ client_id scopes. returned true;
}

abbrev document : AuthorizationServer
document =
    server_document site "https://example.org/o" "authorize" "token" "revoke-token"
      "oauth_dynamic_client_registration"

document_published : authorization_server_metadata site ≡ returned (cors document)
unfolding authorization_server_metadata issuer_of format
document_published = refl

authorization_server_metadata-IsEnforced_example : IsEnforced site validator urls document
authorization_server_metadata-IsEnforced_example =
    authorization_server_metadata-IsEnforced site validator urls (cors document) refl
      document_published
