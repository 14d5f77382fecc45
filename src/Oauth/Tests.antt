-- ===== src/Oauth/Tests.antt =====
-- oauth.py: a validator to which the theorems apply.
use django_mcp_sql.Prelude.{
  String, ◌≡◌, refl, ◌↔◌, true, false, none, some, [], ◌∷◌, contains, startswith, not_contains_iff,
  str_eq, if◌then◌else◌,
}
use django_mcp_sql.Raise.{returned}
use django_mcp_sql.Urls.{Url, Urls, truthy, split, endswith_char, has_char, all_chars}
use django_mcp_sql.Dict.{get}
use django_mcp_sql.Conf.Clouds.{CloudClient}
use django_mcp_sql.Validation.Clouds.Safe.{IsSafe}
use django_mcp_sql.Oauth.{Validator, redirect_under_prefix, validate_redirect_uri}
use django_mcp_sql.Oauth.Admitted.{
  Admits, validate_redirect_uri_iff, validate_redirect_uri-confined,
}

abbrev prefix_url : Url
prefix_url = record {
  scheme = "https";
  username = none;
  password = none;
  hostname = some "chatgpt.com";
  port = returned none;
  path = "/connector/oauth/";
}

abbrev callback_url : Url
callback_url = record prefix_url { path = "/connector/oauth/a1b2" }

abbrev sample_urls : Urls
sample_urls = record {
  urlparse = λ uri.
      if str_eq uri "https://chatgpt.com/connector/oauth/"
      then returned prefix_url
      else returned callback_url;
  unquote = λ s. s;
}

abbrev chatgpt : CloudClient
chatgpt = record {
  name = "chatgpt";
  client_id = "mcp-sql-cloud.chatgpt";
  redirect_match = "prefix";
  redirect_uri = "https://chatgpt.com/connector/oauth/";
}

abbrev validator : Validator
validator = record {
  urls = sample_urls;
  names = record {
    application_name = "mcp-sql";
    application_name_prefix = "mcp-sql-";
    cloud_clients = "mcp-sql-cloud.chatgpt" ∷ [];
  };
  scope = "mcp:sql";
  cloud_clients = ("mcp-sql-cloud.chatgpt", chatgpt) ∷ [];
  super_client_id = λ client_id. returned (true, some client_id);
  first_application = λ client_id. returned none;
  super_redirect_uri = λ client_id uri. returned false;
  super_scopes = λ client_id scopes. returned true;
}

abbrev sample_uri : String
sample_uri = "https://chatgpt.com/connector/oauth/a1b2"

validate_redirect_uri_iff_example :
    (validate_redirect_uri validator "mcp-sql-cloud.chatgpt" sample_uri ≡ returned true)
    ↔ Admits validator "mcp-sql-cloud.chatgpt" sample_uri
        (get validator.cloud_clients "mcp-sql-cloud.chatgpt")
validate_redirect_uri_iff_example =
    validate_redirect_uri_iff validator "mcp-sql-cloud.chatgpt" sample_uri

admitted : validate_redirect_uri validator "mcp-sql-cloud.chatgpt" sample_uri ≡ returned true
unfolding validate_redirect_uri get redirect_under_prefix split contains endswith_char
admitted = refl

found : get validator.cloud_clients "mcp-sql-cloud.chatgpt" ≡ some chatgpt
unfolding get
found = refl

safe : IsSafe sample_urls "prefix" "https://chatgpt.com/connector/oauth/" prefix_url
unfolding has_char split contains endswith_char all_chars
safe = record {
  https = refl;
  no_username = refl;
  no_password = refl;
  host = refl;
  no_wildcard = refl;
  no_dots = (not_contains_iff ("" ∷ "connector" ∷ "oauth" ∷ "" ∷ []) "..").0 refl;
  anchored = λ p. (refl, refl);
}

validate_redirect_uri-confined_example :
    (got : Url) × (sample_urls.urlparse sample_uri ≡ returned got)
    × (got.scheme ≡ "https")
    × (truthy got.username ≡ false)
    × (truthy got.password ≡ false)
    × (got.hostname ≡ some "chatgpt.com")
    × (startswith got.path "/connector/oauth/" ≡ true)
validate_redirect_uri-confined_example =
    validate_redirect_uri-confined validator "mcp-sql-cloud.chatgpt" sample_uri chatgpt prefix_url
      found refl refl safe admitted
