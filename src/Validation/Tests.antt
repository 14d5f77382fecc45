-- ===== src/Validation/Tests.antt =====
-- validation.py: settings to which the theorems apply.
use django_mcp_sql.Prelude.{◌≡◌, refl, ◌↔◌, contains, format, none, some, [], ◌∷◌}
use django_mcp_sql.Prelude.Int.{pos}
use django_mcp_sql.Raise.{value_error, Try, returned, raised, for_each, improperly_configured}
use django_mcp_sql.Urls.{Url, Urls, has_char, endswith_char}
use django_mcp_sql.Validation.Numbers.{not_supported, at_most_zero, greater}
use django_mcp_sql.Validation.Thresholds.{validate_volume_alert_thresholds}
use django_mcp_sql.Validation.Profiles.{validate_profiles}
use django_mcp_sql.Validation.Profiles.Registry.{check_field}
use django_mcp_sql.Validation.Clouds.{validate_cloud_clients}
use django_mcp_sql.Validation.Settings.{
  McpSqlSettings, number, text, ProfileEntry, CloudClientEntry, is_pg_identifier, is_model_ref,
  is_slug,
}
use django_mcp_sql.Validation.Startup.{
  IsValid, validate_mcp_sql_settings, validate_mcp_sql_settings_iff,
}
use django_mcp_sql.Validation.Raised.{Stops, validate_mcp_sql_settings_raises}

abbrev callback : Url
callback = record {
  scheme = "https";
  username = none;
  password = none;
  hostname = some "chatgpt.com";
  port = returned none;
  path = "/connector/oauth/";
}

abbrev sample_urls : Urls
sample_urls = record { urlparse = λ uri. returned callback; unquote = λ s. s }

-- Here `urlparse` refuses the text, as for an open bracket in the host.
abbrev strict_urls : Urls
strict_urls = record { urlparse = λ uri. raised (value_error "Invalid IPv6 URL"); unquote = λ s. s }

abbrev analyst : ProfileEntry
analyst = record {
  role = "mcp_analyst";
  permission_codename = "use_mcp_analyst";
  group_name = "MCP analysts";
  allowed_models = "app.User" ∷ [];
  session_context = some "app.mcp.context";
}

abbrev support : ProfileEntry
support = record analyst {
  role = "mcp_support";
  permission_codename = "use_mcp_support";
  group_name = "MCP support";
}

abbrev chatgpt : CloudClientEntry
chatgpt = record {
  name = "chatgpt";
  redirect_match = "prefix";
  redirect_uri = "https://chatgpt.com/connector/oauth/";
}

abbrev settings : McpSqlSettings
settings = record {
  profiles = ("analyst", analyst) ∷ ("support", support) ∷ [];
  limits =
      ("DEFAULT_LIMIT", number (pos 100))
      ∷ ("HARD_LIMIT", number (pos 1000))
      ∷ ("BYTES_LIMIT", number (pos 500000))
      ∷ [];
  volume_alert_thresholds = ("allowed", (number (pos 60), number (pos 30)) ∷ []) ∷ [];
  bad_token_ip_threshold = number (pos 20);
  bad_token_ip_window_seconds = number (pos 600);
  cloud_clients = chatgpt ∷ [];
}

abbrev run : Urls → McpSqlSettings → Try (Unit {0})
run urls =
    validate_mcp_sql_settings (λ cfg. returned tt) (λ path. returned tt) urls
      ("http" ∷ "https" ∷ [])

settings_pass : run sample_urls settings ≡ returned tt
unfolding validate_mcp_sql_settings at_most_zero greater for_each validate_volume_alert_thresholds
    contains validate_profiles check_field is_pg_identifier is_model_ref validate_cloud_clients
    is_slug has_char endswith_char
settings_pass = refl

-- The second profile under the role of the first.
same_role_fails :
    run sample_urls (record settings {
      profiles = ("analyst", analyst) ∷ ("support", record support { role = "mcp_analyst" }) ∷ [];
    })
    ≡ raised (
        improperly_configured
          "MCP_SQL.PROFILES['support'].ROLE 'mcp_analyst' is also used by profile 'analyst'; ROLE must be unique across profiles")
unfolding validate_mcp_sql_settings at_most_zero greater for_each validate_volume_alert_thresholds
    contains validate_profiles check_field is_pg_identifier is_model_ref format
same_role_fails = refl

validate_mcp_sql_settings_iff_example :
    (run sample_urls settings ≡ returned tt)
    ↔ IsValid
        (λ cfg. returned tt)
        (λ path. returned tt)
        sample_urls
        ("http" ∷ "https" ∷ [])
        settings
validate_mcp_sql_settings_iff_example =
    validate_mcp_sql_settings_iff (λ cfg. returned tt) (λ path. returned tt) sample_urls
      ("http" ∷ "https" ∷ []) settings

-- A limit that is a text, which the library's check lets pass.
text_escapes :
    run sample_urls (record settings { limits = ("DEFAULT_LIMIT", text "100") ∷ [] })
    ≡ raised (not_supported "<=" "str" "int")
unfolding validate_mcp_sql_settings at_most_zero for_each
text_escapes = refl

bracket_escapes : run strict_urls settings ≡ raised (value_error "Invalid IPv6 URL")
unfolding validate_mcp_sql_settings at_most_zero greater for_each validate_volume_alert_thresholds
    contains validate_profiles check_field is_pg_identifier is_model_ref validate_cloud_clients
    is_slug has_char endswith_char
bracket_escapes = refl

validate_mcp_sql_settings_raises_example :
    Stops (λ path. returned tt) strict_urls (value_error "Invalid IPv6 URL")
validate_mcp_sql_settings_raises_example =
    validate_mcp_sql_settings_raises (λ path. returned tt) strict_urls (λ cfg. returned tt)
      ("http" ∷ "https" ∷ []) settings (value_error "Invalid IPv6 URL") bracket_escapes
