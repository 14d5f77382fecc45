-- ===== src/Conf/Accessor/Tests.antt =====
-- conf.py: the settings change between two reads of the cloud clients.
use django_mcp_sql.Prelude.{ℕ, String, List, [], ◌∷◌}
use django_mcp_sql.Raise.{returned}
use django_mcp_sql.Models.{no_context}
use django_mcp_sql.Validation.Settings.{CloudClientEntry}
use django_mcp_sql.Conf.Accessor.{
  Setting, text, client_entries, referent, Imports, initial, Event, read, read_profiles,
  read_clients, setting_changed, steps,
}
use django_mcp_sql.Conf.Accessor.Coherent.{ReadsAnew, steps-ReadsAnew}

abbrev imports : Imports ℕ
imports = record {
  import_setting = λ path. returned (referent 1);
  import_hook = λ path. returned (λ user. returned no_context);
  shown = λ v. "";
}

abbrev claude : CloudClientEntry
claude = record {
  name = "claude";
  redirect_match = "exact";
  redirect_uri = "https://claude.ai/api/mcp/auth_callback";
}

abbrev user_cfg : List (String × Setting ℕ)
user_cfg = ("CLOUD_CLIENTS", client_entries (claude ∷ [])) ∷ []

abbrev events : List (Event ℕ)
events =
    read "MFA_CHECKER"
    ∷ read_profiles
    ∷ read_clients
    ∷ setting_changed "MCP_SQL" (("APPLICATION_NAME_PREFIX", text "sql-") ∷ user_cfg)
    ∷ read_clients
    ∷ setting_changed "DEBUG" []
    ∷ read "DB_ALIAS"
    ∷ []

steps-ReadsAnew_example :
    ReadsAnew imports (steps imports events (record { user_cfg = user_cfg; accessor = initial }))
steps-ReadsAnew_example = steps-ReadsAnew imports user_cfg events
