-- ===== src/Conf/Accessor.antt =====
-- conf.py: the accessor of the settings, `MCPSQLSettings`, with what it keeps.
pub mod Kept
pub mod Coherent
mod Tests
use django_mcp_sql.Prelude.{
  String, Bool, Option, none, some, List, [], ◌∷◌, contains, str_eq, is_empty, format,
  if◌then◌else◌,
}
use django_mcp_sql.Prelude.Int.{ℤ}
use django_mcp_sql.Raise.{Try, returned, raised, other_error, ◌>>=◌}
use django_mcp_sql.Models.{User, HookResult, Profile}
use django_mcp_sql.Dict.{get, put}
use django_mcp_sql.Validation.Settings.{ProfileEntry, CloudClientEntry}
use django_mcp_sql.Conf.Clouds
use django_mcp_sql.Conf.Clouds.{CloudClient}

abbrev pub Hook : Type 0
Hook = User → Try HookResult

-- The value of a setting; `referent` is what a dotted path refers to.
pub data Setting (Object : Type 0) : Type 0 where
  absent : Setting Object
  text : String → Setting Object
  profile_entries : List (String × ProfileEntry) → Setting Object
  client_entries : List CloudClientEntry → Setting Object
  referent : Object → Setting Object

-- `import_string`, of a setting and of the path of a hook, and `str` of a setting that is no text.
pub record Imports (Object : Type 0) : Type 0 where
  pub import_setting : Setting Object → Try (Setting Object)
  pub import_hook : String → Try Hook
  pub shown : Setting Object → String

-- `IMPORT_STRINGS`
abbrev pub import_strings : List String
import_strings = "MFA_CHECKER" ∷ []

pub record Accessor (Object : Type 0) : Type 0 where
  pub cached : List (String × Setting Object)
  pub cached_profiles : Option (List (String × Profile))
  pub cached_clients : Option (List (String × CloudClient))

module _ {Object : Type 0} where
  -- `DEFAULTS`
  abbrev pub defaults : List (String × Setting Object)
  defaults =
      ("RESOURCE_NAME", text "MCP SQL")
      ∷ ("MFA_CHECKER", text "mcp_sql.conf.deny_unconfigured_mfa")
      ∷ ("SESSION_MODEL", absent)
      ∷ ("APPLICATION_NAME", text "mcp-sql")
      ∷ ("APPLICATION_NAME_PREFIX", text "mcp-sql-")
      ∷ ("SCOPE", text "mcp:sql")
      ∷ ("DB_ALIAS", text "mcp_readonly")
      ∷ (
        "PROFILES",
        profile_entries (
            (
              "default",
              record {
                role = "mcp_readonly_role";
                permission_codename = "use_mcp_session";
                group_name = "mcp_sql_users";
                allowed_models = [];
                session_context = none;
              },
            )
            ∷ []),
      )
      ∷ ("CLOUD_CLIENTS", client_entries [])
      ∷ []

  -- `__init__`, and `reload`
  abbrev pub initial : Accessor Object
  initial = record { cached = []; cached_profiles = none; cached_clients = none }

  given_or : Option (Setting Object) → Setting Object → Setting Object
  given_or none default = default
  given_or (some v) default = v

module _ {Object : Type 0} (env : Imports Object) (user_cfg : List (String × Setting Object)) where
  -- `user_cfg.get(name, DEFAULTS[name])`, and what its dotted path refers to.
  unfoldable pub value_of : String → Setting Object → Try (Setting Object)
  unfolding given_or
  value_of name default =
      let raw = given_or (get user_cfg name) default in
      if contains import_strings name then env.import_setting raw else returned raw

  -- `cached[name] = value`
  unfoldable pub keep :
      String → Accessor Object → Try (Setting Object) → Try (Setting Object) × Accessor Object
  keep name acc (raised e) = (raised e, acc)
  keep name acc (returned value) =
      (returned value, record acc { cached = put name value acc.cached })

  unfoldable pub cached_or :
      String
      → Setting Object
      → Accessor Object
      → Option (Setting Object)
      → Try (Setting Object) × Accessor Object
  unfolding value_of keep
  cached_or name default acc (some value) = (returned value, acc)
  cached_or name default acc none = keep name acc (value_of name default)

  unfoldable pub known_or_refused :
      String → Accessor Object → Option (Setting Object) → Try (Setting Object) × Accessor Object
  unfolding cached_or
  known_or_refused name acc none =
      (raised (other_error (format ("Unknown MCP_SQL setting: '" ∷ name ∷ "'" ∷ []))), acc)
  known_or_refused name acc (some default) = cached_or name default acc (get acc.cached name)

  -- `__getattr__`
  unfoldable pub getattr : String → Accessor Object → Try (Setting Object) × Accessor Object
  unfolding known_or_refused
  getattr name acc = known_or_refused name acc (get defaults name)

  hook_of : Option String → Try (Option Hook)
  hook_of none = returned none
  hook_of (some path) =
      if is_empty path then returned none else env.import_hook path >>= λ hook. returned (some hook)

  -- The loop that fills the mapping, `built`.
  unfoldable pub build_profiles :
      List (String × Profile) → List (String × ProfileEntry) → Try (List (String × Profile))
  unfolding hook_of
  build_profiles built [] = returned built
  build_profiles built ((name, entry) ∷ rest) = hook_of entry.session_context >>= λ hook.
      build_profiles
        (put name
          (record {
            name = name;
            role = entry.role;
            codename = entry.permission_codename;
            group_name = entry.group_name;
            allowed_models = entry.allowed_models;
            session_context = hook;
          })
          built)
        rest

  -- `raw.items()`. A value of a type that validation.py does not admit is taken to raise, here and below.
  unfoldable pub profiles_from : Setting Object → Try (List (String × Profile))
  profiles_from (profile_entries entries) = build_profiles [] entries
  profiles_from v = raised (other_error "AttributeError")

  -- `user_cfg.get(name, default)`, unresolved.
  unfoldable pub raw_or : String → Setting Object → Setting Object
  unfolding given_or
  raw_or name default = given_or (get user_cfg name) default

  default_profiles : Setting Object
  default_profiles = given_or (get defaults "PROFILES") absent

  unfoldable pub keep_profiles :
      Accessor Object
      → Try (List (String × Profile))
      → Try (List (String × Profile)) × Accessor Object
  keep_profiles acc (raised e) = (raised e, acc)
  keep_profiles acc (returned built) = (returned built, record acc { cached_profiles = some built })

  unfoldable pub profiles_or :
      Accessor Object
      → Option (List (String × Profile))
      → Try (List (String × Profile)) × Accessor Object
  unfolding keep_profiles profiles_from raw_or default_profiles
  profiles_or acc (some built) = (returned built, acc)
  profiles_or acc none = keep_profiles acc (profiles_from (raw_or "PROFILES" default_profiles))

  unfoldable pub profiles : Accessor Object → Try (List (String × Profile)) × Accessor Object
  unfolding profiles_or
  profiles acc = profiles_or acc acc.cached_profiles

  -- The text that stands in an f-string.
  unfoldable pub prefix_text : Setting Object → String
  prefix_text (text s) = s
  prefix_text v = env.shown v

  unfoldable pub clients_from : String → Setting Object → Try (List (String × CloudClient))
  clients_from prefix (client_entries entries) = returned (Clouds.cloud_clients prefix entries)
  clients_from prefix v = raised (other_error "TypeError")

  unfoldable pub keep_clients :
      Accessor Object
      → Try (List (String × CloudClient))
      → Try (List (String × CloudClient)) × Accessor Object
  keep_clients acc (raised e) = (raised e, acc)
  keep_clients acc (returned built) = (returned built, record acc { cached_clients = some built })

  unfoldable pub with_prefix :
      Try (Setting Object) × Accessor Object → Try (List (String × CloudClient)) × Accessor Object
  unfolding keep_clients clients_from prefix_text raw_or
  with_prefix (raised e, acc) = (raised e, acc)
  with_prefix (returned prefix, acc) =
      keep_clients acc
        (clients_from (prefix_text prefix) (raw_or "CLOUD_CLIENTS" (client_entries [])))

  unfoldable pub clients_or :
      Accessor Object
      → Option (List (String × CloudClient))
      → Try (List (String × CloudClient)) × Accessor Object
  unfolding with_prefix
  clients_or acc (some built) = (returned built, acc)
  clients_or acc none = with_prefix (getattr "APPLICATION_NAME_PREFIX" acc)

  unfoldable pub cloud_clients :
      Accessor Object → Try (List (String × CloudClient)) × Accessor Object
  unfolding clients_or
  cloud_clients acc = clients_or acc acc.cached_clients

-- What happens between two reads: a read by name, one of the two mappings, or the signal
-- `setting_changed` of a setting, with the new `MCP_SQL` where it is that.
pub data Event (Object : Type 0) : Type 0 where
  read : String → Event Object
  read_profiles read_clients : Event Object
  setting_changed : String → List (String × Setting Object) → Event Object

-- `settings.MCP_SQL`, and the accessor.
pub record Store (Object : Type 0) : Type 0 where
  pub user_cfg : List (String × Setting Object)
  pub accessor : Accessor Object

module _ {Object : Type 0} (env : Imports Object) where
  unfoldable pub step : Event Object → Store Object → Store Object
  step (read name) s = record s { accessor = (getattr env s.user_cfg name s.accessor).1 }
  step read_profiles s = record s { accessor = (profiles env s.user_cfg s.accessor).1 }
  step read_clients s = record s { accessor = (cloud_clients env s.user_cfg s.accessor).1 }
  -- `_reload_on_setting_changed`
  step (setting_changed setting user_cfg) s =
      if str_eq setting "MCP_SQL" then record { user_cfg = user_cfg; accessor = initial } else s

  unfoldable pub steps : List (Event Object) → Store Object → Store Object
  unfolding step
  steps [] s = s
  steps (event ∷ rest) s = steps rest (step event s)
