-- ===== src/Validation/Profiles.antt =====
-- validation.py: the profiles, one by one and against each other.
pub mod Registry
pub mod Unique
pub mod Accepted
use django_mcp_sql.Prelude.{
  String, not, Option, none, some, List, [], ◌∷◌, contains, is_empty, format, if◌then◌else◌,
}
use django_mcp_sql.Raise.{
  improperly_configured, import_error, Try, returned, raised, ◌>>=◌, ◌>>◌, for_each, raise_if,
}
use django_mcp_sql.Validation.Settings.{ProfileEntry, is_model_ref, is_pg_identifier}
use django_mcp_sql.Validation.Profiles.Registry.{check_field}

-- `_RESERVED_CODENAMES`
abbrev pub reserved_codenames : List String
reserved_codenames =
    "add_mcpquerylog" ∷ "change_mcpquerylog" ∷ "delete_mcpquerylog" ∷ "view_mcpquerylog" ∷ []

-- One round of the loop over ALLOWED_MODELS.
unfoldable pub check_model_ref : String → String → Try (Unit {0})
check_model_ref name model_entry = raise_if (not (is_model_ref model_entry)) (
    improperly_configured (
      format (
        "MCP_SQL.PROFILES['" ∷ name ∷ "'].ALLOWED_MODELS entry '" ∷ model_entry
        ∷ "' must match 'app_label.ModelName'" ∷ [])))

-- The values seen so far, for each of the three fields, with the profile that has them.
pub record Seen : Type 0 where
  pub roles : List (String × String)
  pub codenames : List (String × String)
  pub groups : List (String × String)

abbrev pub extended : String → ProfileEntry → Seen → Seen
extended name entry seen = record {
  roles = (entry.role, name) ∷ seen.roles;
  codenames = (entry.permission_codename, name) ∷ seen.codenames;
  groups = (entry.group_name, name) ∷ seen.groups;
}

-- The inner loop over the three fields.
unfoldable pub check_fields : String → ProfileEntry → Seen → Try Seen
check_fields name entry seen = check_field name "ROLE" entry.role seen.roles >>= λ roles.
    check_field name "PERMISSION_CODENAME" entry.permission_codename seen.codenames >>= λ codenames.
    check_field name "GROUP_NAME" entry.group_name seen.groups >>= λ groups.
    returned (record { roles = roles; codenames = codenames; groups = groups })

-- The `except ImportError` clause.
unfoldable pub imported : String → String → Try (Unit {0}) → Try (Unit {0})
imported name path (returned u) = returned tt
imported name path (raised (import_error m)) = raised (
    improperly_configured (
      format (
        "MCP_SQL.PROFILES['" ∷ name ∷ "'].SESSION_CONTEXT '" ∷ path ∷ "' does not import: " ∷ m
        ∷ [])))
imported name path (raised e) = raised e

-- `import_string` is Django's; what it imports is not used here.
module _ (import_string : String → Try (Unit {0})) where
  unfoldable pub check_session_context : String → Option String → Try (Unit {0})
  unfolding imported
  check_session_context name none = returned tt
  check_session_context name (some path) =
      if is_empty path then returned tt else imported name path (import_string path)

  unfoldable pub validate_profile_entry : String → ProfileEntry → Try (Unit {0})
  unfolding check_session_context check_model_ref
  validate_profile_entry name entry =
      raise_if (not (is_pg_identifier entry.role)) (
        improperly_configured (
          format (
            "MCP_SQL.PROFILES['" ∷ name ∷ "'].ROLE '" ∷ entry.role
            ∷ "' must be a valid unquoted Postgres identifier (letters, digits, underscores; not starting with a digit)"
            ∷ [])))
      >> (raise_if (contains reserved_codenames entry.permission_codename) (
            improperly_configured (
              format (
                "MCP_SQL.PROFILES['" ∷ name ∷ "'].PERMISSION_CODENAME '" ∷ entry.permission_codename
                ∷ "' collides with a Django default model permission on the mcpquerylog content type — provisioning would adopt the existing permission row and silently bind its current holders to this MCP tier"
                ∷ [])))
          >> (check_session_context name entry.session_context
              >> for_each entry.allowed_models (check_model_ref name)))

  unfoldable pub profiles_loop : Seen → List (String × ProfileEntry) → Try (Unit {0})
  unfolding check_fields validate_profile_entry
  profiles_loop seen [] = returned tt
  profiles_loop seen ((name, entry) ∷ rest) = check_fields name entry seen >>= λ now.
      validate_profile_entry name entry >> profiles_loop now rest

  unfoldable pub validate_profiles : List (String × ProfileEntry) → Try (Unit {0})
  unfolding profiles_loop
  validate_profiles [] =
      raised (improperly_configured "MCP_SQL.PROFILES must declare at least one profile")
  validate_profiles (p ∷ rest) =
      profiles_loop (record { roles = []; codenames = []; groups = [] }) (p ∷ rest)
