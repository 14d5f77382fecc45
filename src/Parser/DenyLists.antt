-- ===== src/Parser/DenyLists.antt =====
-- parser.py: the names that the checks refuse.
use django_mcp_sql.Prelude.{String, List, [], ◌∷◌}

-- `DENIED_FUNCTIONS_EXACT`
abbrev pub denied_functions_exact : List String
denied_functions_exact =
    "copy" ∷ "current_setting" ∷ "set_config" ∷ "dblink" ∷ "query_to_xml" ∷ "query_to_xmlschema"
    ∷ "query_to_xml_and_xmlschema" ∷ "table_to_xml" ∷ "table_to_xmlschema"
    ∷ "table_to_xml_and_xmlschema" ∷ "cursor_to_xml" ∷ "cursor_to_xmlschema" ∷ "version"
    ∷ "current_version" ∷ "current_database" ∷ "current_schema" ∷ "current_schemas" ∷ "current_user"
    ∷ "session_user" ∷ "user" ∷ "current_role" ∷ "current_catalog" ∷ "inet_server_addr"
    ∷ "inet_server_port" ∷ "inet_client_addr" ∷ "inet_client_port" ∷ "txid_current"
    ∷ "txid_current_snapshot" ∷ "row_security_active" ∷ "nextval" ∷ "setval" ∷ "currval" ∷ []

-- `DENIED_BARE_KEYWORDS`
abbrev pub denied_bare_keywords : List String
denied_bare_keywords =
    "current_user" ∷ "session_user" ∷ "user" ∷ "current_role" ∷ "current_catalog" ∷ "current_schema"
    ∷ "current_database" ∷ []

-- `DENIED_FUNCTIONS_PREFIX`
abbrev pub denied_functions_prefix : List String
denied_functions_prefix = "dblink_" ∷ "lo_" ∷ "pg_" ∷ "has_" ∷ []

-- `DENIED_SRF_FUNCTIONS`
abbrev pub denied_srf_functions : List String
denied_srf_functions =
    "generate_subscripts" ∷ "regexp_split_to_table" ∷ "regexp_matches" ∷ "json_array_elements"
    ∷ "json_array_elements_text" ∷ "jsonb_array_elements" ∷ "jsonb_array_elements_text"
    ∷ "json_each" ∷ "json_each_text" ∷ "jsonb_each" ∷ "jsonb_each_text" ∷ "json_object_keys"
    ∷ "jsonb_object_keys" ∷ "json_to_recordset" ∷ "jsonb_to_recordset" ∷ "json_populate_recordset"
    ∷ "jsonb_populate_recordset" ∷ []

-- `SYSTEM_SCHEMAS`
abbrev pub system_schemas : List String
system_schemas = "pg_catalog" ∷ "information_schema" ∷ []
