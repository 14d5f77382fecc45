-- ===== src/Endpoint.antt =====
-- views/mcp_endpoint.py: the principal of a request, the environ that is passed on, and the tools.
pub mod Bridged
pub mod Described
mod Tests
use django_mcp_sql.Prelude.{
  ℕ, String, Bool, ◌||◌, not, Option, none, some, List, [], ◌∷◌, map, length, contains, startswith,
  str_eq, show, format, if◌then◌else◌,
}
use django_mcp_sql.Prelude.Int.{ℤ}
use django_mcp_sql.Outcome.{ToolName, Cell}
use django_mcp_sql.Raise
use django_mcp_sql.Raise.{Try, returned, raised, other_error}
use django_mcp_sql.Models.{User, Profile}
use django_mcp_sql.World.{Act, pure, lift, ◌>>=◌, ◌>>◌}
use django_mcp_sql.Dict.{put}
use django_mcp_sql.Grants.{declared_tables, values}
use django_mcp_sql.Grants.Sets.{sorted}
use django_mcp_sql.Executor.Audit.{Env, Request, audit_tool_call}
use django_mcp_sql.Executor.Pipeline
use django_mcp_sql.Fencing.{FencedQueryResult, fence_query_result}
use django_mcp_sql.Auth.{Token}

-- The WSGI environ: texts, the stream of a body, and objects of the server.
pub data Meta (Object : Type 0) : Type 0 where
  header : String → Meta Object
  body_stream : List ℕ → Meta Object
  object : Object → Meta Object

-- `_WSGI_ENVIRON_ALLOWLIST`
abbrev pub wsgi_environ_allowlist : List String
wsgi_environ_allowlist =
    "REQUEST_METHOD" ∷ "SCRIPT_NAME" ∷ "PATH_INFO" ∷ "QUERY_STRING" ∷ "CONTENT_TYPE"
    ∷ "CONTENT_LENGTH" ∷ "SERVER_NAME" ∷ "SERVER_PORT" ∷ "SERVER_PROTOCOL" ∷ "REMOTE_ADDR"
    ∷ "HTTP_HOST" ∷ "HTTP_ACCEPT" ∷ "HTTP_MCP_SESSION_ID" ∷ "HTTP_LAST_EVENT_ID" ∷ []

unfoldable pub is_forwarded : String → Bool
is_forwarded key = contains wsgi_environ_allowlist key || startswith key "wsgi."

module _ {Object : Type 0} where
  unfoldable pub forwarded : List (String × Meta Object) → List (String × Meta Object)
  forwarded [] = []
  forwarded ((key, value) ∷ rest) =
      let later = forwarded rest in if is_forwarded key then (key, value) ∷ later else later

  -- The environ of `_invoke_wsgi_app`.
  unfoldable pub bridged_environ :
      List (String × Meta Object) → List ℕ → List (String × Meta Object)
  unfolding forwarded
  bridged_environ meta body = put "PATH_INFO" (header "/mcp") (
      put "SCRIPT_NAME" (header "/mcp/sql") (
        put "CONTENT_LENGTH" (header (show (length body)))
          (put "wsgi.input" (body_stream body) (forwarded meta))))

-- What the tools are closed over.
pub record Principal : Type 0 where
  pub user : User
  pub profile : Profile
  pub token_id : String
  pub client_ip : Option String
  pub client_redirect : String

token_id_of : Option Token → String
token_id_of none = ""
token_id_of (some token) = token.pk

client_redirect_of : Option Token → String
client_redirect_of none = ""
client_redirect_of (some token) = token.redirect_uris

-- What `mcp_endpoint` reads of the request: `request.user`, `request.auth`, `REMOTE_ADDR` and
-- `mcp_profile`. A token without redirect URIs has an empty text.
unfoldable pub principal_of : User → Option Token → Option String → Option Profile → Try Principal
unfolding token_id_of client_redirect_of
principal_of user token client_ip none = raised (
    other_error
      "request.mcp_profile is not set — it is bound by MCPOAuth2Authentication.authenticate, which must front this view")
principal_of user token client_ip (some profile) = returned (record {
  user = user;
  profile = profile;
  token_id = token_id_of token;
  client_ip = client_ip;
  client_redirect = client_redirect_of token;
})

-- A field of a Django model: its name, the name of its class, and two of its flags.
pub record Field : Type 0 where
  pub name : String
  pub class_name : String
  pub null : Bool
  pub primary_key : Bool

-- `ColumnInfo`
pub record ColumnInfo : Type 0 where
  pub class_name : String
  pub null : Bool
  pub primary_key : Bool

-- `TableDescription | ToolError`
pub data Description : Type 0 where
  table_description : List (String × ColumnInfo) → Description
  tool_error : String → Description

unfoldable pub columns_of : List Field → List (String × ColumnInfo) → List (String × ColumnInfo)
columns_of [] out = out
columns_of (f ∷ fields) out = columns_of fields (
    put f.name (record { class_name = f.class_name; null = f.null; primary_key = f.primary_key })
      out)

-- `next(label for label, t in tables.items() if t == name)`
unfoldable pub label_of_table : List (String × String) → String → Option String
label_of_table [] name = none
label_of_table ((label, t) ∷ tables) name =
    let later = label_of_table tables name in if str_eq t name then some label else later

-- `model_fields` is `apps.get_model(label)._meta.fields`, `repr` that of a text, `dumps` and `fence_id`
-- what the fence takes.
pub record Site : Type 0 where
  pub model_fields : String → Try (List Field)
  pub repr : String → String
  pub dumps : List (List Cell) → String
  pub fence_id : String

-- The tools that `_build_mcp_server` closes over a principal.
module _ {Node C : Type 0} (env : Env Node C) (site : Site) (p : Principal) where
  abbrev pub request_of : String → Option ℤ → Request
  request_of sql limit = record {
    user = p.user;
    profile = p.profile;
    raw_sql = sql;
    limit = limit;
    token_id = p.token_id;
    client_ip = p.client_ip;
    client_redirect = p.client_redirect;
  }

  unfoldable pub list_tables : Act C (List String)
  list_tables = lift (declared_tables env.table_of p.profile) >>= λ tables.
      audit_tool_call env (request_of "" none) ToolName.list_tables ""
      >> pure (sorted (values tables))

  unfoldable pub described : Option String → Act C Description
  described none = lift (raised (other_error ""))
  described (some label) =
      lift (site.model_fields label) >>= λ fields. pure (table_description (columns_of fields []))

  unfoldable pub described_or_missed : List (String × String) → String → Act C Description
  unfolding described
  described_or_missed tables name =
      if not (contains (values tables) name)
      then pure (tool_error (format ("Table '" ∷ name ∷ "' is not on the MCP whitelist." ∷ [])))
      else described (label_of_table tables name)

  unfoldable pub describe_table : String → Act C Description
  unfolding described_or_missed
  describe_table name = lift (declared_tables env.table_of p.profile) >>= λ tables.
      audit_tool_call env (request_of "" none) ToolName.describe_table
        (format ("describe_table(" ∷ site.repr name ∷ ")" ∷ []))
      >> described_or_missed tables name

  unfoldable pub run_query : String → Option ℤ → Act C FencedQueryResult
  run_query sql limit = Pipeline.run_query env (request_of sql limit) >>= λ result.
      pure (fence_query_result site.dumps site.fence_id result)
