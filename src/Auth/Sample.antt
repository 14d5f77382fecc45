-- ===== src/Auth/Sample.antt =====
-- auth.py: a gatekeeper and a request for the tests.
use django_mcp_sql.Prelude.{true, some, [], ◌∷◌}
use django_mcp_sql.Prelude.Int.{pos}
use django_mcp_sql.Raise.{returned}
use django_mcp_sql.Models.{Profile}
use django_mcp_sql.Caching.Memory.{Memory, memory}
use django_mcp_sql.Executor.Sample.{sample_user, sample_request}
use django_mcp_sql.Decorators.{declared}
use django_mcp_sql.Auth.{Token, HttpRequest, Gatekeeper}

abbrev pub analyst : Profile
analyst = sample_request.profile

abbrev pub sample_token : Token
sample_token = record {
  pk = "1";
  application_name = "mcp-sql";
  redirect_uris = "http://localhost/callback";
  scopes = "mcp:sql" ∷ [];
}

abbrev pub gatekeeper : Gatekeeper Memory
gatekeeper = record {
  cache = memory;
  names = record {
    application_name = "mcp-sql";
    application_name_prefix = "mcp-sql-";
    cloud_clients = [];
  };
  scope = "mcp:sql";
  bad_token_threshold = 20;
  bad_token_window = 600;
  read_body = λ request. returned tt;
  oauth = λ request. returned (some (sample_user, sample_token));
  mfa_checker = λ user. returned true;
  profiles = analyst ∷ [];
  assigned = λ user. "use_mcp_analyst" ∷ "use_mcp_analyst" ∷ [];
  has_session_model = true;
  live_session = λ user. returned true;
  insert = λ rows row. returned tt;
  now = 0;
}

abbrev pub http_request : HttpRequest
http_request = record {
  content_length = declared (pos 120);
  authorization = true;
  remote_addr = some "203.0.113.5";
}
