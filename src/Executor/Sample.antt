-- ===== src/Executor/Sample.antt =====
-- The services, a request and a first state, for the tests.
use django_mcp_sql.Prelude.{ℕ, true, some, [], ◌∷◌}
use django_mcp_sql.Prelude.Int.{pos}
use django_mcp_sql.Raise.{returned}
use django_mcp_sql.Models.{User, mapping, name}
use django_mcp_sql.Database.{int}
use django_mcp_sql.Caching.Memory.{Memory, memory}
use django_mcp_sql.World.{World}
use django_mcp_sql.Parser.Sample.{sample_sql, sample}
use django_mcp_sql.Executor.Audit.{Env, Request}

abbrev pub sample_env : Env ℕ Memory
sample_env = record {
  ast = sample;
  cache = memory;
  db = record {
    enter = λ done. returned tt;
    leave = λ done. returned tt;
    execute = λ done s. returned tt;
    fetchall = λ done. returned ((int (pos 3) ∷ []) ∷ []);
    description = λ done. some ("n" ∷ []);
  };
  insert = λ tried fields. returned tt;
  db_alias = "mcp_readonly";
  databases = "default" ∷ "mcp_readonly" ∷ [];
  alias_of = λ alias. alias;
  default_limit = 100;
  hard_limit = 1000;
  bytes_limit = 500000;
  ban_select_star = true;
  volume_windows = λ d. (60, 30) ∷ [];
  table_of = λ model. returned "app_user";
  now = 0;
  started_ns = 0;
  ended_ns = 5000000;
}

abbrev pub sample_user : User
sample_user = record { pk = 7; username = "ada"; is_active = true; is_staff = true }

abbrev pub sample_request : Request
sample_request = record {
  user = sample_user;
  profile = record {
    name = "analyst";
    role = "mcp_analyst";
    codename = "use_mcp_analyst";
    group_name = "MCP analysts";
    allowed_models = "app.User" ∷ [];
    session_context = some (λ user. returned (mapping ((name "mcp_sql.user_id", "7") ∷ [])));
  };
  raw_sql = sample_sql;
  limit = some (pos 10);
  token_id = "t1";
  client_ip = some "203.0.113.5";
  client_redirect = "";
}

abbrev pub empty_world : World Memory
empty_world = record {
  cache = [];
  logs = [];
  attempts = [];
  rows = [];
  rejections = [];
  executed = [];
}
