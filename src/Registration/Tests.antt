-- ===== src/Registration/Tests.antt =====
-- views/registration.py: requests to which the theorems apply.
use django_mcp_sql.Prelude.{◌+◌, ◌-◌, ◌≤◌, ◌≡◌, refl, none, some, [], ◌∷◌, length, format}
use django_mcp_sql.Raise.{returned}
use django_mcp_sql.Caching.Memory.{Memory, memory, memory-IsReliable}
use django_mcp_sql.Throttle.{ip_key}
use django_mcp_sql.Throttle.Counting.{count_of}
use django_mcp_sql.Executor.Sample.{empty_world}
use django_mcp_sql.Auth.{address}
use django_mcp_sql.Urls.{Url}
use django_mcp_sql.Registration.Metadata.{string, str, list, Body, fields}
use django_mcp_sql.Registration.{Office, Registrar, RegisterRequest, joined_uris, register_client}
use django_mcp_sql.Registration.Rows.{Served, register_client-Served, serve_all, serve_all-bounded}

abbrev loopback : Url
loopback = record {
  scheme = "http";
  username = none;
  password = none;
  hostname = some "localhost";
  port = returned (some 33418);
  path = "/callback";
}

abbrev registrar : Registrar Memory
registrar = record {
  cache = memory;
  urls = record { urlparse = λ uri. returned loopback; unquote = λ s. s };
  prefix = "mcp-sql-";
  threshold = 1;
  window = 600;
  create = λ rows row. returned tt;
}

abbrev sample_body : Body
sample_body = fields (
    ("redirect_uris", list (string "http://localhost:33418/callback" ∷ []))
    ∷ ("client_name", str "Claude")
    ∷ [])

abbrev request : RegisterRequest
request = record {
  remote_addr = some "203.0.113.5";
  body = returned (some sample_body);
  token = "AAAAAAAAAAAAAAAAAAAAAA";
  now = 7;
}

abbrev office : Office Memory
office = record { world = empty_world; applications = [] }

register_client-Served_example :
    Served registrar request office
      (register_client registrar request office).0
      (register_client registrar request office).1
register_client-Served_example = register_client-Served registrar memory-IsReliable request office

serve_all-bounded_example :
    length (serve_all registrar (request ∷ request ∷ []) office).applications
    ≤ 0 + (1 - count_of memory empty_world (ip_key "register" "203.0.113.5"))
unfolding address
serve_all-bounded_example =
    serve_all-bounded registrar memory-IsReliable "203.0.113.5" (request ∷ request ∷ []) office
      (refl, (refl, tt))

-- The text that is stored does not tell one URI with a space in it from two.
one_or_two :
    joined_uris ("http://localhost/callback https://example.org/callback" ∷ [])
    ≡ joined_uris ("http://localhost/callback" ∷ "https://example.org/callback" ∷ [])
unfolding joined_uris format
one_or_two = refl
