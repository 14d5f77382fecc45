-- ===== src/Endpoint/Tests.antt =====
-- views/mcp_endpoint.py: a profile with one table, and a request with a bearer token.
use django_mcp_sql.Prelude.{ℕ, String, false, true, some, List, [], ◌∷◌}
use django_mcp_sql.Raise.{returned}
use django_mcp_sql.Grants
use django_mcp_sql.Executor.Sample.{sample_request}
use django_mcp_sql.Endpoint.{Meta, header, object, Principal, Site}

abbrev meta : List (String × Meta ℕ)
meta =
    ("REQUEST_METHOD", header "POST")
    ∷ ("PATH_INFO", header "/mcp/sql/")
    ∷ ("HTTP_AUTHORIZATION", header "Bearer secret")
    ∷ ("HTTP_COOKIE", header "sessionid=1")
    ∷ ("wsgi.version", object 1)
    ∷ []

abbrev principal : Principal
principal = record {
  user = sample_request.user;
  profile = sample_request.profile;
  token_id = "1";
  client_ip = some "203.0.113.5";
  client_redirect = "http://localhost/callback";
}

abbrev site : Site
site = record {
  model_fields = λ label.
      returned (
        record { name = "id"; class_name = "BigAutoField"; null = false; primary_key = true } ∷ []);
  repr = λ name. name;
  dumps = λ rows. "[]";
  fence_id = "3f";
}
