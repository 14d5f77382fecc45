-- ===== src/Auth/Tests.antt =====
-- auth.py, conf.py: one gatekeeper and one request.
use django_mcp_sql.Prelude.{◌≡◌, ◌↔◌, [], ◌∷◌}
use django_mcp_sql.Raise.{returned}
use django_mcp_sql.Executor.Sample.{empty_world, sample_user}
use django_mcp_sql.Conf.{Resolution, resolve_profile}
use django_mcp_sql.Conf.Resolved.{Meaning, resolve_profile-Meaning}
use django_mcp_sql.Auth.{admitted, authenticate, application_gate}
use django_mcp_sql.Auth.Gates.{Admitted, authenticate_iff}
use django_mcp_sql.Auth.Refused.{Refused, application_gate-Refused}
use django_mcp_sql.Auth.Sample.{analyst, sample_token, gatekeeper, http_request}

authenticate_iff_example :
    ((authenticate gatekeeper http_request empty_world).0
      ≡ returned (admitted sample_user sample_token analyst))
    ↔ Admitted gatekeeper http_request empty_world sample_user sample_token analyst
authenticate_iff_example =
    authenticate_iff gatekeeper http_request empty_world sample_user sample_token analyst

application_gate-Refused_example :
    Refused gatekeeper http_request sample_user sample_token empty_world
      (application_gate gatekeeper http_request sample_user sample_token empty_world).0
      (application_gate gatekeeper http_request sample_user sample_token empty_world).1
application_gate-Refused_example =
    application_gate-Refused gatekeeper http_request sample_user sample_token empty_world

resolve_profile-Meaning_example :
    (r : Resolution) × (resolve_profile (analyst ∷ []) ("use_mcp_analyst" ∷ []) ≡ returned r)
    × Meaning (analyst ∷ []) ("use_mcp_analyst" ∷ []) r
resolve_profile-Meaning_example = resolve_profile-Meaning (analyst ∷ []) ("use_mcp_analyst" ∷ [])
