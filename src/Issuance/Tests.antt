-- ===== src/Issuance/Tests.antt =====
-- views/oauth_authorize.py: a user at both gates.
use django_mcp_sql.Prelude.{◌≡◌, ◌↔◌, true, contains}
use django_mcp_sql.Raise.{returned}
use django_mcp_sql.Models.{Profile}
use django_mcp_sql.Consts.{is_mcp_application_name}
use django_mcp_sql.Executor.Sample.{empty_world, sample_user}
use django_mcp_sql.Auth.{admitted, application_gate}
use django_mcp_sql.Auth.Gates.{HasSession}
use django_mcp_sql.Auth.Sample.{sample_token, gatekeeper, http_request}
use django_mcp_sql.Issuance.{enforce_gate}
use django_mcp_sql.Issuance.Same.{application_gate-enforce_gate}

application_gate-enforce_gate_example :
    ((profile : Profile) × ((application_gate gatekeeper http_request sample_user sample_token
          empty_world).0
        ≡ returned (admitted sample_user sample_token profile)))
    ↔ ((is_mcp_application_name gatekeeper.names sample_token.application_name ≡ true)
        × (contains sample_token.scopes gatekeeper.scope ≡ true)
        × HasSession gatekeeper http_request sample_user
        × (enforce_gate gatekeeper sample_user ≡ returned tt))
application_gate-enforce_gate_example =
    application_gate-enforce_gate gatekeeper http_request sample_user sample_token empty_world
