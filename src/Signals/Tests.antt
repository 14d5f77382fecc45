-- ===== src/Signals/Tests.antt =====
-- signals.py, consts.py: states to which the theorems apply.
use django_mcp_sql.Prelude.{
  String, ◌≡◌, refl, ◌↔◌, ◌⊎◌, true, false, ◌||◌, none, some, [], ◌∷◌, All, Any,
}
use django_mcp_sql.Raise.{returned}
use django_mcp_sql.Models.{Profile}
use django_mcp_sql.Caching.Memory.{Memory}
use django_mcp_sql.Executor.Sample.{empty_world, sample_user, sample_request}
use django_mcp_sql.Consts.{Names, is_mcp_application_name}
use django_mcp_sql.Consts.Recognised.{derived_id-recognised}
use django_mcp_sql.Conf.Clouds.{CloudClient, derived_id}
use django_mcp_sql.Registration.{Office}
use django_mcp_sql.Signals.Logout.{Ledger, Revoker, Callback, revoke_and_audit_on_logout}
use django_mcp_sql.Signals.Logout.Revoked.{Revoked, revoke_and_audit_on_logout-Revoked}
use django_mcp_sql.Signals.Profiles.{
  Directory, is_default_alias, has_permission, provision_mcp_profiles,
}
use django_mcp_sql.Signals.Profiles.Provisioned.{carries}
use django_mcp_sql.Signals.Profiles.Idempotent.{declares, provision_mcp_profiles-grants}
use django_mcp_sql.Signals.Clients.{provision_mcp_cloud_clients}
use django_mcp_sql.Signals.Clients.Rows.{row_of, expected, provision_mcp_cloud_clients-rows}
use django_mcp_sql.Signals.Cohort.{Cohort, M2mChanged}
use django_mcp_sql.Signals.Cohort.Named.{IsKeyed}
use django_mcp_sql.Signals.Cohort.Paged.{IsPaged, alert_on_mcp_group_grant-pages}

abbrev names : Names
names = record {
  application_name = "mcp-sql";
  application_name_prefix = "mcp-sql-";
  cloud_clients = derived_id "mcp-sql-" "chatgpt" ∷ [];
}

derived_id-recognised_example :
    (is_mcp_application_name names (derived_id "mcp-sql-" "old") ≡ true) ↔ (
      (derived_id "mcp-sql-" "old" ≡ "mcp-sql")
      ⊎ Any (λ id. id ≡ derived_id "mcp-sql-" "old") names.cloud_clients)
derived_id-recognised_example = derived_id-recognised names "old"

abbrev revoker : Revoker
revoker = record { names = names; delete = λ tokens. returned tt; insert = λ rows row. returned tt }

abbrev logout : Callback
logout = record { user = sample_user; client_ip = some "203.0.113.5"; logged_out_at = 9 }

abbrev ledger : Ledger Memory
ledger = record {
  world = empty_world;
  tokens =
      record { pk = 1; application_name = "mcp-sql"; user_pk = 7 }
      ∷ record { pk = 2; application_name = "mcp-sql"; user_pk = 8 }
      ∷ [];
}

revoke_and_audit_on_logout-Revoked_example :
    Revoked revoker logout ledger (revoke_and_audit_on_logout revoker logout ledger).1
revoke_and_audit_on_logout-Revoked_example =
    revoke_and_audit_on_logout-Revoked revoker logout ("chatgpt" ∷ []) ledger refl refl

abbrev analyst : Profile
analyst = sample_request.profile

abbrev directory : Directory
directory = record { permissions = []; groups = record { name = "Staff"; permissions = [] } ∷ [] }

provision_mcp_profiles-grants_example :
    let d' = provision_mcp_profiles (analyst ∷ []) (some "mcp_sql") (some "default") directory in
    ((m c : String)
      → carries m c d'.groups ≡ (carries m c directory.groups || declares (analyst ∷ []) m c))
    × All (λ (p : Profile). has_permission p.codename d'.permissions ≡ true) (analyst ∷ [])
    × (provision_mcp_profiles (analyst ∷ []) (some "mcp_sql") (some "default") d' ≡ d')
unfolding is_default_alias
provision_mcp_profiles-grants_example =
    provision_mcp_profiles-grants (analyst ∷ []) (some "default") directory refl

abbrev chatgpt : CloudClient
chatgpt = record {
  name = "chatgpt";
  client_id = "mcp-sql-cloud.chatgpt";
  redirect_match = "prefix";
  redirect_uri = "https://chatgpt.com/connector/oauth/";
}

abbrev office : Office Memory
office = record { world = empty_world; applications = [] }

provision_mcp_cloud_clients-rows_example :
    let office' = provision_mcp_cloud_clients (chatgpt ∷ []) (some "mcp_sql") none office in
    let again = provision_mcp_cloud_clients (chatgpt ∷ []) (some "mcp_sql") none office' in
    (row_of "mcp-sql-cloud.chatgpt" office'.applications
      ≡ expected "mcp-sql-cloud.chatgpt"
          (chatgpt ∷ [])
          (row_of "mcp-sql-cloud.chatgpt" office.applications))
    × (row_of "mcp-sql-cloud.chatgpt" again.applications
        ≡ row_of "mcp-sql-cloud.chatgpt" office'.applications)
unfolding is_default_alias
provision_mcp_cloud_clients-rows_example =
    provision_mcp_cloud_clients-rows (chatgpt ∷ []) none office "mcp-sql-cloud.chatgpt" refl

abbrev cohort : Cohort
cohort = record {
  profiles = analyst ∷ [];
  groups = (3, "MCP analysts") ∷ (4, "Staff") ∷ [];
  member_of = λ uid. returned (3 ∷ []);
  users = λ uids. returned ((7, returned "ada") ∷ []);
}

abbrev added : M2mChanged
added = record { action = "post_add"; instance_pk = 7; pk_set = some (3 ∷ 4 ∷ []); reverse = false }

alert_on_mcp_group_grant-pages_example :
    IsPaged cohort (λ uid. 3 ∷ []) (λ uids. (7, returned "ada") ∷ []) added empty_world
unfolding IsKeyed
alert_on_mcp_group_grant-pages_example =
    alert_on_mcp_group_grant-pages cohort (refl, (refl, tt)) (λ uid. 3 ∷ []) (λ uid. refl)
      (λ uids. (7, returned "ada") ∷ []) (λ uids. refl) added empty_world
