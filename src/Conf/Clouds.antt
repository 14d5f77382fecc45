-- ===== src/Conf/Clouds.antt =====
-- conf.py: the cloud clients that the settings declare.
use django_mcp_sql.Prelude.{String, List, [], ◌∷◌, format}
use django_mcp_sql.Dict.{put}
use django_mcp_sql.Validation.Settings.{CloudClientEntry}

pub record CloudClient : Type 0 where
  pub name : String
  pub client_id : String
  pub redirect_match : String
  pub redirect_uri : String

abbrev pub derived_id : String → String → String
derived_id prefix name = format (prefix ∷ "cloud." ∷ name ∷ [])

-- The loop that fills the mapping, `built`.
unfoldable pub build_clients :
    String → List (String × CloudClient) → List CloudClientEntry → List (String × CloudClient)
build_clients prefix built [] = built
build_clients prefix built (entry ∷ rest) =
    let id = derived_id prefix entry.name in
    let client : CloudClient = record {
      name = entry.name;
      client_id = id;
      redirect_match = entry.redirect_match;
      redirect_uri = entry.redirect_uri;
    } in
    build_clients prefix (put id client built) rest

-- `cloud_clients()` where nothing is cached.
unfoldable pub cloud_clients : String → List CloudClientEntry → List (String × CloudClient)
unfolding build_clients
cloud_clients prefix entries = build_clients prefix [] entries
