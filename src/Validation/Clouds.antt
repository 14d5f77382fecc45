-- ===== src/Validation/Clouds.antt =====
-- validation.py: the cloud clients and their redirect URIs.
pub mod Safe
pub mod Accepted
use django_mcp_sql.Prelude.{
  String, Bool, true, false, ◌&&◌, ◌||◌, not, Option, none, some, List, [], ◌∷◌, ◌++◌, contains,
  add, is_empty, str_eq, format, ◌==◌, if◌then◌else◌,
}
use django_mcp_sql.Raise.{improperly_configured, Try, returned, raised, ◌>>=◌, ◌>>◌, raise_if}
use django_mcp_sql.Grants.Reconcile.{quoted}
use django_mcp_sql.Urls.{Url, Urls, truthy, split, has_char, endswith_char, all_chars}
use django_mcp_sql.Validation.Settings.{CloudClientEntry, is_slug}

-- `_VALID_REDIRECT_MATCHES`
abbrev pub valid_redirect_matches : List String
valid_redirect_matches = "exact" ∷ "prefix" ∷ []

-- `"; ".join(problems)`
unfoldable pub joined : List String → String
joined [] = ""
joined (s ∷ []) = s
joined (s ∷ t ∷ rest) = format (s ∷ "; " ∷ joined (t ∷ rest) ∷ [])

-- `"..".`, as a segment of the path once decoded.
unfoldable pub has_dots : Urls → Url → Bool
unfolding split
has_dots urls url = contains (split b'/' (urls.unquote url.path)) ".."

-- The tests of one URI, in the order of the code, with what is said where one fails.
unfoldable pub redirect_tests : Urls → String → String → Url → List (Bool × String)
unfolding has_dots
redirect_tests urls match_ uri url =
    (not (str_eq url.scheme "https"), "use the https scheme")
    ∷ (truthy url.username || truthy url.password, "carry no userinfo component")
    ∷ (not (truthy url.hostname), "include a host")
    ∷ (has_char b'*' uri, "contain no '*' wildcard")
    ∷ (has_dots urls url, "contain no '..' path segment (literal or encoded)")
    ∷ (
      str_eq match_ "prefix" && all_chars (λ c. c == b'/') url.path,
      "include a non-root path for prefix matching",
    )
    ∷ (
      str_eq match_ "prefix" && not (endswith_char b'/' url.path),
      "end with '/' for prefix matching (segment-anchored)",
    )
    ∷ []

-- The list that the tests fill.
unfoldable pub problems_of : List (Bool × String) → List String
problems_of [] = []
problems_of ((test, problem) ∷ rest) =
    let later = problems_of rest in if test then problem ∷ later else later

unfoldable pub refuse_problems : String → String → List String → Try (Unit {0})
unfolding joined
refuse_problems name uri [] = returned tt
refuse_problems name uri (p ∷ problems) = raised (
    improperly_configured (
      format (
        "MCP_SQL.CLOUD_CLIENTS['"
        ∷ name
        ∷ "'].REDIRECT_URI '"
        ∷ uri
        ∷ "' is invalid: must "
        ∷ joined (p ∷ problems)
        ∷ [])))

-- The check behind the loop. `schemes` is ALLOWED_REDIRECT_URI_SCHEMES of the OAuth library's
-- settings, or its default.
unfoldable pub check_schemes : List String → List CloudClientEntry → Try (Unit {0})
check_schemes schemes [] = returned tt
check_schemes schemes (entry ∷ rest) = raise_if (not (contains schemes "https")) (
    improperly_configured (
      format (
        "MCP_SQL.CLOUD_CLIENTS is non-empty (cloud clients use https callbacks), but OAUTH2_PROVIDER['ALLOWED_REDIRECT_URI_SCHEMES'] = ["
        ∷ quoted schemes
        ∷ "] does not include 'https'. Add 'https' to ALLOWED_REDIRECT_URI_SCHEMES."
        ∷ [])))

module _ (urls : Urls) where
  unfoldable pub validate_cloud_redirect_uri : String → String → String → Try (Unit {0})
  unfolding refuse_problems problems_of redirect_tests
  validate_cloud_redirect_uri name match_ uri = urls.urlparse uri >>= λ url.
      refuse_problems name uri (problems_of (redirect_tests urls match_ uri url))

  -- One round of the loop over the entries; `seen` has the names so far.
  unfoldable pub check_client : List String → CloudClientEntry → Try (Unit {0})
  unfolding validate_cloud_redirect_uri
  check_client seen entry =
      raise_if (not (is_slug entry.name)) (
        improperly_configured (
          format (
            "MCP_SQL.CLOUD_CLIENTS NAME '" ∷ entry.name
            ∷ "' must be a slug: a lowercase letter followed by lowercase letters, digits, or hyphens"
            ∷ [])))
      >> (raise_if (contains seen entry.name) (
            improperly_configured (
              format
                ("MCP_SQL.CLOUD_CLIENTS NAME '" ∷ entry.name ∷ "' is used more than once" ∷ [])))
          >> (raise_if (not (contains valid_redirect_matches entry.redirect_match)) (
                improperly_configured (
                  format (
                    "MCP_SQL.CLOUD_CLIENTS['" ∷ entry.name ∷ "'].REDIRECT_MATCH '"
                    ∷ entry.redirect_match ∷ "' must be one of ['exact', 'prefix']" ∷ [])))
              >> validate_cloud_redirect_uri entry.name entry.redirect_match entry.redirect_uri))

  unfoldable pub clients_loop : List String → List CloudClientEntry → Try (Unit {0})
  unfolding check_client
  clients_loop seen [] = returned tt
  clients_loop seen (entry ∷ rest) =
      check_client seen entry >> clients_loop (add entry.name seen) rest

  unfoldable pub validate_cloud_clients : List String → List CloudClientEntry → Try (Unit {0})
  unfolding clients_loop check_schemes
  validate_cloud_clients schemes clients = clients_loop [] clients >> check_schemes schemes clients
