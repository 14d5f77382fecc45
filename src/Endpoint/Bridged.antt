-- ===== src/Endpoint/Bridged.antt =====
-- views/mcp_endpoint.py: what the bridged application sees of the environ.
use django_mcp_sql.Prelude.{
  ℕ, String, ◌≡◌, ap, inl, inr, Bool, true, false, none, some, List, [], ◌∷◌, length, contains,
  str_eq, show, eq_iff, Bool-cases,
}
use django_mcp_sql.Dict.{get}
use django_mcp_sql.Endpoint.{Meta, header, body_stream, is_forwarded}

-- The keys that are set anew.
abbrev pub rewritten : List String
rewritten = "PATH_INFO" ∷ "SCRIPT_NAME" ∷ "CONTENT_LENGTH" ∷ "wsgi.input" ∷ []

-- The keys of an environ that is passed on, with their values.
pub record IsBridged {Object : Type 0} (meta : List (String × Meta Object)) (body : List ℕ)
    (environ : List (String × Meta Object)) : Type 0 where
  pub path : get environ "PATH_INFO" ≡ some (header "/mcp")
  pub script : get environ "SCRIPT_NAME" ≡ some (header "/mcp/sql")
  pub content_length : get environ "CONTENT_LENGTH" ≡ some (header (show (length body)))
  pub input : get environ "wsgi.input" ≡ some (body_stream body)
  pub kept :
      (key : String)
      → is_forwarded key ≡ true
      → contains rewritten key ≡ false
      → get environ key ≡ get meta key
  pub dropped : (key : String) → is_forwarded key ≡ false → get environ key ≡ none
  pub no_token : get environ "HTTP_AUTHORIZATION" ≡ none
  pub no_cookie : get environ "HTTP_COOKIE" ≡ none

differs : (p : String → Bool) (k j : String) → p k ≡ true → p j ≡ false → str_eq k j ≡ false
differs p k j h g = elim (Bool-cases (str_eq k j)) [
  | inl same ↦
      let e : k ≡ j = (eq_iff k j).0 same in let clash : true ≡ false = rw (h, g) at (ap p e) in cc
  | inr other ↦ other
]

-- The key is none of those that are set anew.
abbrev IsElsewhere : String → Type 0
IsElsewhere key =
    (str_eq "PATH_INFO" key ≡ false)
    × (str_eq "SCRIPT_NAME" key ≡ false)
    × (str_eq "CONTENT_LENGTH" key ≡ false)
    × (str_eq "wsgi.input" key ≡ false)
