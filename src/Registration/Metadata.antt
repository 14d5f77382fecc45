-- ===== src/Registration/Metadata.antt =====
-- views/registration.py: the checks of the body.
use text.Mathlib.Text.{find?}
use django_mcp_sql.Prelude.{
  String, Bool, true, false, ◌||◌, not, Option, none, some, List, [], ◌∷◌, contains, is_empty,
  is_some, str_eq, format, if◌then◌else◌,
}
use django_mcp_sql.Raise.{type_error, Try, returned, raised, ◌>>=◌}
use django_mcp_sql.Urls.{Url, Urls, truthy}
use django_mcp_sql.Dict.{get}

-- A member of an array: a text, or another value by its `repr`.
pub data Item : Type 0 where
  string : String → Item
  other : String → Item

-- What a field of the body may be, as far as the view reads it: a number with whether it is zero, an
-- object by its keys.
pub data Value : Type 0 where
  null : Value
  boolean : Bool → Value
  number : (is_zero : Bool) → (repr : String) → Value
  str : String → Value
  list : List Item → Value
  object : List String → Value

-- What `json.loads` returns.
pub data Body : Type 0 where
  fields : List (String × Value) → Body
  no_object : Body

-- What the checks come to: an error with its code and its description, or the URIs and the name.
pub data Checked : Type 0 where
  refused : String → String → Checked
  accepted : List String → Value → Checked

-- `_LOOPBACK_HOSTS`
abbrev pub loopback_hosts : List String
loopback_hosts = "127.0.0.1" ∷ "::1" ∷ "localhost" ∷ []

unfoldable pub is_loopback_host : Option String → Bool
is_loopback_host none = false
is_loopback_host (some host) = contains loopback_hosts host

unfoldable pub is_loopback_url : Url → Bool
unfolding is_loopback_host
is_loopback_url parsed =
    if not (str_eq parsed.scheme "http")
    then false
    else if truthy parsed.username || truthy parsed.password
    then false
    else is_loopback_host parsed.hostname

-- `value in items`
unfoldable pub has_item : String → List Item → Bool
has_item value [] = false
has_item value (string s ∷ rest) = str_eq s value || has_item value rest
has_item value (other r ∷ rest) = has_item value rest

-- `value in requested`, where `requested` may be any value.
unfoldable pub is_in : String → Value → Try Bool
unfolding has_item
is_in value null = raised (type_error "argument of type 'NoneType' is not iterable")
is_in value (boolean b) = raised (type_error "argument of type 'bool' is not iterable")
is_in value (number z r) = raised (type_error "argument of type 'int' is not iterable")
is_in value (str s) = returned (is_some (find? s value))
is_in value (list items) = returned (has_item value items)
is_in value (object keys) = returned (contains keys value)

-- `value or default`, for a value that may be missing.
unfoldable pub client_name_of : Option Value → Value
client_name_of none = str "Unnamed MCP client"
client_name_of (some null) = str "Unnamed MCP client"
client_name_of (some (boolean false)) = str "Unnamed MCP client"
client_name_of (some (number true r)) = str "Unnamed MCP client"
client_name_of (some (list [])) = str "Unnamed MCP client"
client_name_of (some (object [])) = str "Unnamed MCP client"
client_name_of (some (str s)) = if is_empty s then str "Unnamed MCP client" else str s
client_name_of (some value) = value

-- `body.get(key, default)`
abbrev pub get_or : Option Value → Value → Value
get_or none default = default
get_or (some value) default = value

-- `value == "none"`
unfoldable pub is_none_text : Value → Bool
is_none_text (str s) = str_eq s "none"
is_none_text value = false

unfoldable pub not_loopback : String → Checked
not_loopback shown = refused "invalid_redirect_uri" (
    format (
      "redirect_uri " ∷ shown
      ∷ " is not a loopback URI (must be http://127.0.0.1, http://[::1], or http://localhost with an optional port and path)"
      ∷ []))

-- The checks behind the redirect URIs, which come to a refusal or to nothing.
unfoldable pub check_auth_method : List String → List (String × Value) → Checked
unfolding client_name_of is_none_text
check_auth_method uris body =
    if is_none_text (get_or (get body "token_endpoint_auth_method") (str "none"))
    then accepted uris (client_name_of (get body "client_name"))
    else refused "invalid_client_metadata"
        "Only token_endpoint_auth_method='none' is supported (public client)"

unfoldable pub check_response_types : List String → List (String × Value) → Try Checked
unfolding check_auth_method is_in
check_response_types uris body =
    is_in "code" (get_or (get body "response_types") (list (string "code" ∷ []))) >>= λ listed.
    if listed
    then returned (check_auth_method uris body)
    else returned (refused "invalid_client_metadata" "response_types must include 'code'")

unfoldable pub check_grant_types : List String → List (String × Value) → Try Checked
unfolding check_response_types is_in
check_grant_types uris body =
    is_in "authorization_code"
      (get_or (get body "grant_types") (list (string "authorization_code" ∷ [])))
    >>= λ listed.
        if listed
        then check_response_types uris body
        else returned
            (refused "invalid_client_metadata" "grant_types must include 'authorization_code'")

module _ (urls : Urls) where
  unfoldable pub is_loopback_redirect : String → Try Bool
  unfolding is_loopback_url
  is_loopback_redirect uri = urls.urlparse uri >>= λ parsed. returned (is_loopback_url parsed)

  -- The loop over the URIs: the first that is not on the loopback interface, or all of them.
  unfoldable pub check_uris : List Item → (List String → Try Checked) → Try Checked
  unfolding is_loopback_redirect not_loopback
  check_uris [] rest = rest []
  check_uris (other shown ∷ items) rest = returned (not_loopback shown)
  check_uris (string uri ∷ items) rest =
      let later = check_uris items (λ uris. rest (uri ∷ uris)) in
      is_loopback_redirect uri >>= λ loopback.
      if loopback then later else returned (not_loopback (format ("'" ∷ uri ∷ "'" ∷ [])))

  unfoldable pub check_redirect_uris : List (String × Value) → Option Value → Try Checked
  unfolding check_uris check_grant_types
  check_redirect_uris body (some (list (item ∷ items))) =
      check_uris (item ∷ items) (λ uris. check_grant_types uris body)
  check_redirect_uris body value =
      returned
        (refused "invalid_redirect_uri" "redirect_uris must be a non-empty array of URI strings")

  unfoldable pub check_parsed : Option Body → Try Checked
  unfolding check_redirect_uris
  check_parsed none = returned (refused "invalid_client_metadata" "Request body is not valid JSON")
  check_parsed (some no_object) =
      returned (refused "invalid_client_metadata" "Request body must be a JSON object")
  check_parsed (some (fields body)) = check_redirect_uris body (get body "redirect_uris")

  unfoldable pub check_body : Try (Option Body) → Try Checked
  unfolding check_parsed
  check_body loaded = loaded >>= check_parsed
