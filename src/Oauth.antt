-- ===== src/Oauth.antt =====
-- oauth.py: the validator that the OAuth library calls.
pub mod Redirect
pub mod Admitted
mod Tests
use django_mcp_sql.Prelude.{
  ℕ, zero, suc, String, Bool, true, false, ◌&&◌, not, Option, none, some, List, [], ◌∷◌, contains,
  is_empty, str_eq, startswith, format, ◌==◌, if◌then◌else◌,
}
use django_mcp_sql.Raise.{value_error, Try, returned, raised, ◌>>=◌}
use django_mcp_sql.Urls.{Url, Urls, truthy, split, endswith_char}
use django_mcp_sql.Dict.{get}
use django_mcp_sql.Consts.{Names, is_mcp_application_name}
use django_mcp_sql.Conf.Clouds.{CloudClient}

-- What the parse of the two texts gives, with their ports.
pub record Parsed : Type 0 where
  pub got : Url
  pub want : Url
  pub got_port : Option ℕ
  pub want_port : Option ℕ

-- `443 if port is None else port`
abbrev pub port_or_default : Option ℕ → ℕ
port_or_default none = 443
port_or_default (some port) = port

unfoldable pub anchored : String → String
anchored path = if endswith_char b'/' path then path else format (path ∷ "/" ∷ [])

-- `got.hostname == want.hostname`, of texts or `None`.
unfoldable pub same_host : Option String → Option String → Bool
same_host none none = true
same_host none (some b) = false
same_host (some a) none = false
same_host (some a) (some b) = str_eq a b

module _ (urls : Urls) where
  -- The loop that decodes, for as many rounds as are left.
  unfoldable pub decoded : ℕ → String → String
  decoded zero path = path
  decoded (suc n) path =
      let later = decoded n (urls.unquote path) in
      if str_eq (urls.unquote path) path then path else later

  -- The body of the `try`.
  unfoldable pub parse_both : String → String → Try Parsed
  parse_both redirect_uri prefix = urls.urlparse redirect_uri >>= λ got.
      urls.urlparse prefix >>= λ want. got.port >>= λ got_port. want.port >>= λ want_port.
      returned (record { got = got; want = want; got_port = got_port; want_port = want_port })

  unfoldable pub is_under : Parsed → Bool
  unfolding decoded anchored same_host
  is_under p =
      str_eq p.got.scheme "https"
      && (not (truthy p.got.username)
          && (not (truthy p.got.password)
              && (truthy p.got.hostname
                  && (same_host p.got.hostname p.want.hostname
                      && (port_or_default p.got_port == port_or_default p.want_port
                          && (not (contains (split b'/' (decoded 5 p.got.path)) "..")
                              && startswith p.got.path (anchored p.want.path)))))))

  -- `except ValueError: return False`
  unfoldable pub under_or_rejected : Try Parsed → Try Bool
  unfolding is_under
  under_or_rejected (returned p) = returned (is_under p)
  under_or_rejected (raised (value_error m)) = returned false
  under_or_rejected (raised e) = raised e

  unfoldable pub redirect_under_prefix : String → String → Try Bool
  unfolding parse_both under_or_rejected
  redirect_under_prefix redirect_uri prefix = under_or_rejected (parse_both redirect_uri prefix)

-- What the class reads of the settings, and the methods of the OAuth library that it calls.
pub record Validator : Type 0 where
  pub urls : Urls
  pub names : Names
  pub scope : String
  pub cloud_clients : List (String × CloudClient)
  -- `super().validate_client_id(...)`, with the name of the application that it binds to the request
  pub super_client_id : String → Try (Bool × Option String)
  -- the name of `Application.objects.filter(client_id=client_id).first()`
  pub first_application : String → Try (Option String)
  pub super_redirect_uri : String → String → Try Bool
  pub super_scopes : String → List String → Try Bool

module _ (v : Validator) where
  unfoldable pub bound_application : String → Option String → Try (Option String)
  bound_application client_id none = v.first_application client_id
  bound_application client_id (some name) = returned (some name)

  unfoldable pub is_recognised : Option String → Bool
  is_recognised none = false
  is_recognised (some name) = is_mcp_application_name v.names name

  unfoldable pub client_id_step : String → Bool × Option String → Try Bool
  unfolding bound_application is_recognised
  client_id_step client_id (false, bound) = returned false
  client_id_step client_id (true, bound) =
      bound_application client_id bound >>= λ app. returned (is_recognised app)

  unfoldable pub validate_client_id : String → Try Bool
  unfolding client_id_step
  validate_client_id client_id = v.super_client_id client_id >>= client_id_step client_id

  unfoldable pub redirect_step : String → String → Option CloudClient → Try Bool
  redirect_step client_id redirect_uri none = v.super_redirect_uri client_id redirect_uri
  redirect_step client_id redirect_uri (some cloud) =
      if str_eq cloud.redirect_match "prefix"
      then redirect_under_prefix v.urls redirect_uri cloud.redirect_uri
      else v.super_redirect_uri client_id redirect_uri

  unfoldable pub validate_redirect_uri : String → String → Try Bool
  unfolding redirect_step
  validate_redirect_uri client_id redirect_uri =
      redirect_step client_id redirect_uri (get v.cloud_clients client_id)

  -- `set(scopes) == {scope}`, of a list that is not empty.
  unfoldable pub all_equal : List String → Bool
  all_equal [] = true
  all_equal (s ∷ rest) = str_eq s v.scope && all_equal rest

  unfoldable pub validate_scopes : String → List String → Try Bool
  unfolding all_equal
  validate_scopes client_id [] = returned false
  validate_scopes client_id (s ∷ rest) =
      if all_equal (s ∷ rest) then v.super_scopes client_id (s ∷ rest) else returned false

unfoldable pub validate_code_challenge_method : String → Bool
validate_code_challenge_method code_challenge_method = str_eq code_challenge_method "S256"
