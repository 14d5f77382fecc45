-- ===== src/Consts.antt =====
-- consts.py: the names of the OAuth applications that belong to this package.
pub mod Recognised
use Prim.Native.Char.{code}
use django_mcp_sql.Prelude.{
  ℕ, String, Bool, true, false, ◌&&◌, ◌||◌, Option, none, some, List, leb, ◌==◌, zero, suc,
  contains, str_eq, if◌then◌else◌,
}
use django_mcp_sql.Session.{after}

-- What consts.py reads of the settings.
pub record Names : Type 0 where
  pub application_name : String
  pub application_name_prefix : String
  pub cloud_clients : List String

-- `[A-Za-z0-9_-]`
unfoldable pub is_token_char : ℕ → Bool
is_token_char c =
    (leb b'A' c && leb c b'Z')
    || (leb b'a' c && leb c b'z')
    || (leb b'0' c && leb c b'9')
    || c == b'_'
    || c == b'-'

-- `[A-Za-z0-9_-]{n}`, the whole text.
unfoldable pub is_token : ℕ → String → Bool
is_token zero String.[] = true
is_token zero (String.◌∷◌ c s) = false
is_token (suc n) String.[] = false
is_token (suc n) (String.◌∷◌ c s) = is_token_char (code c) && is_token n s

unfoldable pub is_dcr_suffix : Option String → Bool
unfolding is_token is_token_char
is_dcr_suffix none = false
is_dcr_suffix (some suffix) = is_token 22 suffix

unfoldable pub is_mcp_application_name : Names → String → Bool
unfolding is_dcr_suffix after
is_mcp_application_name names name =
    if str_eq name names.application_name
    then true
    else if contains names.cloud_clients name
    then true
    else is_dcr_suffix (after names.application_name_prefix name)
