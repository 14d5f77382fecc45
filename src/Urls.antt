-- ===== src/Urls.antt =====
-- Python's `urllib.parse`, which is not part of this repository, so it is a parameter of the model; and
-- the operations of `str` that the checks of redirect URIs use.
use Prim.Native.Char.{Char, code}
use Prim.Native.String.{String}
use django_mcp_sql.Prelude.{
  ℕ, Bool, true, false, ◌&&◌, ◌||◌, not, Option, none, some, List, [], ◌∷◌, ◌==◌, is_empty,
  if◌then◌else◌,
}
use django_mcp_sql.Raise.{Try}

-- The attributes of what `urlparse` returns; the read of `port` may raise.
pub record Url : Type 0 where
  pub scheme : String
  pub username : Option String
  pub password : Option String
  pub hostname : Option String
  pub port : Try (Option ℕ)
  pub path : String

pub record Urls : Type 0 where
  pub urlparse : String → Try Url
  pub unquote : String → String

-- `bool(text)`, of a text or `None`.
abbrev pub truthy : Option String → Bool
truthy none = false
truthy (some s) = not (is_empty s)

-- The character `c` in front of the first part.
unfoldable pub push : Char → List String → List String
push c [] = String.◌∷◌ c "" ∷ []
push c (part ∷ rest) = String.◌∷◌ c part ∷ rest

-- `text.split(separator)`, for a separator of one character, given by its code.
unfoldable pub split : ℕ → String → List String
unfolding push
split separator String.[] = "" ∷ []
split separator (String.◌∷◌ c s) =
    let rest = split separator s in if code c == separator then "" ∷ rest else push c rest

-- `character in text`
unfoldable pub has_char : ℕ → String → Bool
has_char character String.[] = false
has_char character (String.◌∷◌ c s) = code c == character || has_char character s

-- `text.endswith(character)`
unfoldable pub endswith_char : ℕ → String → Bool
endswith_char character String.[] = false
endswith_char character (String.◌∷◌ c s) =
    let later = endswith_char character s in if is_empty s then code c == character else later

-- Every character passes the test, which is given by their codes.
unfoldable pub all_chars : (ℕ → Bool) → String → Bool
all_chars test String.[] = true
all_chars test (String.◌∷◌ c s) = test (code c) && all_chars test s
