-- ===== src/Validation/Settings.antt =====
-- validation.py: the shapes of the settings, and the regular expressions of their fields.
use Prim.Native.Char.{code}
use django_mcp_sql.Prelude.{
  ℕ, String, Bool, false, ◌&&◌, ◌||◌, not, Option, List, [], ◌∷◌, suc, leb, ◌==◌, is_empty, format,
  show, if◌then◌else◌,
}
use django_mcp_sql.Prelude.Int.{ℤ, pos, negsuc}
use django_mcp_sql.Urls.{all_chars}

pub record ProfileEntry : Type 0 where
  pub role : String
  pub permission_codename : String
  pub group_name : String
  pub allowed_models : List String
  -- the optional key, and its `None`
  pub session_context : Option String

pub record CloudClientEntry : Type 0 where
  pub name : String
  pub redirect_match : String
  pub redirect_uri : String

-- A value that is declared as a number. pydantic takes also a text that it can read as one, such as
-- "100", and its result is not used: the code goes on with the text. The other values that it takes,
-- such as a whole float, compare as numbers; bytes are not modelled, here and where a text is declared.
pub data Setting : Type 0 where
  number : ℤ → Setting
  text : String → Setting

-- The keys that validation.py reads; a mapping is the list of its items, in their order.
pub record McpSqlSettings : Type 0 where
  pub profiles : List (String × ProfileEntry)
  pub limits : List (String × Setting)
  pub volume_alert_thresholds : List (String × List (Setting × Setting))
  pub bad_token_ip_threshold : Setting
  pub bad_token_ip_window_seconds : Setting
  -- the optional key, with the empty list where it is absent
  pub cloud_clients : List CloudClientEntry

abbrev pub is_lower : ℕ → Bool
is_lower c = leb b'a' c && leb c b'z'

abbrev pub is_upper : ℕ → Bool
is_upper c = leb b'A' c && leb c b'Z'

abbrev pub is_digit : ℕ → Bool
is_digit c = leb b'0' c && leb c b'9'

-- `[a-z0-9_]`
abbrev pub is_label_char : ℕ → Bool
is_label_char c = is_lower c || is_digit c || c == b'_'

-- `[A-Za-z0-9_]`
abbrev pub is_word_char : ℕ → Bool
is_word_char c = is_upper c || is_lower c || is_digit c || c == b'_'

-- `[A-Z][A-Za-z0-9_]+`
unfoldable pub is_model_name : String → Bool
unfolding all_chars
is_model_name String.[] = false
is_model_name (String.◌∷◌ c s) = is_upper (code c) && not (is_empty s) && all_chars is_word_char s

-- `[a-z0-9_]*\.`, and then a model's name.
unfoldable pub is_label_rest : String → Bool
unfolding is_model_name
is_label_rest String.[] = false
is_label_rest (String.◌∷◌ c s) =
    let rest = is_label_rest s in
    if code c == b'.' then is_model_name s else is_label_char (code c) && rest

-- `_MCP_SQL_MODEL_REF_RE.fullmatch`
unfoldable pub is_model_ref : String → Bool
unfolding is_label_rest
is_model_ref String.[] = false
is_model_ref (String.◌∷◌ c s) = is_lower (code c) && is_label_rest s

-- `_PG_IDENTIFIER_RE.fullmatch`
unfoldable pub is_pg_identifier : String → Bool
unfolding all_chars
is_pg_identifier String.[] = false
is_pg_identifier (String.◌∷◌ c s) =
    (is_upper (code c) || is_lower (code c) || code c == b'_') && all_chars is_word_char s

-- `_CLOUD_CLIENT_NAME_RE.fullmatch`
unfoldable pub is_slug : String → Bool
unfolding all_chars
is_slug String.[] = false
is_slug (String.◌∷◌ c s) =
    is_lower (code c) && all_chars (λ d. is_lower d || is_digit d || d == b'-') s

-- `str(n)`
show_int : ℤ → String
show_int (pos n) = show n
show_int (negsuc n) = format ("-" ∷ show (suc n) ∷ [])

-- `str(value)`
unfoldable pub show_setting : Setting → String
unfolding show_int
show_setting (number z) = show_int z
show_setting (text s) = s
