-- ===== src/Decorators.antt =====
-- decorators.py: the declared length of a request's body, and the cap on it.
use django_mcp_sql.Prelude.{not, if◌then◌else◌}
use django_mcp_sql.Prelude.Int.{ℤ, pos, leb_ℤ}

-- The `CONTENT_LENGTH` header, by what `int` makes of it; an empty one counts as missing.
pub data ContentLength : Type 0 where
  missing : ContentLength
  malformed : ContentLength
  declared : ℤ → ContentLength

-- The length, and what the header is from then on.
unfoldable pub normalize_content_length : ContentLength → ℤ × ContentLength
normalize_content_length missing = (pos 0, missing)
normalize_content_length malformed = (pos 0, declared (pos 0))
normalize_content_length (declared n) = (n, declared n)

-- `OAUTH_REQUEST_BODY_MAX_BYTES`
abbrev pub oauth_request_body_max_bytes : ℤ
oauth_request_body_max_bytes = pos 65536

-- `cap_request_body` around a view, which gets the header as it is from then on; `too_large` is the
-- response with status 413.
unfoldable pub cap_request_body {ℓ} :
    {A : Type ℓ} → ℤ → (too_large : A) → (ContentLength → A) → ContentLength → A
unfolding normalize_content_length
cap_request_body max_bytes too_large view header =
    let (length, header') = normalize_content_length header in
    if not (leb_ℤ length max_bytes) then too_large else view header'
