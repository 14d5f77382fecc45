-- ===== src/Registration/Joined.antt =====
-- views/registration.py: the field that holds the redirect URIs, and how the OAuth library reads it.
use Prim.Native.Char.{code}
use Prim.Native.String
use Prim.Native.String.append
use text.Mathlib.TextLemmas.{append-nil}
use django_mcp_sql.Prelude.{
  String, ◌≡◌, refl, ◌≢◌, false, ◌==◌, List, [], ◌∷◌, All, or-eq-false, format,
}
use django_mcp_sql.Urls.{split, push, has_char}
use django_mcp_sql.Registration.{joined_uris}

-- The text has no space.
abbrev pub IsSolid : String → Type 0
IsSolid s = has_char b' ' s ≡ false

split-solid : (s : String) → IsSolid s → split b' ' s ≡ s ∷ []
unfolding split has_char push
split-solid String.[] h = refl
split-solid (String.◌∷◌ c s) h =
    let (differs, later) = or-eq-false (code c == b' ') (has_char b' ' s) h in
    rw (differs, split-solid s later) refl

-- The first part ends at the first space.
split-append :
    (s rest : String)
    → IsSolid s
    → split b' ' (String.◌++◌ s (String.◌++◌ " " rest)) ≡ s ∷ split b' ' rest
unfolding split has_char push
split-append String.[] rest h =
    rw (append.nil (String.◌++◌ " " rest), append.cons " " "" rest, append.nil rest) refl
split-append (String.◌∷◌ c s) rest h =
    let (differs, later) = or-eq-false (code c == b' ') (has_char b' ' s) h in
    rw (append.cons c s (String.◌++◌ " " rest), differs, split-append s rest later) refl

-- Read as a list separated by spaces, the field has the URIs that were joined, if none has a space.
pub split-joined_uris :
    (uris : List String) → uris ≢ [] → All IsSolid uris → split b' ' (joined_uris uris) ≡ uris
unfolding joined_uris format
split-joined_uris [] some_uri h = absurd (some_uri refl)
split-joined_uris (s ∷ []) some_uri h = split-solid s h.0
split-joined_uris (s ∷ t ∷ rest) some_uri h =
    let later = split-joined_uris (t ∷ rest) (λ e. cc) h.1 in
    rw (append-nil (joined_uris (t ∷ rest)), split-append s (joined_uris (t ∷ rest)) h.0, later)
      refl
