-- ===== src/Validation/Numbers.antt =====
-- validation.py: a setting that is declared as a number.
use Prim.Native.String.{compare}
use Prim.Native.Nat.{lt, eq, gt}
use django_mcp_sql.Prelude.{String, ◌≡◌, ◌↔◌, Bool, true, false, not, [], ◌∷◌, format, arith}
use mathlib.Core.Logic.Iff
use django_mcp_sql.Prelude.Int.{ℤ, pos, negsuc, ◌≤ℤ◌, leb_ℤ}
use django_mcp_sql.Raise.{Exn, type_error, Try, returned, raised, ◌>>=◌, raise_if, raise_if_iff}
use django_mcp_sql.Validation.Settings.{Setting, number, text}

-- What a comparison with `<=` or `>` raises.
abbrev pub not_supported : String → String → String → Exn
not_supported operator left right = type_error (
    format (
      "'" ∷ operator ∷ "' not supported between instances of '" ∷ left ∷ "' and '" ∷ right ∷ "'"
      ∷ []))

-- `value <= 0`
unfoldable pub at_most_zero : Setting → Try Bool
at_most_zero (number z) = returned (leb_ℤ z (pos 0))
at_most_zero (text s) = raised (not_supported "<=" "str" "int")

-- `a > b` of two texts.
text_greater : String → String → Bool
text_greater a b = elim (compare a b) [ lt ↦ false | eq ↦ false | gt ↦ true ]

-- `a > b`
unfoldable pub greater : Setting → Setting → Try Bool
unfolding text_greater
greater (number a) (number b) = returned (not (leb_ℤ a b))
greater (text a) (text b) = returned (text_greater a b)
greater (text a) (number b) = raised (not_supported ">" "str" "int")
greater (number a) (text b) = raised (not_supported ">" "int" "str")

-- A number, and at least one.
abbrev pub IsPositive : Setting → Type 0
IsPositive (number z) = pos 1 ≤ℤ z
IsPositive (text s) = ⊥

leb_ℤ-zero_iff : (z : ℤ) → (leb_ℤ z (pos 0) ≡ false) ↔ (pos 1 ≤ℤ z)
leb_ℤ-zero_iff (pos n) = ground arith
leb_ℤ-zero_iff (negsuc n) = ground arith

pub at_most_zero_iff :
    (v : Setting) (e : Exn)
    → ((at_most_zero v >>= λ low. raise_if low e) ≡ returned tt) ↔ IsPositive v
unfolding at_most_zero
at_most_zero_iff (number z) e = Iff.trans (raise_if_iff (leb_ℤ z (pos 0)) e) (leb_ℤ-zero_iff z)
at_most_zero_iff (text s) e = (λ h. cc, λ h. elim h [ ])
