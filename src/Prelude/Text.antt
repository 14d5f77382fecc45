-- ===== src/Prelude/Text.antt =====
-- Text: equality, prefixes, formatting, membership in a set of texts.
use Prim.Native.Nat.{ℕ, zero, suc, ◌/◌, ◌%◌}
use Prim.Native.String
use Prim.Native.String.{String}
use mathlib.Core.Path.{◌≡◌}
use mathlib.Core.Logic.{◌↔◌, inl, inr}
use mathlib.Core.Bool.{Bool, true, false, ◌||◌}
use mathlib.Core.List.{List, [], ◌∷◌}
use text.Mathlib.Text.{◌==◌ as text_eq, starts_with}
use native.Mathlib.Omega.{arith}
use text.Mathlib.TextEquality.{eq_iff}
use django_mcp_sql.Prelude.Tests.{if◌then◌else◌, ◌==◌, Bool-cases}
use django_mcp_sql.Prelude.Lists.{any, Any, any_iff}

-- `a == b` of two texts.
abbrev pub str_eq : String → String → Bool
str_eq a b = text_eq a b

-- `s.startswith(prefix)`.
abbrev pub startswith : String → String → Bool
startswith s prefix = starts_with s prefix

-- An f-string: its parts, one behind the other.
unfoldable pub format : List String → String
format [] = ""
format (s ∷ rest) = String.◌++◌ s (format rest)

-- `name in names`, for a set of texts.
unfoldable pub contains : List String → String → Bool
contains xs name = any (λ x. text_eq x name) xs

-- `names.add(name)`, for a set of texts.
unfoldable pub add : String → List String → List String
unfolding contains
add name names = if contains names name then names else name ∷ names

abbrev pub is_empty : String → Bool
is_empty s = text_eq s ""

digit : ℕ → String
digit d =
    if d == 0
    then "0"
    else if d == 1
    then "1"
    else if d == 2
    then "2"
    else if d == 3
    then "3"
    else if d == 4
    then "4"
    else if d == 5
    then "5"
    else if d == 6
    then "6"
    else if d == 7
    then "7"
    else if d == 8
    then "8"
    else "9"

show_fuel : ℕ → ℕ → String → String
show_fuel zero n acc = acc
show_fuel (suc f) n acc =
    let rest = show_fuel f (n / 10) (String.◌++◌ (digit (n % 10)) acc) in
    if n / 10 == 0 then String.◌++◌ (digit n) acc else rest

-- `str(n)` of a number that is not negative; every round divides by ten, so `n + 1` rounds are
-- enough.
unfoldable pub show : ℕ → String
unfolding show_fuel digit
show n = show_fuel (suc n) n ""

pub contains_iff :
    (xs : List String) (name : String) → (contains xs name ≡ true) ↔ Any (λ x. x ≡ name) xs
unfolding contains
contains_iff xs name = any_iff (λ x. text_eq x name) (λ x. eq_iff x name) xs

pub not_contains_iff :
    (xs : List String) (name : String) → (contains xs name ≡ false) ↔ ¬ Any (λ x. x ≡ name) xs
not_contains_iff xs name = (
  λ h m. cc ((contains_iff xs name).1 m),
  λ n. elim (Bool-cases (contains xs name)) [
    | inl yes_ ↦ absurd (n ((contains_iff xs name).0 yes_))
    | inr no_ ↦ no_
  ],
)

pub contains-add :
    (x : String) (xs : List String) (name : String)
    → contains (add x xs) name ≡ (text_eq x name || contains xs name)
unfolding add
contains-add x xs name = ground (arith, eq_iff x name)
