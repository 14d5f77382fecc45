-- ===== src/Prelude/Lists.antt =====
-- Lists measured by native numbers, and the predicates of the loops over them.
use Prim.Native.Nat.{ℕ, zero, suc, ◌+◌, min}
use mathlib.Core.Path.{◌≡◌}
use mathlib.Core.Logic.{◌↔◌, inl, inr}
use mathlib.Core.Bool.{Bool, true, false, ◌||◌}
use mathlib.Core.List.{List, [], ◌∷◌, ◌++◌}
use native.Mathlib.Omega.{arith}
use django_mcp_sql.Prelude.Tests.{Bool-cases}

module _ {ℓ} {A : Type ℓ} where
  abbrev pub length : List A → ℕ
  length [] = 0
  length (x ∷ xs) = suc (length xs)

  abbrev pub take : ℕ → List A → List A
  take zero xs = []
  take (suc n) [] = []
  take (suc n) (x ∷ xs) = x ∷ take n xs

  pub length-append : (xs ys : List A) → length (xs ++ ys) ≡ length xs + length ys
  length-append [] ys = omega arith
  length-append (x ∷ xs) ys = omega (arith, length-append xs ys)

  pub length-take : (n : ℕ) (xs : List A) → length (take n xs) ≡ min n (length xs)
  length-take zero xs = omega arith
  length-take (suc n) [] = omega arith
  length-take (suc n) (x ∷ xs) = omega (arith, length-take n xs)

  -- Some element passes the test.
  abbrev pub any : (A → Bool) → List A → Bool
  any p [] = false
  any p (x ∷ xs) = p x || any p xs

module _ {ℓ κ} {A : Type ℓ} (P : A → Type κ) where
  -- Every element has the property.
  abbrev pub All : List A → Type κ
  All [] = Unit
  All (x ∷ xs) = P x × All xs

  -- Some element has the property; the witness is kept.
  pub data Any : List A → Type (ℓ ⊔ κ) where
    here : {x : A} {xs : List A} → P x → Any (x ∷ xs)
    there : {x : A} {xs : List A} → Any xs → Any (x ∷ xs)

module _ {ℓ κ ι} {A : Type ℓ} {P : A → Type κ} {Q : A → Type ι} (f : (a : A) → P a → Q a) where
  pub All-map : (xs : List A) → All P xs → All Q xs
  All-map [] h = tt
  All-map (x ∷ xs) h = (f x h.0, All-map xs h.1)

  pub Any-map : {xs : List A} → Any P xs → Any Q xs
  Any-map (here p) = here (f _ p)
  Any-map (there m) = there (Any-map m)

module _ {ℓ κ} {A : Type ℓ} {P : A → Type κ} (p : A → Bool)
    (meaning : (a : A) → (p a ≡ true) ↔ P a) where
  pub any_sound : (xs : List A) → any p xs ≡ true → Any P xs
  any_sound [] h = cc
  any_sound (x ∷ xs) h = elim (Bool-cases (p x)) [
    | inl now ↦ here ((meaning x).0 now)
    | inr later ↦ there (any_sound xs (rw later at h))
  ]

  pub any_complete : {xs : List A} → Any P xs → any p xs ≡ true
  any_complete (here {x} q) = rw ((meaning x).1 q)
  any_complete (there {x} m) = ground (arith, any_complete m)

  pub any_iff : (xs : List A) → (any p xs ≡ true) ↔ Any P xs
  any_iff xs = (any_sound xs, any_complete)

module _ {ℓ κ} {A : Type ℓ} {P : A → Type κ} where
  pub All-intro : ((a : A) → P a) → (xs : List A) → All P xs
  All-intro f [] = tt
  All-intro f (x ∷ xs) = (f x, All-intro f xs)
