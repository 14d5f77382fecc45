-- ===== src/Grants/Sets.antt =====
-- grants.py: the sets of table names, and `sorted`.
use Prim.Native.String.{compare}
use Prim.Native.Nat.{lt, eq, gt}
use django_mcp_sql.Prelude.{
  String, ◌≡◌, refl, inl, inr, Bool, true, false, ◌&&◌, ◌||◌, not, List, [], ◌∷◌, contains, add,
  contains-add, str_eq, if◌then◌else◌, Bool-cases, eq_iff, arith,
}

-- `set(xs)`
unfoldable pub set_of : List String → List String
set_of [] = []
set_of (x ∷ xs) = add x (set_of xs)

-- `xs - ys`
unfoldable pub difference : List String → List String → List String
difference [] ys = []
difference (x ∷ xs) ys = let rest = difference xs ys in if contains ys x then rest else x ∷ rest

-- `a <= b` of two texts.
comes_first : String → String → Bool
comes_first a b = elim (compare a b) [ lt ↦ true | eq ↦ true | gt ↦ false ]

insert : String → List String → List String
unfolding comes_first
insert x [] = x ∷ []
insert x (y ∷ ys) = let rest = insert x ys in if comes_first x y then x ∷ y ∷ ys else y ∷ rest

unfoldable pub sorted : List String → List String
unfolding insert
sorted [] = []
sorted (x ∷ xs) = insert x (sorted xs)

contains-cons :
    (y : String) (ys : List String) (x : String)
    → contains (y ∷ ys) x ≡ (str_eq y x || contains ys x)
unfolding contains
contains-cons y ys x = refl

pub contains-set_of : (xs : List String) (x : String) → contains (set_of xs) x ≡ contains xs x
unfolding set_of
contains-set_of [] x = refl
contains-set_of (y ∷ ys) x =
    rw (contains-add y (set_of ys) x, contains-set_of ys x, contains-cons y ys x) refl

and_no : (b : Bool) → (b && not true) ≡ (true && not true)
and_no true = refl
and_no false = refl

pub contains-difference :
    (xs ys : List String) (x : String)
    → contains (difference xs ys) x ≡ (contains xs x && not (contains ys x))
unfolding difference
contains-difference [] ys x = unfold contains in refl
contains-difference (y ∷ xs) ys x =
    let ih = contains-difference xs ys x in
    elim (Bool-cases (contains ys y)) [
      | inl old ↦ elim (Bool-cases (str_eq y x)) [
        | inl e ↦
            let p : y ≡ x = (eq_iff y x).0 e in
            let found : contains ys x ≡ true = rw p at old in
            rw (old, ih, found, contains-cons y xs x, e) (and_no (contains xs x))
        | inr n ↦ rw (old, ih, contains-cons y xs x, n) refl
      ]
      | inr new ↦ elim (Bool-cases (str_eq y x)) [
        | inl e ↦
            let p : y ≡ x = (eq_iff y x).0 e in
            let absent : contains ys x ≡ false = rw p at new in
            rw (new, contains-cons y (difference xs ys) x, contains-cons y xs x, e, absent) refl
        | inr n ↦ rw (new, contains-cons y (difference xs ys) x, contains-cons y xs x, n, ih) refl
      ]
    ]

or_swap : (a b c : Bool) → (a || (b || c)) ≡ (b || (a || c))
or_swap a b c = ground arith

contains-insert :
    (y : String) (ys : List String) (x : String)
    → contains (insert y ys) x ≡ (str_eq y x || contains ys x)
unfolding insert
contains-insert y [] x = contains-cons y [] x
contains-insert y (z ∷ zs) x = elim (Bool-cases (comes_first y z)) [
  | inl b ↦ rw b (contains-cons y (z ∷ zs) x)
  | inr a ↦
      rw (a, contains-cons z (insert y zs) x, contains-insert y zs x, contains-cons z zs x)
        (or_swap (str_eq z x) (str_eq y x) (contains zs x))
]

pub contains-sorted : (xs : List String) (x : String) → contains (sorted xs) x ≡ contains xs x
unfolding sorted
contains-sorted [] x = refl
contains-sorted (y ∷ ys) x =
    rw (contains-insert y (sorted ys) x, contains-sorted ys x, contains-cons y ys x) refl
