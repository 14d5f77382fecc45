-- ===== src/Dict.antt =====
-- A `dict` with texts as keys: the list of its items, in the order of insertion.
use django_mcp_sql.Prelude.{
  String, ◌≡◌, refl, inl, inr, false, Option, none, some, List, [], ◌∷◌, str_eq, eq_iff,
  if◌then◌else◌, Bool-cases,
}

module _ {ℓ} {V : Type ℓ} where
  -- `d.get(key)`
  unfoldable pub get : List (String × V) → String → Option V
  get [] key = none
  get ((k, v) ∷ rest) key = let later = get rest key in if str_eq k key then some v else later

  -- `d[key] = value`: an old key keeps its place.
  unfoldable pub put : String → V → List (String × V) → List (String × V)
  put key value [] = (key, value) ∷ []
  put key value ((k, v) ∷ rest) =
      let later = put key value rest in if str_eq k key then (k, value) ∷ rest else (k, v) ∷ later

  pub get-put-same :
      (key : String) (value : V) (d : List (String × V)) → get (put key value d) key ≡ some value
  unfolding get put
  get-put-same key value [] = rw ((eq_iff key key).1 refl) refl
  get-put-same key value ((k, v) ∷ rest) = elim (Bool-cases (str_eq k key)) [
    | inl same ↦ rw (same, same) refl
    | inr other ↦ rw (other, other) (get-put-same key value rest)
  ]

  pub get-put-other :
      (key : String) (value : V) (d : List (String × V)) (j : String)
      → str_eq key j ≡ false
      → get (put key value d) j ≡ get d j
  unfolding get put
  get-put-other key value [] j other = rw other refl
  get-put-other key value ((k, v) ∷ rest) j other = elim (Bool-cases (str_eq k key)) [
    | inl same ↦
        let p : k ≡ key = (eq_iff k key).0 same in
        let differs : str_eq k j ≡ false = rw p other in rw (same, differs) refl
    | inr differs ↦ rw differs (rw (get-put-other key value rest j other) refl)
  ]
