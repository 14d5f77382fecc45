-- ===== src/Caching/Memory.antt =====
-- A cache in memory, for the tests, and its laws.
use django_mcp_sql.Prelude.{
  ℕ, ◌+◌, String, ◌≡◌, refl, sym, inl, inr, Bool, true, false, not, Option, none, some, List, [],
  ◌∷◌, is_some, str_eq, eq_iff, if◌then◌else◌, Bool-cases,
}
use django_mcp_sql.Raise.{Try, returned, raised, value_error}
use django_mcp_sql.Caching.{Cache, or_else, IsReliable}

abbrev pub Memory : Type 0
Memory = List (String × ℕ)

find : Memory → String → Option ℕ
find [] key = none
find ((k, n) ∷ rest) key = let later = find rest key in if str_eq k key then some n else later

add_new : Option ℕ → Memory → String → ℕ → Try Bool × Memory
add_new none c key v = (returned true, (key, v) ∷ c)
add_new (some n) c key v = (returned false, c)

add_one : Option ℕ → Memory → String → Try ℕ × Memory
add_one none c key = (raised (value_error "no such key"), c)
add_one (some n) c key = (returned (n + 1), (key, n + 1) ∷ c)

-- The newest entry of a key counts; nothing expires.
unfoldable pub memory : Cache Memory
unfolding find add_new add_one
memory = record {
  get = λ c key. returned (find c key);
  add = λ c key v t. add_new (find c key) c key v;
  incr = λ c key. add_one (find c key) c key;
  view = find;
}

add_new-result :
    (o : Option ℕ) (c : Memory) (key : String) (v : ℕ)
    → (add_new o c key v).0 ≡ returned (not (is_some o))
unfolding add_new
add_new-result none c key v = refl
add_new-result (some n) c key v = refl

add_new-view :
    (o : Option ℕ) (c : Memory) (key : String) (v : ℕ) (j : String)
    → find c key ≡ o
    → find (add_new o c key v).1 j ≡ (if str_eq key j then some (or_else o v) else find c j)
unfolding add_new find
add_new-view none c key v j h = refl
add_new-view (some n) c key v j h = elim (Bool-cases (str_eq key j)) [
  | inl same ↦ let e : key ≡ j = (eq_iff key j).0 same in rw (same, sym e) h
  | inr other ↦ rw other refl
]

pub memory-IsReliable : IsReliable memory
unfolding memory add_one find
memory-IsReliable = record {
  get_view = λ c key. refl;
  add_result = λ c key v t. add_new-result (find c key) c key v;
  add_view = λ c key v t j. add_new-view (find c key) c key v j refl;
  incr_result = λ c key n h. rw h refl;
  incr_view = λ c key n j h. rw h refl;
}
