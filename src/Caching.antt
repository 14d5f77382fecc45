-- ===== src/Caching.antt =====
-- Django's cache. It is not part of this repository, so it is a parameter of the model;
-- `IsReliable` states what a cache that answers, and drops no key, does within a window.
pub mod Memory
use django_mcp_sql.Prelude.{
  ℕ, ◌+◌, String, ◌≡◌, Bool, not, Option, none, some, is_some, str_eq, if◌then◌else◌,
}
use django_mcp_sql.Raise.{Try, returned}

pub record Cache (C : Type 0) : Type 0 where
  -- `cache.get(key)`
  pub get : C → String → Try (Option ℕ)
  -- `cache.add(key, value, timeout=seconds)`
  pub add : C → String → ℕ → ℕ → Try Bool × C
  -- `cache.incr(key)`
  pub incr : C → String → Try ℕ × C
  -- what a key holds
  pub view : C → String → Option ℕ

abbrev pub or_else : Option ℕ → ℕ → ℕ
or_else none d = d
or_else (some n) d = n

-- `add` sets only a key that is not there; `incr` adds one to a key that is there; neither touches
-- another key.
pub record IsReliable {C : Type 0} (k : Cache C) : Type 0 where
  pub get_view : (c : C) (key : String) → k.get c key ≡ returned (k.view c key)
  pub add_result :
      (c : C) (key : String) (v t : ℕ)
      → (k.add c key v t).0 ≡ returned (not (is_some (k.view c key)))
  pub add_view :
      (c : C) (key : String) (v t : ℕ) (j : String)
      → k.view (k.add c key v t).1 j
        ≡ (if str_eq key j then some (or_else (k.view c key) v) else k.view c j)
  pub incr_result :
      (c : C) (key : String) (n : ℕ) → k.view c key ≡ some n → (k.incr c key).0 ≡ returned (n + 1)
  pub incr_view :
      (c : C) (key : String) (n : ℕ) (j : String)
      → k.view c key ≡ some n
      → k.view (k.incr c key).1 j ≡ (if str_eq key j then some (n + 1) else k.view c j)
