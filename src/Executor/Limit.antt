-- ===== src/Executor/Limit.antt =====
-- executor.py: the effective row limit of a request.
pub mod Least
use django_mcp_sql.Prelude.{
  ℕ, Bool, true, false, ◌&&◌, not, Option, none, some, List, [], ◌∷◌, ltb, length, if◌then◌else◌,
}
use django_mcp_sql.Prelude.Int.{ℤ, pos, negsuc, leb_ℤ, min_ℤ}

-- `[n for n in (limit, sql_limit) if n is not None]`
unfoldable pub explicit_limits : Option ℤ → Option ℤ → List ℤ
explicit_limits none none = []
explicit_limits none (some b) = b ∷ []
explicit_limits (some a) none = a ∷ []
explicit_limits (some a) (some b) = a ∷ b ∷ []

-- `min(explicit_limits) if explicit_limits else limits["DEFAULT_LIMIT"]`
unfoldable pub min_explicit_limit : ℕ → List ℤ → ℤ
min_explicit_limit default_limit [] = pos default_limit
min_explicit_limit default_limit (a ∷ []) = a
min_explicit_limit default_limit (a ∷ b ∷ rest) =
    min_ℤ a (min_explicit_limit default_limit (b ∷ rest))

-- `max(0, n)`
unfoldable pub clamp_zero : ℤ → ℕ
clamp_zero (pos n) = n
clamp_zero (negsuc n) = 0

unfoldable pub effective_limit : ℕ → ℕ → Option ℤ → Option ℤ → ℕ
unfolding clamp_zero min_explicit_limit explicit_limits
effective_limit default_limit hard_limit limit sql_limit =
    clamp_zero
      (min_ℤ (min_explicit_limit default_limit (explicit_limits limit sql_limit)) (pos hard_limit))

is_explicit : List ℤ → Bool
is_explicit [] = false
is_explicit (a ∷ rest) = true

-- `bool(explicit_limits) and min_explicit_limit <= limits["HARD_LIMIT"]`
unfoldable pub user_constrained : ℕ → ℕ → Option ℤ → Option ℤ → Bool
unfolding is_explicit min_explicit_limit explicit_limits
user_constrained default_limit hard_limit limit sql_limit =
    is_explicit (explicit_limits limit sql_limit)
    && leb_ℤ (min_explicit_limit default_limit (explicit_limits limit sql_limit)) (pos hard_limit)
