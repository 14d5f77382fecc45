-- ===== src/Executor/Limit/Least.antt =====
-- executor.py: the most restrictive limit wins.
use django_mcp_sql.Prelude.{
  ℕ, zero, suc, ◌≤◌, ◌↔◌, ◌≡◌, refl, sym, Option, none, some, List, [], ◌∷◌, All, arith,
}
use django_mcp_sql.Prelude.Int.{ℤ, pos, negsuc, ◌≤ℤ◌, min_ℤ}
use django_mcp_sql.Executor.Limit.{explicit_limits, min_explicit_limit, clamp_zero, effective_limit}

-- The limits that count: those of the caller and of the query, or the default where neither gives one.
abbrev pub sources : ℕ → List ℤ → List ℤ
sources default_limit [] = pos default_limit ∷ []
sources default_limit (a ∷ rest) = a ∷ rest

min-≤ : (a b c : ℤ) → (c ≤ℤ min_ℤ a b) ↔ ((c ≤ℤ a) × (c ≤ℤ b))
min-≤ a b c = (λ h. (ground arith, ground arith), λ h. ground arith)

clamp-≤ : (n : ℕ) (a : ℤ) → (suc n ≤ clamp_zero a) ↔ (pos (suc n) ≤ℤ a)
unfolding clamp_zero
clamp-≤ n (pos m) = (λ h. omega arith, λ h. omega arith)
clamp-≤ n (negsuc m) = (λ h. omega arith, λ h. omega arith)

least-≤ :
    (default_limit : ℕ) (l : List ℤ) (c : ℤ)
    → (c ≤ℤ min_explicit_limit default_limit l) ↔ All (λ a. c ≤ℤ a) (sources default_limit l)
unfolding min_explicit_limit
least-≤ default_limit [] c = (λ h. (h, tt), λ h. h.0)
least-≤ default_limit (a ∷ []) c = (λ h. (h, tt), λ h. h.0)
least-≤ default_limit (a ∷ b ∷ rest) c =
    let both = min-≤ a (min_explicit_limit default_limit (b ∷ rest)) c in
    let later = least-≤ default_limit (b ∷ rest) c in
    (λ h. ((both.0 h).0, later.0 (both.0 h).1), λ h. both.1 (h.0, later.1 h.1))

-- Within a limit that may be missing.
abbrev pub IsWithin : ℤ → Option ℤ → Type 0
IsWithin c limit = (a : ℤ) → limit ≡ some a → c ≤ℤ a

-- Within what the caller gives and what the query gives, and within the default where neither gives a limit.
pub record IsAllowed (default_limit hard_limit : ℕ) (limit sql_limit : Option ℤ) (rows : ℕ)
    : Type 0 where
  pub hard : rows ≤ hard_limit
  pub by_caller : IsWithin (pos rows) limit
  pub by_query : IsWithin (pos rows) sql_limit
  pub by_default : limit ≡ none → sql_limit ≡ none → rows ≤ default_limit

no_limit : (c : ℤ) → IsWithin c none
no_limit c a e = cc

one_limit : (c a : ℤ) → c ≤ℤ a → IsWithin c (some a)
one_limit c a h b e = let q : a ≡ b = cc in rw (sym q) h

-- The limits in the list are those that are given.
limits_iff :
    (default_limit : ℕ) (limit sql_limit : Option ℤ) (n : ℕ)
    → All (λ a. pos n ≤ℤ a) (sources default_limit (explicit_limits limit sql_limit)) ↔ (
        IsWithin (pos n) limit
        × IsWithin (pos n) sql_limit
        × (limit ≡ none → sql_limit ≡ none → n ≤ default_limit))
unfolding explicit_limits
limits_iff default_limit none none n = (
  λ h. (no_limit (pos n), no_limit (pos n), λ e f. let k = h.0 in omega arith),
  λ h. let k = h.2 refl refl in (omega arith, tt),
)
limits_iff default_limit none (some b) n =
    (λ h. (no_limit (pos n), one_limit (pos n) b h.0, λ e f. cc), λ h. (h.1 b refl, tt))
limits_iff default_limit (some a) none n =
    (λ h. (one_limit (pos n) a h.0, no_limit (pos n), λ e f. cc), λ h. (h.0 a refl, tt))
limits_iff default_limit (some a) (some b) n = (
  λ h. (one_limit (pos n) a h.0, one_limit (pos n) b h.1.0, λ e f. cc),
  λ h. (h.0 a refl, (h.1 b refl, tt)),
)

-- A positive number of rows is within the effective limit exactly if it is within the hard limit, within
-- the limit of the caller where there is one, within the limit of the query where there is one, and
-- within the default where there is neither.
pub effective_limit_iff :
    (default_limit hard_limit : ℕ) (limit sql_limit : Option ℤ) (n : ℕ)
    → (suc n ≤ effective_limit default_limit hard_limit limit sql_limit)
      ↔ IsAllowed default_limit hard_limit limit sql_limit (suc n)
unfolding effective_limit
effective_limit_iff default_limit hard_limit limit sql_limit n =
    let least = min_explicit_limit default_limit (explicit_limits limit sql_limit) in
    let outer = clamp-≤ n (min_ℤ least (pos hard_limit)) in
    let both = min-≤ least (pos hard_limit) (pos (suc n)) in
    let each = least-≤ default_limit (explicit_limits limit sql_limit) (pos (suc n)) in
    let given = limits_iff default_limit limit sql_limit (suc n) in
    (
      λ h.
          let (a, b) = both.0 (outer.0 h) in
          let (by_caller, by_query, by_default) = given.0 (each.0 a) in
          record {
            hard = omega arith;
            by_caller = by_caller;
            by_query = by_query;
            by_default = by_default;
          },
      λ h.
          let hard = h.hard in
          outer.1 (both.1 (each.1 (given.1 (h.by_caller, h.by_query, h.by_default)), omega arith)),
    )

pub effective_limit-≤ :
    (default_limit hard_limit : ℕ) (limit sql_limit : Option ℤ)
    → effective_limit default_limit hard_limit limit sql_limit ≤ hard_limit
effective_limit-≤ default_limit hard_limit limit sql_limit =
    within _ (λ n h. ((effective_limit_iff default_limit hard_limit limit sql_limit n).0 h).hard)
  where
    within : (m : ℕ) → ((n : ℕ) → suc n ≤ m → suc n ≤ hard_limit) → m ≤ hard_limit
    within zero k = omega arith
    within (suc m) k = k m (omega arith)
