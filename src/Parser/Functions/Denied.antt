-- ===== src/Parser/Functions/Denied.antt =====
-- parser.py: `_check_no_denied_functions` and `_check_no_bare_keyword_columns` against the lists.
use text.Mathlib.TextBridge.{IsPrefix}
use text.Mathlib.TextEquality.{starts_with_iff}
use django_mcp_sql.Prelude.{
  String, ◌≡◌, refl, ◌↔◌, inl, inr, false, ◌||◌, none, Any, is_empty, eq_iff, Bool-cases,
  Option-cases, All, contains, contains_iff, not_contains_iff, startswith, or-eq-false,
}
use django_mcp_sql.Raise.{returned, for_each_iff}
use django_mcp_sql.Ast.{Ast, Class}
use django_mcp_sql.Parser.DenyLists.{
  denied_functions_exact, denied_functions_prefix, denied_srf_functions, denied_bare_keywords,
}
use django_mcp_sql.Parser.Functions.{
  check_prefix, check_function_name, function_name, check_function, check_no_denied_functions,
  check_keyword, check_no_bare_keyword_columns,
}

-- The name is on none of the lists, and begins with none of the prefixes.
pub record IsAllowedName (name : String) : Type 0 where
  pub no_srf : ¬ Any (λ x. x ≡ name) denied_srf_functions
  pub not_listed : ¬ Any (λ x. x ≡ name) denied_functions_exact
  pub no_prefix : All (λ p. ¬ IsPrefix p name) denied_functions_prefix

check_prefix_iff : (name p : String) → (check_prefix name p ≡ returned tt) ↔ ¬ IsPrefix p name
unfolding check_prefix
check_prefix_iff name p = elim (Bool-cases (startswith name p)) [
  | inl s ↦ (λ h w. cc (rw s at h), λ h. absurd (h ((starts_with_iff name p).0 s)))
  | inr n ↦ (λ h w. cc ((starts_with_iff name p).1 w, n), λ h. rw n)
]

no_prefix_of_empty : (p : String) → startswith "" p ≡ false → ¬ IsPrefix p ""
no_prefix_of_empty p h w = cc ((starts_with_iff "" p).1 w, h)

IsAllowedName-empty : IsAllowedName ""
unfolding contains
IsAllowedName-empty = record {
  no_srf = (not_contains_iff denied_srf_functions "").0 refl;
  not_listed = (not_contains_iff denied_functions_exact "").0 refl;
  no_prefix = (
    no_prefix_of_empty "dblink_" refl,
    (
      no_prefix_of_empty "lo_" refl,
      (no_prefix_of_empty "pg_" refl, (no_prefix_of_empty "has_" refl, tt)),
    ),
  );
}

check_function_name_iff :
    (name : String) → (check_function_name name ≡ returned tt) ↔ IsAllowedName name
unfolding check_function_name
check_function_name_iff name = elim (Bool-cases (is_empty name)) [
  | inl e ↦ (λ h. rw ((eq_iff name "").0 e) IsAllowedName-empty, λ h. rw e)
  | inr l ↦ elim (Bool-cases (contains denied_srf_functions name)) [
    | inl s ↦ (
      λ h. cc (rw (l, s) at h),
      λ h. absurd (h.no_srf ((contains_iff denied_srf_functions name).0 s)),
    )
    | inr s ↦ elim (Bool-cases (contains denied_functions_exact name)) [
      | inl x ↦ (
        λ h. cc (rw (l, s, x) at h),
        λ h. absurd (h.not_listed ((contains_iff denied_functions_exact name).0 x)),
      )
      | inr x ↦ (
        λ h. record {
          no_srf = (not_contains_iff denied_srf_functions name).0 s;
          not_listed = (not_contains_iff denied_functions_exact name).0 x;
          no_prefix =
              (for_each_iff (check_prefix name) (check_prefix_iff name) denied_functions_prefix).0
                (rw (l, s, x) at h);
        },
        λ h.
            rw (l, s, x)
              ((for_each_iff (check_prefix name) (check_prefix_iff name) denied_functions_prefix).1
                h.no_prefix),
      )
    ]
  ]
]

module _ {Node : Type 0} (g : Ast Node) where
  -- A call that returns no set of rows, of a function that is allowed.
  pub record IsAllowedCall (func : Node) : Type 0 where
    pub no_series : g.isinstance func Class.generate_series ≡ false
    pub no_udtf : g.isinstance func Class.udtf ≡ false
    pub allowed : IsAllowedName (function_name g func)

  check_function_iff : (func : Node) → (check_function g func ≡ returned tt) ↔ IsAllowedCall func
  unfolding check_function
  check_function_iff func =
      elim (Bool-cases (g.isinstance func Class.generate_series || g.isinstance func Class.udtf)) [
        | inl s ↦ (λ h. cc (rw s at h), λ h. cc (rw (h.no_series, h.no_udtf) at s))
        | inr s ↦ (
          λ h.
              let (a, b) = or-eq-false _ _ s in
              record {
                no_series = a;
                no_udtf = b;
                allowed = (check_function_name_iff (function_name g func)).0 (rw s at h);
              },
          λ h. rw s ((check_function_name_iff (function_name g func)).1 h.allowed),
        )
      ]

  -- The check passes exactly if every call is neither one of sqlglot's two row-generating classes nor
  -- by a name that is denied, in lower case: exactly, by a prefix, or as a set-returning function.
  pub check_no_denied_functions_iff :
      (ast : Node)
      → (check_no_denied_functions g ast ≡ returned tt)
        ↔ All IsAllowedCall (g.find_all ast Class.func)
  unfolding check_no_denied_functions
  check_no_denied_functions_iff ast =
      for_each_iff (check_function g) check_function_iff (g.find_all ast Class.func)

  -- A column with no qualifier whose name is a built-in that needs no parentheses.
  pub record IsKeyword (col : Node) : Type 0 where
    pub bare : g.table_arg col ≡ none
    pub listed : Any (λ x. x ≡ g.lower (g.name col)) denied_bare_keywords

  check_keyword_iff : (col : Node) → (check_keyword g col ≡ returned tt) ↔ ¬ IsKeyword col
  unfolding check_keyword
  check_keyword_iff col = elim (Option-cases (g.table_arg col)) [
    | inr (q, e) ↦ (λ h r. cc (r.bare, e), λ h. rw e)
    | inl e ↦ elim (Bool-cases (contains denied_bare_keywords (g.lower (g.name col)))) [
      | inl m ↦ (
        λ h r. cc (rw (e, m) at h),
        λ h. absurd (h (record { bare = e; listed = (contains_iff _ _).0 m })),
      )
      | inr m ↦ (λ h r. (not_contains_iff _ _).0 m r.listed, λ h. rw (e, m))
    ]
  ]

  pub check_no_bare_keyword_columns_iff :
      (ast : Node)
      → (check_no_bare_keyword_columns g ast ≡ returned tt)
        ↔ All (λ c. ¬ IsKeyword c) (g.find_all ast Class.column)
  unfolding check_no_bare_keyword_columns
  check_no_bare_keyword_columns_iff ast =
      for_each_iff (check_keyword g) check_keyword_iff (g.find_all ast Class.column)
