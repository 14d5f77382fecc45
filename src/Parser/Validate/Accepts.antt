-- ===== src/Parser/Validate/Accepts.antt =====
-- parser.py: exactly which texts `parse_and_validate` accepts.
use django_mcp_sql.Prelude.{
  String, ◌≡◌, refl, ◌↔◌, inl, inr, Bool, true, false, Option, none, List, [], ◌∷◌, All, Bool-cases,
}
use django_mcp_sql.Raise.{returned, seq-eq-returned}
use django_mcp_sql.Ast.{Ast, Class, IsSqlglot}
use django_mcp_sql.Parser.Shape.{
  check_ctes_read_only, check_no_recursive_cte, check_no_select_into, check_no_offset,
  check_no_fetch,
}
use django_mcp_sql.Parser.Shape.Queries.{
  check_ctes_read_only_iff, check_no_recursive_cte_iff, check_no_select_into_iff,
  check_no_offset_iff, check_no_fetch_iff, check_no_locking_reads_iff,
}
use django_mcp_sql.Parser.Tables.Whitelist.{IsReadable}
use django_mcp_sql.Parser.Functions.{check_no_denied_functions, check_no_bare_keyword_columns}
use django_mcp_sql.Parser.Functions.Denied.{
  IsAllowedCall, IsKeyword, check_no_denied_functions_iff, check_no_bare_keyword_columns_iff,
}
use django_mcp_sql.Parser.Stars.{check_no_select_star}
use django_mcp_sql.Parser.Stars.Projection.{InProjection, check_no_select_star_iff}
use django_mcp_sql.Parser.Stars.RowRefs.{IsRowRef, ProjectedColumns, check_no_whole_row_refs_iff}
use django_mcp_sql.Parser.Validate.{
  statements, require_query, ergonomic_checks, shape_checks, name_checks,
}

module _ {Node : Type 0} (g : Ast Node) where
  -- A query that only reads, and has none of the constructs that are refused.
  pub record HasReadOnlyShape (ast : Node) : Type 0 where
    pub ctes_read : All (λ c. g.isinstance (g.this c) Class.query ≡ true) (g.find_all ast Class.cte)
    pub not_recursive : All (λ w. g.recursive_arg w ≡ false) (g.find_all ast Class.with_clause)
    pub no_into : All (λ s. g.into_arg s ≡ none) (g.find_all ast Class.select)
    pub no_offset : g.find_all ast Class.offset ≡ []
    pub no_fetch : g.find_all ast Class.fetch ≡ []
    pub no_lock : g.find_all ast Class.lock ≡ []

  -- Every call is allowed, and no bare keyword stands for a call.
  pub record HasAllowedNames (ast : Node) : Type 0 where
    pub calls : All (IsAllowedCall g) (g.find_all ast Class.func)
    pub no_keywords : All (λ c. ¬ IsKeyword g c) (g.find_all ast Class.column)

  -- Columns are enumerated: no star, and no reference to a whole row, is projected.
  pub record EnumeratesColumns (ast : Node) : Type 0 where
    pub no_stars : All (λ s. ¬ InProjection g s) (g.find_all ast Class.star)
    pub no_rows : ProjectedColumns g (λ c. ¬ IsRowRef g ast c) ast

  pub record Admissible (allowed : List String) (ban : Bool) (ast : Node) : Type 0 where
    pub root : g.isinstance ast Class.query ≡ true
    pub shape : HasReadOnlyShape ast
    pub tables : All (IsReadable g allowed) (g.find_all ast Class.table)
    pub names : HasAllowedNames ast
    pub columns : ban ≡ true → EnumeratesColumns ast

  -- The text holds one statement, but for empty ones.
  abbrev pub IsOnly : String → Node → Type 0
  IsOnly raw ast =
      (l : List (Option Node)) × (g.parse raw ≡ returned l) × (statements g l ≡ ast ∷ [])

  pub require_query_iff :
      (ast : Node) → (require_query g ast ≡ returned tt) ↔ (g.isinstance ast Class.query ≡ true)
  unfolding require_query
  require_query_iff ast = elim (Bool-cases (g.isinstance ast Class.query)) [
    | inl q ↦ (λ h. q, λ h. rw q)
    | inr n ↦ (λ h. cc (rw n at h), λ h. cc)
  ]

  pub shape_checks_iff :
      (t : IsSqlglot g) (ast : Node) → (shape_checks g ast ≡ returned tt) ↔ HasReadOnlyShape ast
  unfolding shape_checks
  shape_checks_iff t ast = (
    λ h.
        let (a, h1) = (seq-eq-returned (check_ctes_read_only g ast) _).0 h in
        let (b, h2) = (seq-eq-returned (check_no_recursive_cte g ast) _).0 h1 in
        let (c, h3) = (seq-eq-returned (check_no_select_into g ast) _).0 h2 in
        let (d, h4) = (seq-eq-returned (check_no_offset g ast) _).0 h3 in
        let (e, f) = (seq-eq-returned (check_no_fetch g ast) _).0 h4 in
        record {
          ctes_read = (check_ctes_read_only_iff g ast).0 a;
          not_recursive = (check_no_recursive_cte_iff g ast).0 b;
          no_into = (check_no_select_into_iff g ast).0 c;
          no_offset = (check_no_offset_iff g t ast).0 d;
          no_fetch = (check_no_fetch_iff g t ast).0 e;
          no_lock = (check_no_locking_reads_iff g t ast).0 f;
        },
    λ s. rw (
      (check_ctes_read_only_iff g ast).1 s.ctes_read,
      (check_no_recursive_cte_iff g ast).1 s.not_recursive,
      (check_no_select_into_iff g ast).1 s.no_into,
      (check_no_offset_iff g t ast).1 s.no_offset,
      (check_no_fetch_iff g t ast).1 s.no_fetch,
      (check_no_locking_reads_iff g t ast).1 s.no_lock,
    ),
  )

  ergonomic_checks_iff :
      (t : IsSqlglot g) (ban : Bool) (ast : Node)
      → (ergonomic_checks g ban ast ≡ returned tt) ↔ (ban ≡ true → EnumeratesColumns ast)
  unfolding ergonomic_checks
  ergonomic_checks_iff t false ast = (λ h e. cc, λ h. refl)
  ergonomic_checks_iff t true ast = (
    λ h e.
        let (a, b) = (seq-eq-returned (check_no_select_star g ast) _).0 h in
        record {
          no_stars = (check_no_select_star_iff g t ast).0 a;
          no_rows = (check_no_whole_row_refs_iff g ast).0 b;
        },
    λ h. (seq-eq-returned (check_no_select_star g ast) _).1 (
      (check_no_select_star_iff g t ast).1 (h refl).no_stars,
      (check_no_whole_row_refs_iff g ast).1 (h refl).no_rows,
    ),
  )

  pub name_checks_iff :
      (t : IsSqlglot g) (ban : Bool) (ast : Node)
      → (name_checks g ban ast ≡ returned tt)
        ↔ (HasAllowedNames ast × (ban ≡ true → EnumeratesColumns ast))
  unfolding name_checks
  name_checks_iff t ban ast = (
    λ h.
        let (a, h1) = (seq-eq-returned (check_no_denied_functions g ast) _).0 h in
        let (b, c) = (seq-eq-returned (check_no_bare_keyword_columns g ast) _).0 h1 in
        (
          record {
            calls = (check_no_denied_functions_iff g ast).0 a;
            no_keywords = (check_no_bare_keyword_columns_iff g ast).0 b;
          },
          (ergonomic_checks_iff t ban ast).0 c,
        ),
    λ (n, e).
        rw
          (
            (check_no_denied_functions_iff g ast).1 n.calls,
            (check_no_bare_keyword_columns_iff g ast).1 n.no_keywords,
          )
          ((ergonomic_checks_iff t ban ast).1 e),
  )
