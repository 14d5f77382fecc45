-- ===== src/Parser/Tests.antt =====
-- parser.py: the checks on one query.
use django_mcp_sql.Prelude.{
  ℕ, String, ◌≡◌, refl, ◌↔◌, ◌⊎◌, ◌≢◌, true, List, [], ◌∷◌, All, Any, contains,
}
use django_mcp_sql.Outcome.{select_star, parse_error}
use django_mcp_sql.Raise.{returned, raised, query_rejected, recursion_error}
use django_mcp_sql.Ast.{Class}
use django_mcp_sql.Parser.Sample.{sample_sql, sample, sample-IsSqlglot, starred, starred-IsSqlglot}
use django_mcp_sql.Raise.{for_each}
use django_mcp_sql.Prelude.{add}
use django_mcp_sql.Parser.Shape.{
  check_cte, check_ctes_read_only, check_with, check_no_recursive_cte, check_into,
  check_no_select_into, check_no_offset, check_no_fetch, check_no_locking_reads,
}
use django_mcp_sql.Parser.Functions.{
  check_prefix, check_function_name, check_function, check_no_denied_functions, check_keyword,
  check_no_bare_keyword_columns,
}
use django_mcp_sql.Parser.Stars.{
  star_message, check_star, star_loop, check_no_select_star, check_row_ref, check_projection,
  check_projections, check_aliases, check_no_whole_row_refs,
}
use django_mcp_sql.Parser.Scope.{resolves_to_cte}
use django_mcp_sql.Parser.Scope.Lexical.{IsNamedAbove, resolves_to_cte_iff}
use django_mcp_sql.Parser.Tables.{check_table, tables_loop, check_tables}
use django_mcp_sql.Parser.Tables.Whitelist.{IsReadable, IsListed, check_tables_iff}
use django_mcp_sql.Parser.Tables.Touched.{IsUnmasked}
use django_mcp_sql.Parser.Validate.{
  parse_caught, single_statement, statements, require_query, ergonomic_checks, shape_checks,
  name_checks, ParsedQuery, parse_and_validate,
}
use django_mcp_sql.Parser.Validate.Accepts.{IsOnly, Admissible}
use django_mcp_sql.Parser.Validate.Run.{
  Run-parse_and_validate, parse_and_validate_iff, referenced_tables_iff,
}
use django_mcp_sql.Parser.Validate.Escapes.{IsRejection, IsUncaught, parse_and_validate_raises}
use django_mcp_sql.Parser.Validate.Order.{PassesSecurity, star_reported_last}
use django_mcp_sql.Parser.Stars.Projection.{InProjection, check_no_select_star_iff}
use django_mcp_sql.Parser.Stars.RowRefs.{IsRowRef, ProjectedColumns, check_no_whole_row_refs_iff}
use django_mcp_sql.Parser.Functions.Denied.{IsAllowedCall, check_no_denied_functions_iff}

abbrev sample_query : List String → ParsedQuery ℕ
sample_query tables = record { ast = 0; normalized_sql = sample_sql; referenced_tables = tables }

shape_sample : shape_checks sample 0 ≡ returned tt
unfolding shape_checks sample for_each check_ctes_read_only check_cte check_no_recursive_cte
    check_with check_no_select_into check_into check_no_offset check_no_fetch check_no_locking_reads
shape_sample = refl

tables_sample : check_tables sample 0 ("app_user" ∷ []) ≡ returned ("app_user" ∷ [])
unfolding check_tables tables_loop check_table sample resolves_to_cte contains add
tables_sample = refl

functions_sample : check_no_denied_functions sample 0 ≡ returned tt
unfolding check_no_denied_functions for_each check_function check_function_name check_prefix sample
    contains
functions_sample = refl

keywords_sample : check_no_bare_keyword_columns sample 0 ≡ returned tt
unfolding check_no_bare_keyword_columns for_each check_keyword sample contains
keywords_sample = refl

stars_sample : ergonomic_checks sample true 0 ≡ returned tt
unfolding ergonomic_checks check_no_select_star for_each check_star star_loop sample
    check_no_whole_row_refs check_aliases check_projections check_projection check_row_ref contains
    add
stars_sample = refl

names_sample : name_checks sample true 0 ≡ returned tt
unfolding name_checks
names_sample = rw (functions_sample, keywords_sample) stars_sample

accepts_sample :
    parse_and_validate sample sample_sql ("app_user" ∷ []) true
    ≡ returned (sample_query ("app_user" ∷ []))
unfolding sample require_query statements
accepts_sample =
    Run-parse_and_validate sample sample_sql ("app_user" ∷ []) true (sample_query ("app_user" ∷ []))
      (record {
        only = (_, refl, refl);
        root = refl;
        shape = shape_sample;
        tables = tables_sample;
        names = names_sample;
        serialized = refl;
      })

abbrev bare_star : String
bare_star = "Bare SELECT * is rejected; enumerate columns explicitly"

-- This text is no query.
rejects_noise :
    parse_and_validate sample "nonsense" [] true
    ≡ raised (query_rejected parse_error "Expecting a statement")
unfolding parse_and_validate sample parse_caught
rejects_noise = refl

functions_starred : check_no_denied_functions starred 0 ≡ returned tt
unfolding check_no_denied_functions for_each check_function check_function_name check_prefix starred
    contains
functions_starred = refl

star_starred : check_no_select_star starred 0 ≡ raised (query_rejected select_star bare_star)
unfolding check_no_select_star for_each check_star star_loop starred star_message
star_starred = refl

rejects_star :
    parse_and_validate starred sample_sql ("app_user" ∷ []) true
    ≡ raised (query_rejected select_star bare_star)
unfolding parse_and_validate parse_caught single_statement statements require_query shape_checks
    starred for_each check_ctes_read_only check_cte check_no_recursive_cte check_with
    check_no_select_into check_into check_no_offset check_no_fetch check_no_locking_reads
    check_tables tables_loop check_table resolves_to_cte contains add name_checks
    check_no_bare_keyword_columns check_keyword ergonomic_checks
rejects_star = rw (functions_starred, star_starred) refl

resolves_to_cte_iff_example :
    (resolves_to_cte sample 6 "recent" ≡ true) ↔ IsNamedAbove sample 6 "recent"
resolves_to_cte_iff_example = resolves_to_cte_iff sample sample-IsSqlglot 6 "recent"

check_tables_iff_example :
    ((out : List String) × (check_tables sample 0 ("app_user" ∷ []) ≡ returned out))
    ↔ All (IsReadable sample ("app_user" ∷ [])) (sample.find_all 0 Class.table)
check_tables_iff_example = check_tables_iff sample sample-IsSqlglot 0 ("app_user" ∷ [])

parse_and_validate_iff_example :
    ((q : ParsedQuery ℕ) × (parse_and_validate sample sample_sql ("app_user" ∷ []) true
        ≡ returned q)
      × (q.ast ≡ 0)
      × (q.normalized_sql ≡ sample_sql))
    ↔ (IsOnly sample sample_sql 0
        × Admissible sample ("app_user" ∷ []) true 0
        × (sample.normalized 0 ≡ returned sample_sql))
parse_and_validate_iff_example =
    parse_and_validate_iff sample sample-IsSqlglot sample_sql ("app_user" ∷ []) true 0 sample_sql

referenced_tables_iff_example :
    ((contains ("app_user" ∷ []) "app_user" ≡ true)
      ↔ Any (IsUnmasked sample "app_user") (sample.find_all 0 Class.table))
    × (contains ("app_user" ∷ []) "app_user" ≡ true → IsListed sample ("app_user" ∷ []) "app_user")
referenced_tables_iff_example =
    referenced_tables_iff sample sample-IsSqlglot sample_sql ("app_user" ∷ []) true
      (sample_query ("app_user" ∷ [])) "app_user" accepts_sample

parse_and_validate_raises_example :
    (query_rejected parse_error "Expecting a statement" ≢ recursion_error)
    × (IsRejection (query_rejected parse_error "Expecting a statement")
        ⊎ ((sample.parse "nonsense" ≡ raised (query_rejected parse_error "Expecting a statement"))
            × IsUncaught (query_rejected parse_error "Expecting a statement"))
        ⊎ ((ast : ℕ) × (sample.normalized ast
              ≡ raised (query_rejected parse_error "Expecting a statement"))))
parse_and_validate_raises_example =
    parse_and_validate_raises sample "nonsense" [] true _ rejects_noise

star_reported_last_example :
    (true ≡ true) × ((ast : ℕ) × PassesSecurity starred sample_sql ("app_user" ∷ []) ast)
star_reported_last_example =
    star_reported_last starred starred-IsSqlglot sample_sql ("app_user" ∷ []) true bare_star
      rejects_star

check_no_select_star_iff_example :
    (check_no_select_star sample 0 ≡ returned tt)
    ↔ All (λ s. ¬ InProjection sample s) (sample.find_all 0 Class.star)
check_no_select_star_iff_example = check_no_select_star_iff sample sample-IsSqlglot 0

check_no_whole_row_refs_iff_example :
    (check_no_whole_row_refs sample 0 ≡ returned tt)
    ↔ ProjectedColumns sample (λ c. ¬ IsRowRef sample 0 c) 0
check_no_whole_row_refs_iff_example = check_no_whole_row_refs_iff sample 0

check_no_denied_functions_iff_example :
    (check_no_denied_functions sample 0 ≡ returned tt)
    ↔ All (IsAllowedCall sample) (sample.find_all 0 Class.func)
check_no_denied_functions_iff_example = check_no_denied_functions_iff sample 0
