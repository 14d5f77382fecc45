-- ===== src/Parser/Validate/Reasons.antt =====
-- parser.py: with which reasons each check rejects.
use django_mcp_sql.Prelude.{
  ℕ, zero, suc, String, ◌≡◌, refl, ◌≢◌, Bool, Option, none, some, List, [], ◌∷◌, map, arith,
}
use django_mcp_sql.Outcome.{select_star, disallowed_construct, disallowed_function}
use django_mcp_sql.Raise.{Exn, query_rejected, raised}
use django_mcp_sql.Raise.Raises.{
  Raises, raises_rules, Raises-returned, Raises-raised, Raises-if, Raises-for_each, Raises-bind,
  Raises-seq,
}
use django_mcp_sql.Ast.{Ast, Class}
use django_mcp_sql.Parser.DenyLists.{denied_functions_prefix}
use django_mcp_sql.Parser.Shape.{
  check_cte, check_ctes_read_only, check_with, check_no_recursive_cte, check_into,
  check_no_select_into, check_no_offset, check_no_fetch, check_no_locking_reads,
}
use django_mcp_sql.Parser.Tables.{check_table, tables_loop, check_tables}
use django_mcp_sql.Parser.Functions.{
  check_prefix, check_function_name, function_name, check_function, check_no_denied_functions,
  check_keyword, check_no_bare_keyword_columns,
}
use django_mcp_sql.Parser.Stars.{
  star_loop, check_star, check_no_select_star, check_row_ref, check_projection, check_projections,
  check_aliases, check_no_whole_row_refs,
}
use django_mcp_sql.Parser.Validate.{require_query, ergonomic_checks, shape_checks}

-- A rejection for another reason than a star.
abbrev pub IsSecurity : Exn → Type 0
IsSecurity (query_rejected reason detail) = reason ≢ select_star
IsSecurity _ = ⊥

-- A rejection for a star or a whole row.
abbrev pub IsStar : Exn → Type 0
IsStar (query_rejected reason detail) = reason ≡ select_star
IsStar _ = ⊥

construct-IsSecurity :
    (detail : String)
    → Raises IsSecurity {A = Unit {0}} (raised (query_rejected disallowed_construct detail))
construct-IsSecurity detail = record { at = λ e h. ground arith }

function-IsSecurity :
    (detail : String)
    → Raises IsSecurity {A = Unit {0}} (raised (query_rejected disallowed_function detail))
function-IsSecurity detail = record { at = λ e h. ground arith }

module _ {Node : Type 0} (g : Ast Node) where
  check_cte-IsSecurity : (n : Node) → Raises IsSecurity (check_cte g n)
  unfolding check_cte
  check_cte-IsSecurity n = record { at = λ e h. ground arith }

  check_with-IsSecurity : (n : Node) → Raises IsSecurity (check_with g n)
  unfolding check_with
  check_with-IsSecurity n = record { at = λ e h. ground arith }

  check_into-IsSecurity : (n : Node) → Raises IsSecurity (check_into g n)
  unfolding check_into
  check_into-IsSecurity n = record { at = λ e h. ground arith }

  check_keyword-IsSecurity : (n : Node) → Raises IsSecurity (check_keyword g n)
  unfolding check_keyword
  check_keyword-IsSecurity n = record { at = λ e h. ground arith }

  check_no_offset-IsSecurity : (n : Node) → Raises IsSecurity (check_no_offset g n)
  unfolding check_no_offset
  check_no_offset-IsSecurity n = record { at = λ e h. ground arith }

  check_no_fetch-IsSecurity : (n : Node) → Raises IsSecurity (check_no_fetch g n)
  unfolding check_no_fetch
  check_no_fetch-IsSecurity n = record { at = λ e h. ground arith }

  check_no_locking_reads-IsSecurity : (n : Node) → Raises IsSecurity (check_no_locking_reads g n)
  unfolding check_no_locking_reads
  check_no_locking_reads-IsSecurity n = record { at = λ e h. ground arith }

  pub require_query-IsSecurity : (n : Node) → Raises IsSecurity (require_query g n)
  unfolding require_query
  require_query-IsSecurity n = record { at = λ e h. ground arith }

  check_ctes_read_only-IsSecurity : (ast : Node) → Raises IsSecurity (check_ctes_read_only g ast)
  unfolding check_ctes_read_only
  check_ctes_read_only-IsSecurity ast =
      Raises-for_each (g.find_all ast Class.cte) (check_cte g) check_cte-IsSecurity

  check_no_recursive_cte-IsSecurity :
      (ast : Node) → Raises IsSecurity (check_no_recursive_cte g ast)
  unfolding check_no_recursive_cte
  check_no_recursive_cte-IsSecurity ast =
      Raises-for_each (g.find_all ast Class.with_clause) (check_with g) check_with-IsSecurity

  check_no_select_into-IsSecurity : (ast : Node) → Raises IsSecurity (check_no_select_into g ast)
  unfolding check_no_select_into
  check_no_select_into-IsSecurity ast =
      Raises-for_each (g.find_all ast Class.select) (check_into g) check_into-IsSecurity

  pub check_no_bare_keyword_columns-IsSecurity :
      (ast : Node) → Raises IsSecurity (check_no_bare_keyword_columns g ast)
  unfolding check_no_bare_keyword_columns
  check_no_bare_keyword_columns-IsSecurity ast =
      Raises-for_each (g.find_all ast Class.column) (check_keyword g) check_keyword-IsSecurity

  check_table-IsSecurity :
      (allowed : List String) (table : Node) (seen : List String)
      → Raises IsSecurity (check_table g allowed table seen)
  unfolding check_table
  check_table-IsSecurity allowed table seen = record { at = λ e h. ground arith }

  tables_loop-IsSecurity :
      (allowed : List String) (ts : List Node) (seen : List String)
      → Raises IsSecurity (tables_loop g allowed ts seen)
  unfolding tables_loop
  tables_loop-IsSecurity allowed [] seen = search raises_rules
  tables_loop-IsSecurity allowed (t ∷ ts) seen =
      Raises-bind (check_table g allowed t seen) (tables_loop g allowed ts)
        (check_table-IsSecurity allowed t seen) (tables_loop-IsSecurity allowed ts)

  pub check_tables-IsSecurity :
      (ast : Node) (allowed : List String) → Raises IsSecurity (check_tables g ast allowed)
  unfolding check_tables
  check_tables-IsSecurity ast allowed =
      tables_loop-IsSecurity (map g.lower allowed) (g.find_all ast Class.table) []

  check_prefix-IsSecurity : (name p : String) → Raises IsSecurity (check_prefix name p)
  unfolding check_prefix
  check_prefix-IsSecurity name p = record { at = λ e h. ground arith }

  check_function_name-IsSecurity : (name : String) → Raises IsSecurity (check_function_name name)
  unfolding check_function_name
  check_function_name-IsSecurity name = Raises-if _ _ _ (Raises-returned tt) (
      Raises-if _ _ _ (construct-IsSecurity _) (
        Raises-if _ _ _ (function-IsSecurity _) (
          Raises-for_each denied_functions_prefix (check_prefix name)
            (check_prefix-IsSecurity name))))

  check_function-IsSecurity : (func : Node) → Raises IsSecurity (check_function g func)
  unfolding check_function
  check_function-IsSecurity func =
      Raises-if _ _ _ (construct-IsSecurity _)
        (check_function_name-IsSecurity (function_name g func))

  pub check_no_denied_functions-IsSecurity :
      (ast : Node) → Raises IsSecurity (check_no_denied_functions g ast)
  unfolding check_no_denied_functions
  check_no_denied_functions-IsSecurity ast =
      Raises-for_each (g.find_all ast Class.func) (check_function g) check_function-IsSecurity

  star_loop-IsStar :
      (f : ℕ) (star : Node) (cur : Option Node) → Raises IsStar (star_loop g f star cur)
  unfolding star_loop
  star_loop-IsStar zero star cur = search raises_rules
  star_loop-IsStar (suc f) star none = search raises_rules
  star_loop-IsStar (suc f) star (some n) =
      Raises-if _ _ _ (Raises-returned tt)
        (Raises-if _ _ _ (Raises-raised _ refl) (star_loop-IsStar f star (g.parent n)))

  check_no_select_star-IsStar : (ast : Node) → Raises IsStar (check_no_select_star g ast)
  unfolding check_no_select_star check_star
  check_no_select_star-IsStar ast =
      Raises-for_each (g.find_all ast Class.star) (check_star g)
        (λ s. star_loop-IsStar (g.depth s) s (g.parent s))

  check_row_ref-IsStar :
      (aliases : List String) (col : Node) → Raises IsStar (check_row_ref g aliases col)
  unfolding check_row_ref
  check_row_ref-IsStar aliases col =
      Raises-if _ _ _ (Raises-returned tt)
        (Raises-if _ _ _ (Raises-raised _ refl) (Raises-returned tt))

  check_aliases-IsStar :
      (aliases : List String) (ast : Node) → Raises IsStar (check_aliases g aliases ast)
  unfolding check_aliases check_projections check_projection
  check_aliases-IsStar [] ast = Raises-returned tt
  check_aliases-IsStar (a ∷ rest) ast =
      Raises-for_each _ _
        (λ sel. Raises-for_each _ _ (λ p. Raises-for_each _ _ (check_row_ref-IsStar (a ∷ rest))))

  pub ergonomic_checks-IsStar :
      (ban : Bool) (ast : Node) → Raises IsStar (ergonomic_checks g ban ast)
  unfolding ergonomic_checks check_no_whole_row_refs
  ergonomic_checks-IsStar ban ast =
      Raises-if ban _ _
        (Raises-seq (check_no_select_star g ast) _ (check_no_select_star-IsStar ast)
          (check_aliases-IsStar _ ast))
        (Raises-returned tt)

  pub shape_checks-IsSecurity : (ast : Node) → Raises IsSecurity (shape_checks g ast)
  unfolding shape_checks
  shape_checks-IsSecurity ast = Raises-seq _ _ (check_ctes_read_only-IsSecurity ast) (
      Raises-seq _ _ (check_no_recursive_cte-IsSecurity ast) (
        Raises-seq _ _ (check_no_select_into-IsSecurity ast) (
          Raises-seq _ _ (check_no_offset-IsSecurity ast) (
            Raises-seq _ _ (check_no_fetch-IsSecurity ast)
              (check_no_locking_reads-IsSecurity ast)))))
