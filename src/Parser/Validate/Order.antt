-- ===== src/Parser/Validate/Order.antt =====
-- parser.py: the order of the checks; a star is reported only where nothing else is wrong.
use django_mcp_sql.Prelude.{String, ◌≡◌, refl, Bool, true, false, Option, List, All}
use django_mcp_sql.Outcome.{select_star}
use django_mcp_sql.Raise.{
  Exn, parse_failure, recursion_error, query_rejected, Try, returned, raised,
}
use django_mcp_sql.Raise.Raises.{
  Raises, Raises-returned, Raises-raised, Raises-bind, Raises-weaken, past_bind, raised_first,
}
use django_mcp_sql.Ast.{Ast, Class, IsSqlglot}
use django_mcp_sql.Parser.Tables.{check_tables}
use django_mcp_sql.Parser.Tables.Whitelist.{IsReadable, check_tables_iff}
use django_mcp_sql.Parser.Functions.{check_no_denied_functions, check_no_bare_keyword_columns}
use django_mcp_sql.Parser.Functions.Denied.{
  check_no_denied_functions_iff, check_no_bare_keyword_columns_iff,
}
use django_mcp_sql.Parser.Validate.{
  parse_caught, serialize_caught, single_statement, statements, require_query, ergonomic_checks,
  shape_checks, name_checks, parse_and_validate,
}
use django_mcp_sql.Parser.Validate.Accepts.{
  IsOnly, HasReadOnlyShape, HasAllowedNames, require_query_iff, shape_checks_iff,
}
use django_mcp_sql.Parser.Validate.Run.{parse_caught-eq-returned, single_statement-eq-returned}
use django_mcp_sql.Parser.Validate.Reasons.{
  IsSecurity, IsStar, require_query-IsSecurity, check_tables-IsSecurity,
  check_no_denied_functions-IsSecurity, check_no_bare_keyword_columns-IsSecurity,
  shape_checks-IsSecurity,
}
use django_mcp_sql.Parser.Validate.Escapes.{single_statement-IsSecurity}

-- Anything but a rejection for a star.
abbrev NotStar : Exn → Type 0
NotStar e = ¬ IsStar e

IsSecurity-NotStar : (e : Exn) → IsSecurity e → NotStar e
IsSecurity-NotStar (query_rejected reason detail) h = h
IsSecurity-NotStar _ h = absurd h

plain : {A : Type 0} {m : Try A} → Raises IsSecurity m → Raises NotStar m
plain h = Raises-weaken IsSecurity-NotStar h

module _ {Node : Type 0} (g : Ast Node) where
  module _ (t : IsSqlglot g) where
    parse_caught-NotStar :
        (raw : String) (r : Try (List (Option Node)))
        → g.parse raw ≡ r
        → Raises NotStar (parse_caught r)
    unfolding parse_caught
    parse_caught-NotStar raw (returned l) p = Raises-returned l
    parse_caught-NotStar raw (raised (parse_failure m)) p = Raises-raised _ (λ q. cc)
    parse_caught-NotStar raw (raised recursion_error) p = Raises-raised _ (λ q. cc)
    parse_caught-NotStar raw (raised (query_rejected reason d)) p =
        absurd (t.parse_foreign raw reason d p)
    parse_caught-NotStar raw (raised e) p = Raises-raised e (λ q. q)

    serialize_caught-NotStar :
        (ast : Node) (r : Try String) → g.normalized ast ≡ r → Raises NotStar (serialize_caught r)
    unfolding serialize_caught
    serialize_caught-NotStar ast (returned s) p = Raises-returned s
    serialize_caught-NotStar ast (raised recursion_error) p = Raises-raised _ (λ q. cc)
    serialize_caught-NotStar ast (raised (query_rejected reason d)) p =
        absurd (t.normalized_foreign ast reason d p)
    serialize_caught-NotStar ast (raised e) p = Raises-raised e (λ q. q)

  -- Everything that is checked before the stars.
  pub record PassesSecurity (raw : String) (allowed : List String) (ast : Node) : Type 0 where
    pub only : IsOnly g raw ast
    pub root : g.isinstance ast Class.query ≡ true
    pub shape : HasReadOnlyShape g ast
    pub tables : All (IsReadable g allowed) (g.find_all ast Class.table)
    pub names : HasAllowedNames g ast

  not_star : (d : String) → ¬ NotStar (query_rejected select_star d)
  not_star d n = n refl

  -- A rejection for a star by the checks of names comes from the last of them.
  name_checks-star :
      (ban : Bool) (ast : Node) (d : String)
      → name_checks g ban ast ≡ raised (query_rejected select_star d)
      → HasAllowedNames g ast × (ergonomic_checks g ban ast ≡ raised (query_rejected select_star d))
  unfolding name_checks
  name_checks-star ban ast d h =
      let (_, a, h1) =
        past_bind (check_no_denied_functions g ast) _ _
          (plain (check_no_denied_functions-IsSecurity g ast)) (not_star d) h in
      let (_, b, h2) =
        past_bind (check_no_bare_keyword_columns g ast) _ _
          (plain (check_no_bare_keyword_columns-IsSecurity g ast)) (not_star d) h1 in
      (
        record {
          calls = (check_no_denied_functions_iff g ast).0 a;
          no_keywords = (check_no_bare_keyword_columns_iff g ast).0 b;
        },
        h2,
      )

  ergonomic_checks-ban :
      (ban : Bool) (ast : Node) (e : Exn) → ergonomic_checks g ban ast ≡ raised e → ban ≡ true
  unfolding ergonomic_checks
  ergonomic_checks-ban true ast e h = refl
  ergonomic_checks-ban false ast e h = cc

-- A text is rejected for a star only if stars are banned and the text passes every other check: one
-- query of a read-only shape whose tables may all be read and whose calls and keywords are allowed.
pub star_reported_last :
    {Node : Type 0} (g : Ast Node)
    → IsSqlglot g
    → (raw : String) (allowed : List String) (ban : Bool) (d : String)
    → parse_and_validate g raw allowed ban ≡ raised (query_rejected select_star d)
    → (ban ≡ true) × ((ast : Node) × PassesSecurity g raw allowed ast)
unfolding parse_and_validate
star_reported_last g t raw allowed ban d h =
    let (l, e1, h1) =
      past_bind (parse_caught (g.parse raw)) _ _ (parse_caught-NotStar g t raw (g.parse raw) refl)
        (not_star g d) h in
    let (ast, e2, h2) =
      past_bind (single_statement (statements g l)) _ _
        (plain (single_statement-IsSecurity g raw (statements g l))) (not_star g d) h1 in
    let (_, e3, h3) =
      past_bind (require_query g ast) _ _ (plain (require_query-IsSecurity g ast)) (not_star g d)
        h2 in
    let (_, e4, h4) =
      past_bind (shape_checks g ast) _ _ (plain (shape_checks-IsSecurity g ast)) (not_star g d)
        h3 in
    let (out, e5, h5) =
      past_bind (check_tables g ast allowed) _ _ (plain (check_tables-IsSecurity g ast allowed))
        (not_star g d) h4 in
    let h6 =
      raised_first (name_checks g ban ast) _ _
        (Raises-bind _ _ (serialize_caught-NotStar g t ast (g.normalized ast) refl)
          (λ sql. Raises-returned _))
        (not_star g d) h5 in
    let (names, h7) = name_checks-star g ban ast d h6 in
    (
      ergonomic_checks-ban g ban ast _ h7,
      (
        ast,
        record {
          only = (
            l,
            parse_caught-eq-returned g (g.parse raw) e1,
            single_statement-eq-returned g (statements g l) e2,
          );
          root = (require_query_iff g ast).0 e3;
          shape = (shape_checks_iff g t ast).0 e4;
          tables = (check_tables_iff g t ast allowed).0 (out, e5);
          names = names;
        },
      ),
    )
