-- ===== src/Parser/Validate/Run.antt =====
-- parser.py: `parse_and_validate` as a whole.
use django_mcp_sql.Prelude.{contains, Any, String, ◌≡◌, refl, ◌↔◌, Bool, true, List, [], ◌∷◌}
use django_mcp_sql.Raise.{
  Try, returned, raised, >>=-eq-returned, seq-eq-returned, recursion_error, parse_failure,
}
use django_mcp_sql.Ast.{Ast, Class, IsSqlglot}
use django_mcp_sql.Parser.Tables.{check_tables}
use django_mcp_sql.Parser.Tables.Whitelist.{IsListed, check_tables_iff}
use django_mcp_sql.Parser.Tables.Touched.{IsUnmasked, check_tables-contains}
use django_mcp_sql.Parser.Validate.{
  ParsedQuery, parse_caught, serialize_caught, single_statement, statements, require_query,
  shape_checks, name_checks, parse_and_validate,
}
use django_mcp_sql.Parser.Validate.Accepts.{
  IsOnly, Admissible, require_query_iff, shape_checks_iff, name_checks_iff,
}

module _ {Node : Type 0} (g : Ast Node) where
  -- One run that returns, step by step.
  pub record Run (raw : String) (allowed : List String) (ban : Bool) (q : ParsedQuery Node)
      : Type 0 where
    pub only : IsOnly g raw q.ast
    pub root : require_query g q.ast ≡ returned tt
    pub shape : shape_checks g q.ast ≡ returned tt
    pub tables : check_tables g q.ast allowed ≡ returned q.referenced_tables
    pub names : name_checks g ban q.ast ≡ returned tt
    pub serialized : g.normalized q.ast ≡ returned q.normalized_sql

  pub parse_caught-eq-returned :
      {A : Type 0} (r : Try A) {a : A} → parse_caught r ≡ returned a → r ≡ returned a
  unfolding parse_caught
  parse_caught-eq-returned (returned a) h = h
  parse_caught-eq-returned (raised (parse_failure m)) h = cc
  parse_caught-eq-returned (raised recursion_error) h = cc
  parse_caught-eq-returned (raised e) h = cc

  serialize_caught-eq-returned :
      {A : Type 0} (r : Try A) {a : A} → serialize_caught r ≡ returned a → r ≡ returned a
  unfolding serialize_caught
  serialize_caught-eq-returned (raised recursion_error) h = cc
  serialize_caught-eq-returned r h = h

  pub single_statement-eq-returned :
      {A : Type 0} (l : List A) {a : A} → single_statement l ≡ returned a → l ≡ a ∷ []
  unfolding single_statement
  single_statement-eq-returned [] h = cc
  single_statement-eq-returned (s ∷ []) h = cc
  single_statement-eq-returned (s ∷ t ∷ rest) h = cc

  pub Run-of :
      (raw : String) (allowed : List String) (ban : Bool) (q : ParsedQuery Node)
      → parse_and_validate g raw allowed ban ≡ returned q
      → Run raw allowed ban q
  unfolding parse_and_validate
  Run-of raw allowed ban q h =
      let (l, e1, h1) = >>=-eq-returned (parse_caught (g.parse raw)) _ h in
      let (ast, e2, h2) = >>=-eq-returned (single_statement (statements g l)) _ h1 in
      let (e3, h3) = (seq-eq-returned (require_query g ast) _).0 h2 in
      let (e4, h4) = (seq-eq-returned (shape_checks g ast) _).0 h3 in
      let (referenced, e5, h5) = >>=-eq-returned (check_tables g ast allowed) _ h4 in
      let (e6, h6) = (seq-eq-returned (name_checks g ban ast) _).0 h5 in
      let (sql, e7, h7) = >>=-eq-returned (serialize_caught (g.normalized ast)) _ h6 in
      let same : record { ast = ast; normalized_sql = sql; referenced_tables = referenced } ≡ q =
        cc in
      let run : Run raw allowed ban
          (record { ast = ast; normalized_sql = sql; referenced_tables = referenced }) =
        record {
          only = (
            l,
            parse_caught-eq-returned (g.parse raw) e1,
            single_statement-eq-returned (statements g l) e2,
          );
          root = e3;
          shape = e4;
          tables = e5;
          names = e6;
          serialized = serialize_caught-eq-returned (g.normalized ast) e7;
        } in
      rw same at run

  pub Run-parse_and_validate :
      (raw : String) (allowed : List String) (ban : Bool) (q : ParsedQuery Node)
      → Run raw allowed ban q
      → parse_and_validate g raw allowed ban ≡ returned q
  unfolding parse_and_validate parse_caught serialize_caught single_statement
  Run-parse_and_validate raw allowed ban q r =
      rw (r.only.1, r.only.2, r.root, r.shape, r.tables, r.names, r.serialized)

-- A text is accepted, with this tree and this normalised form, exactly if the tree is that of its only
-- statement, serialises to that form, is a query of a read-only shape whose tables may all be read and
-- whose calls and keywords are allowed, and, where stars are banned, projects no star outside COUNT and
-- no whole row.
pub parse_and_validate_iff :
    {Node : Type 0} (g : Ast Node)
    → IsSqlglot g
    → (raw : String) (allowed : List String) (ban : Bool) (ast : Node) (sql : String)
    → ((q : ParsedQuery Node) × (parse_and_validate g raw allowed ban ≡ returned q)
        × (q.ast ≡ ast)
        × (q.normalized_sql ≡ sql))
      ↔ (IsOnly g raw ast × Admissible g allowed ban ast × (g.normalized ast ≡ returned sql))
parse_and_validate_iff g t raw allowed ban ast sql = (
  λ (q, h, a, n).
      let r = Run-of g raw allowed ban q h in
      let (names, columns) = (name_checks_iff g t ban q.ast).0 r.names in
      let m : Admissible g allowed ban q.ast = record {
        root = (require_query_iff g q.ast).0 r.root;
        shape = (shape_checks_iff g t q.ast).0 r.shape;
        tables = (check_tables_iff g t q.ast allowed).0 (q.referenced_tables, r.tables);
        names = names;
        columns = columns;
      } in
      (rw a at r.only, rw a at m, rw (a, n) at r.serialized),
  λ (only, m, serialized).
      let (referenced, e) = (check_tables_iff g t ast allowed).1 m.tables in
      let q : ParsedQuery _ = record {
        ast = ast;
        normalized_sql = sql;
        referenced_tables = referenced;
      } in
      (
        q,
        Run-parse_and_validate g raw allowed ban q (record {
          only = only;
          root = (require_query_iff g ast).1 m.root;
          shape = (shape_checks_iff g t ast).1 m.shape;
          tables = e;
          names = (name_checks_iff g t ban ast).1 (m.names, m.columns);
          serialized = serialized;
        }),
        refl,
        refl,
      ),
)

-- The tables that an accepted query is said to touch are exactly the names, in lower case, of those of its
-- tables around which no query has a CTE of the same name, and each is on the whitelist. A table with a
-- schema, or in the body of a CTE, that is named like a CTE above it is left out, real or not.
pub referenced_tables_iff :
    {Node : Type 0} (g : Ast Node)
    → IsSqlglot g
    → (raw : String) (allowed : List String) (ban : Bool) (q : ParsedQuery Node) (name : String)
    → parse_and_validate g raw allowed ban ≡ returned q
    → ((contains q.referenced_tables name ≡ true)
        ↔ Any (IsUnmasked g name) (g.find_all q.ast Class.table))
      × (contains q.referenced_tables name ≡ true → IsListed g allowed name)
referenced_tables_iff g t raw allowed ban q name h =
    check_tables-contains g t q.ast allowed q.referenced_tables name
      (Run-of g raw allowed ban q h).tables
