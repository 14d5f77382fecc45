-- ===== src/Parser/Tables/Whitelist.antt =====
-- parser.py: `_check_tables` against the whitelist.
use text.Mathlib.TextBridge.{IsPrefix}
use text.Mathlib.TextEquality.{starts_with_iff}
use django_mcp_sql.Prelude.{
  String, ◌≡◌, refl, ◌≢◌, ◌↔◌, ◌⊎◌, inl, inr, true, false, ◌&&◌, ◌||◌, List, [], ◌∷◌, map, Any, All,
  is_empty, contains, add, startswith, eq_iff, Bool-cases, contains_iff, not_contains_iff,
  or-eq-false, or_false, and-ne-both, and_false, false_of_not,
}
use django_mcp_sql.Raise.{Try, returned, >>=-eq-returned}
use django_mcp_sql.Ast.{Ast, Class, IsSqlglot}
use django_mcp_sql.Parser.DenyLists.{system_schemas}
use django_mcp_sql.Parser.Scope.{resolves_to_cte}
use django_mcp_sql.Parser.Scope.Lexical.{IsNamedAbove, resolves_to_cte_iff}
use django_mcp_sql.Parser.Tables.{check_table, tables_loop, check_tables}

module _ {Node : Type 0} (g : Ast Node) where
  abbrev pub schema_of : Node → String
  schema_of table = g.lower (g.db table)

  abbrev pub name_of : Node → String
  name_of table = g.lower (g.name table)

  -- The schema is no system schema, and a name without a schema is no system name.
  pub record IsOrdinary (table : Node) : Type 0 where
    pub named : name_of table ≢ ""
    pub no_catalog : ¬ Any (λ x. x ≡ schema_of table) system_schemas
    pub no_pg_schema : ¬ IsPrefix "pg_" (schema_of table)
    pub no_pg_name : schema_of table ≡ "" → ¬ IsPrefix "pg_" (name_of table)

  -- On the whitelist, whatever the case of its letters.
  abbrev pub IsListed : List String → String → Type 0
  IsListed allowed name = Any (λ x. x ≡ name) (map g.lower allowed)

  -- The table may be read: it is ordinary, and named like a CTE above it or on the whitelist.
  pub record IsReadable (allowed : List String) (table : Node) : Type 0 where
    pub ordinary : IsOrdinary table
    pub known : IsNamedAbove g table (name_of table) ⊎ IsListed allowed (name_of table)

  -- What the tests of the loop's body say when it returns.
  record Passed (allowed : List String) (table : Node) (seen out : List String) : Type 0 where
    named : is_empty (name_of table) ≡ false
    schema_ok :
        (contains system_schemas (schema_of table) || startswith (schema_of table) "pg_") ≡ false
    name_ok : (is_empty (schema_of table) && startswith (name_of table) "pg_") ≡ false
    found :
        ((resolves_to_cte g table (name_of table) ≡ true) × (out ≡ seen))
        ⊎ ((resolves_to_cte g table (name_of table) ≡ false)
            × (contains (map g.lower allowed) (name_of table) ≡ true)
            × (out ≡ add (name_of table) seen))

  pub returned-inj : {A : Type 0} {a b : A} → Path (Try A) (returned a) (returned b) → b ≡ a
  returned-inj h = cc

  check_table-Passed :
      (allowed : List String) (table : Node) (seen out : List String)
      → check_table g (map g.lower allowed) table seen ≡ returned out
      → Passed allowed table seen out
  unfolding check_table
  check_table-Passed allowed table seen out h = elim (Bool-cases (is_empty (name_of table))) [
    | inl e ↦ cc (rw e at h)
    | inr e ↦
        elim (Bool-cases
          (contains system_schemas (schema_of table) || startswith (schema_of table) "pg_")) [
            | inl s ↦ cc (rw (e, s) at h)
            | inr s ↦
                elim (Bool-cases (is_empty (schema_of table) && startswith (name_of table) "pg_")) [
                  | inl p ↦ cc (rw (e, s, p) at h)
                  | inr p ↦ elim (Bool-cases (resolves_to_cte g table (name_of table))) [
                    | inl r ↦ record {
                      named = e;
                      schema_ok = s;
                      name_ok = p;
                      found = inl (r, returned-inj (rw (e, s, p, r) at h));
                    }
                    | inr r ↦ elim (Bool-cases (contains (map g.lower allowed) (name_of table))) [
                      | inl l ↦ record {
                        named = e;
                        schema_ok = s;
                        name_ok = p;
                        found = inr (r, l, returned-inj (rw (e, s, p, r, l) at h));
                      }
                      | inr l ↦ cc (rw (e, s, p, r, l) at h)
                    ]
                  ]
                ]
          ]
  ]

  Passed-check_table :
      (allowed : List String) (table : Node) (seen out : List String)
      → Passed allowed table seen out
      → check_table g (map g.lower allowed) table seen ≡ returned out
  unfolding check_table
  Passed-check_table allowed table seen out h = elim h.found [
    | inl (r, o) ↦ rw (h.named, h.schema_ok, h.name_ok, r, o) refl
    | inr (r, l, o) ↦ rw (h.named, h.schema_ok, h.name_ok, r, l, o) refl
  ]

  IsOrdinary-iff :
      (table : Node)
      → ((is_empty (name_of table) ≡ false)
          × ((contains system_schemas (schema_of table) || startswith (schema_of table) "pg_")
              ≡ false)
          × ((is_empty (schema_of table) && startswith (name_of table) "pg_") ≡ false))
        ↔ IsOrdinary table
  IsOrdinary-iff table = (
    λ (e, s, p).
        let (c, q) = or-eq-false _ _ s in
        record {
          named = λ n. cc ((eq_iff (name_of table) "").1 n, e);
          no_catalog = (not_contains_iff _ _).0 c;
          no_pg_schema = λ w. cc ((starts_with_iff (schema_of table) "pg_").1 w, q);
          no_pg_name = λ n w.
              and-ne-both _ _ p ((eq_iff (schema_of table) "").1 n)
                ((starts_with_iff (name_of table) "pg_").1 w);
        },
    λ o. (
      false_of_not _ (λ e. o.named ((eq_iff (name_of table) "").0 e)),
      or_false _ _ ((not_contains_iff system_schemas (schema_of table)).1 o.no_catalog)
          (false_of_not _ (λ e. o.no_pg_schema ((starts_with_iff (schema_of table) "pg_").0 e))),
      and_false _ _ (λ n w.
          o.no_pg_name ((eq_iff (schema_of table) "").0 n)
            ((starts_with_iff (name_of table) "pg_").0 w)),
    ),
  )

  -- What the loop's body adds to the set of touched tables.
  pub data Touched (allowed : List String) (table : Node) (seen out : List String) : Type 0 where
    skipped : IsNamedAbove g table (name_of table) → out ≡ seen → Touched allowed table seen out
    added :
        ¬ IsNamedAbove g table (name_of table)
        → IsListed allowed (name_of table)
        → out ≡ add (name_of table) seen
        → Touched allowed table seen out

  module _ (t : IsSqlglot g) where
    pub check_table_sound :
        (allowed : List String) (table : Node) (seen out : List String)
        → check_table g (map g.lower allowed) table seen ≡ returned out
        → IsOrdinary table × Touched allowed table seen out
    check_table_sound allowed table seen out h =
        let k = check_table-Passed allowed table seen out h in
        (
          (IsOrdinary-iff table).0 (k.named, k.schema_ok, k.name_ok),
          elim k.found [
            | inl (r, o) ↦ skipped ((resolves_to_cte_iff g t table (name_of table)).0 r) o
            | inr (r, l, o) ↦
                added (λ w. cc ((resolves_to_cte_iff g t table (name_of table)).1 w, r))
                  ((contains_iff _ _).0 l) o
          ],
        )

    check_table_complete :
        (allowed : List String) (table : Node) (seen out : List String)
        → IsOrdinary table
        → Touched allowed table seen out
        → check_table g (map g.lower allowed) table seen ≡ returned out
    check_table_complete allowed table seen out o touched =
        let (e, s, p) = (IsOrdinary-iff table).1 o in
        Passed-check_table allowed table seen out (record {
          named = e;
          schema_ok = s;
          name_ok = p;
          found = elim touched [
            | skipped w q ↦ inl ((resolves_to_cte_iff g t table (name_of table)).1 w, q)
            | added n l q ↦ inr (
              false_of_not _ (λ r. n ((resolves_to_cte_iff g t table (name_of table)).0 r)),
              (contains_iff _ _).1 l,
              q,
            )
          ];
        })

    IsReadable-of :
        {allowed seen out : List String} {table : Node}
        → IsOrdinary table
        → Touched allowed table seen out
        → IsReadable allowed table
    IsReadable-of o (skipped w q) = record { ordinary = o; known = inl w }
    IsReadable-of o (added n l q) = record { ordinary = o; known = inr l }

    touch :
        (allowed : List String) (table : Node) (seen : List String)
        → IsReadable allowed table
        → (out : List String) × Touched allowed table seen out
    touch allowed table seen r = elim (Bool-cases (resolves_to_cte g table (name_of table))) [
      | inl c ↦ (seen, skipped ((resolves_to_cte_iff g t table (name_of table)).0 c) refl)
      | inr c ↦
          let n : ¬ IsNamedAbove g table (name_of table) =
            λ w. cc ((resolves_to_cte_iff g t table (name_of table)).1 w, c) in
          (
            add (name_of table) seen,
            added n (elim r.known [ inl w ↦ absurd (n w) | inr l ↦ l ]) refl,
          )
    ]

    tables_loop_sound :
        (allowed : List String) (ts : List Node) (seen out : List String)
        → tables_loop g (map g.lower allowed) ts seen ≡ returned out
        → All (IsReadable allowed) ts
    unfolding tables_loop
    tables_loop_sound allowed [] seen out h = tt
    tables_loop_sound allowed (x ∷ ts) seen out h =
        let (next, e, h') = >>=-eq-returned (check_table g (map g.lower allowed) x seen) _ h in
        let (o, w) = check_table_sound allowed x seen next e in
        (IsReadable-of o w, tables_loop_sound allowed ts next out h')

    tables_loop_complete :
        (allowed : List String) (ts : List Node) (seen : List String)
        → All (IsReadable allowed) ts
        → (out : List String) × (tables_loop g (map g.lower allowed) ts seen ≡ returned out)
    unfolding tables_loop
    tables_loop_complete allowed [] seen h = (seen, refl)
    tables_loop_complete allowed (x ∷ ts) seen h =
        let (next, w) = touch allowed x seen h.0 in
        let (out, e) = tables_loop_complete allowed ts next h.1 in
        (out, rw (check_table_complete allowed x seen next h.0.ordinary w) e)

  -- The whitelist check passes exactly if every table has a name, is in no system schema and in no pg_
  -- schema, and, where it has no schema, has no name that starts with pg_; and is on the whitelist by its name in lower case, or some
  -- query around it has a CTE of that name. The second does not make it a reference to that CTE: the
  -- schema of the table and the place of the CTE do not count.
  pub check_tables_iff :
      IsSqlglot g
      → (ast : Node) (allowed : List String)
      → ((out : List String) × (check_tables g ast allowed ≡ returned out))
        ↔ All (IsReadable allowed) (g.find_all ast Class.table)
  unfolding check_tables
  check_tables_iff t ast allowed = (
    λ (out, h). tables_loop_sound t allowed _ [] out h,
    λ h. tables_loop_complete t allowed _ [] h,
  )
