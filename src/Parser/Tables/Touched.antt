-- ===== src/Parser/Tables/Touched.antt =====
-- parser.py: the set of tables that `_check_tables` returns.
use django_mcp_sql.Prelude.{
  String, ◌≡◌, refl, ◌↔◌, ◌⊎◌, inl, inr, true, ◌||◌, List, [], ◌∷◌, map, Any, str_eq, contains, add,
  eq_iff, Bool-cases, arith, contains-add,
}
use django_mcp_sql.Raise.{returned, >>=-eq-returned}
use django_mcp_sql.Ast.{Ast, Class, IsSqlglot}
use django_mcp_sql.Parser.Scope.Lexical.{IsNamedAbove}
use django_mcp_sql.Parser.Tables.{check_table, tables_loop, check_tables}
use django_mcp_sql.Parser.Tables.Whitelist.{
  name_of, IsListed, Touched, skipped, added, check_table_sound, returned-inj,
}

module _ {Node : Type 0} (g : Ast Node) where
  -- The table has this name, and no query around it has a CTE of the name.
  abbrev pub IsUnmasked : String → Node → Type 0
  IsUnmasked name table = (name_of g table ≡ name) × ¬ IsNamedAbove g table (name_of g table)

  Touched-contains :
      {allowed seen out : List String} {table : Node} (name : String)
      → Touched g allowed table seen out
      → (contains out name ≡ true) ↔ ((contains seen name ≡ true) ⊎ IsUnmasked name table)
  Touched-contains name (skipped w q) =
      (λ h. inl (rw q at h), λ h. elim h [ inl c ↦ rw q c | inr (e, n) ↦ absurd (n w) ])
  Touched-contains {seen} {table} name (added n l q) =
      let step : contains (add (name_of g table) seen) name
          ≡ (str_eq (name_of g table) name || contains seen name) =
        contains-add (name_of g table) seen name in
      (
        λ h. elim (Bool-cases (str_eq (name_of g table) name)) [
          | inl e ↦ inr ((eq_iff (name_of g table) name).0 e, n)
          | inr e ↦ inl (rw (q, step, e) at h)
        ],
        λ h. elim h [
          | inl c ↦ rw (q, step) (ground (arith, c))
          | inr (e, m) ↦ rw (q, step, (eq_iff (name_of g table) name).1 e) refl
        ],
      )

  Touched-IsListed :
      {allowed seen out : List String} {table : Node} (name : String)
      → Touched g allowed table seen out
      → contains out name ≡ true
      → (contains seen name ≡ true) ⊎ IsListed g allowed name
  Touched-IsListed name (skipped w q) h = inl (rw q at h)
  Touched-IsListed {allowed} {seen} {table} name (added n l q) h =
      elim (Bool-cases (str_eq (name_of g table) name)) [
        | inl e ↦ inr (rw ((eq_iff (name_of g table) name).0 e) at l)
        | inr e ↦ inl (rw (q, contains-add (name_of g table) seen name, e) at h)
      ]

  module _ (t : IsSqlglot g) where
    tables_loop-contains :
        (allowed : List String) (ts : List Node) (seen out : List String) (name : String)
        → tables_loop g (map g.lower allowed) ts seen ≡ returned out
        → (contains out name ≡ true) ↔ ((contains seen name ≡ true) ⊎ Any (IsUnmasked name) ts)
    unfolding tables_loop
    tables_loop-contains allowed [] seen out name h = (
      λ c. inl (rw (returned-inj g h) at c),
      λ c. elim c [ inl d ↦ rw (returned-inj g h) d | inr m ↦ elim m [ ] ],
    )
    tables_loop-contains allowed (x ∷ ts) seen out name h =
        let (next, e, h') = >>=-eq-returned (check_table g (map g.lower allowed) x seen) _ h in
        let step = Touched-contains name (check_table_sound g t allowed x seen next e).1 in
        let ih = tables_loop-contains allowed ts next out name h' in
        (
          λ c. elim (ih.0 c) [
            | inl d ↦ elim (step.0 d) [ inl s ↦ inl s | inr r ↦ inr (Any.here r) ]
            | inr m ↦ inr (Any.there m)
          ],
          λ c. ih.1 (elim c [
            | inl s ↦ inl (step.1 (inl s))
            | inr m ↦ elim m [ Any.here r ↦ inl (step.1 (inr r)) | Any.there m' ↦ inr m' ]
          ]),
        )

    tables_loop-IsListed :
        (allowed : List String) (ts : List Node) (seen out : List String) (name : String)
        → tables_loop g (map g.lower allowed) ts seen ≡ returned out
        → contains out name ≡ true
        → (contains seen name ≡ true) ⊎ IsListed g allowed name
    unfolding tables_loop
    tables_loop-IsListed allowed [] seen out name h c = inl (rw (returned-inj g h) at c)
    tables_loop-IsListed allowed (x ∷ ts) seen out name h c =
        let (next, e, h') = >>=-eq-returned (check_table g (map g.lower allowed) x seen) _ h in
        elim (tables_loop-IsListed allowed ts next out name h' c) [
          | inl d ↦ Touched-IsListed name (check_table_sound g t allowed x seen next e).1 d
          | inr l ↦ inr l
        ]

  -- A name is in the returned set exactly if a table of the query that is no CTE reference has it;
  -- and then it is on the whitelist.
  pub check_tables-contains :
      IsSqlglot g
      → (ast : Node) (allowed out : List String) (name : String)
      → check_tables g ast allowed ≡ returned out
      → ((contains out name ≡ true) ↔ Any (IsUnmasked name) (g.find_all ast Class.table))
        × (contains out name ≡ true → IsListed g allowed name)
  unfolding check_tables contains
  check_tables-contains t ast allowed out name h =
      let iff = tables_loop-contains t allowed (g.find_all ast Class.table) [] out name h in
      (
        (λ c. elim (iff.0 c) [ inl e ↦ cc | inr m ↦ m ], λ m. iff.1 (inr m)),
        λ c. elim (tables_loop-IsListed t allowed (g.find_all ast Class.table) [] out name h c) [
          | inl e ↦ cc
          | inr l ↦ l
        ],
      )
