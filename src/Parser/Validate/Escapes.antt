-- ===== src/Parser/Validate/Escapes.antt =====
-- parser.py: which exceptions leave `parse_and_validate`, and which checks speak first.
use django_mcp_sql.Prelude.{String, ◌≡◌, refl, ◌≢◌, ◌⊎◌, inl, inr, Bool, Option, List, [], ◌∷◌}
use django_mcp_sql.Raise.{
  Exn, parse_failure, recursion_error, query_rejected, Try, returned, raised,
}
use django_mcp_sql.Raise.Raises.{
  Raises, Raises-returned, Raises-raised, Raises-bind, Raises-seq, Raises-weaken,
}
use django_mcp_sql.Ast.{Ast}
use django_mcp_sql.Parser.Validate.{
  parse_caught, serialize_caught, single_statement, statements, name_checks, parse_and_validate,
}
use django_mcp_sql.Parser.Validate.Reasons.{
  IsSecurity, IsStar, require_query-IsSecurity, check_tables-IsSecurity,
  check_no_denied_functions-IsSecurity, check_no_bare_keyword_columns-IsSecurity,
  shape_checks-IsSecurity, ergonomic_checks-IsStar,
}

-- `QueryRejectedError`.
abbrev pub IsRejection : Exn → Type 0
IsRejection (query_rejected reason detail) = Unit
IsRejection _ = ⊥

-- An exception of a call of sqlglot that no `except` clause names.
abbrev pub IsUncaught : Exn → Type 0
IsUncaught (parse_failure m) = ⊥
IsUncaught recursion_error = ⊥
IsUncaught _ = Unit

IsSecurity-IsRejection : (e : Exn) → IsSecurity e → IsRejection e
IsSecurity-IsRejection (query_rejected reason detail) h = tt
IsSecurity-IsRejection _ h = h

IsStar-IsRejection : (e : Exn) → IsStar e → IsRejection e
IsStar-IsRejection (query_rejected reason detail) h = tt
IsStar-IsRejection _ h = h

module _ {Node : Type 0} (g : Ast Node) (raw : String) where
  -- What may leave the function: a rejection, or what sqlglot raised and nothing catches.
  data Leaves (e : Exn) : Type 0 where
    rejection : IsRejection e → Leaves e
    of_parse : g.parse raw ≡ raised e → e ≢ recursion_error → IsUncaught e → Leaves e
    of_serialize : (ast : Node) → g.normalized ast ≡ raised e → e ≢ recursion_error → Leaves e

  parse_caught-Leaves :
      (r : Try (List (Option Node))) → g.parse raw ≡ r → Raises Leaves (parse_caught r)
  unfolding parse_caught
  parse_caught-Leaves (returned l) p = Raises-returned l
  parse_caught-Leaves (raised (parse_failure m)) p = Raises-raised _ (rejection tt)
  parse_caught-Leaves (raised recursion_error) p = Raises-raised _ (rejection tt)
  parse_caught-Leaves (raised e) p = Raises-raised e (of_parse p (λ q. cc) tt)

  serialize_caught-Leaves :
      (ast : Node) (r : Try String) → g.normalized ast ≡ r → Raises Leaves (serialize_caught r)
  unfolding serialize_caught
  serialize_caught-Leaves ast (returned s) p = Raises-returned s
  serialize_caught-Leaves ast (raised recursion_error) p = Raises-raised _ (rejection tt)
  serialize_caught-Leaves ast (raised e) p = Raises-raised e (of_serialize ast p (λ q. cc))

  pub single_statement-IsSecurity : (l : List Node) → Raises IsSecurity (single_statement l)
  unfolding single_statement
  single_statement-IsSecurity [] = Raises-raised _ (λ e. cc)
  single_statement-IsSecurity (s ∷ []) = Raises-returned s
  single_statement-IsSecurity (s ∷ t ∷ rest) = Raises-raised _ (λ e. cc)

  secure : {A : Type 0} {m : Try A} → Raises IsSecurity m → Raises Leaves m
  secure h = Raises-weaken (λ e s. rejection (IsSecurity-IsRejection e s)) h

  name_checks-Leaves : (ban : Bool) (ast : Node) → Raises Leaves (name_checks g ban ast)
  unfolding name_checks
  name_checks-Leaves ban ast =
      Raises-seq _ _ (secure (check_no_denied_functions-IsSecurity g ast)) (
        Raises-seq _ _ (secure (check_no_bare_keyword_columns-IsSecurity g ast)) (
          Raises-weaken (λ e s. rejection (IsStar-IsRejection e s))
            (ergonomic_checks-IsStar g ban ast)))

  parse_and_validate-Leaves :
      (allowed : List String) (ban : Bool) → Raises Leaves (parse_and_validate g raw allowed ban)
  unfolding parse_and_validate
  parse_and_validate-Leaves allowed ban =
      Raises-bind _ _ (parse_caught-Leaves (g.parse raw) refl) λ l.
        Raises-bind _ _ (secure (single_statement-IsSecurity (statements g l))) λ ast.
          Raises-seq _ _ (secure (require_query-IsSecurity g ast)) (
            Raises-seq _ _ (secure (shape_checks-IsSecurity g ast)) (
              Raises-bind _ _ (secure (check_tables-IsSecurity g ast allowed)) λ referenced.
                Raises-seq _ _ (name_checks-Leaves ban ast) (
                  Raises-bind _ _ (serialize_caught-Leaves ast (g.normalized ast) refl)
                    λ sql. Raises-returned _)))

-- No `RecursionError` leaves `parse_and_validate`, and no exception but `QueryRejectedError`, except
-- one that sqlglot itself raised: while parsing, and then it is no `ParseError`, or while serialising.
pub parse_and_validate_raises :
    {Node : Type 0} (g : Ast Node) (raw : String) (allowed : List String) (ban : Bool) (e : Exn)
    → parse_and_validate g raw allowed ban ≡ raised e
    → (e ≢ recursion_error)
      × (IsRejection e
          ⊎ ((g.parse raw ≡ raised e) × IsUncaught e)
          ⊎ ((ast : Node) × (g.normalized ast ≡ raised e)))
parse_and_validate_raises g raw allowed ban e h =
    elim ((parse_and_validate-Leaves g raw allowed ban).at e h) [
      | rejection r ↦ ((λ p. rw p at r), inl r)
      | of_parse p n u ↦ (n, inr (inl (p, u)))
      | of_serialize ast p n ↦ (n, inr (inr (ast, p)))
    ]
