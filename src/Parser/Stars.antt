-- ===== src/Parser/Stars.antt =====
-- parser.py: `_check_no_select_star` and `_check_no_whole_row_refs`.
pub mod Projection
pub mod RowRefs
use django_mcp_sql.Prelude.{
  ℕ, zero, suc, String, Option, none, some, List, [], ◌∷◌, is_some, is_empty, contains, add, format,
  if◌then◌else◌,
}
use django_mcp_sql.Outcome.{select_star}
use django_mcp_sql.Raise.{Try, returned, raised, query_rejected, for_each}
use django_mcp_sql.Ast.{Ast, Class}

module _ {Node : Type 0} (g : Ast Node) where
  -- `(qualifier.args.get("table") and qualifier.args["table"].name) or "?"`
  abbrev table_label : Option Node → String
  table_label none = "?"
  table_label (some t) = if is_empty (g.name t) then "?" else g.name t

  abbrev bare_star : String
  bare_star = "Bare SELECT * is rejected; enumerate columns explicitly"

  unfoldable pub star_message : Option Node → String
  star_message none = bare_star
  star_message (some qualifier) =
      if g.isinstance qualifier Class.column
      then format (
          "Qualified '"
          ∷ table_label (g.table_arg qualifier)
          ∷ ".*' is rejected; enumerate columns explicitly"
          ∷ [])
      else bare_star

  -- `while cur is not None`, on fuel.
  unfoldable pub star_loop : ℕ → Node → Option Node → Try (Unit {0})
  star_loop zero star cur = returned tt
  star_loop (suc f) star none = returned tt
  star_loop (suc f) star (some cur) =
      let rest = star_loop f star (g.parent cur) in
      if g.isinstance cur Class.count
      then returned tt
      else if g.isinstance cur Class.select
      then raised (query_rejected select_star (star_message (g.parent star)))
      else rest

  -- The body of the loop over the stars; a node has no more ancestors than its depth.
  unfoldable pub check_star : Node → Try (Unit {0})
  check_star star = star_loop (g.depth star) star (g.parent star)

  unfoldable pub check_no_select_star : Node → Try (Unit {0})
  unfolding check_star star_loop
  check_no_select_star ast = for_each (g.find_all ast Class.star) check_star

  -- The set of every `Table.alias_or_name`, in lower case.
  pub table_aliases : List Node → List String
  table_aliases [] = []
  table_aliases (t ∷ ts) =
      let rest = table_aliases ts in
      let label = g.lower (g.alias_or_name t) in if is_empty label then rest else add label rest

  unfoldable pub check_row_ref : List String → Node → Try (Unit {0})
  check_row_ref aliases col =
      if is_some (g.table_arg col)
      then returned tt
      else if contains aliases (g.lower (g.name col))
      then raised (
          query_rejected select_star (
            format (
              "Bare reference to row alias '"
              ∷ g.lower (g.name col)
              ∷ "' returns the whole row; enumerate columns explicitly"
              ∷ [])))
      else returned tt

  unfoldable pub check_projection : List String → Node → Try (Unit {0})
  check_projection aliases p = for_each (g.find_all p Class.column) (check_row_ref aliases)

  unfoldable pub check_projections : List String → Node → Try (Unit {0})
  check_projections aliases sel = for_each (g.expressions sel) (check_projection aliases)

  -- `if not table_aliases: return`
  unfoldable pub check_aliases : List String → Node → Try (Unit {0})
  check_aliases [] ast = returned tt
  check_aliases (a ∷ rest) ast =
      for_each (g.find_all ast Class.select) (check_projections (a ∷ rest))

  unfoldable pub check_no_whole_row_refs : Node → Try (Unit {0})
  unfolding table_aliases check_aliases check_projections check_projection check_row_ref
  check_no_whole_row_refs ast = check_aliases (table_aliases (g.find_all ast Class.table)) ast
