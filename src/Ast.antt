-- ===== src/Ast.antt =====
-- What parser.py uses of sqlglot. The library is not part of this repository, so its syntax trees
-- and its functions are a parameter of the model; `IsSqlglot` states what the code relies on.
use django_mcp_sql.Prelude.{ℕ, ◌<◌, String, ◌≡◌, ◌≢◌, Bool, Option, none, some, List, [], ◌∷◌}
use django_mcp_sql.Prelude.Int.{ℤ}
use django_mcp_sql.Outcome.{OutcomeReason}
use django_mcp_sql.Raise.{Try, raised, query_rejected}

-- The classes of `sqlglot.exp` that the checks name.
pub data Class : Type 0 where
  query semicolon select cte with_clause offset fetch lock table column star count func : Class
  anonymous generate_series udtf literal : Class

pub record Ast (Node : Type 0) : Type 0 where
  -- `sqlglot.parse(raw_sql, dialect="postgres")`; an entry may be `None`
  pub parse : String → Try (List (Option Node))
  -- `isinstance(node, exp.X)` and `type(node).__name__`
  pub isinstance : Node → Class → Bool
  pub type_name : Node → String
  -- `node.find_all(exp.X)`, as the list of what it yields, and `node.find(exp.X)`
  pub find_all : Node → Class → List Node
  pub find : Node → Class → Option Node
  -- `node.parent`, and how far below its root a node stands
  pub parent : Node → Option Node
  pub depth : Node → ℕ
  -- properties of nodes; a text that is missing or `None` is ""
  pub name : Node → String
  pub alias : Node → String
  pub alias_or_name : Node → String
  pub db : Node → String
  pub sql_name : Node → String
  -- `cte.this`; `node.ctes`, empty where a node has no such attribute; `select.expressions`
  pub this : Node → Node
  pub ctes : Node → List Node
  pub expressions : Node → List Node
  -- `node.args.get("table" | "into" | "recursive" | "limit")`, and `limit.expression`
  pub table_arg : Node → Option Node
  pub into_arg : Node → Option Node
  pub recursive_arg : Node → Bool
  pub limit_arg : Node → Option Node
  pub expression : Node → Option Node
  -- `int(literal.this)`, `none` where it raises `TypeError` or `ValueError`
  pub int_value : Node → Option ℤ
  -- `query.limit(n)`; `node.sql(dialect="postgres", normalize=True)`; the same with no `normalize`
  pub limit : Node → ℕ → Node
  pub normalized : Node → Try String
  pub sql : Node → Try String
  -- `str.lower`, by the Unicode tables of the interpreter
  pub lower : String → String

-- `find` is the first node that `find_all` yields.
abbrev pub first {ℓ} : {A : Type ℓ} → List A → Option A
first [] = none
first (x ∷ xs) = some x

-- What the checks rely on: nodes stand in finite trees, so a parent is nearer to the root, `find` is
-- the first of `find_all`, and sqlglot does not raise this package's own exception.
pub record IsSqlglot {Node : Type 0} (g : Ast Node) : Type 0 where
  pub parent_above : (n p : Node) → g.parent n ≡ some p → g.depth p < g.depth n
  pub find_first : (n : Node) (c : Class) → g.find n c ≡ first (g.find_all n c)
  pub parse_foreign :
      (raw : String) (reason : OutcomeReason) (detail : String)
      → g.parse raw ≢ raised (query_rejected reason detail)
  pub normalized_foreign :
      (n : Node) (reason : OutcomeReason) (detail : String)
      → g.normalized n ≢ raised (query_rejected reason detail)
