-- ===== src/Parser/Sample.antt =====
-- A sqlglot of one query, for the tests: its text, its tree as a table, and the laws.
use django_mcp_sql.Prelude.{
  ℕ, zero, suc, ◌+◌, ◌-◌, ◌<◌, String, ◌≡◌, refl, ◌≢◌, inl, inr, Bool, true, false, ◌&&◌, Option,
  none, some, List, [], ◌∷◌, any, ltb, ◌==◌, str_eq, show, format, if◌then◌else◌, Bool-cases, arith,
}
use django_mcp_sql.Outcome.{OutcomeReason}
use django_mcp_sql.Raise.{parse_failure, query_rejected, Try, returned, raised}
use django_mcp_sql.Ast.{Class, Ast, first, IsSqlglot}

-- One line of the table: the classes of a node, where it hangs, and its names.
record Entry : Type 0 where
  classes : List Class
  above : ℕ
  name : String
  alias : String
  children : List ℕ

abbrev pub sample_sql : String
sample_sql = "WITH recent AS (SELECT id FROM app_user) SELECT COUNT(*) AS n FROM recent"

abbrev sample_tree : List Entry
sample_tree =
    record {
      classes = Class.query ∷ Class.select ∷ [];
      above = 99;
      name = "";
      alias = "";
      children = 4 ∷ [];
    }
    ∷ record { classes = Class.with_clause ∷ []; above = 0; name = ""; alias = ""; children = [] }
    ∷ record { classes = Class.cte ∷ []; above = 1; name = ""; alias = "recent"; children = 5 ∷ [] }
    ∷ record { classes = []; above = 0; name = ""; alias = ""; children = [] }
    ∷ record { classes = []; above = 0; name = ""; alias = "n"; children = [] }
    ∷ record {
      classes = Class.query ∷ Class.select ∷ [];
      above = 2;
      name = "";
      alias = "";
      children = 10 ∷ [];
    }
    ∷ record { classes = Class.table ∷ []; above = 3; name = "recent"; alias = ""; children = [] }
    ∷ record {
      classes = Class.func ∷ Class.count ∷ [];
      above = 4;
      name = "count";
      alias = "";
      children = [];
    }
    ∷ record { classes = Class.star ∷ []; above = 7; name = "*"; alias = ""; children = [] }
    ∷ record { classes = []; above = 5; name = ""; alias = ""; children = [] }
    ∷ record { classes = Class.column ∷ []; above = 5; name = "id"; alias = ""; children = [] }
    ∷ record { classes = Class.table ∷ []; above = 9; name = "app_user"; alias = ""; children = [] }
    ∷ []

nowhere : Entry
nowhere = record { classes = []; above = 99; name = ""; alias = ""; children = [] }

entry : ℕ → List Entry → Entry
unfolding nowhere
entry n [] = nowhere
entry zero (x ∷ xs) = x
entry (suc n) (x ∷ xs) = entry n xs

class_number : Class → ℕ
class_number Class.query = 0
class_number Class.semicolon = 1
class_number Class.select = 2
class_number Class.cte = 3
class_number Class.with_clause = 4
class_number Class.offset = 5
class_number Class.fetch = 6
class_number Class.lock = 7
class_number Class.table = 8
class_number Class.column = 9
class_number Class.star = 10
class_number Class.count = 11
class_number Class.func = 12
class_number Class.anonymous = 13
class_number Class.generate_series = 14
class_number Class.udtf = 15
class_number Class.literal = 16

at : ℕ → Entry
unfolding entry
at n = entry n sample_tree

has_class : ℕ → Class → Bool
unfolding at class_number
has_class n c = any (λ d. class_number d == class_number c) (at n).classes

-- A parent comes before its children in the table; the root has none.
above_of : ℕ → Option ℕ
unfolding at
above_of n = if ltb (at n).above n then some (at n).above else none

-- `n` is `top` or stands below it.
under : ℕ → ℕ → ℕ → Bool
unfolding at
under zero top n = n == top
under (suc f) top n =
    if n == top then true else if ltb (at n).above n then under f top (at n).above else false

select : (ℕ → Bool) → List ℕ → List ℕ
select p [] = []
select p (n ∷ rest) = let kept = select p rest in if p n then n ∷ kept else kept

all_nodes : List ℕ
all_nodes = 0 ∷ 1 ∷ 2 ∷ 3 ∷ 4 ∷ 5 ∷ 6 ∷ 7 ∷ 8 ∷ 9 ∷ 10 ∷ 11 ∷ []

below : ℕ → Class → List ℕ
unfolding select under has_class all_nodes
below top c = select (λ n. has_class n c && under 12 top n) all_nodes

parse_sample : String → Try (List (Option ℕ))
parse_sample raw =
    if str_eq raw sample_sql
    then returned (some 0 ∷ [])
    else if str_eq raw ""
    then returned []
    else raised (parse_failure "Expecting a statement")

-- From 100 on stand the limited queries; their number tells the limit.
unfoldable pub sample : Ast ℕ
unfolding parse_sample has_class below above_of at
sample = record {
  parse = parse_sample;
  isinstance = has_class;
  type_name = λ n. (at n).name;
  find_all = below;
  find = λ n c. first (below n c);
  parent = above_of;
  depth = λ n. n;
  name = λ n. (at n).name;
  alias = λ n. (at n).alias;
  alias_or_name = λ n. if str_eq (at n).alias "" then (at n).name else (at n).alias;
  db = λ n. "";
  sql_name = λ n. (at n).name;
  this = λ n. first_or n (at n).children;
  ctes = λ n. if n == 0 then 2 ∷ [] else [];
  expressions = λ n. (at n).children;
  table_arg = λ n. none;
  into_arg = λ n. none;
  recursive_arg = λ n. false;
  limit_arg = λ n. none;
  expression = λ n. none;
  int_value = λ n. none;
  limit = λ n k. 100 + k;
  normalized = λ n. returned sample_sql;
  sql = λ n. returned (format (sample_sql ∷ " LIMIT " ∷ show (n - 100) ∷ []));
  lower = λ s. s;
}
  where
    first_or : ℕ → List ℕ → ℕ
    first_or n [] = n
    first_or n (c ∷ rest) = c

lt_of : (n a : ℕ) → ltb a n ≡ true → a < n
lt_of n a h = ground arith

above_of-< : (n p : ℕ) → above_of n ≡ some p → p < n
unfolding above_of
above_of-< n p h = elim (Bool-cases (ltb (at n).above n)) [
  | inl less ↦ let e : (at n).above ≡ p = cc (rw less at h) in rw e at (lt_of n (at n).above less)
  | inr no_ ↦ cc (rw no_ at h)
]

parse_sample-foreign :
    (raw : String) (reason : OutcomeReason) (detail : String)
    → parse_sample raw ≢ raised (query_rejected reason detail)
unfolding parse_sample
parse_sample-foreign raw reason detail h = ground arith

pub sample-IsSqlglot : IsSqlglot sample
unfolding sample above_of
sample-IsSqlglot = record {
  parent_above = above_of-<;
  find_first = λ n c. refl;
  parse_foreign = parse_sample-foreign;
  normalized_foreign = λ n reason detail h. cc;
}

is_count : Class → Bool
is_count c = class_number c == 11

below_star : ℕ → Class → List ℕ
unfolding below is_count
below_star n c = if is_count c then [] else below n c

-- The same, where no function is taken for COUNT: the star stands for itself.
unfoldable pub starred : Ast ℕ
unfolding sample below_star
starred = record sample {
  isinstance = λ n c. if is_count c then false else has_class n c;
  find_all = below_star;
  find = λ n c. first (below_star n c);
}

pub starred-IsSqlglot : IsSqlglot starred
unfolding starred sample above_of
starred-IsSqlglot = record {
  parent_above = above_of-<;
  find_first = λ n c. refl;
  parse_foreign = parse_sample-foreign;
  normalized_foreign = λ n reason detail h. cc;
}
