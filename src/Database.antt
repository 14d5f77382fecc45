-- ===== src/Database.antt =====
-- The read-only connection (Django and the Postgres driver). It is not part of this repository, so it
-- is a parameter of the model: what each call does, given the statements that were executed before it.
use django_mcp_sql.Prelude.{String, Bool, Option, List}
use django_mcp_sql.Prelude.Int.{ℤ}
use django_mcp_sql.Raise.{Try}
use django_mcp_sql.World.{Statement}

-- A Python object in a fetched row; `other` is one that is no JSON primitive, by its `str`, and a
-- float is given by the text that JSON prints for it.
pub data Value : Type 0 where
  null : Value
  bool : Bool → Value
  int : ℤ → Value
  float : String → Value
  text : String → Value
  other : String → Value

pub record Db : Type 0 where
  -- entering `transaction.atomic(...)` and `cursor()`, and leaving them with no exception
  pub enter : List Statement → Try (Unit {0})
  pub leave : List Statement → Try (Unit {0})
  -- `cur.execute`, `cur.fetchall()`, and the names of `cur.description`
  pub execute : List Statement → Statement → Try (Unit {0})
  pub fetchall : List Statement → Try (List (List Value))
  pub description : List Statement → Option (List String)
