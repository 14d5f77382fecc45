-- ===== src/World.antt =====
-- The state that requests share, and actions on it: the cache, the log output, the audit tables and
-- the statements sent to the read-only database.
pub mod Frames
use django_mcp_sql.Prelude.{
  ℕ, suc, String, ◌≡◌, Bool, true, not, Option, none, some, List, [], ◌∷◌, ◌++◌, is_some, str_eq,
  if◌then◌else◌,
}
use django_mcp_sql.Raise.{Exn, Try, returned, raised}
use django_mcp_sql.Models.{AuditFields, RejectionRow}

-- One call of a logger, by its level.
pub data LogEntry : Type 0 where
  error : String → LogEntry
  exception : String → LogEntry
  warning : String → LogEntry
  info : String → LogEntry

-- One `cursor.execute(sql, params)`.
pub record Statement : Type 0 where
  pub sql : String
  pub params : List String

-- `C` is the state of Django's cache.
pub record World (C : Type 0) : Type 0 where
  pub cache : C
  pub logs : List LogEntry
  -- the audit rows whose INSERT was tried, and those that were stored
  pub attempts : List AuditFields
  pub rows : List AuditFields
  pub rejections : List RejectionRow
  -- what was executed on the read-only alias
  pub executed : List Statement

abbrev pub Act : Type 0 → Type 0 → Type 0
Act C A = World C → Try A × World C

module _ {C : Type 0} where
  abbrev pub pure : {A : Type 0} → A → Act C A
  pure a w = (returned a, w)

  abbrev pub raise : {A : Type 0} → Exn → Act C A
  raise e w = (raised e, w)

  abbrev pub lift : {A : Type 0} → Try A → Act C A
  lift r w = (r, w)

  abbrev pub log : LogEntry → Act C (Unit {0})
  log entry w = (returned tt, record w { logs = w.logs ++ entry ∷ [] })

module _ {C A B : Type 0} where
  abbrev pub continue : Try A → (A → Act C B) → Act C B
  continue (returned a) f w = f a w
  continue (raised e) f w = (raised e, w)

  infixl 5 ◌>>=◌
  abbrev pub ◌>>=◌ : Act C A → (A → Act C B) → Act C B
  ◌>>=◌ m f w = let (r, w') = m w in continue r f w'

module _ {C B : Type 0} where
  infixl 5 ◌>>◌
  abbrev pub ◌>>◌ : Act C (Unit {0}) → Act C B → Act C B
  m >> n = m >>= λ _. n

module _ {C A B : Type 0} where
  abbrev pub settle : Try A → (A → Act C B) → (Exn → Act C B) → Act C B
  settle (returned a) f handler w = f a w
  settle (raised e) f handler w = handler e w

  -- `try: a = m; except: handler` with what follows in `f`, outside the `try`.
  abbrev pub try_else : Act C A → (A → Act C B) → (Exn → Act C B) → Act C B
  try_else m f handler w = let (r, w') = m w in settle r f handler w'
