-- ===== src/Session/Drift.antt =====
-- session.py: `session_drift`, the comparison of a session with what it should be.
use django_mcp_sql.Prelude.{
  String, Option, none, some, List, [], ◌∷◌, ◌++◌, not, str_eq, format, if◌then◌else◌,
}
use django_mcp_sql.Raise.{Try, returned, raised, other_error}
use django_mcp_sql.Database.{Db}
use django_mcp_sql.World.{Statement, Act, pure, ◌>>=◌, ◌>>◌}
use django_mcp_sql.Session.{expected_session_gucs, execute}

-- `str(cursor.fetchone()[0])`, of the statements that were executed; `none` where there is no row.
abbrev pub Fetch : Type 0
Fetch = List Statement → Option String

row_or_fail : Option String → Try String
row_or_fail none = raised (other_error "AssertionError")
row_or_fail (some value) = returned value

-- The items of `drift`: a name, with what is expected and what is there.
abbrev pub Drift : Type 0
Drift = List (String × (String × String))

unfoldable pub note_drift : String → String → String → Drift → Drift
note_drift name expected actual drift =
    if not (str_eq actual expected) then drift ++ (name, (expected, actual)) ∷ [] else drift

module _ {C : Type 0} (db : Db) (fetch : Fetch) where
  -- One statement without parameters, and the text of its row.
  unfoldable pub ask : String → Act C String
  unfolding execute row_or_fail
  ask sql =
      execute db (record { sql = sql; params = [] }) >> (λ w. (row_or_fail (fetch w.executed), w))

  unfoldable pub drift_loop : List (String × String) → Drift → Act C Drift
  unfolding ask note_drift
  drift_loop [] drift = pure drift
  drift_loop ((name, expected) ∷ rest) drift = ask (format ("SHOW " ∷ name ∷ [])) >>= λ actual.
      drift_loop rest (note_drift name expected actual drift)

  unfoldable pub session_drift : String → Act C Drift
  unfolding drift_loop
  session_drift expected_role = ask "SELECT current_user" >>= λ actual.
      drift_loop expected_session_gucs (note_drift "current_user" expected_role actual [])
