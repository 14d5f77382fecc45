-- ===== src/Executor/Books.antt =====
-- executor.py: what the parts of the pipeline write to the audit table.
use django_mcp_sql.Prelude.{ℕ, String, ◌≡◌, refl, ◌∙◌, List, [], ◌∷◌, ◌++◌, ◌==◌}
use django_mcp_sql.Raise.{Exn, database_error, connection_error, value_error, Try, returned, raised}
use django_mcp_sql.Models.{AuditFields}
use django_mcp_sql.Caching.{Cache}
use django_mcp_sql.World
use django_mcp_sql.World.{
  World, Statement, LogEntry, Act, error, warning, exception, pure, raise, lift, log, ◌>>=◌, ◌>>◌,
  try_else,
}
use django_mcp_sql.World.Frames.{
  Moves, IsFrame, Moves-pure, Moves-raise, Moves-if, Moves-try_else, Moves-bind,
}
use django_mcp_sql.Throttle.{seed, bump, seed_and_bump}
use django_mcp_sql.Observability.{skip_window, alert_at, count_window, record_query_volume}
use django_mcp_sql.Executor.Audit.{Env, insert_row, insert_failed, count_volume, audit_safely}

-- The audit table and the read-only database are as they were; the cache and the logs may differ.
pub record SameBooks {C : Type 0} (a b : World C) : Type 0 where
  pub attempts : b.attempts ≡ a.attempts
  pub executed : b.executed ≡ a.executed

pub SameBooks-frame : {C : Type 0} → IsFrame (SameBooks {C = C})
SameBooks-frame = record {
  same = λ w. record { attempts = refl; executed = refl };
  then_ = λ a b c h k. record {
    attempts = k.attempts ∙ h.attempts;
    executed = k.executed ∙ h.executed;
  };
}

pub log-SameBooks : {C : Type 0} (entry : LogEntry) → Moves (SameBooks {C = C}) (log entry)
log-SameBooks entry = record { at = λ w. record { attempts = refl; executed = refl } }

module _ {C : Type 0} (k : Cache C) where
  seed_and_bump-SameBooks :
      (key : String) (window : ℕ) → Moves SameBooks (seed_and_bump k key window)
  unfolding seed_and_bump
  seed_and_bump-SameBooks key window =
      Moves-bind SameBooks-frame (seed k key window) (λ added. bump k key)
        (unfold seed in record { at = λ w. record { attempts = refl; executed = refl } })
        (λ added. unfold bump in record { at = λ w. record { attempts = refl; executed = refl } })

  skip_window-SameBooks :
      (user_id : ℕ) (decision : String) (window : ℕ) (e : Exn)
      → Moves SameBooks (skip_window k user_id decision window e)
  unfolding skip_window
  skip_window-SameBooks user_id decision window connection_error = log-SameBooks _
  skip_window-SameBooks user_id decision window (value_error m) = log-SameBooks _
  skip_window-SameBooks user_id decision window e = Moves-raise SameBooks-frame e

  count_window-SameBooks :
      (user_id : ℕ) (label decision : String) (window threshold : ℕ)
      → Moves SameBooks (count_window k user_id label decision window threshold)
  unfolding count_window
  count_window-SameBooks user_id label decision window threshold =
      Moves-try_else SameBooks-frame _ (alert_at k user_id label decision window threshold) _
        (seed_and_bump-SameBooks _ window)
        (λ count.
          Moves-if SameBooks-frame (count == threshold) _ _ (log-SameBooks _)
            (Moves-pure SameBooks-frame tt))
        (skip_window-SameBooks user_id decision window)

  record_query_volume-SameBooks :
      (windows : List (ℕ × ℕ)) (user_id : ℕ) (decision label : String)
      → Moves SameBooks (record_query_volume k windows user_id decision label)
  unfolding record_query_volume
  record_query_volume-SameBooks [] user_id decision label = Moves-pure SameBooks-frame tt
  record_query_volume-SameBooks ((window, threshold) ∷ windows) user_id decision label =
      Moves-bind SameBooks-frame (count_window k user_id label decision window threshold) _
        (count_window-SameBooks user_id label decision window threshold)
        (λ u. record_query_volume-SameBooks windows user_id decision label)

module _ {Node C : Type 0} (env : Env Node C) where
  count_volume-SameBooks : (fields : AuditFields) → Moves SameBooks (count_volume env fields)
  unfolding count_volume
  count_volume-SameBooks fields =
      Moves-try_else SameBooks-frame _ pure _ (record_query_volume-SameBooks env.cache _ _ _ _)
        (Moves-pure SameBooks-frame) (λ e. log-SameBooks _)

  insert_failed-SameBooks :
      (fields : AuditFields) (e : Exn) → Moves SameBooks (insert_failed env fields e)
  unfolding insert_failed
  insert_failed-SameBooks fields (database_error e) = log-SameBooks _
  insert_failed-SameBooks fields e = Moves-raise SameBooks-frame e

  -- One row was tried, and nothing was sent to the read-only database.
  pub record Wrote (fields : AuditFields) (a b : World C) : Type 0 where
    pub attempts : b.attempts ≡ a.attempts ++ fields ∷ []
    pub executed : b.executed ≡ a.executed

  audit_settles :
      (fields : AuditFields) (r : Try (Unit {0})) (w w' : World C)
      → Wrote fields w w'
      → Wrote fields w
          (World.settle r (λ u. count_volume env fields) (insert_failed env fields) w').1
  audit_settles fields (returned u) w w' h =
      let k = (count_volume-SameBooks fields).at w' in
      record { attempts = k.attempts ∙ h.attempts; executed = k.executed ∙ h.executed }
  audit_settles fields (raised e) w w' h =
      let k = (insert_failed-SameBooks fields e).at w' in
      record { attempts = k.attempts ∙ h.attempts; executed = k.executed ∙ h.executed }

  -- Whatever the INSERT does, `_audit_safely` tries one row.
  pub audit_safely-Wrote : (fields : AuditFields) → Moves (Wrote fields) (audit_safely env fields)
  unfolding audit_safely insert_row
  audit_safely-Wrote fields = record {
    at = λ w.
        audit_settles fields (env.insert w.attempts fields) w _
          (record { attempts = refl; executed = refl });
  }
