-- ===== src/Observability.antt =====
-- observability.py: the per-user volume counters, which alert and never block.
pub mod Alerts
mod Tests
use django_mcp_sql.Prelude.{ℕ, String, List, [], ◌∷◌, ◌==◌, is_empty, show, format, if◌then◌else◌}
use django_mcp_sql.Raise.{Exn, connection_error, value_error}
use django_mcp_sql.Caching.{Cache}
use django_mcp_sql.World.{Act, error, warning, pure, raise, log, ◌>>◌, try_else}
use django_mcp_sql.Throttle.{seed_and_bump}

unfoldable pub volume_key : String → ℕ → ℕ → String
volume_key decision window user_id =
    format ("mcp_sql:vol:" ∷ decision ∷ ":" ∷ show window ∷ ":" ∷ show user_id ∷ [])

module _ {C : Type 0} (k : Cache C) where
  abbrev pub increment_failed : ℕ → String → ℕ → String
  increment_failed user_id decision window = format (
      "MCP volume counter increment failed (user="
      ∷ show user_id
      ∷ " decision="
      ∷ decision
      ∷ " window="
      ∷ show window
      ∷ "s)"
      ∷ [])

  abbrev pub tripwire : ℕ → String → String → ℕ → ℕ → ℕ → String
  tripwire user_id label decision count window threshold = format (
      "MCP query-volume tripwire: user="
      ∷ (if is_empty label then "?" else label)
      ∷ " (pk="
      ∷ show user_id
      ∷ ") decision="
      ∷ decision
      ∷ " reached "
      ∷ show count
      ∷ " within a "
      ∷ show window
      ∷ "s window (threshold="
      ∷ show threshold
      ∷ ") — alert only, the query was not blocked."
      ∷ [])

  -- `except (ConnectionError, ValueError): ...; continue`
  unfoldable pub skip_window : ℕ → String → ℕ → Exn → Act C (Unit {0})
  skip_window user_id decision window connection_error =
      log (warning (increment_failed user_id decision window))
  skip_window user_id decision window (value_error m) =
      log (warning (increment_failed user_id decision window))
  skip_window user_id decision window e = raise e

  unfoldable pub alert_at : ℕ → String → String → ℕ → ℕ → ℕ → Act C (Unit {0})
  alert_at user_id label decision window threshold count =
      if count == threshold
      then log (error (tripwire user_id label decision count window threshold))
      else pure tt

  -- The body of the loop over `{window_seconds: threshold}`.
  unfoldable pub count_window : ℕ → String → String → ℕ → ℕ → Act C (Unit {0})
  unfolding seed_and_bump skip_window alert_at volume_key
  count_window user_id label decision window threshold =
      try_else (seed_and_bump k (volume_key decision window user_id) window)
        (alert_at user_id label decision window threshold) (skip_window user_id decision window)

  -- `windows` is what `VOLUME_ALERT_THRESHOLDS.get(decision)` gives, empty if it has no such key.
  unfoldable pub record_query_volume : List (ℕ × ℕ) → ℕ → String → String → Act C (Unit {0})
  unfolding count_window
  record_query_volume [] user_id decision label = pure tt
  record_query_volume ((window, threshold) ∷ windows) user_id decision label =
      count_window user_id label decision window threshold
      >> record_query_volume windows user_id decision label
