-- ===== src/Throttle.antt =====
-- throttle.py: the per-IP fixed-window counters behind the silent blocks.
pub mod Keys
pub mod Counting
mod Tests
use django_mcp_sql.Prelude.{
  ℕ, String, Bool, false, Option, [], ◌∷◌, leb, ◌==◌, show, format, if◌then◌else◌,
}
use django_mcp_sql.Raise.{Exn, connection_error, value_error, Try, returned, raised}
use django_mcp_sql.Caching.{Cache, or_else}
use django_mcp_sql.World.{Act, warning, pure, raise, log, ◌>>=◌, ◌>>◌, try_else}

unfoldable pub ip_key : String → String → String
ip_key scope ip = format ("mcp_sql:" ∷ scope ∷ ":ip:" ∷ ip ∷ [])

module _ {C : Type 0} (k : Cache C) where
  -- The result of `cache.get`, with what the `except` clause makes of an exception.
  unfoldable pub blocked_by : ℕ → Try (Option ℕ) → Try Bool
  blocked_by threshold (returned count) = returned (leb threshold (or_else count 0))
  blocked_by threshold (raised connection_error) = returned false
  blocked_by threshold (raised (value_error m)) = returned false
  blocked_by threshold (raised e) = raised e

  unfoldable pub is_ip_blocked : String → String → ℕ → Act C Bool
  unfolding blocked_by ip_key
  is_ip_blocked ip scope threshold w = (blocked_by threshold (k.get w.cache (ip_key scope ip)), w)

  -- `cache.add` and `cache.incr` as actions on the shared state.
  unfoldable pub seed : String → ℕ → Act C Bool
  seed key window w = let (r, c) = k.add w.cache key 0 window in (r, record w { cache = c })

  unfoldable pub bump : String → Act C ℕ
  bump key w = let (r, c) = k.incr w.cache key in (r, record w { cache = c })

  unfoldable pub seed_and_bump : String → ℕ → Act C ℕ
  unfolding seed bump
  seed_and_bump key window = seed key window >>= λ added. bump key

  unfoldable pub engaged : String → String → ℕ → ℕ → ℕ → String
  engaged scope ip count threshold window = format (
      "MCP "
      ∷ scope
      ∷ " silent IP block engaged: ip="
      ∷ ip
      ∷ " count="
      ∷ show count
      ∷ " threshold="
      ∷ show threshold
      ∷ " window_seconds="
      ∷ show window
      ∷ ". Clear via `cache.delete('"
      ∷ ip_key scope ip
      ∷ "')` or wait the window."
      ∷ [])

  -- `except (ConnectionError, ValueError)`
  unfoldable pub failed_increment : String → String → Exn → Act C ℕ
  failed_increment scope ip connection_error =
      log (warning (format ("MCP " ∷ scope ∷ " counter increment failed (ip=" ∷ ip ∷ ")" ∷ [])))
      >> pure 0
  failed_increment scope ip (value_error m) =
      log (warning (format ("MCP " ∷ scope ∷ " counter increment failed (ip=" ∷ ip ∷ ")" ∷ [])))
      >> pure 0
  failed_increment scope ip e = raise e

  unfoldable pub report_crossing : String → String → ℕ → ℕ → ℕ → Act C ℕ
  report_crossing scope ip window threshold count =
      (if count == threshold
        then log (warning (engaged scope ip count threshold window))
        else pure tt)
      >> pure count

  unfoldable pub record_attempt : String → String → ℕ → ℕ → Act C ℕ
  unfolding seed_and_bump failed_increment report_crossing engaged ip_key
  record_attempt ip scope window threshold =
      try_else (seed_and_bump (ip_key scope ip) window) (report_crossing scope ip window threshold)
        (failed_increment scope ip)
