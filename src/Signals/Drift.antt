-- ===== src/Signals/Drift.antt =====
-- signals.py: the audit of the grants behind `migrate`.
use django_mcp_sql.Prelude.{String, false, Option, List, [], ◌∷◌, ◌++◌, format, show, if◌then◌else◌}
use django_mcp_sql.Raise.{grants_reconcile_error, Try, returned, raised}
use django_mcp_sql.Models.{Profile}
use django_mcp_sql.World.{LogEntry, World, warning, exception}
use django_mcp_sql.Grants.Reconcile.{Catalog}
use django_mcp_sql.Grants.Whole.{
  DriftDiff, diff_changed, granted_count, revoked_count, reconcile_grants,
}
use django_mcp_sql.Signals.Profiles.{is_own_sender, is_default_alias}

abbrev drift_warning : DriftDiff → LogEntry
drift_warning drift = warning (
    format (
      "MCP grants DRIFT detected against the MCP_SQL[PROFILES] whitelists: +"
      ∷ show (granted_count drift)
      ∷ " to grant, -"
      ∷ show (revoked_count drift)
      ∷ " to revoke (across profiles). Run `python manage.py mcp_sql_grants --apply` to reconcile (typically a deploy-pipeline step)."
      ∷ []))

module _ {C G : Type 0} where
  -- What follows the reconciliation, whose warnings are logged by then.
  unfoldable pub report_drift : Try (DriftDiff × G) → World C → Try (Unit {0}) × World C
  report_drift (raised (grants_reconcile_error m)) w = (
    returned tt,
    record w { logs = w.logs ++ exception "MCP grants drift detection failed" ∷ [] },
  )
  report_drift (raised e) w = (raised e, w)
  report_drift (returned (drift, g)) w = (
    returned tt,
    if diff_changed drift then record w { logs = w.logs ++ drift_warning drift ∷ [] } else w,
  )

  unfoldable pub audit_grants_drift_after_migrate :
      Catalog G
      → List Profile
      → Option String
      → Option String
      → G
      → World C
      → Try (Unit {0}) × World C
  unfolding report_drift is_own_sender is_default_alias
  audit_grants_drift_after_migrate db profiles sender using g w =
      if is_own_sender sender
      then (if is_default_alias using
          then (let (r, logs) = reconcile_grants db false false profiles g in
              report_drift r (record w { logs = w.logs ++ logs }))
          else (returned tt, w))
      else (returned tt, w)
