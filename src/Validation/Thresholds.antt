-- ===== src/Validation/Thresholds.antt =====
-- validation.py: the volume thresholds.
use django_mcp_sql.Prelude.{
  String, ◌≡◌, ◌↔◌, Bool, true, false, not, List, [], ◌∷◌, All, Any, contains, contains_iff, format,
  arith,
}
use mathlib.Core.Logic.Iff
use django_mcp_sql.Raise.{
  Exn, improperly_configured, Try, returned, ◌>>=◌, ◌>>◌, for_each, for_each_iff, raise_if,
  raise_if_iff, seq_iff,
}
use django_mcp_sql.Validation.Settings.{Setting, show_setting}
use django_mcp_sql.Validation.Numbers.{at_most_zero, IsPositive, at_most_zero_iff}

-- `_VALID_VOLUME_DECISIONS`
abbrev pub valid_volume_decisions : List String
valid_volume_decisions = "allowed" ∷ "rejected" ∷ []

-- One round of the inner loop.
unfoldable pub check_threshold : String → Setting × Setting → Try (Unit {0})
check_threshold decision (window, threshold) =
    (at_most_zero window >>= λ low. raise_if low (
      improperly_configured (
        format (
          "MCP_SQL.VOLUME_ALERT_THRESHOLDS['"
          ∷ decision
          ∷ "'] window "
          ∷ show_setting window
          ∷ " must be a positive number of seconds"
          ∷ []))))
    >> (at_most_zero threshold >>= λ low. raise_if low (
        improperly_configured (
          format (
            "MCP_SQL.VOLUME_ALERT_THRESHOLDS['"
            ∷ decision
            ∷ "']["
            ∷ show_setting window
            ∷ "] threshold "
            ∷ show_setting threshold
            ∷ " must be positive"
            ∷ []))))

-- One round of the outer loop.
unfoldable pub check_decision : String × List (Setting × Setting) → Try (Unit {0})
unfolding check_threshold
check_decision (decision, windows) =
    raise_if (not (contains valid_volume_decisions decision)) (
      improperly_configured (
        format (
          "MCP_SQL.VOLUME_ALERT_THRESHOLDS key '" ∷ decision
          ∷ "' must be one of ['allowed', 'rejected']" ∷ [])))
    >> for_each windows (check_threshold decision)

unfoldable pub validate_volume_alert_thresholds :
    List (String × List (Setting × Setting)) → Try (Unit {0})
unfolding check_decision
validate_volume_alert_thresholds thresholds = for_each thresholds check_decision

not-not : (b : Bool) → (not b ≡ false) ↔ (b ≡ true)
not-not b = ground arith

pub raise_if-contains :
    (xs : List String) (x : String) (e : Exn)
    → (raise_if (not (contains xs x)) e ≡ returned tt) ↔ Any (λ y. y ≡ x) xs
raise_if-contains xs x e =
    Iff.trans (raise_if_iff (not (contains xs x)) e)
      (Iff.trans (not-not (contains xs x)) (contains_iff xs x))

-- A window and its threshold.
abbrev pub IsWindow : Setting × Setting → Type 0
IsWindow (window, threshold) = IsPositive window × IsPositive threshold

-- A decision and its windows.
abbrev pub IsTripwire : String × List (Setting × Setting) → Type 0
IsTripwire (decision, windows) =
    Any (λ d. d ≡ decision) valid_volume_decisions × All IsWindow windows

check_threshold_iff :
    (decision : String) (w : Setting × Setting)
    → (check_threshold decision w ≡ returned tt) ↔ IsWindow w
unfolding check_threshold
check_threshold_iff decision (window, threshold) =
    seq_iff _ _ (at_most_zero_iff window _) (at_most_zero_iff threshold _)

check_decision_iff :
    (t : String × List (Setting × Setting)) → (check_decision t ≡ returned tt) ↔ IsTripwire t
unfolding check_decision
check_decision_iff (decision, windows) =
    seq_iff _ _ (raise_if-contains valid_volume_decisions decision _)
      (for_each_iff (check_threshold decision) (check_threshold_iff decision) windows)

pub validate_volume_alert_thresholds_iff :
    (thresholds : List (String × List (Setting × Setting)))
    → (validate_volume_alert_thresholds thresholds ≡ returned tt) ↔ All IsTripwire thresholds
unfolding validate_volume_alert_thresholds
validate_volume_alert_thresholds_iff = for_each_iff check_decision check_decision_iff
