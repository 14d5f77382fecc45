-- ===== src/Validation/Startup.antt =====
-- validation.py: `validate_mcp_sql_settings`, which startup calls once.
use mathlib.Core.Logic.Iff
use django_mcp_sql.Prelude.{
  String, ◌≡◌, refl, ◌↔◌, inl, inr, Bool-cases, true, List, [], ◌∷◌, All, str_eq, format,
  if◌then◌else◌, arith,
}
use django_mcp_sql.Prelude.Int.{ℤ, pos, negsuc, ◌≤ℤ◌, leb_ℤ}
use django_mcp_sql.Raise.{
  Exn, improperly_configured, other_error, Try, returned, raised, ◌>>=◌, ◌>>◌, for_each,
  for_each_iff, raise_if, raise_unless_iff, seq_iff, >>=-eq-returned,
}
use django_mcp_sql.Urls.{Urls}
use django_mcp_sql.Validation.Settings.{McpSqlSettings, Setting, number, text, show_setting}
use django_mcp_sql.Validation.Numbers.{at_most_zero, greater, IsPositive, at_most_zero_iff}
use django_mcp_sql.Validation.Thresholds.{
  validate_volume_alert_thresholds, validate_volume_alert_thresholds_iff, IsTripwire,
}
use django_mcp_sql.Validation.Profiles.{validate_profiles}
use django_mcp_sql.Validation.Profiles.Accepted.{AreProfiles, validate_profiles_iff}
use django_mcp_sql.Validation.Clouds.{validate_cloud_clients}
use django_mcp_sql.Validation.Clouds.Accepted.{AreClients, validate_cloud_clients_iff}

-- The `except Exception` around pydantic.
unfoldable pub structure_checked : Try (Unit {0}) → Try (Unit {0})
structure_checked (returned u) = returned tt
structure_checked (raised e) = raised (improperly_configured "Invalid MCP_SQL settings")

-- `limits[key]`
unfoldable pub subscript : List (String × Setting) → String → Try Setting
subscript [] key = raised (other_error "KeyError")
subscript ((k, value) ∷ rest) key =
    let later = subscript rest key in if str_eq k key then returned value else later

-- One round of the loop over LIMITS.
unfoldable pub check_limit : String × Setting → Try (Unit {0})
check_limit (key, value) = at_most_zero value >>= λ low. raise_if low (
    improperly_configured (
      format ("MCP_SQL.LIMITS." ∷ key ∷ " must be positive (got " ∷ show_setting value ∷ ")" ∷ [])))

unfoldable pub check_order : Setting → Setting → Try (Unit {0})
check_order default_limit hard_limit = greater default_limit hard_limit >>= λ above.
    raise_if above (
      improperly_configured (
        format (
          "MCP_SQL.LIMITS.DEFAULT_LIMIT ("
          ∷ show_setting default_limit
          ∷ ") must not exceed HARD_LIMIT ("
          ∷ show_setting hard_limit
          ∷ ")"
          ∷ [])))

unfoldable pub check_limits : List (String × Setting) → Try (Unit {0})
unfolding check_limit check_order subscript
check_limits limits =
    for_each limits check_limit
    >> (subscript limits "DEFAULT_LIMIT" >>= λ default_limit.
        subscript limits "HARD_LIMIT" >>= λ hard_limit. check_order default_limit hard_limit)

abbrev not_positive : String → Setting → Exn
not_positive key value =
    improperly_configured
      (format ("MCP_SQL." ∷ key ∷ " must be positive (got " ∷ show_setting value ∷ ")" ∷ []))

-- `pydantic` is the library's check against the declared types, `import_string` is Django's, and
-- `schemes` is ALLOWED_REDIRECT_URI_SCHEMES of the OAuth library.
module _ (pydantic : McpSqlSettings → Try (Unit {0})) (import_string : String → Try (Unit {0}))
    (urls : Urls) (schemes : List String) where
  unfoldable pub validate_mcp_sql_settings : McpSqlSettings → Try (Unit {0})
  unfolding structure_checked check_limits
  validate_mcp_sql_settings cfg =
      structure_checked (pydantic cfg)
      >> (check_limits cfg.limits
          >> (validate_volume_alert_thresholds cfg.volume_alert_thresholds
              >> ((at_most_zero cfg.bad_token_ip_threshold >>= λ low.
                    raise_if low (not_positive "BAD_TOKEN_IP_THRESHOLD" cfg.bad_token_ip_threshold))
                  >> ((at_most_zero cfg.bad_token_ip_window_seconds >>= λ low. raise_if low (
                        not_positive "BAD_TOKEN_IP_WINDOW_SECONDS" cfg.bad_token_ip_window_seconds))
                      >> (validate_profiles import_string cfg.profiles
                          >> validate_cloud_clients urls schemes cfg.cloud_clients)))))

structure_checked_iff :
    (r : Try (Unit {0})) → (structure_checked r ≡ returned tt) ↔ (r ≡ returned tt)
unfolding structure_checked
structure_checked_iff (returned u) = (λ h. refl, λ h. refl)
structure_checked_iff (raised e) = (λ h. cc, λ h. cc)

leb_ℤ_iff : (a b : ℤ) → (leb_ℤ a b ≡ true) ↔ (a ≤ℤ b)
leb_ℤ_iff (pos a) (pos b) = ground arith
leb_ℤ_iff (pos a) (negsuc b) = ground arith
leb_ℤ_iff (negsuc a) (pos b) = ground arith
leb_ℤ_iff (negsuc a) (negsuc b) = ground arith

-- The limits are positive numbers, and the default is within the hard limit; both are there.
pub record AreLimits (limits : List (String × Setting)) : Type 0 where
  pub default_limit : ℤ
  pub hard_limit : ℤ
  pub default_there : subscript limits "DEFAULT_LIMIT" ≡ returned (number default_limit)
  pub hard_there : subscript limits "HARD_LIMIT" ≡ returned (number hard_limit)
  pub ordered : default_limit ≤ℤ hard_limit
  pub positive : All (λ (l : String × Setting). IsPositive l.1) limits

subscript-IsPositive :
    (limits : List (String × Setting)) (key : String) (v : Setting)
    → All (λ (l : String × Setting). IsPositive l.1) limits
    → subscript limits key ≡ returned v
    → IsPositive v
unfolding subscript
subscript-IsPositive [] key v positive e = cc
subscript-IsPositive ((k, value) ∷ rest) key v (now, after) e = elim (Bool-cases (str_eq k key)) [
  | inl same ↦
      let e' : returned value ≡ returned v = rw same at e in
      let p : value ≡ v = returned-inj e' in rw p at now
  | inr other ↦
      let e' : subscript rest key ≡ returned v = rw other at e in
      subscript-IsPositive rest key v after e'
]
  where
    returned-inj : {a b : Setting} → returned a ≡ returned b → a ≡ b
    returned-inj h = cc

limits_of :
    (limits : List (String × Setting)) (d m : Setting)
    → All (λ (l : String × Setting). IsPositive l.1) limits
    → IsPositive d
    → IsPositive m
    → subscript limits "DEFAULT_LIMIT" ≡ returned d
    → subscript limits "HARD_LIMIT" ≡ returned m
    → check_order d m ≡ returned tt
    → AreLimits limits
unfolding check_order greater
limits_of limits (text s) m positive pd pm e1 e2 k = elim pd [ ]
limits_of limits (number a) (text s) positive pd pm e1 e2 k = elim pm [ ]
limits_of limits (number a) (number b) positive pd pm e1 e2 k = record {
  default_limit = a;
  hard_limit = b;
  default_there = e1;
  hard_there = e2;
  ordered = (leb_ℤ_iff a b).0 ((raise_unless_iff (leb_ℤ a b) _).0 k);
  positive = positive;
}

check_limits_iff :
    (limits : List (String × Setting)) → (check_limits limits ≡ returned tt) ↔ AreLimits limits
unfolding check_limits check_limit check_order greater
check_limits_iff limits =
    let (f, g) =
      for_each_iff {P = λ (l : String × Setting). IsPositive l.1} check_limit
        (λ l. at_most_zero_iff l.1 _) limits in
    (
      λ h.
          let (positive, k) = (seq_iff _ _ (f, g) Iff.rfl).0 h in
          let (d, e1, k1) = >>=-eq-returned (subscript limits "DEFAULT_LIMIT") _ k in
          let (m, e2, k2) = >>=-eq-returned (subscript limits "HARD_LIMIT") _ k1 in
          limits_of limits d m positive (subscript-IsPositive limits "DEFAULT_LIMIT" d positive e1)
            (subscript-IsPositive limits "HARD_LIMIT" m positive e2) e1 e2 k2,
      λ h.
          rw
            (
              g h.positive,
              h.default_there,
              h.hard_there,
              (leb_ℤ_iff h.default_limit h.hard_limit).1 h.ordered,
            )
            refl,
    )

module _ (pydantic : McpSqlSettings → Try (Unit {0})) (import_string : String → Try (Unit {0}))
    (urls : Urls) (schemes : List String) where
  pub record IsValid (cfg : McpSqlSettings) : Type 0 where
    pub structure : pydantic cfg ≡ returned tt
    pub limits : AreLimits cfg.limits
    pub thresholds : All IsTripwire cfg.volume_alert_thresholds
    pub ip_threshold : IsPositive cfg.bad_token_ip_threshold
    pub ip_window : IsPositive cfg.bad_token_ip_window_seconds
    pub profiles : AreProfiles import_string cfg.profiles
    pub clients : AreClients urls schemes cfg.cloud_clients

  -- Startup goes on exactly if pydantic takes the settings for the declared types and every limit,
  -- window and threshold is a positive number, with the default limit within the hard limit and no
  -- decision but the two known; there is a profile, each has an identifier as its role, no codename
  -- of Django's, a hook that imports where it names one, and well-formed names of models, and no
  -- two share a role, a codename or a group; and each cloud client has a slug of its own and a safe
  -- https URI of one of the two kinds, and https is an allowed scheme where there is one.
  pub validate_mcp_sql_settings_iff :
      (cfg : McpSqlSettings)
      → (validate_mcp_sql_settings pydantic import_string urls schemes cfg ≡ returned tt)
        ↔ IsValid cfg
  unfolding validate_mcp_sql_settings
  validate_mcp_sql_settings_iff cfg =
      let (f, g) = seq_iff _ _ (structure_checked_iff (pydantic cfg)) (
        seq_iff _ _ (check_limits_iff cfg.limits) (
          seq_iff _ _ (validate_volume_alert_thresholds_iff cfg.volume_alert_thresholds) (
            seq_iff _ _ (at_most_zero_iff cfg.bad_token_ip_threshold _) (
              seq_iff _ _ (at_most_zero_iff cfg.bad_token_ip_window_seconds _) (
                seq_iff _ _ (validate_profiles_iff import_string cfg.profiles)
                  (validate_cloud_clients_iff urls schemes cfg.cloud_clients)))))) in
      (
        λ h.
            let (structure, (limits, (tripwires, (threshold, (window, (profiles, clients)))))) =
              f h in
            record {
              structure = structure;
              limits = limits;
              thresholds = tripwires;
              ip_threshold = threshold;
              ip_window = window;
              profiles = profiles;
              clients = clients;
            },
        λ h. g (
          h.structure,
          (h.limits, (h.thresholds, (h.ip_threshold, (h.ip_window, (h.profiles, h.clients))))),
        ),
      )
