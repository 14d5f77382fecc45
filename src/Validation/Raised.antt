-- ===== src/Validation/Raised.antt =====
-- validation.py: what may stop startup.
use django_mcp_sql.Prelude.{
  String, ◌≡◌, refl, Bool, Option, none, some, List, [], ◌∷◌, str_eq, is_empty, add,
}
use django_mcp_sql.Raise.{
  Exn, improperly_configured, import_error, other_error, Try, returned, raised, ◌>>=◌, raise_if,
}
use django_mcp_sql.Raise.Raises.{
  Raises, raises_rules, Raises-returned, Raises-raised, Raises-if, Raises-seq, Raises-bind,
  Raises-for_each,
}
use django_mcp_sql.Urls.{Urls}
use django_mcp_sql.Validation.Settings.{
  Setting, number, text, McpSqlSettings, ProfileEntry, CloudClientEntry,
}
use django_mcp_sql.Validation.Numbers.{not_supported, at_most_zero, greater}
use django_mcp_sql.Validation.Thresholds.{
  check_threshold, check_decision, validate_volume_alert_thresholds,
}
use django_mcp_sql.Validation.Profiles.Registry.{register, check_field, seen_by}
use django_mcp_sql.Validation.Profiles.{
  check_model_ref, Seen, check_fields, imported, check_session_context, validate_profile_entry,
  profiles_loop, validate_profiles,
}
use django_mcp_sql.Validation.Clouds.{
  refuse_problems, validate_cloud_redirect_uri, check_client, clients_loop, check_schemes,
  validate_cloud_clients,
}
use django_mcp_sql.Validation.Startup.{
  structure_checked, subscript, check_limit, check_order, check_limits, validate_mcp_sql_settings,
}

-- No `ImportError`.
abbrev pub IsOther : Exn → Type 0
IsOther (import_error m) = ⊥
IsOther _ = Unit

module _ (import_string : String → Try (Unit {0})) (urls : Urls) where
  -- `ImproperlyConfigured`, or what a call, a comparison or a subscript raised.
  pub data Stops (e : Exn) : Type 0 where
    reported : (message : String) → e ≡ improperly_configured message → Stops e
    of_urlparse : (uri : String) → urls.urlparse uri ≡ raised e → Stops e
    of_import : (path : String) → import_string path ≡ raised e → IsOther e → Stops e
    of_comparison : (operator left right : String) → e ≡ not_supported operator left right → Stops e
    of_key : e ≡ other_error "KeyError" → Stops e

  refused : {A : Type 0} (m : String) → Raises Stops {A = A} (raised (improperly_configured m))
  refused m = Raises-raised _ (reported m refl)

  raise_if-Stops :
      (test : Bool) (m : String) → Raises Stops (raise_if test (improperly_configured m))
  raise_if-Stops test m = Raises-if test _ _ (refused m) (Raises-returned tt)

  positive-Stops :
      (v : Setting) (m : String)
      → Raises Stops (at_most_zero v >>= λ low. raise_if low (improperly_configured m))
  unfolding at_most_zero
  positive-Stops (number z) m = raise_if-Stops _ m
  positive-Stops (text s) m = Raises-raised _ (of_comparison "<=" "str" "int" refl)

  check_order-Stops : (a b : Setting) → Raises Stops (check_order a b)
  unfolding check_order greater
  check_order-Stops (number a) (number b) = raise_if-Stops _ _
  check_order-Stops (text a) (text b) = raise_if-Stops _ _
  check_order-Stops (text a) (number b) = Raises-raised _ (of_comparison ">" "str" "int" refl)
  check_order-Stops (number a) (text b) = Raises-raised _ (of_comparison ">" "int" "str" refl)

  structure_checked-Stops : (r : Try (Unit {0})) → Raises Stops (structure_checked r)
  unfolding structure_checked
  structure_checked-Stops (returned u) = Raises-returned tt
  structure_checked-Stops (raised e) = refused _

  subscript-Stops :
      (limits : List (String × Setting)) (key : String) → Raises Stops (subscript limits key)
  unfolding subscript
  subscript-Stops [] key = Raises-raised _ (of_key refl)
  subscript-Stops ((k, value) ∷ rest) key =
      Raises-if (str_eq k key) _ _ (Raises-returned value) (subscript-Stops rest key)

  check_limits-Stops : (limits : List (String × Setting)) → Raises Stops (check_limits limits)
  unfolding check_limits check_limit
  check_limits-Stops limits =
      Raises-seq _ _ (Raises-for_each limits check_limit (λ l. positive-Stops l.1 _)) (
        Raises-bind (subscript limits "DEFAULT_LIMIT") _ (subscript-Stops limits "DEFAULT_LIMIT")
          (λ d.
            Raises-bind (subscript limits "HARD_LIMIT") (λ h. check_order d h)
              (subscript-Stops limits "HARD_LIMIT") (λ h. check_order-Stops d h)))

  thresholds-Stops :
      (thresholds : List (String × List (Setting × Setting)))
      → Raises Stops (validate_volume_alert_thresholds thresholds)
  unfolding validate_volume_alert_thresholds check_decision check_threshold
  thresholds-Stops thresholds = Raises-for_each thresholds check_decision (λ t.
      Raises-seq _ _ (raise_if-Stops _ _) (
        Raises-for_each t.1 (check_threshold t.0)
          (λ w. Raises-seq _ _ (positive-Stops w.0 _) (positive-Stops w.1 _))))

  register-Stops :
      (name field value : String) (registry : List (String × String)) (found : Option String)
      → Raises Stops (register name field value registry found)
  unfolding register
  register-Stops name field value registry none = Raises-returned _
  register-Stops name field value registry (some other) = refused _

  check_field-Stops :
      (name field value : String) (registry : List (String × String))
      → Raises Stops (check_field name field value registry)
  unfolding check_field
  check_field-Stops name field value registry =
      Raises-seq _ _ (raise_if-Stops _ _)
        (register-Stops name field value registry (seen_by value registry))

  check_fields-Stops :
      (name : String) (entry : ProfileEntry) (seen : Seen)
      → Raises Stops (check_fields name entry seen)
  unfolding check_fields
  check_fields-Stops name entry seen =
      Raises-bind (check_field name "ROLE" entry.role seen.roles) _ (check_field-Stops _ _ _ _)
        (λ roles.
          Raises-bind
            (check_field name "PERMISSION_CODENAME" entry.permission_codename seen.codenames) _
            (check_field-Stops _ _ _ _)
            (λ codenames.
              Raises-bind (check_field name "GROUP_NAME" entry.group_name seen.groups) _
                (check_field-Stops _ _ _ _) (λ groups. Raises-returned _)))

  imported-Stops :
      (name path : String) (r : Try (Unit {0}))
      → import_string path ≡ r
      → Raises Stops (imported name path r)
  unfolding imported
  imported-Stops name path (returned u) p = Raises-returned tt
  imported-Stops name path (raised (import_error m)) p = refused _
  imported-Stops name path (raised e) p = Raises-raised e (of_import path p tt)

  check_session_context-Stops :
      (name : String) (path : Option String)
      → Raises Stops (check_session_context import_string name path)
  unfolding check_session_context
  check_session_context-Stops name none = Raises-returned tt
  check_session_context-Stops name (some path) =
      Raises-if (is_empty path) _ _ (Raises-returned tt)
        (imported-Stops name path (import_string path) refl)

  check_model_ref-Stops :
      (name model_entry : String) → Raises Stops (check_model_ref name model_entry)
  unfolding check_model_ref
  check_model_ref-Stops name model_entry = raise_if-Stops _ _

  validate_profile_entry-Stops :
      (name : String) (entry : ProfileEntry)
      → Raises Stops (validate_profile_entry import_string name entry)
  unfolding validate_profile_entry
  validate_profile_entry-Stops name entry =
      search (raises_rules, refused, check_session_context-Stops, check_model_ref-Stops)

  profiles_loop-Stops :
      (seen : Seen) (ps : List (String × ProfileEntry))
      → Raises Stops (profiles_loop import_string seen ps)
  unfolding profiles_loop
  profiles_loop-Stops seen [] = Raises-returned tt
  profiles_loop-Stops seen ((name, entry) ∷ rest) =
      Raises-bind (check_fields name entry seen) _ (check_fields-Stops name entry seen) (λ now.
        Raises-seq (validate_profile_entry import_string name entry)
          (profiles_loop import_string now rest) (validate_profile_entry-Stops name entry)
          (profiles_loop-Stops now rest))

  validate_profiles-Stops :
      (ps : List (String × ProfileEntry)) → Raises Stops (validate_profiles import_string ps)
  unfolding validate_profiles
  validate_profiles-Stops [] = refused _
  validate_profiles-Stops (p ∷ rest) = profiles_loop-Stops _ (p ∷ rest)

  refuse_problems-Stops :
      (name uri : String) (problems : List String)
      → Raises Stops (refuse_problems name uri problems)
  unfolding refuse_problems
  refuse_problems-Stops name uri [] = Raises-returned tt
  refuse_problems-Stops name uri (p ∷ problems) = refused _

  validate_cloud_redirect_uri-Stops :
      (name match_ uri : String) → Raises Stops (validate_cloud_redirect_uri urls name match_ uri)
  unfolding validate_cloud_redirect_uri
  validate_cloud_redirect_uri-Stops name match_ uri =
      Raises-bind (urls.urlparse uri) _ (record { at = λ e p. of_urlparse uri p })
        (λ url. refuse_problems-Stops _ _ _)

  check_client-Stops :
      (seen : List String) (entry : CloudClientEntry) → Raises Stops (check_client urls seen entry)
  unfolding check_client
  check_client-Stops seen entry = search (raises_rules, refused, validate_cloud_redirect_uri-Stops)

  clients_loop-Stops :
      (seen : List String) (clients : List CloudClientEntry)
      → Raises Stops (clients_loop urls seen clients)
  unfolding clients_loop
  clients_loop-Stops seen [] = Raises-returned tt
  clients_loop-Stops seen (entry ∷ rest) =
      Raises-seq (check_client urls seen entry) (clients_loop urls (add entry.name seen) rest)
        (check_client-Stops seen entry) (clients_loop-Stops (add entry.name seen) rest)

  check_schemes-Stops :
      (schemes : List String) (clients : List CloudClientEntry)
      → Raises Stops (check_schemes schemes clients)
  unfolding check_schemes
  check_schemes-Stops schemes [] = Raises-returned tt
  check_schemes-Stops schemes (c ∷ rest) = raise_if-Stops _ _

  -- Whatever stops startup here is an `ImproperlyConfigured`, except an exception that `urlparse`
  -- raised for a redirect URI, one that is no `ImportError` and was raised while a hook was imported,
  -- the `TypeError` of a comparison with a text where a number is declared, and the `KeyError` of a
  -- limit that is not there.
  pub validate_mcp_sql_settings_raises :
      (pydantic : McpSqlSettings → Try (Unit {0})) (schemes : List String) (cfg : McpSqlSettings)
      (e : Exn)
      → validate_mcp_sql_settings pydantic import_string urls schemes cfg ≡ raised e
      → Stops e
  unfolding validate_mcp_sql_settings validate_cloud_clients
  validate_mcp_sql_settings_raises pydantic schemes cfg =
      let r : Raises Stops (validate_mcp_sql_settings pydantic import_string urls schemes cfg) =
        search
          (
            raises_rules, structure_checked-Stops, check_limits-Stops, thresholds-Stops,
            positive-Stops, validate_profiles-Stops, clients_loop-Stops, check_schemes-Stops,
          )
          depth 20 in
      r.at
