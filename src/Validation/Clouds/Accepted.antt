-- ===== src/Validation/Clouds/Accepted.antt =====
-- validation.py: which cloud clients are accepted.
use django_mcp_sql.Prelude.{
  String, ◌≡◌, refl, sym, ◌↔◌, ◌≢◌, inl, inr, true, false, List, [], ◌∷◌, map, contains,
  contains-add, add, Any, str_eq, eq_iff, Bool-cases, or-eq-false, or_false, All,
}
use django_mcp_sql.Raise.{returned, raise_if_iff, raise_unless_iff, seq_iff}
use django_mcp_sql.Urls.{Url, Urls}
use django_mcp_sql.Validation.Settings.{CloudClientEntry, is_slug}
use django_mcp_sql.Validation.Thresholds.{raise_if-contains}
use django_mcp_sql.Validation.Profiles.Registry.{Distinct}
use django_mcp_sql.Validation.Profiles.Unique.{absent-cons}
use django_mcp_sql.Validation.Clouds.{
  valid_redirect_matches, check_client, clients_loop, check_schemes, validate_cloud_clients,
}
use django_mcp_sql.Validation.Clouds.Safe.{IsSafe, validate_cloud_redirect_uri_iff}

str_eq_comm : (a b : String) → str_eq a b ≡ false → str_eq b a ≡ false
str_eq_comm a b h = elim (Bool-cases (str_eq b a)) [
  | inl same ↦ let p : b ≡ a = (eq_iff b a).0 same in cc ((eq_iff a b).1 (sym p), h)
  | inr other ↦ other
]

module _ (urls : Urls) where
  -- What one client must be.
  abbrev pub IsClient : CloudClientEntry → Type 0
  IsClient entry =
      (is_slug entry.name ≡ true)
      × (Any (λ m. m ≡ entry.redirect_match) valid_redirect_matches
          × ((url : Url) × (urls.urlparse entry.redirect_uri ≡ returned url)
              × IsSafe urls entry.redirect_match entry.redirect_uri url))

  abbrev pub names : List CloudClientEntry → List String
  names clients = map (λ (c : CloudClientEntry). c.name) clients

  -- The names are new one after the other.
  abbrev NewNames : List String → List CloudClientEntry → Type 0
  NewNames seen [] = Unit
  NewNames seen (entry ∷ rest) =
      (contains seen entry.name ≡ false) × NewNames (add entry.name seen) rest

  abbrev AllUnseen : List String → List CloudClientEntry → Type 0
  AllUnseen seen clients = All (λ (c : CloudClientEntry). contains seen c.name ≡ false) clients

  AllUnseen-add :
      (x : String) (seen : List String) (clients : List CloudClientEntry)
      → AllUnseen (add x seen) clients
        ↔ (AllUnseen seen clients × (contains (names clients) x ≡ false))
  AllUnseen-add x seen [] = (λ h. (tt, unfold contains in refl), λ h. tt)
  AllUnseen-add x seen (c ∷ rest) =
      let (f, g) = AllUnseen-add x seen rest in
      let (f', g') = absent-cons c.name x (names rest) in
      let split_ = contains-add x seen c.name in
      (
        λ h.
            let (others, absent) = f h.1 in
            let (differs, unseen) = or-eq-false _ _ (rw split_ at (h.0)) in
            ((unseen, others), g' (str_eq_comm x c.name differs, absent)),
        λ h.
            let (differs, absent) = f' h.1 in
            (rw split_ (or_false _ _ (str_eq_comm c.name x differs) h.0.0), g (h.0.1, absent)),
      )

  NewNames-AllUnseen :
      (seen : List String) (clients : List CloudClientEntry)
      → NewNames seen clients ↔ (AllUnseen seen clients × Distinct (names clients))
  NewNames-AllUnseen seen [] = (λ h. (tt, tt), λ h. tt)
  NewNames-AllUnseen seen (c ∷ rest) =
      let (f, g) = NewNames-AllUnseen (add c.name seen) rest in
      let (f', g') = AllUnseen-add c.name seen rest in
      (
        λ h.
            let (unseen, distinct) = f h.1 in
            let (others, absent) = f' unseen in ((h.0, others), (absent, distinct)),
        λ h. (h.0.0, g (g' (h.0.1, h.1.0), h.1.1)),
      )

  check_client_iff :
      (seen : List String) (entry : CloudClientEntry)
      → (check_client urls seen entry ≡ returned tt) ↔ (
          (is_slug entry.name ≡ true)
          × ((contains seen entry.name ≡ false)
              × (Any (λ m. m ≡ entry.redirect_match) valid_redirect_matches
                  × ((url : Url) × (urls.urlparse entry.redirect_uri ≡ returned url)
                      × IsSafe urls entry.redirect_match entry.redirect_uri url))))
  unfolding check_client
  check_client_iff seen entry = seq_iff _ _ (raise_unless_iff (is_slug entry.name) _) (
      seq_iff _ _ (raise_if_iff (contains seen entry.name) _) (
        seq_iff _ _ (raise_if-contains valid_redirect_matches entry.redirect_match _) (
          validate_cloud_redirect_uri_iff urls entry.name entry.redirect_match entry.redirect_uri)))

  clients_loop_iff :
      (seen : List String) (clients : List CloudClientEntry)
      → (clients_loop urls seen clients ≡ returned tt)
        ↔ (All IsClient clients × NewNames seen clients)
  unfolding clients_loop
  clients_loop_iff seen [] = (λ h. (tt, tt), λ h. refl)
  clients_loop_iff seen (entry ∷ rest) =
      let (f, g) =
        seq_iff (check_client urls seen entry) (clients_loop urls (add entry.name seen) rest)
          (check_client_iff seen entry) (clients_loop_iff (add entry.name seen) rest) in
      (
        λ h.
            let ((slug, (new, others)), (each, distinct)) = f h in
            (((slug, others), each), (new, distinct)),
        λ h.
            let (((slug, others), each), (new, distinct)) = h in
            g ((slug, (new, others)), (each, distinct)),
      )

  -- Each client is one that may be admitted, no two have the same name, and where there is one, https
  -- is an allowed scheme.
  pub record AreClients (schemes : List String) (clients : List CloudClientEntry) : Type 0 where
    pub each : All IsClient clients
    pub distinct : Distinct (names clients)
    pub https_allowed : clients ≢ [] → contains schemes "https" ≡ true

  check_schemes_iff :
      (schemes : List String) (clients : List CloudClientEntry)
      → (check_schemes schemes clients ≡ returned tt)
        ↔ (clients ≢ [] → contains schemes "https" ≡ true)
  unfolding check_schemes
  check_schemes_iff schemes [] = (λ h n. absurd (n refl), λ h. refl)
  check_schemes_iff schemes (c ∷ rest) =
      let (f, g) = raise_unless_iff (contains schemes "https") _ in
      (λ h n. f h, λ h. g (h (λ e. cc)))

  all_unseen : (clients : List CloudClientEntry) → AllUnseen [] clients
  all_unseen [] = tt
  all_unseen (c ∷ rest) = (unfold contains in refl, all_unseen rest)

  pub validate_cloud_clients_iff :
      (schemes : List String) (clients : List CloudClientEntry)
      → (validate_cloud_clients urls schemes clients ≡ returned tt) ↔ AreClients schemes clients
  unfolding validate_cloud_clients
  validate_cloud_clients_iff schemes clients =
      let (f, g) = seq_iff _ _ (clients_loop_iff [] clients) (check_schemes_iff schemes clients) in
      let (f', g') = NewNames-AllUnseen [] clients in
      (
        λ h.
            let ((each, new), allowed) = f h in
            record { each = each; distinct = (f' new).1; https_allowed = allowed },
        λ h. g ((h.each, g' (all_unseen clients, h.distinct)), h.https_allowed),
      )
