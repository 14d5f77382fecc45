-- ===== src/Oauth/Admitted.antt =====
-- oauth.py: what the validator admits, and what the checks at startup add to it.
use mathlib.Core.Logic.Iff
use django_mcp_sql.Prelude.{
  String, ◌≡◌, refl, ◌≢◌, ap, ◌↔◌, ◌⊎◌, inl, inr, true, false, Option, none, some, List, [], ◌∷◌,
  All, str_eq, eq_iff, startswith, Bool-cases, and_iff,
}
use django_mcp_sql.Raise.{value_error, Try, returned, raised, >>=-eq-returned}
use django_mcp_sql.Urls.{Url, Urls, truthy}
use django_mcp_sql.Dict.{get}
use django_mcp_sql.Conf.Clouds.{CloudClient}
use django_mcp_sql.Validation.Clouds.Safe.{IsSafe}
use django_mcp_sql.Oauth.{
  Parsed, anchored, parse_both, under_or_rejected, redirect_under_prefix, Validator, redirect_step,
  validate_redirect_uri, all_equal, validate_scopes,
}
use django_mcp_sql.Oauth.Redirect.{IsUnder, is_under_iff}

module _ (urls : Urls) where
  -- Both texts can be parsed, and the one stands under the other.
  abbrev pub StandsUnder : String → String → Type 0
  StandsUnder uri prefix = (p : Parsed) × (parse_both urls uri prefix ≡ returned p) × IsUnder urls p

  under_or_rejected_iff :
      (r : Try Parsed)
      → (under_or_rejected urls r ≡ returned true)
        ↔ ((p : Parsed) × (r ≡ returned p) × IsUnder urls p)
  unfolding under_or_rejected
  under_or_rejected_iff (returned p) =
      let (f, g) = is_under_iff urls p in
      (
        λ h. (p, refl, f (cc (h))),
        λ h. let (q, same, under) = h in let e : q ≡ p = cc in ap returned (g (rw e at under)),
      )
  under_or_rejected_iff (raised (value_error m)) = (λ h. cc, λ h. cc (h.1))
  under_or_rejected_iff (raised e) = (λ h. cc, λ h. cc (h.1))

  redirect_under_prefix_iff :
      (uri prefix : String)
      → (redirect_under_prefix urls uri prefix ≡ returned true) ↔ StandsUnder uri prefix
  unfolding redirect_under_prefix
  redirect_under_prefix_iff uri prefix = under_or_rejected_iff (parse_both urls uri prefix)

module _ (v : Validator) where
  -- A client of the settings that matches by prefix is held to its prefix; every other to the
  -- library's own check.
  abbrev pub Admits : String → String → Option CloudClient → Type 0
  Admits client_id uri none = v.super_redirect_uri client_id uri ≡ returned true
  Admits client_id uri (some cloud) =
      ((cloud.redirect_match ≡ "prefix") × StandsUnder v.urls uri cloud.redirect_uri)
      ⊎ ((cloud.redirect_match ≢ "prefix") × (v.super_redirect_uri client_id uri ≡ returned true))

  redirect_step_iff :
      (client_id uri : String) (cloud : Option CloudClient)
      → (redirect_step v client_id uri cloud ≡ returned true) ↔ Admits client_id uri cloud
  unfolding redirect_step
  redirect_step_iff client_id uri none = Iff.rfl
  redirect_step_iff client_id uri (some cloud) =
      let (f, g) = redirect_under_prefix_iff v.urls uri cloud.redirect_uri in
      let (is, si) = eq_iff cloud.redirect_match "prefix" in
      elim (Bool-cases (str_eq cloud.redirect_match "prefix")) [
        | inl prefix ↦ (
          λ h. inl (is prefix, f (rw prefix at h)),
          λ h. elim h [
            | inl (e, under) ↦ rw prefix (g under)
            | inr (n, s) ↦ absurd (n (is prefix))
          ],
        )
        | inr exact ↦ (
          λ h. inr (λ e. cc (si e, exact), rw exact at h),
          λ h. elim h [ inl (e, under) ↦ cc (si e, exact) | inr (n, s) ↦ rw exact s ],
        )
      ]

  -- A redirect URI is admitted exactly if the client is one of the settings that matches by prefix and
  -- the URI stands under the prefix: parsed, as https without user info, on the same host and port,
  -- below its path at a `/`, and with no `..` under up to five decodings; or the client is no such
  -- client, and the OAuth library admits the URI.
  pub validate_redirect_uri_iff :
      (client_id uri : String)
      → (validate_redirect_uri v client_id uri ≡ returned true)
        ↔ Admits client_id uri (get v.cloud_clients client_id)
  unfolding validate_redirect_uri
  validate_redirect_uri_iff client_id uri =
      redirect_step_iff client_id uri (get v.cloud_clients client_id)

  all_equal_iff :
      (scopes : List String) → (all_equal v scopes ≡ true) ↔ All (λ s. s ≡ v.scope) scopes
  unfolding all_equal
  all_equal_iff [] = (λ h. tt, λ h. refl)
  all_equal_iff (s ∷ rest) = and_iff _ _ (eq_iff s v.scope) (all_equal_iff rest)

  -- Scopes are admitted exactly if there is one, each is the scope of this package, and the OAuth
  -- library admits them.
  pub validate_scopes_iff :
      (client_id : String) (scopes : List String)
      → (validate_scopes v client_id scopes ≡ returned true) ↔ (
          (scopes ≢ [])
          × All (λ s. s ≡ v.scope) scopes
          × (v.super_scopes client_id scopes ≡ returned true))
  unfolding validate_scopes
  validate_scopes_iff client_id [] = (λ h. cc, λ h. absurd (h.0 refl))
  validate_scopes_iff client_id (s ∷ rest) =
      let (f, g) = all_equal_iff (s ∷ rest) in
      elim (Bool-cases (all_equal v (s ∷ rest))) [
        | inl same ↦ (λ h. (λ e. cc, f same, rw same at h), λ h. rw same (h.2))
        | inr other ↦ (λ h. cc (rw other at h), λ h. cc (g h.1, other))
      ]

  -- Where a client that matches by prefix has a URI that passed the checks at startup, every redirect
  -- URI that is admitted for it is on https, without user info, on the configured host, and below the
  -- configured path itself.
  pub validate_redirect_uri-confined :
      (client_id uri : String) (cloud : CloudClient) (url : Url)
      → get v.cloud_clients client_id ≡ some cloud
      → cloud.redirect_match ≡ "prefix"
      → v.urls.urlparse cloud.redirect_uri ≡ returned url
      → IsSafe v.urls "prefix" cloud.redirect_uri url
      → validate_redirect_uri v client_id uri ≡ returned true
      → (got : Url) × (v.urls.urlparse uri ≡ returned got)
        × (got.scheme ≡ "https")
        × (truthy got.username ≡ false)
        × (truthy got.password ≡ false)
        × (got.hostname ≡ url.hostname)
        × (startswith got.path url.path ≡ true)
  unfolding parse_both anchored
  validate_redirect_uri-confined client_id uri cloud url found prefix parsed safe admitted =
      let a : Admits client_id uri (some cloud) =
        rw found at ((validate_redirect_uri_iff client_id uri).0 admitted) in
      elim a [
        | inr (n, s) ↦ absurd (n prefix)
        | inl (e, (p, both, under)) ↦
            let (got, e1, k1) = >>=-eq-returned (v.urls.urlparse uri) _ both in
            let (want, e2, k2) = >>=-eq-returned (v.urls.urlparse cloud.redirect_uri) _ k1 in
            let (got_port, e3, k3) = >>=-eq-returned got.port _ k2 in
            let (want_port, e4, k4) = >>=-eq-returned want.port _ k3 in
            let g : p.got ≡ got = cc in
            let w : p.want ≡ url = cc in
            let slash = (safe.anchored refl).1 in
            (
              got,
              e1,
              rw g at (under.https),
              rw g at (under.no_username),
              rw g at (under.no_password),
              rw (g, w) at (under.same_host),
              rw (g, w, slash) at (under.below),
            )
      ]
