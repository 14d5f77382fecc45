-- ===== src/Registration/WellFormed.antt =====
-- views/registration.py: which bodies are accepted.
use mathlib.Core.Logic.Iff
use django_mcp_sql.Prelude.{
  String, ◌≡◌, refl, ◌≢◌, ap, ◌↔◌, inl, inr, Bool, true, false, ◌||◌, Option, none, some, List, [],
  ◌∷◌, All, Any, map, contains_iff, str_eq, eq_iff, if◌then◌else◌, Bool-cases, or-eq-false,
  or_false,
}
use django_mcp_sql.Raise.{Try, returned, raised, >>=-eq-returned, ◌>>=◌}
use django_mcp_sql.Urls.{Url, Urls, truthy}
use django_mcp_sql.Dict.{get}
use django_mcp_sql.Registration.Metadata.{
  Item, string, other, Value, str, list, Body, fields, no_object, Checked, refused, accepted,
  loopback_hosts, is_loopback_host, is_loopback_url, is_in, client_name_of, get_or, is_none_text,
  check_auth_method, check_response_types, check_grant_types, is_loopback_redirect, not_loopback,
  check_uris, check_redirect_uris, check_parsed, check_body,
}

-- http on a loopback host, without user info.
pub record IsLoopback (url : Url) : Type 0 where
  pub http : url.scheme ≡ "http"
  pub no_username : truthy url.username ≡ false
  pub no_password : truthy url.password ≡ false
  pub host : String
  pub has_host : url.hostname ≡ some host
  pub listed : Any (λ h. h ≡ host) loopback_hosts

is_loopback_host_iff :
    (host : Option String)
    → (is_loopback_host host ≡ true)
      ↔ ((h : String) × (host ≡ some h) × Any (λ x. x ≡ h) loopback_hosts)
unfolding is_loopback_host
is_loopback_host_iff none = (λ h. cc, λ h. cc (h.1))
is_loopback_host_iff (some host) = (
  λ h. (host, refl, (contains_iff loopback_hosts host).0 h),
  λ h.
      let (x, e, m) = h in
      let p : x ≡ host = cc in (contains_iff loopback_hosts host).1 (rw p at m),
)

is_loopback_url_iff : (url : Url) → (is_loopback_url url ≡ true) ↔ IsLoopback url
unfolding is_loopback_url
is_loopback_url_iff url =
    let (is, si) = eq_iff url.scheme "http" in
    let (f, g) = is_loopback_host_iff url.hostname in
    (
      λ h. elim (Bool-cases (str_eq url.scheme "http")) [
        | inr other_scheme ↦ cc (rw other_scheme at h)
        | inl http ↦
            let k = rw http at h in
            elim (Bool-cases (truthy url.username || truthy url.password)) [
              | inl userinfo ↦ cc (rw userinfo at k)
              | inr clean ↦
                  let (host, e, listed) = f (rw clean at k) in
                  let (user, password) =
                    or-eq-false (truthy url.username) (truthy url.password) clean in
                  record {
                    http = is http;
                    no_username = user;
                    no_password = password;
                    host = host;
                    has_host = e;
                    listed = listed;
                  }
            ]
      ],
      λ h.
          rw
            (
              si h.http,
              or_false (truthy url.username) (truthy url.password) h.no_username h.no_password,
            )
            (g (h.host, h.has_host, h.listed)),
    )

-- The `in` test passes, and so does the rest.
after_test :
    {P : Type 0} (test : Try Bool) (rest : Try Checked) (code description : String)
    {uris : List String} {client_name : Value}
    → (rest ≡ returned (accepted uris client_name)) ↔ P
    → ((test >>= λ passed. if passed then rest else returned (refused code description))
        ≡ returned (accepted uris client_name))
      ↔ ((test ≡ returned true) × P)
after_test (returned true) rest code description k = (λ h. (refl, k.0 h), λ h. k.1 h.1)
after_test (returned false) rest code description k = (λ h. cc, λ h. cc (h.0))
after_test (raised e) rest code description k = (λ h. cc, λ h. cc (h.0))

module _ (body : List (String × Value)) (found uris : List String) (client_name : Value) where
  -- What is asked of the fields behind the redirect URIs.
  abbrev pub IsPublicCode : Type 0
  IsPublicCode =
      (is_in "authorization_code"
          (get_or (get body "grant_types") (list (string "authorization_code" ∷ [])))
        ≡ returned true)
      × ((is_in "code" (get_or (get body "response_types") (list (string "code" ∷ [])))
            ≡ returned true)
          × ((is_none_text (get_or (get body "token_endpoint_auth_method") (str "none")) ≡ true)
              × ((found ≡ uris) × (client_name_of (get body "client_name") ≡ client_name))))

  check_auth_method_iff : (check_auth_method found body ≡ accepted uris client_name) ↔ (
      (is_none_text (get_or (get body "token_endpoint_auth_method") (str "none")) ≡ true)
      × ((found ≡ uris) × (client_name_of (get body "client_name") ≡ client_name)))
  unfolding check_auth_method
  check_auth_method_iff =
      elim (Bool-cases
        (is_none_text (get_or (get body "token_endpoint_auth_method") (str "none")))) [
          | inl public ↦ rw public (λ h. (refl, (cc (h), cc (h))), λ h. cc (h.1.0, h.1.1))
          | inr secret ↦ (λ h. cc (rw secret at h), λ h. cc (h.0, secret))
        ]

  check_grant_types_iff :
      (check_grant_types found body ≡ returned (accepted uris client_name)) ↔ IsPublicCode
  unfolding check_grant_types check_response_types
  check_grant_types_iff =
      after_test _ _ _ _
        (after_test _ _ _ _ (Iff.trans (λ h. cc (h), λ h. ap returned h) check_auth_method_iff))

none_found : (l : List String) → [] ≡ map string l → l ≡ []
none_found [] e = refl
none_found (u ∷ l) e = cc

no_text :
    {shown : String} {items : List Item} (l : List String) → other shown ∷ items ≡ map string l → ⊥
no_text [] e = cc
no_text (u ∷ l) e = cc

first_text :
    {uri : String} {items : List Item} (l : List String)
    → string uri ∷ items ≡ map string l
    → (later : List String) × (l ≡ uri ∷ later) × (items ≡ map string later)
first_text [] e = cc
first_text (u ∷ l) e = (l, cc (e), cc (e))

empty_list : (l : List String) → some (list []) ≡ some (list (map string l)) → l ≡ []
empty_list [] e = refl
empty_list (u ∷ l) e = cc

module _ (urls : Urls) where
  abbrev pub Loops : String → Type 0
  Loops uri = (url : Url) × (urls.urlparse uri ≡ returned url) × IsLoopback url

  is_loopback_redirect_iff :
      (uri : String) → (is_loopback_redirect urls uri ≡ returned true) ↔ Loops uri
  unfolding is_loopback_redirect
  is_loopback_redirect_iff uri = (
    λ h.
        let (url, e, k) = >>=-eq-returned (urls.urlparse uri) _ h in
        (url, e, (is_loopback_url_iff url).0 (cc (k))),
    λ h. let (url, e, loopback) = h in rw e (ap returned ((is_loopback_url_iff url).1 loopback)),
  )

  module _ (uris : List String) (client_name : Value) where
    -- The items are texts, each on the loopback interface, and the rest accepts them.
    abbrev Found : List Item → (List String → Try Checked) → Type 0
    Found items rest =
        (l : List String) × (items ≡ map string l)
        × All Loops l
        × (rest l ≡ returned (accepted uris client_name))

    check_uris_iff :
        (items : List Item) (rest : List String → Try Checked)
        → (check_uris urls items rest ≡ returned (accepted uris client_name)) ↔ Found items rest
    unfolding check_uris not_loopback
    check_uris_iff [] rest = (
      λ h. ([], refl, tt, h),
      λ h. let (l, e, loops, k) = h in let empty = none_found l e in rw empty at k,
    )
    check_uris_iff (other shown ∷ items) rest =
        (λ h. cc, λ h. let (l, e, loops, k) = h in absurd (no_text l e))
    check_uris_iff (string uri ∷ items) rest =
        let (f, g) = check_uris_iff items (λ l. rest (uri ∷ l)) in
        let (f', g') = is_loopback_redirect_iff uri in
        (
          λ h.
              let (passed, e, k) = >>=-eq-returned (is_loopback_redirect urls uri) _ h in
              elim (Bool-cases passed) [
                | inr failed ↦ cc (rw failed at k)
                | inl loopback ↦
                    let (l, same, loops, j) = f (rw loopback at k) in
                    (uri ∷ l, ap (λ t. string uri ∷ t) same, (f' (rw loopback at e), loops), j)
              ],
          λ h.
              let (l, e, loops, k) = h in
              let (later, same, items_same) = first_text l e in
              let (loop, others) = rw same at loops in
              rw (g' loop) (g (later, items_same, others, rw same at k)),
        )

  -- A body that is accepted, with its redirect URIs and the name of its client.
  pub record IsWellFormed (loaded : Try (Option Body)) (uris : List String) (client_name : Value)
      : Type 0 where
    pub body : List (String × Value)
    pub loads : loaded ≡ returned (some (fields body))
    pub given : get body "redirect_uris" ≡ some (list (map string uris))
    pub some_uri : uris ≢ []
    pub loopback : All Loops uris
    pub public_code : IsPublicCode body uris uris client_name

  check_redirect_uris_iff :
      (body : List (String × Value)) (value : Option Value) (uris : List String)
      (client_name : Value)
      → (check_redirect_uris urls body value ≡ returned (accepted uris client_name)) ↔ (
          (value ≡ some (list (map string uris)))
          × (uris ≢ [])
          × All Loops uris
          × IsPublicCode body uris uris client_name)
  unfolding check_redirect_uris
  check_redirect_uris_iff body (some (list (item ∷ items))) uris client_name =
      let (f, g) =
        check_uris_iff uris client_name (item ∷ items) (λ found. check_grant_types found body) in
      (
        λ h.
            let (l, same, loops, k) = f h in
            let p = (check_grant_types_iff body l uris client_name).0 k in
            let e : l ≡ uris = p.1.1.1.0 in
            (
              rw (same, e) refl,
              λ empty. cc (same, e, empty),
              rw e at loops,
              (check_grant_types_iff body uris uris client_name).0 (rw e at k),
            ),
        λ h.
            let (e, filled, loops, public) = h in
            g (uris, cc (e), loops, (check_grant_types_iff body uris uris client_name).1 public),
      )
  check_redirect_uris_iff body (some (list [])) uris client_name =
      (λ h. cc, λ h. absurd (h.1 (empty_list uris h.0)))
  check_redirect_uris_iff body value uris client_name = (λ h. cc, λ h. cc (h.0))

  pub check_body_iff :
      (loaded : Try (Option Body)) (uris : List String) (client_name : Value)
      → (check_body urls loaded ≡ returned (accepted uris client_name))
        ↔ IsWellFormed loaded uris client_name
  unfolding check_body check_parsed
  check_body_iff (returned (some (fields body))) uris client_name =
      let (f, g) = check_redirect_uris_iff body (get body "redirect_uris") uris client_name in
      (
        λ h.
            let (given, filled, loops, public) = f h in
            record {
              body = body;
              loads = refl;
              given = given;
              some_uri = filled;
              loopback = loops;
              public_code = public;
            },
        λ h.
            let e : h.body ≡ body = cc (h.loads) in
            g (rw e at (h.given), h.some_uri, h.loopback, rw e at (h.public_code)),
      )
  check_body_iff (returned none) uris client_name = (λ h. cc, λ h. cc (h.loads))
  check_body_iff (returned (some no_object)) uris client_name = (λ h. cc, λ h. cc (h.loads))
  check_body_iff (raised e) uris client_name = (λ h. cc, λ h. cc (h.loads))
