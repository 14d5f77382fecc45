-- ===== src/Discovery/Enforced.antt =====
-- views/discovery.py, oauth.py and views/registration.py: what is advertised is what is enforced.
use django_mcp_sql.Prelude.{
  String, ◌≡◌, refl, ◌↔◌, true, false, some, format, List, [], ◌∷◌, All, contains, str_eq, eq_iff,
  map, sym, ap, ◌∙◌, inl, inr, All-map, Bool-cases,
}
use django_mcp_sql.Raise.{Try, returned, raised, >>=-eq-returned}
use django_mcp_sql.Dict.{get}
use django_mcp_sql.Oauth.{Validator, validate_scopes, validate_code_challenge_method}
use django_mcp_sql.Oauth.Admitted.{validate_scopes_iff}
use django_mcp_sql.Registration.Metadata.{
  fields, Value, list, string, accepted, is_in, get_or, check_body,
}
use django_mcp_sql.Registration.WellFormed.{check_body_iff}
use django_mcp_sql.Urls.{Urls}
use django_mcp_sql.Discovery.{
  Origin, Published, cors, ProtectedResource, AuthorizationServer, issuer_of, absolute,
  server_document, protected_resource_metadata, authorization_server_metadata,
}

-- The document says of the validator, of the registration and of the other document what is so.
pub record IsEnforced (site : Origin) (v : Validator) (urls : Urls) (doc : AuthorizationServer)
    : Type 0 where
  pub challenge :
      (method : String)
      → (validate_code_challenge_method method ≡ true)
        ↔ (contains doc.code_challenge_methods_supported method ≡ true)
  pub scopes :
      (client_id : String) (requested : List String)
      → validate_scopes v client_id requested ≡ returned true
      → All (λ s. contains doc.scopes_supported s ≡ true) requested
  pub registered :
      (body : List (String × Value)) (uris : List String) (client_name : Value)
      → check_body urls (returned (some (fields body))) ≡ returned (accepted uris client_name)
      → All
          (λ grant.
            is_in grant
              (get_or (get body "grant_types") (list (map string doc.grant_types_supported)))
            ≡ returned true)
          doc.grant_types_supported
        × All
            (λ kind.
              is_in kind (
                get_or (get body "response_types") (list (map string doc.response_types_supported)))
              ≡ returned true)
            doc.response_types_supported
  pub one_issuer :
      (resource : Published ProtectedResource)
      → protected_resource_metadata site ≡ returned resource
      → resource.body.authorization_servers ≡ doc.issuer ∷ []
  pub https :
      (host : String)
      → site.debug ≡ false
      → site.get_host ≡ returned host
      → doc.issuer ≡ format ("https" ∷ "://" ∷ host ∷ "/o" ∷ [])

single : (x y : String) → (contains (x ∷ []) y ≡ true) ↔ (x ≡ y)
unfolding contains
single x y =
    let (f, g) = eq_iff x y in
    elim (Bool-cases (str_eq x y)) [
      | inl e ↦ (λ h. f e, λ q. rw e refl)
      | inr e ↦ (λ h. cc (rw e at h), λ q. cc (g q, e))
    ]

challenged :
    (method : String)
    → (validate_code_challenge_method method ≡ true) ↔ (contains ("S256" ∷ []) method ≡ true)
unfolding validate_code_challenge_method
challenged method =
    let (f, g) = eq_iff method "S256" in
    let (f', g') = single "S256" method in (λ h. g' (sym (f h)), λ h. g (sym (f' h)))

module _ (site : Origin) where
  published :
      (p : Published AuthorizationServer)
      → authorization_server_metadata site ≡ returned p
      → (issuer a t v r : String) × (issuer_of site ≡ returned issuer)
        × (p.body ≡ server_document site issuer a t v r)
  unfolding authorization_server_metadata
  published p h =
      let (issuer, e, h1) = >>=-eq-returned (issuer_of site) _ h in
      let (a, _, h2) = >>=-eq-returned (absolute site "authorize") _ h1 in
      let (t, _, h3) = >>=-eq-returned (absolute site "token") _ h2 in
      let (v, _, h4) = >>=-eq-returned (absolute site "revoke-token") _ h3 in
      let (r, _, h5) = >>=-eq-returned (absolute site "oauth_dynamic_client_registration") _ h4 in
      let same : p ≡ cors (server_document site issuer a t v r) = cc in
      (issuer, a, t, v, r, e, ap (λ (x : Published AuthorizationServer). x.body) same)

  same_issuer :
      (issuer : String) (resource : Published ProtectedResource)
      → issuer_of site ≡ returned issuer
      → protected_resource_metadata site ≡ returned resource
      → resource.body.authorization_servers ≡ issuer ∷ []
  unfolding protected_resource_metadata
  same_issuer issuer resource e h =
      let (u, _, h1) = >>=-eq-returned (absolute site "mcp_sql_endpoint") _ h in
      let (i, d, h2) = >>=-eq-returned (issuer_of site) _ h1 in
      let same_i : i ≡ issuer = cc (d, e) in
      let k = ap (λ (x : Try (Published ProtectedResource)). servers x) h2 in rw same_i at (sym k)
    where
      servers : Try (Published ProtectedResource) → List String
      servers (returned p) = p.body.authorization_servers
      servers (raised x) = []

  https_issuer :
      (issuer host : String)
      → issuer_of site ≡ returned issuer
      → site.debug ≡ false
      → site.get_host ≡ returned host
      → issuer ≡ format ("https" ∷ "://" ∷ host ∷ "/o" ∷ [])
  unfolding issuer_of
  https_issuer issuer host e off known = let k = rw (known, off) at e in cc

  document-IsEnforced :
      (v : Validator) (urls : Urls) (issuer a t rv rg : String)
      → v.scope ≡ site.scope
      → issuer_of site ≡ returned issuer
      → IsEnforced site v urls (server_document site issuer a t rv rg)
  document-IsEnforced v urls issuer a t rv rg same e = record {
    challenge = challenged;
    scopes = λ client_id requested h.
        All-map (λ s (q : s ≡ v.scope). (single site.scope s).1 (sym same ∙ sym q)) requested
          ((validate_scopes_iff v client_id requested).0 h).1;
    registered = λ body uris client_name h.
        let w = (check_body_iff urls (returned (some (fields body))) uris client_name).0 h in
        let q : w.body ≡ body = cc (w.loads) in
        let code = rw q at w.public_code in ((code.0, tt), (code.1.0, tt));
    one_issuer = λ resource h. same_issuer issuer resource e h;
    https = λ host off known. https_issuer issuer host e off known;
  }

-- Where the validator has the scope of the settings, and the view answers with a document, the
-- metadata of the authorization server is true of the rest of the package. The challenge methods that
-- it names are those that the validator admits. Scopes that the validator admits are among its own. A
-- registration that is accepted has the grant type and the response type that it names, or leaves them
-- out. The metadata of the resource names the same issuer, which is on https where DEBUG is off.
pub authorization_server_metadata-IsEnforced :
    (site : Origin) (v : Validator) (urls : Urls) (p : Published AuthorizationServer)
    → v.scope ≡ site.scope
    → authorization_server_metadata site ≡ returned p
    → IsEnforced site v urls p.body
authorization_server_metadata-IsEnforced site v urls p same h =
    let (issuer, a, t, rv, rg, e, q) = published site p h in
    rw q (document-IsEnforced site v urls issuer a t rv rg same e)
