-- ===== src/Validation/Clouds/Safe.antt =====
-- validation.py: which redirect URIs are accepted.
use django_mcp_sql.Prelude.{
  String, ◌≡◌, refl, ◌↔◌, Bool, true, false, ◌&&◌, not, List, [], ◌∷◌, not_contains_iff, Any,
  eq_iff, ◌==◌, or-eq-false, or_false, All, arith,
}
use django_mcp_sql.Raise.{returned, >>=-eq-returned}
use django_mcp_sql.Urls.{Url, Urls, truthy, split, has_char, endswith_char, all_chars}
use django_mcp_sql.Validation.Clouds.{
  has_dots, redirect_tests, problems_of, refuse_problems, validate_cloud_redirect_uri,
}

-- Nothing is refused exactly if every test fails.
refuse_problems_iff :
    (name uri : String) (tests : List (Bool × String))
    → (refuse_problems name uri (problems_of tests) ≡ returned tt)
      ↔ All (λ (t : Bool × String). t.0 ≡ false) tests
unfolding refuse_problems problems_of
refuse_problems_iff name uri [] = (λ h. tt, λ h. refl)
refuse_problems_iff name uri ((true, problem) ∷ rest) = (λ h. cc, λ h. cc (h.0))
refuse_problems_iff name uri ((false, problem) ∷ rest) =
    let (f, g) = refuse_problems_iff name uri rest in (λ h. (refl, f h), λ h. g h.1)

-- What the URI of a client must be, once parsed.
pub record IsSafe (urls : Urls) (match_ uri : String) (url : Url) : Type 0 where
  pub https : url.scheme ≡ "https"
  pub no_username : truthy url.username ≡ false
  pub no_password : truthy url.password ≡ false
  pub host : truthy url.hostname ≡ true
  pub no_wildcard : has_char b'*' uri ≡ false
  pub no_dots : ¬ Any (λ segment. segment ≡ "..") (split b'/' (urls.unquote url.path))
  pub anchored :
      match_ ≡ "prefix"
      → (all_chars (λ c. c == b'/') url.path ≡ false) × (endswith_char b'/' url.path ≡ true)

true_of_not : (b : Bool) → not b ≡ false → b ≡ true
true_of_not b h = ground arith

if_true : (a b : Bool) → (a && b) ≡ false → a ≡ true → b ≡ false
if_true a b h p = ground arith

and_no : (a b : Bool) → (a ≡ true → b ≡ false) → (a && b) ≡ false
and_no true b h = h refl
and_no false b h = refl

module _ (urls : Urls) where
  redirect_tests_iff :
      (match_ uri : String) (url : Url)
      → All (λ (t : Bool × String). t.0 ≡ false) (redirect_tests urls match_ uri url)
        ↔ IsSafe urls match_ uri url
  unfolding redirect_tests has_dots
  redirect_tests_iff match_ uri url = (
    λ h.
        let (scheme, (userinfo, (host, (star, (dots, (root, (slash, last))))))) = h in
        record {
          https = (eq_iff url.scheme "https").0 (true_of_not _ scheme);
          no_username = (or-eq-false (truthy url.username) (truthy url.password) userinfo).0;
          no_password = (or-eq-false (truthy url.username) (truthy url.password) userinfo).1;
          host = true_of_not _ host;
          no_wildcard = star;
          no_dots = (not_contains_iff (split b'/' (urls.unquote url.path)) "..").0 dots;
          anchored = λ p. (
            if_true _ _ root ((eq_iff match_ "prefix").1 p),
            true_of_not _ (if_true _ _ slash ((eq_iff match_ "prefix").1 p)),
          );
        },
    λ h. (
      rw ((eq_iff url.scheme "https").1 h.https) refl,
      (
        or_false (truthy url.username) (truthy url.password) h.no_username h.no_password,
        (
          rw h.host refl,
          (
            h.no_wildcard,
            (
              (not_contains_iff (split b'/' (urls.unquote url.path)) "..").1 h.no_dots,
              (
                and_no _ _ (λ p. (h.anchored ((eq_iff match_ "prefix").0 p)).0),
                (and_no _ _ (λ p. rw (h.anchored ((eq_iff match_ "prefix").0 p)).1 refl), tt),
              ),
            ),
          ),
        ),
      ),
    ),
  )

  pub validate_cloud_redirect_uri_iff :
      (name match_ uri : String)
      → (validate_cloud_redirect_uri urls name match_ uri ≡ returned tt)
        ↔ ((url : Url) × (urls.urlparse uri ≡ returned url) × IsSafe urls match_ uri url)
  unfolding validate_cloud_redirect_uri
  validate_cloud_redirect_uri_iff name match_ uri = (
    λ h.
        let (url, e, k) = >>=-eq-returned (urls.urlparse uri) _ h in
        (
          url,
          e,
          (redirect_tests_iff match_ uri url).0
              ((refuse_problems_iff name uri (redirect_tests urls match_ uri url)).0 k),
        ),
    λ h.
        let (url, e, safe) = h in
        rw e (
          (refuse_problems_iff name uri (redirect_tests urls match_ uri url)).1
            ((redirect_tests_iff match_ uri url).1 safe)),
  )
