-- ===== src/Consts/Recognised.antt =====
-- consts.py, conf.py: which names are recognised, by their prefix.
use Prim.Native.Nat.{ℕ}
use Prim.Native.Char.{code}
use Prim.Native.String
use Prim.Native.String.append
use text.Mathlib.TextBridge.{IsPrefix}
use text.Mathlib.TextEquality.{starts_with_iff, Char-path}
use text.Mathlib.TextLemmas.{prefix-append}
use django_mcp_sql.Prelude.{
  String, ◌≡◌, refl, ◌∙◌, ◌↔◌, ◌⊎◌, inl, inr, Bool, true, false, ◌||◌, not, zero, suc, Option, none,
  some, List, [], ◌∷◌, All, Any, here, there, contains, contains_iff, str_eq, eq_iff, startswith,
  format, ◌==◌, ==_iff, Bool-cases,
}
use django_mcp_sql.Session.{after}
use django_mcp_sql.Consts.{Names, is_token, is_token_char, is_dcr_suffix, is_mcp_application_name}
use django_mcp_sql.Conf.Clouds.{derived_id}

after-prefix : (p s rest : String) → after p s ≡ some rest → IsPrefix p s
unfolding after
after-prefix String.[] s rest h = (s, append.nil s)
after-prefix (String.◌∷◌ c p) String.[] rest h = cc
after-prefix (String.◌∷◌ c p) (String.◌∷◌ d s) rest h = elim (Bool-cases (code c == code d)) [
  | inr differs ↦ cc (rw differs at h)
  | inl same ↦
      let (u, e) = after-prefix p s rest (rw same at h) in
      let char : c ≡ d = Char-path c d ((==_iff (code c) (code d)).0 same) in
      (u, append.cons c p u ∙ rw (char, e) refl)
]

pub after-append : (p s : String) → after p (String.◌++◌ p s) ≡ some s
unfolding after
after-append String.[] s = rw (append.nil s) refl
after-append (String.◌∷◌ c p) s =
    rw (append.cons c p s, (==_iff (code c) (code c)).1 refl) (after-append p s)

is_dcr_suffix-some :
    (o : Option String) → is_dcr_suffix o ≡ true → (suffix : String) × (o ≡ some suffix)
unfolding is_dcr_suffix
is_dcr_suffix-some none h = cc
is_dcr_suffix-some (some suffix) h = (suffix, refl)

-- A name that is recognised is the canonical one or starts with the prefix, if the cloud clients do.
pub recognised-startswith :
    (names : Names) (name : String)
    → All (λ id. startswith id names.application_name_prefix ≡ true) names.cloud_clients
    → is_mcp_application_name names name ≡ true
    → (name ≡ names.application_name) ⊎ (startswith name names.application_name_prefix ≡ true)
unfolding is_mcp_application_name
recognised-startswith names name prefixed h =
    elim (Bool-cases (str_eq name names.application_name)) [
      | inl canonical ↦ inl ((eq_iff name names.application_name).0 canonical)
      | inr other ↦
          let k = rw other at h in
          elim (Bool-cases (contains names.cloud_clients name)) [
            | inl cloud ↦ inr (
                of_member names.cloud_clients ((contains_iff names.cloud_clients name).0 cloud)
                  prefixed)
            | inr no_cloud ↦
                let (suffix, e) =
                  is_dcr_suffix-some (after names.application_name_prefix name)
                    (rw no_cloud at k) in
                inr (
                  (starts_with_iff name names.application_name_prefix).1
                    (after-prefix names.application_name_prefix name suffix e))
          ]
    ]
  where
    of_member :
        (ids : List String)
        → Any (λ id. id ≡ name) ids
        → All (λ id. startswith id names.application_name_prefix ≡ true) ids
        → startswith name names.application_name_prefix ≡ true
    of_member [] m p = elim m [ ]
    of_member (id ∷ ids) (here e) p = rw e at (p.0)
    of_member (id ∷ ids) (there m) p = of_member ids m p.1

pub derived_id-startswith :
    (prefix name : String) → startswith (derived_id prefix name) prefix ≡ true
unfolding format
derived_id-startswith prefix name =
    (starts_with_iff (derived_id prefix name) prefix).1
      (prefix-append prefix (String.◌++◌ "cloud." (format (name ∷ []))))

has_other : String → Bool
has_other String.[] = false
has_other (String.◌∷◌ c p) = not (is_token_char (code c)) || has_other p

-- A text that begins with another which has a character of another kind is no token.
is_token-append : (n : ℕ) (p s : String) → has_other p ≡ true → is_token n (String.◌++◌ p s) ≡ false
unfolding is_token has_other
is_token-append n String.[] s h = cc
is_token-append zero (String.◌∷◌ c p) s h = rw (append.cons c p s) refl
is_token-append (suc n) (String.◌∷◌ c p) s h = elim (Bool-cases (is_token_char (code c))) [
  | inl plain ↦ let ih = is_token-append n p s (rw plain at h) in rw (append.cons c p s, plain) ih
  | inr odd ↦ rw (append.cons c p s, odd) refl
]

-- The client id of a cloud client is recognised exactly if it is the canonical name or that of a client
-- which the settings have: however it is spelled, it does not look like a dynamic registration, so a
-- client that is removed from the settings is refused from then on.
pub derived_id-recognised :
    (names : Names) (name : String)
    → (is_mcp_application_name names (derived_id names.application_name_prefix name) ≡ true) ↔ (
        (derived_id names.application_name_prefix name ≡ names.application_name)
        ⊎ Any (λ id. id ≡ derived_id names.application_name_prefix name) names.cloud_clients)
unfolding is_mcp_application_name is_dcr_suffix
derived_id-recognised names name =
    let id : String = derived_id names.application_name_prefix name in
    let (is, si) = eq_iff id names.application_name in
    let (f, g) = contains_iff names.cloud_clients id in
    let no_token : is_dcr_suffix (after names.application_name_prefix id) ≡ false =
      unfold format has_other is_token_char in
      rw (after-append names.application_name_prefix (format ("cloud." ∷ name ∷ [])))
        (is_token-append 22 "cloud." (format (name ∷ [])) refl) in
    elim (Bool-cases (str_eq id names.application_name)) [
      | inl canonical ↦ rw canonical (λ h. inl (is canonical), λ h. refl)
      | inr other ↦ elim (Bool-cases (contains names.cloud_clients id)) [
        | inl cloud ↦ rw (other, cloud) (λ h. inr (f cloud), λ h. refl)
        | inr removed ↦ (
          λ h. cc (rw (other, removed) at h, no_token),
          λ h. elim h [ inl e ↦ cc (si e, other) | inr m ↦ cc (g m, removed) ],
        )
      ]
    ]
