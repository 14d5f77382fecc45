-- ===== src/Signals/Logout/Revoked.antt =====
-- signals.py: what is left behind a logout, against what the gates would let in.
use django_mcp_sql.Prelude.{
  ℕ, zero, suc, String, ◌≡◌, refl, sym, ◌⊎◌, ◌↔◌, map, inl, inr, true, false, List, [], ◌∷◌, ◌++◌,
  All, Any, here, there, str_eq, eq_iff, startswith, ==_iff, Bool-cases, false_of_not, and_iff,
  Bool, ◌||◌, ◌==◌, ◌+◌, length, format, show, arith,
}
use django_mcp_sql.Raise.{database_error, Try, returned, raised}
use text.Mathlib.TextBridge.{IsPrefix}
use text.Mathlib.TextEquality.{starts_with_iff}
use django_mcp_sql.Auth.{rejection_value}
use django_mcp_sql.Models.{User, RejectionRow}
use django_mcp_sql.Conf.Clouds.{derived_id}
use django_mcp_sql.Consts.{Names, is_mcp_application_name}
use django_mcp_sql.Consts.Recognised.{recognised-startswith, derived_id-startswith}
use django_mcp_sql.Signals.Logout.{
  AccessToken, Ledger, Revoker, Callback, is_revoked, count_revoked, remaining, audit_step,
  count_step, delete_step, revoke_and_audit_on_logout,
}

abbrev pub IsIn : AccessToken → List AccessToken → Type 0
IsIn t tokens = Any (λ u. u ≡ t) tokens

Any-cons : {t u : AccessToken} {rest : List AccessToken} → IsIn t (u ∷ rest) → (u ≡ t) ⊎ IsIn t rest
Any-cons (here e) = inl e
Any-cons (there m) = inr m

-- What stays was there, and was not revoked.
remaining-IsIn :
    (names : Names) (user : User) (tokens : List AccessToken) (t : AccessToken)
    → IsIn t (remaining names user tokens)
    → IsIn t tokens × (is_revoked names user t ≡ false)
unfolding remaining
remaining-IsIn names user [] t m = elim m [ ]
remaining-IsIn names user (u ∷ rest) t m = elim (Bool-cases (is_revoked names user u)) [
  | inl gone ↦
      let (old, kept) = remaining-IsIn names user rest t (rw gone at m) in (there old, kept)
  | inr stays ↦ elim (Any-cons (rw stays at m)) [
    | inl e ↦ (here e, rw e at stays)
    | inr later ↦ let (old, kept) = remaining-IsIn names user rest t later in (there old, kept)
  ]
]

-- What was there and was not revoked stays.
IsIn-remaining :
    (names : Names) (user : User) (tokens : List AccessToken) (t : AccessToken)
    → IsIn t tokens
    → is_revoked names user t ≡ false
    → IsIn t (remaining names user tokens)
unfolding remaining
IsIn-remaining names user [] t m kept = elim m [ ]
IsIn-remaining names user (u ∷ rest) t (here e) kept = rw (rw (sym e) at kept) (here e)
IsIn-remaining names user (u ∷ rest) t (there m) kept =
    elim (Bool-cases (is_revoked names user u)) [
      | inl gone ↦ rw gone (IsIn-remaining names user rest t m kept)
      | inr stays ↦ rw stays (there (IsIn-remaining names user rest t m kept))
    ]

-- A token of the user whose application is recognised is one that the filter finds.
recognised-is_revoked :
    (names : Names) (user : User) (t : AccessToken)
    → All (λ id. startswith id names.application_name_prefix ≡ true) names.cloud_clients
    → is_mcp_application_name names t.application_name ≡ true
    → t.user_pk ≡ user.pk
    → is_revoked names user t ≡ true
unfolding is_revoked
recognised-is_revoked names user t prefixed recognised same =
    let owner = (==_iff t.user_pk user.pk).1 same in
    elim (recognised-startswith names t.application_name prefixed recognised) [
      | inl canonical ↦
          rw ((eq_iff t.application_name names.application_name).1 canonical, owner) refl
      | inr prefix ↦ elim (Bool-cases (str_eq t.application_name names.application_name)) [
        | inl e ↦ rw (e, owner) refl
        | inr n ↦ rw (n, prefix, owner) refl
      ]
    ]

-- Every cloud client of the settings has an id with the prefix.
derived-startswith :
    (names : Names) (slugs : List String)
    → All
        (λ id. startswith id names.application_name_prefix ≡ true)
        (map (derived_id names.application_name_prefix) slugs)
derived-startswith names [] = tt
derived-startswith names (slug ∷ rest) =
    (derived_id-startswith names.application_name_prefix slug, derived-startswith names rest)

-- The token is the user's, and its application has the canonical name or a name with the prefix.
pub record IsRevocable (names : Names) (user : User) (t : AccessToken) : Type 0 where
  pub owner : t.user_pk ≡ user.pk
  pub application :
      (t.application_name ≡ names.application_name)
      ⊎ IsPrefix names.application_name_prefix t.application_name

or_iff : (a b : Bool) → ((a || b) ≡ true) ↔ ((a ≡ true) ⊎ (b ≡ true))
or_iff true b = (λ h. inl refl, λ h. refl)
or_iff false b = (λ h. inr h, λ h. elim h [ inl e ↦ cc | inr e ↦ e ])

is_revoked_iff :
    (names : Names) (user : User) (t : AccessToken)
    → (is_revoked names user t ≡ true) ↔ IsRevocable names user t
unfolding is_revoked
is_revoked_iff names user t =
    let canonical = eq_iff t.application_name names.application_name in
    let prefixed = starts_with_iff t.application_name names.application_name_prefix in
    let owner = ==_iff t.user_pk user.pk in
    let same = str_eq t.application_name names.application_name in
    let starts = startswith t.application_name names.application_name_prefix in
    let both = and_iff (same || starts) (t.user_pk == user.pk) (or_iff same starts) owner in
    (
      λ h.
          let (named, own) = both.0 h in
          record {
            owner = own;
            application = elim named [ inl e ↦ inl (canonical.0 e) | inr e ↦ inr (prefixed.0 e) ];
          },
      λ r. both.1 (
        elim r.application [ inl e ↦ inl (canonical.1 e) | inr e ↦ inr (prefixed.1 e) ],
        r.owner,
      ),
    )

not_revoked_iff :
    (names : Names) (user : User) (t : AccessToken)
    → (is_revoked names user t ≡ false) ↔ ¬ IsRevocable names user t
not_revoked_iff names user t =
    let (f, g) = is_revoked_iff names user t in
    (λ h r. cc (g r, h), λ n. false_of_not (is_revoked names user t) (λ h. n (f h)))

-- Every token stays or is counted.
length-remaining :
    (names : Names) (user : User) (tokens : List AccessToken)
    → length (remaining names user tokens) + count_revoked names user tokens ≡ length tokens
unfolding remaining count_revoked
length-remaining names user [] = refl
length-remaining names user (t ∷ rest) =
    let later = length-remaining names user rest in
    elim (Bool-cases (is_revoked names user t)) [
      | inl gone ↦ rw gone (omega arith)
      | inr stays ↦ rw stays (omega arith)
    ]

-- The row about so many tokens.
abbrev pub logout_row : Callback → ℕ → RejectionRow
logout_row c n = record {
  user = c.user;
  token_pk = "";
  application_name = "";
  client_redirect = "";
  reason = "session_logout";
  error = format ("Revoked " ∷ show n ∷ " MCP token(s) on logout" ∷ []);
  client_ip = c.client_ip;
  started_at = c.logged_out_at;
}

-- The rows of the audit table behind a callback that has revoked so many tokens.
abbrev pub with_row : Callback → ℕ → List RejectionRow → List RejectionRow
with_row c zero rows = rows
with_row c (suc n) rows = rows ++ logout_row c (suc n) ∷ []

module _ {C : Type 0} (env : Revoker) (c : Callback) where
  audit_step-tokens :
      (r : Try (Unit {0})) (ledger : Ledger C)
      → let ledger' = (audit_step env c r ledger).1 in
        (ledger'.tokens ≡ ledger.tokens) × (ledger'.world.rejections ≡ ledger.world.rejections)
  unfolding audit_step
  audit_step-tokens (returned u) ledger = (refl, refl)
  audit_step-tokens (raised (database_error e)) ledger = (refl, refl)
  audit_step-tokens (raised e) ledger = (refl, refl)

  count_step-tokens :
      (n : ℕ) (ledger : Ledger C)
      → let ledger' = (count_step env c n ledger).1 in
        (ledger'.tokens ≡ ledger.tokens)
        × (ledger'.world.rejections ≡ with_row c n ledger.world.rejections)
  unfolding count_step rejection_value
  count_step-tokens zero ledger = (refl, refl)
  count_step-tokens (suc n) ledger = audit_step-tokens _ _

  -- What is known of the state behind the callback.
  pub record Revoked (ledger ledger' : Ledger C) : Type 0 where
    -- the tokens that stay
    pub others :
        (t : AccessToken)
        → IsIn t ledger'.tokens ↔ (IsIn t ledger.tokens × ¬ IsRevocable env.names c.user t)
    -- none of them would pass the gate on the application for the user
    pub none_left :
        (t : AccessToken)
        → IsIn t ledger'.tokens
        → t.user_pk ≡ c.user.pk
        → is_mcp_application_name env.names t.application_name ≡ false
    -- so many tokens are gone, and the audit says so
    pub revoked : ℕ
    pub counted : length ledger'.tokens + revoked ≡ length ledger.tokens
    pub audited : ledger'.world.rejections ≡ with_row c revoked ledger.world.rejections

  -- Where the cloud clients are those of the settings and the DELETE goes through, the tokens that are
  -- left behind a logout are those that are not of the user or not of an application with the
  -- canonical name or the prefix; none of the user's is of an application that the gates recognise;
  -- and one audit row, with the user, the address, the time of the logout and the number of the tokens
  -- that are gone, is tried exactly if that number is not 0.
  pub revoke_and_audit_on_logout-Revoked :
      (slugs : List String) (ledger : Ledger C)
      → env.names.cloud_clients ≡ map (derived_id env.names.application_name_prefix) slugs
      → env.delete ledger.tokens ≡ returned tt
      → Revoked ledger (revoke_and_audit_on_logout env c ledger).1
  unfolding revoke_and_audit_on_logout delete_step
  revoke_and_audit_on_logout-Revoked slugs ledger declared deleted =
      let (tokens, rows) =
        count_step-tokens (count_revoked env.names c.user ledger.tokens)
          (record ledger { tokens = remaining env.names c.user ledger.tokens }) in
      let prefixed : All (λ id. startswith id env.names.application_name_prefix ≡ true)
          env.names.cloud_clients =
        rw declared (derived-startswith env.names slugs) in
      rw deleted (record {
        others = λ t.
            let (f, g) = not_revoked_iff env.names c.user t in
            rw tokens (
              λ m.
                  let (old, kept) = remaining-IsIn env.names c.user ledger.tokens t m in
                  (old, f kept),
              λ h. IsIn-remaining env.names c.user ledger.tokens t h.0 (g h.1),
            );
        none_left = λ t m own.
            let (old, kept) = remaining-IsIn env.names c.user ledger.tokens t (rw tokens at m) in
            false_of_not (is_mcp_application_name env.names t.application_name) (λ recognised.
              cc (recognised-is_revoked env.names c.user t prefixed recognised own, kept));
        revoked = count_revoked env.names c.user ledger.tokens;
        counted = rw tokens (length-remaining env.names c.user ledger.tokens);
        audited = rows;
      })
