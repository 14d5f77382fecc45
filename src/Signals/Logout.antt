-- ===== src/Signals/Logout.antt =====
-- signals.py: what a logout does to the tokens of the user.
pub mod Revoked
use django_mcp_sql.Prelude.{
  ℕ, zero, suc, String, Bool, true, false, ◌&&◌, ◌||◌, not, Option, none, some, List, [], ◌∷◌, ◌++◌,
  str_eq, startswith, format, show, ◌==◌, if◌then◌else◌,
}
use django_mcp_sql.Outcome
use django_mcp_sql.Raise.{Exn, database_error, Try, returned, raised}
use django_mcp_sql.Models.{User, RejectionRow}
use django_mcp_sql.World.{World, exception, info}
use django_mcp_sql.Consts.{Names}
use django_mcp_sql.Auth.{rejection_value}

-- What is read of a row of the OAuth library's `AccessToken`.
pub record AccessToken : Type 0 where
  pub pk : ℕ
  pub application_name : String
  pub user_pk : ℕ

-- The state that the callback changes.
pub record Ledger (C : Type 0) : Type 0 where
  pub world : World C
  pub tokens : List AccessToken

-- The settings, and the database: whether the DELETE and the INSERT of the row go through.
pub record Revoker : Type 0 where
  pub names : Names
  pub delete : List AccessToken → Try (Unit {0})
  pub insert : List RejectionRow → RejectionRow → Try (Unit {0})

-- What the callback of `transaction.on_commit` has captured.
pub record Callback : Type 0 where
  pub user : User
  pub client_ip : Option String
  pub logged_out_at : ℕ

-- The `filter(...)` of the DELETE.
unfoldable pub is_revoked : Names → User → AccessToken → Bool
is_revoked names user token =
    (str_eq token.application_name names.application_name
      || startswith token.application_name names.application_name_prefix)
    && token.user_pk == user.pk

-- The number of rows that the DELETE finds. (No other table has rows that go with a token's.)
unfoldable pub count_revoked : Names → User → List AccessToken → ℕ
count_revoked names user [] = 0
count_revoked names user (t ∷ rest) =
    let n = count_revoked names user rest in if is_revoked names user t then suc n else n

unfoldable pub remaining : Names → User → List AccessToken → List AccessToken
remaining names user [] = []
remaining names user (t ∷ rest) =
    let kept = remaining names user rest in if is_revoked names user t then kept else t ∷ kept

abbrev pub revocation_row : Callback → ℕ → RejectionRow
revocation_row c deleted = record {
  user = c.user;
  token_pk = "";
  application_name = "";
  client_redirect = "";
  reason = rejection_value Outcome.AuthRejectionReason.session_logout;
  error = format ("Revoked " ∷ show deleted ∷ " MCP token(s) on logout" ∷ []);
  client_ip = c.client_ip;
  started_at = c.logged_out_at;
}

module _ {C : Type 0} (env : Revoker) (c : Callback) where
  abbrev logged : World C → String → World C
  logged w message = record w { logs = w.logs ++ exception message ∷ [] }

  -- What follows the INSERT of the audit row.
  unfoldable pub audit_step : Try (Unit {0}) → Ledger C → Try (Unit {0}) × Ledger C
  audit_step (returned u) ledger = (returned tt, ledger)
  audit_step (raised (database_error e)) ledger = (
    returned tt,
    record ledger {
      world = logged ledger.world (
          format (
            "Revoked MCP tokens on logout for user "
            ∷ show c.user.pk
            ∷ " but failed to write the audit row"
            ∷ []));
    },
  )
  audit_step (raised e) ledger = (raised e, ledger)

  -- What follows a DELETE of so many rows.
  unfoldable pub count_step : ℕ → Ledger C → Try (Unit {0}) × Ledger C
  unfolding audit_step
  count_step zero ledger = (returned tt, ledger)
  count_step (suc n) ledger =
      let row = revocation_row c (suc n) in
      let w = ledger.world in
      audit_step (env.insert w.rejections row) (record ledger {
        world = record w {
          logs =
              w.logs
              ++ info (
                  format (
                    "Revoked "
                    ∷ show (suc n)
                    ∷ " MCP token(s) on logout for user "
                    ∷ show c.user.pk
                    ∷ []))
                ∷ [];
          rejections = w.rejections ++ row ∷ [];
        };
      })

  -- What follows the DELETE.
  unfoldable pub delete_step : Try (Unit {0}) → Ledger C → Try (Unit {0}) × Ledger C
  unfolding count_step
  delete_step (returned u) ledger =
      count_step (count_revoked env.names c.user ledger.tokens)
        (record ledger { tokens = remaining env.names c.user ledger.tokens })
  delete_step (raised (database_error e)) ledger = (
    returned tt,
    record ledger {
      world =
          logged ledger.world
            (format ("Failed to revoke MCP tokens on logout for user " ∷ show c.user.pk ∷ []));
    },
  )
  delete_step (raised e) ledger = (raised e, ledger)

  unfoldable pub revoke_and_audit_on_logout : Ledger C → Try (Unit {0}) × Ledger C
  unfolding delete_step
  revoke_and_audit_on_logout ledger = delete_step (env.delete ledger.tokens) ledger

-- The receiver, which puts its callback behind those that wait for the commit. The address is
-- `request.META.get("REMOTE_ADDR")`, or `None` without a request.
unfoldable pub revoke_mcp_tokens_on_logout :
    Option (Option String) → Option User → ℕ → List Callback → List Callback
revoke_mcp_tokens_on_logout request none now waiting = waiting
revoke_mcp_tokens_on_logout none (some user) now waiting =
    waiting ++ record { user = user; client_ip = none; logged_out_at = now } ∷ []
revoke_mcp_tokens_on_logout (some remote_addr) (some user) now waiting =
    waiting ++ record { user = user; client_ip = remote_addr; logged_out_at = now } ∷ []
