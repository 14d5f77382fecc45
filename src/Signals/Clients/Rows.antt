-- ===== src/Signals/Clients/Rows.antt =====
-- signals.py: which row each client has behind the provisioning.
use django_mcp_sql.Prelude.{
  ◌⊎◌, false_of_not, String, ◌≡◌, refl, sym, ◌∙◌, inl, inr, true, false, Option, none, some, List,
  [], ◌∷◌, str_eq, eq_iff, Bool-cases, if◌then◌else◌,
}
use django_mcp_sql.Conf.Clouds.{CloudClient}
use django_mcp_sql.Registration.{Application, Office}
use django_mcp_sql.Signals.Profiles.{is_default_alias, is_own_sender}
use django_mcp_sql.Signals.Clients.{
  cloud_row, update_or_create, provision_client, provision_clients, provision_mcp_cloud_clients,
}

-- The row with the client id.
unfoldable pub row_of : String → List Application → Option Application
row_of id [] = none
row_of id (a ∷ rest) = let later = row_of id rest in if str_eq a.client_id id then some a else later

-- The row of a public client, with the consent screen, without a secret and without a signing algorithm.
abbrev pub public_row : String → String → Application
public_row id redirect_uri = record {
  name = id;
  client_id = id;
  client_secret = "";
  client_type = "public";
  authorization_grant_type = "authorization-code";
  skip_authorization = false;
  redirect_uris = redirect_uri;
  algorithm = "";
}

abbrev pub asked : CloudClient → Application
asked client = public_row client.client_id client.redirect_uri

-- The row that the settings ask for, and otherwise the one that is there.
unfoldable pub expected : String → List CloudClient → Option Application → Option Application
expected id [] old = old
expected id (client ∷ rest) old =
    expected id rest (if str_eq client.client_id id then some (asked client) else old)

row_of-update_or_create :
    (row : Application) (rows : List Application) (id : String)
    → row_of id (update_or_create row rows)
      ≡ (if str_eq row.client_id id then some row else row_of id rows)
unfolding row_of update_or_create
row_of-update_or_create row [] id = refl
row_of-update_or_create row (a ∷ rest) id = elim (Bool-cases (str_eq a.client_id row.client_id)) [
  | inl same ↦
      let e : a.client_id ≡ row.client_id = (eq_iff a.client_id row.client_id).0 same in
      elim (Bool-cases (str_eq row.client_id id)) [
        | inl hit ↦ rw (same, hit) refl
        | inr miss ↦ rw (same, e, miss) refl
      ]
  | inr other ↦ elim (Bool-cases (str_eq a.client_id id)) [
    | inl hit ↦
        let p : a.client_id ≡ id = (eq_iff a.client_id id).0 hit in
        let miss : str_eq row.client_id id ≡ false = false_of_not (str_eq row.client_id id) (λ q.
          cc (
            (eq_iff a.client_id row.client_id).1 (p ∙ sym ((eq_iff row.client_id id).0 q)),
            other,
          )) in
        rw (other, hit, miss) refl
    | inr miss ↦ rw (other, miss) (row_of-update_or_create row rest id)
  ]
]

module _ {C : Type 0} where
  row_of-provision_clients :
      (clients : List CloudClient) (office : Office C) (id : String)
      → row_of id (provision_clients clients office).applications
        ≡ expected id clients (row_of id office.applications)
  unfolding provision_clients provision_client expected
  row_of-provision_clients [] office id = refl
  row_of-provision_clients (client ∷ rest) office id =
      rw
        (
          row_of-provision_clients rest (provision_client client office) id,
          row_of-update_or_create (cloud_row client) office.applications id,
        )
        refl

-- What the settings ask for does not depend on what is there, or it is what is there.
expected-again :
    (id : String) (clients : List CloudClient) (old : Option Application)
    → expected id clients (expected id clients old) ≡ expected id clients old
expected-again id clients old = elim (expected-cases id clients) [
  | inl same ↦ rw (same (expected id clients old), same old) refl
  | inr (row, always) ↦ rw (always (expected id clients old), always old) refl
]
  where
    expected-cases :
        (i : String) (cs : List CloudClient)
        → ((o : Option Application) → expected i cs o ≡ o)
          ⊎ ((row : Application) × ((o : Option Application) → expected i cs o ≡ some row))
    expected-cases i [] = inl (λ o. unfold expected in refl)
    expected-cases i (c ∷ cs) = elim (expected-cases i cs) [
      | inr (row, always) ↦ inr (row, λ o. unfold expected in always _)
      | inl same ↦ elim (Bool-cases (str_eq c.client_id i)) [
        | inl hit ↦ inr (asked c, λ o. unfold expected in rw hit (same _))
        | inr miss ↦ inl (λ o. unfold expected in rw miss (same o))
      ]
    ]

module _ {C : Type 0} where
  -- Behind a `migrate` of the default alias by this package, each client of the settings has its row:
  -- public, with the consent screen, without a secret, and with the callback of the settings; every row of another client id is as it was;
  -- and the same `migrate` again leaves every client id with the row that it has.
  pub provision_mcp_cloud_clients-rows :
      (clients : List CloudClient) (using : Option String) (office : Office C) (id : String)
      → is_default_alias using ≡ true
      → let office' = provision_mcp_cloud_clients clients (some "mcp_sql") using office in
        let again = provision_mcp_cloud_clients clients (some "mcp_sql") using office' in
        (row_of id office'.applications ≡ expected id clients (row_of id office.applications))
        × (row_of id again.applications ≡ row_of id office'.applications)
  unfolding provision_mcp_cloud_clients is_own_sender
  provision_mcp_cloud_clients-rows clients using office id default = rw default (
    row_of-provision_clients clients office id,
    rw
        (
          row_of-provision_clients clients (provision_clients clients office) id,
          row_of-provision_clients clients office id,
        )
        (expected-again id clients (row_of id office.applications)),
  )
