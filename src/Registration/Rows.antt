-- ===== src/Registration/Rows.antt =====
-- views/registration.py: what one registration does, and how many rows an address can create.
use django_mcp_sql.Prelude.{
  ℕ, ◌+◌, ◌-◌, ◌≤◌, ◌<◌, String, ◌≡◌, refl, ◌≢◌, format, Bool, true, false, List, [], ◌∷◌, ◌++◌,
  All, length, length-append, leb, arith,
}
use django_mcp_sql.Raise.{Exn, Try, returned, raised}
use django_mcp_sql.Caching.{IsReliable}
use django_mcp_sql.Throttle.{ip_key, is_ip_blocked}
use django_mcp_sql.Throttle.Counting.{count_of, record_attempt-Counted, blocked_now}
use django_mcp_sql.Auth.{address}
use django_mcp_sql.Registration.Metadata.{Value, Checked, refused, accepted, check_body}
use django_mcp_sql.Registration.WellFormed.{IsWellFormed, check_body_iff}
use django_mcp_sql.Registration.Joined.{IsSolid, split-joined_uris}
use django_mcp_sql.Urls.{split}
use django_mcp_sql.Registration.{
  Response, error_, Application, Office, Registrar, RegisterRequest, application, client_id,
  registration_response, answered, created_step, block_step, checked_step, register_client,
}

leb-le : (a b : ℕ) → leb a b ≡ true → a ≤ b
leb-le a b h = ground arith

leb-lt : (a b : ℕ) → leb a b ≡ false → b < a
leb-lt a b h = ground arith

-- The row of a public client with this id: without a secret, with the consent screen, and with redirect
-- URIs that are read back as the given ones where none of them has a space.
pub record IsPublicClient (id : String) (uris : List String) (row : Application) : Type 0 where
  pub named : row.name ≡ id
  pub identified : row.client_id ≡ id
  pub no_secret : row.client_secret ≡ ""
  pub public : row.client_type ≡ "public"
  pub by_code : row.authorization_grant_type ≡ "authorization-code"
  pub consent_screen : row.skip_authorization ≡ false
  pub no_algorithm : row.algorithm ≡ ""
  pub redirects : All IsSolid uris → split b' ' row.redirect_uris ≡ uris

application-IsPublicClient :
    (id : String) (uris : List String) → uris ≢ [] → IsPublicClient id uris (application id uris)
application-IsPublicClient id uris some_uri = record {
  named = refl;
  identified = refl;
  no_secret = refl;
  public = refl;
  by_code = refl;
  consent_screen = refl;
  no_algorithm = refl;
  redirects = split-joined_uris uris some_uri;
}

module _ {C : Type 0} (env : Registrar C) where
  -- The counter of the address of a request.
  abbrev pub attempts : RegisterRequest → Office C → ℕ
  attempts request office =
      count_of env.cache office.world (ip_key "register" (address request.remote_addr))

  module _ (request : RegisterRequest) (office : Office C) where
    -- What may come of a request: the answer, and the state behind it.
    pub data Served (r : Try Response) (office' : Office C) : Type 0 where
      refuses :
          (code description : String)
          → check_body env.urls request.body ≡ returned (refused code description)
          → r ≡ returned (error_ code description)
          → office' ≡ office
          → Served r office'
      silent :
          (uris : List String) (client_name : Value)
          → IsWellFormed env.urls request.body uris client_name
          → env.threshold ≤ attempts request office
          → r ≡ returned (registration_response env request uris client_name)
          → office' ≡ office
          → Served r office'
      stores :
          (uris : List String) (client_name : Value)
          → IsWellFormed env.urls request.body uris client_name
          → attempts request office < env.threshold
          → r ≡ returned (registration_response env request uris client_name)
          → (row : Application) → IsPublicClient (format (env.prefix ∷ request.token ∷ [])) uris row
          → office'.applications ≡ office.applications ++ row ∷ []
          → attempts request office' ≡ attempts request office + 1
          → Served r office'
      fails : (e : Exn) → r ≡ raised e → office' ≡ office → Served r office'

  module _ (t : IsReliable env.cache) (request : RegisterRequest) where
    created_step-Served :
        (office : Office C) (uris : List String) (client_name : Value) (r : Try (Unit {0}))
        → IsWellFormed env.urls request.body uris client_name
        → attempts request office < env.threshold
        → let (a, office') =
            created_step env request uris
              (registration_response env request uris client_name)
              r
              office in
          Served request office a office'
    unfolding created_step answered
    created_step-Served office uris client_name (raised e) form below = fails e refl refl
    created_step-Served office uris client_name (returned u) form below =
        let counted =
          record_attempt-Counted env.cache t (address request.remote_addr) "register" env.window
            env.threshold office.world in
        stores uris client_name form below (rw counted.count refl)
          (application (client_id env request) uris)
          (application-IsPublicClient (client_id env request) uris form.some_uri) refl
          counted.counter

    block_step-Served :
        (office : Office C) (uris : List String) (client_name : Value) (b : Bool)
        → IsWellFormed env.urls request.body uris client_name
        → leb env.threshold (attempts request office) ≡ b
        → let (a, office') =
            block_step env request uris
              (registration_response env request uris client_name)
              (returned b)
              office in
          Served request office a office'
    unfolding block_step
    block_step-Served office uris client_name true form e =
        silent uris client_name form (leb-le _ _ e) refl refl
    block_step-Served office uris client_name false form e =
        created_step-Served office uris client_name _ form (leb-lt _ _ e)

    checked_step-Served :
        (office : Office C) (checked : Try Checked)
        → check_body env.urls request.body ≡ checked
        → let (a, office') = checked_step env request checked office in
          Served request office a office'
    unfolding checked_step is_ip_blocked
    checked_step-Served office (raised e) p = fails e refl refl
    checked_step-Served office (returned (refused code description)) p =
        refuses code description p refl refl
    checked_step-Served office (returned (accepted uris client_name)) p =
        let blocked =
          blocked_now env.cache t (address request.remote_addr) "register" env.threshold
            office.world in
        rw blocked (
          block_step-Served office uris client_name _
            ((check_body_iff env.urls request.body uris client_name).0 p) refl)

    -- Where the cache is reliable, a registration ends in one of four ways: the body is refused with an
    -- error of RFC 7591, and nothing has changed; the body is well formed and the address has reached
    -- the threshold, and nothing has changed; the body is well formed, the address is below the
    -- threshold, one row has been added, of a public client named by the prefix and the token, without a
    -- secret and with the consent screen, and the address has one attempt more; or an exception leaves, and nothing has changed. In the second case and in the third the answer
    -- is the same function of the request, so a block cannot be told by it. Each redirect URI of a well
    -- formed body is one that `urlparse` reads as http on the loopback interface, as a whole; the row has
    -- these URIs, separated by spaces, where none of them has a space in it.
    pub register_client-Served :
        (office : Office C)
        → Served request office
            (register_client env request office).0
            (register_client env request office).1
    unfolding register_client
    register_client-Served office =
        checked_step-Served office (check_body env.urls request.body) refl

    -- One request from an address: the rows that it adds count as attempts.
    one_row :
        (office : Office C)
        → let office' = (register_client env request office).1 in
          (length office'.applications + (env.threshold - attempts request office')
            ≤ length office.applications + (env.threshold - attempts request office))
    one_row office = elim (register_client-Served office) [
      | refuses code description p r same ↦ rw same (omega arith)
      | silent uris client_name form full r same ↦ rw same (omega arith)
      | stores uris client_name form below r row public added counted ↦
          rw (added, counted, length-append office.applications _) (omega arith)
      | fails e r same ↦ rw same (omega arith)
    ]

  -- The state behind a number of requests, one after the other.
  abbrev pub serve_all : List RegisterRequest → Office C → Office C
  serve_all [] office = office
  serve_all (request ∷ rest) office = serve_all rest (register_client env request office).1

  abbrev pub IsFrom : String → RegisterRequest → Type 0
  IsFrom ip request = address request.remote_addr ≡ ip

  -- Where the cache is reliable, any number of requests from one address, whatever their bodies, adds
  -- no more rows than the address was short of the threshold at the start.
  pub serve_all-bounded :
      (t : IsReliable env.cache) (ip : String) (requests : List RegisterRequest) (office : Office C)
      → All (IsFrom ip) requests
      → length (serve_all requests office).applications
        ≤ length office.applications
          + (env.threshold - count_of env.cache office.world (ip_key "register" ip))
  serve_all-bounded t ip [] office from = omega arith
  serve_all-bounded t ip (request ∷ rest) office from =
      let step = rw (from.0) at (one_row t request office) in
      omega (arith, step, serve_all-bounded t ip rest (register_client env request office).1 from.1)
