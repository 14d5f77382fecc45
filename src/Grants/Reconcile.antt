-- ===== src/Grants/Reconcile.antt =====
-- grants.py: the reconciliation of one profile's whitelist with the grants of its role.
pub mod Moved
pub mod Reached
mod Tests
use django_mcp_sql.Prelude.{
  String, Bool, true, false, ◌&&◌, ◌||◌, not, Option, none, some, List, [], ◌∷◌, ◌++◌, contains,
  startswith, str_eq, is_empty, format, if◌then◌else◌,
}
use django_mcp_sql.Raise.{Try, returned, raised, grants_reconcile_error, for_each, ◌>>=◌, ◌>>◌}
use django_mcp_sql.Models.{Profile}
use django_mcp_sql.World.{LogEntry, warning}
use django_mcp_sql.Grants.{declared_tables, values}
use django_mcp_sql.Grants.Sets.{set_of, difference, sorted}

-- Postgres and Django, which are not part of this repository: `G` is the state of the grants.
pub record Catalog (G : Type 0) : Type 0 where
  -- `connection.alias`
  pub alias : String
  -- the queries of `role_exists`, `has_role_membership` and `granted_tables`
  pub has_role : String → Try Bool
  pub is_member : String → Try Bool
  pub select_granted : G → String → Try (List String)
  -- `GRANT SELECT ON table TO role` and `REVOKE SELECT ON table FROM role`
  pub grant : G → String → String → Try G
  pub revoke : G → String → String → Try G
  -- `apps.get_model(entry)._meta`: the table, whether it is managed, and its columns
  pub table_of : String → Try String
  pub managed : String → Bool
  pub model_columns : String → List String
  -- `SELECT * FROM table LIMIT 0`, and the names of its columns
  pub view_columns : String → Try (List String)
  -- `str.lower`
  pub lower : String → String

pub record ProfileDrift : Type 0 where
  pub granted : List String
  pub revoked : List String
  pub skipped_reason : String

-- A result, and the warnings on the way to it.
abbrev pub Outcome : Type 0 → Type 0
Outcome G = Try (ProfileDrift × G) × List LogEntry

has_one : List String → Bool
has_one [] = false
has_one (x ∷ xs) = true

-- `bool(self.granted or self.revoked)`
unfoldable pub is_changed : ProfileDrift → Bool
unfolding has_one
is_changed drift = has_one drift.granted || has_one drift.revoked

-- A list as `repr` shows it, but for the escapes.
pub quoted : List String → String
quoted [] = ""
quoted (x ∷ []) = format ("'" ∷ x ∷ "'" ∷ [])
quoted (x ∷ y ∷ rest) = format ("'" ∷ x ∷ "', " ∷ quoted (y ∷ rest) ∷ [])

-- `model_columns != view_columns`, of two sets.
unfoldable pub differs : List String → List String → Bool
unfolding has_one
differs model view = has_one (difference model view) || has_one (difference view model)

pub mismatch_line : String → String → List String → List String → String
mismatch_line entry table model view = format (
    "  "
    ∷ entry
    ∷ " ↔ view '"
    ∷ table
    ∷ "': model-only=["
    ∷ quoted (sorted (difference model view))
    ∷ "], view-only=["
    ∷ quoted (sorted (difference view model))
    ∷ "]"
    ∷ [])

lines : List String → String
lines [] = ""
lines (x ∷ xs) = format ("\n" ∷ x ∷ lines xs ∷ [])

-- `if mismatches: raise ...`
unfoldable pub raise_mismatches : List String → Try (Unit {0})
unfolding lines
raise_mismatches [] = returned tt
raise_mismatches (x ∷ xs) = raised (
    grants_reconcile_error (
      format (
        "Curated MCPxxx view ↔ unmanaged-model column drift:"
        ∷ lines (x ∷ xs)
        ∷ "\nUpdate the CREATE_SQL, the state_operations CreateModel field list, and the unmanaged model in the owning app so all three agree."
        ∷ [])))

module _ {G : Type 0} (db : Catalog G) where
  unfoldable pub verify_default_alias : Try (Unit {0})
  verify_default_alias =
      if str_eq db.alias "default"
      then returned tt
      else raised (
          grants_reconcile_error (
            format (
              "grants.py expects the 'default' DB alias, got '" ∷ db.alias
              ∷ "'. The grants pipeline must run against the writeable default alias (mcp_readonly is NOLOGIN read-only)."
              ∷ [])))

  unfoldable pub granted_tables : G → String → Try (List String)
  unfolding verify_default_alias
  granted_tables g role =
      verify_default_alias >> (db.select_granted g role >>= λ tables. returned (set_of tables))

  unfoldable pub role_exists : String → Try Bool
  unfolding verify_default_alias
  role_exists role = verify_default_alias >> db.has_role role

  unfoldable pub has_role_membership : String → Try Bool
  unfolding verify_default_alias
  has_role_membership role = verify_default_alias >> db.is_member role

  unfoldable pub self_referential : List String → List String
  self_referential [] = []
  self_referential (entry ∷ rest) =
      let bad = self_referential rest in
      if startswith (db.lower entry) "mcp_sql." then entry ∷ bad else bad

  -- The lines about the entries whose view has other columns than the model.
  unfoldable pub mismatches : List (String × String) → Try (List String)
  unfolding differs
  mismatches [] = returned []
  mismatches ((entry, table) ∷ rest) =
      if db.managed entry
      then mismatches rest
      else (db.view_columns table >>= λ columns.
          (mismatches rest >>= λ found. returned (
            if differs (set_of (db.model_columns entry)) (set_of columns)
            then mismatch_line entry table (set_of (db.model_columns entry)) (set_of columns)
              ∷ found
            else found)))

  unfoldable pub verify_view_parity : Profile → Try (Unit {0})
  unfolding verify_default_alias mismatches raise_mismatches
  verify_view_parity profile =
      verify_default_alias
      >> (declared_tables db.table_of profile >>= λ declared.
          (mismatches declared >>= raise_mismatches))

  -- One statement for each table.
  unfoldable pub run_all : (G → String → Try G) → List String → G → Try G
  run_all statement [] g = returned g
  run_all statement (table ∷ rest) g = statement g table >>= run_all statement rest

  -- `with transaction.atomic()`: where a statement raises, nothing of the block stays.
  unfoldable pub apply_drift : Bool → ProfileDrift → String → G → Try (ProfileDrift × G)
  unfolding run_all is_changed
  apply_drift apply drift role g =
      if apply && is_changed drift
      then (run_all (λ h table. db.grant h role table) drift.granted g >>= λ g1.
          (run_all (λ h table. db.revoke h role table) drift.revoked g1 >>= λ g2.
          returned (drift, g2)))
      else returned (drift, g)

  unfoldable pub drift_of_profile : Bool → Profile → G → Try (ProfileDrift × G)
  unfolding verify_view_parity granted_tables apply_drift
  drift_of_profile apply profile g =
      verify_view_parity profile
      >> (declared_tables db.table_of profile >>= λ items.
          (granted_tables g profile.role >>= λ current.
          (let declared = set_of (values items) in
            let drift : ProfileDrift = record {
              granted = sorted (difference declared current);
              revoked = sorted (difference current declared);
              skipped_reason = "";
            } in
            apply_drift apply drift profile.role g)))

  -- The preflight failed: an exception in strict mode, else a warning and no change.
  unfoldable pub skip : Bool → String → String → G → Outcome G
  skip strict reason message g = if strict then (raised (grants_reconcile_error message), []) else (
    returned (record { granted = []; revoked = []; skipped_reason = reason }, g),
    warning (format ("MCP grants reconcile skipped: " ∷ message ∷ [])) ∷ [],
  )

  abbrev quiet : Try (ProfileDrift × G) → Outcome G
  quiet r = (r, [])

  unfoldable pub member_step : Bool → Bool → Profile → G → Try Bool → Outcome G
  unfolding drift_of_profile skip
  member_step strict apply profile g (raised e) = (raised e, [])
  member_step strict apply profile g (returned true) = quiet (drift_of_profile apply profile g)
  member_step strict apply profile g (returned false) =
      skip strict "no_membership"
        (format (
          "Current DB user is NOT a member of " ∷ profile.role ∷ " (profile '" ∷ profile.name
          ∷ "'). The executor's SET ROLE will fail at runtime. Apply role_setup as a DBA — see mcp_sql/docs/role-setup.md."
          ∷ []))
        g

  unfoldable pub role_step : Bool → Bool → Profile → G → Try Bool → Outcome G
  unfolding member_step has_role_membership
  role_step strict apply profile g (raised e) = (raised e, [])
  role_step strict apply profile g (returned true) =
      member_step strict apply profile g (has_role_membership profile.role)
  role_step strict apply profile g (returned false) =
      skip strict "role_missing"
        (format (
          "Role " ∷ profile.role ∷ " (profile '" ∷ profile.name
          ∷ "') does not exist. Apply the role setup SQL first (see mcp_sql/docs/role-setup.md)."
          ∷ []))
        g

  -- What follows the search for entries of this package.
  unfoldable pub preflight : Bool → Bool → Profile → G → List String → Outcome G
  unfolding role_step role_exists
  preflight strict apply profile g [] = role_step strict apply profile g (role_exists profile.role)
  preflight strict apply profile g (x ∷ xs) = (
    raised (
        grants_reconcile_error (
          format (
            "Refusing to grant on mcp_sql models for profile '"
            ∷ profile.name
            ∷ "': ["
            ∷ quoted (x ∷ xs)
            ∷ "]. Remove these entries from the profile's ALLOWED_MODELS."
            ∷ []))),
    [],
  )

  unfoldable pub reconcile_profile : Bool → Bool → Profile → G → Outcome G
  unfolding preflight self_referential
  reconcile_profile strict apply profile g =
      preflight strict apply profile g (self_referential profile.allowed_models)
