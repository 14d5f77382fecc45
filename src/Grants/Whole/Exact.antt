-- ===== src/Grants/Whole/Exact.antt =====
-- grants.py: where a strict reconciliation of all profiles ends.
use django_mcp_sql.Prelude.{String, ◌≡◌, refl, Bool, false, ◌||◌, List, All, map, contains}
use django_mcp_sql.Raise.{Try, returned, raised}
use django_mcp_sql.Models.{Profile}
use django_mcp_sql.World.{LogEntry}
use django_mcp_sql.Grants.{declared_tables, values}
use django_mcp_sql.Grants.Reconcile.{Catalog, ProfileDrift, Outcome}
use django_mcp_sql.Grants.Reconcile.Moved.{IsPostgres}
use django_mcp_sql.Grants.Reconcile.Reached.{Reached, holds}
use django_mcp_sql.Grants.Whole.{DriftDiff, after_profile}

abbrev pub roles_of : List Profile → List String
roles_of profiles = map (λ (p : Profile). p.role) profiles

module _ {G : Type 0} (db : Catalog G) where
  pub after_profile-returned :
      (strict apply : Bool) (o : Outcome G)
      (rest : ProfileDrift → G → Try (DriftDiff × G) × List LogEntry) (out : DriftDiff) (g' : G)
      → (after_profile db strict apply o rest).0 ≡ returned (out, g')
      → (d : ProfileDrift) × (g : G) × (o.0 ≡ returned (d, g)) × ((rest d g).0 ≡ returned (out, g'))
  unfolding after_profile
  after_profile-returned strict apply (raised e, logs) rest out g' h = cc
  after_profile-returned strict apply (returned (d, g), logs) rest out g' h = (d, g, refl, h)

module _ {G : Type 0} (db : Catalog G) (p : IsPostgres db) where
  -- The role of the profile has a direct grant on exactly the tables that the profile declares, and on
  -- those that another grantor has granted.
  abbrev pub IsExact : G → Profile → Type 0
  IsExact g profile =
      (declared : List (String × String)) × (declared_tables db.table_of profile
        ≡ returned declared)
      × ((t : String)
          → holds db p g profile.role t
            ≡ (contains (values declared) t || p.foreign g profile.role t))

  -- No role but these has moved, and no grant of another grantor.
  pub record OthersStay (profiles : List Profile) (g g' : G) : Type 0 where
    pub of_own :
        (r t : String) → contains (roles_of profiles) r ≡ false → p.own g' r t ≡ p.own g r t
    pub of_foreign : (r t : String) → p.foreign g' r t ≡ p.foreign g r t

  -- The roles are in lower case.
  abbrev pub AreFolded : List Profile → Type 0
  AreFolded profiles = All (λ (q : Profile). p.fold q.role ≡ q.role) profiles
