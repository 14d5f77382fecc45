-- ===== src/Grants/Reconcile/Reached.antt =====
-- grants.py: where a reconciliation ends.
use django_mcp_sql.Prelude.{String, ◌≡◌, Bool, false, ◌&&◌, ◌||◌, not, List, [], contains, str_eq}
use django_mcp_sql.Raise.{returned}
use django_mcp_sql.Models.{Profile}
use django_mcp_sql.Grants.{declared_tables, values}
use django_mcp_sql.Grants.Reconcile.{Catalog, ProfileDrift}
use django_mcp_sql.Grants.Reconcile.Moved.{IsPostgres}

module _ {G : Type 0} (db : Catalog G) (p : IsPostgres db) where
  -- The grants that the query lists.
  abbrev pub holds : G → String → String → Bool
  holds g r t = p.own g r t || p.foreign g r t

  -- The role has the grants that its profile declares, and no others but those of another grantor; every
  -- other role is as it was; and the drift names the difference.
  pub record Reached (profile : Profile) (g : G) (d : ProfileDrift) (g' : G) : Type 0 where
    pub declared : List (String × String)
    pub declared_eq : declared_tables db.table_of profile ≡ returned declared
    pub exact :
        (t : String)
        → holds g' profile.role t ≡ (contains (values declared) t || p.foreign g' profile.role t)
    pub others : (r t : String) → str_eq profile.role r ≡ false → p.own g' r t ≡ p.own g r t
    pub foreign_stays : (r t : String) → p.foreign g' r t ≡ p.foreign g r t
    pub granted :
        (t : String)
        → contains d.granted t ≡ (contains (values declared) t && not (holds g profile.role t))
    pub revoked :
        (t : String)
        → contains d.revoked t ≡ (holds g profile.role t && not (contains (values declared) t))

  -- Or the profile was skipped, which strict mode does not do, and nothing has changed.
  pub record Skipped (strict : Bool) (g : G) (d : ProfileDrift) (g' : G) : Type 0 where
    pub lenient : strict ≡ false
    pub unchanged : g ≡ g'
    pub no_grants : d.granted ≡ []
    pub no_revokes : d.revoked ≡ []
