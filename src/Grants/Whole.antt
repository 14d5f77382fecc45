-- ===== src/Grants/Whole.antt =====
-- grants.py: the reconciliation of all profiles, and the sums over them.
pub mod Exact
pub mod Unmoved
pub mod Dry
use django_mcp_sql.Prelude.{
  ℕ, ◌+◌, String, Bool, true, false, ◌||◌, List, [], ◌∷◌, ◌++◌, map, length, is_empty, any,
  if◌then◌else◌,
}
use django_mcp_sql.Raise.{Try, returned, raised}
use django_mcp_sql.Models.{Profile}
use django_mcp_sql.World.{LogEntry}
use django_mcp_sql.Dict.{put}
use django_mcp_sql.Grants.Sets.{set_of, sorted}
use django_mcp_sql.Grants.Reconcile.{
  Catalog, ProfileDrift, Outcome, is_changed, verify_default_alias, reconcile_profile,
}

-- `DriftDiff.per_profile`, by the name of the profile.
abbrev pub DriftDiff : Type 0
DriftDiff = List (String × ProfileDrift)

-- `sorted({t for d in ... for t in d.granted})`, of either list.
unfoldable pub tables_in : (ProfileDrift → List String) → DriftDiff → List String
tables_in tables [] = []
tables_in tables ((name, d) ∷ rest) = tables d ++ tables_in tables rest

unfoldable pub diff_granted : DriftDiff → List String
unfolding tables_in
diff_granted diff = sorted (set_of (tables_in (λ d. d.granted) diff))

unfoldable pub diff_revoked : DriftDiff → List String
unfolding tables_in
diff_revoked diff = sorted (set_of (tables_in (λ d. d.revoked) diff))

unfoldable pub granted_count : DriftDiff → ℕ
granted_count [] = 0
granted_count ((name, d) ∷ rest) = length d.granted + granted_count rest

unfoldable pub revoked_count : DriftDiff → ℕ
revoked_count [] = 0
revoked_count ((name, d) ∷ rest) = length d.revoked + revoked_count rest

unfoldable pub diff_changed : DriftDiff → Bool
diff_changed diff = any (λ (i : String × ProfileDrift). is_changed i.1) diff

-- The first reason that is not empty.
unfoldable pub diff_skipped_reason : DriftDiff → String
diff_skipped_reason [] = ""
diff_skipped_reason ((name, d) ∷ rest) =
    let later = diff_skipped_reason rest in
    if is_empty d.skipped_reason then later else d.skipped_reason

module _ {G : Type 0} (db : Catalog G) (strict apply : Bool) where
  -- The result of one profile, and what follows it.
  unfoldable pub after_profile :
      Outcome G
      → (ProfileDrift → G → Try (DriftDiff × G) × List LogEntry)
      → Try (DriftDiff × G) × List LogEntry
  after_profile (raised e, logs) rest = (raised e, logs)
  after_profile (returned (d, g), logs) rest = let (r, later) = rest d g in (r, logs ++ later)

  -- The loop over the profiles, with `result.per_profile` so far.
  unfoldable pub reconcile_loop : List Profile → DriftDiff → G → Try (DriftDiff × G) × List LogEntry
  unfolding after_profile
  reconcile_loop [] out g = (returned (out, g), [])
  reconcile_loop (p ∷ rest) out g =
      after_profile (reconcile_profile db strict apply p g)
        (λ d g'. reconcile_loop rest (put p.name d out) g')

  unfoldable pub alias_verified :
      Try (Unit {0}) → List Profile → G → Try (DriftDiff × G) × List LogEntry
  unfolding reconcile_loop
  alias_verified (raised e) profiles g = (raised e, [])
  alias_verified (returned u) profiles g = reconcile_loop profiles [] g

  unfoldable pub reconcile_grants : List Profile → G → Try (DriftDiff × G) × List LogEntry
  unfolding alias_verified
  reconcile_grants profiles g = alias_verified (verify_default_alias db) profiles g
