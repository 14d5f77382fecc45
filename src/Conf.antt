-- ===== src/Conf.antt =====
-- conf.py: `resolve_profile`, which binds a user to one profile.
pub mod Resolved
pub mod Clouds
pub mod Accessor
use django_mcp_sql.Prelude.{
  String, Bool, Option, none, some, List, [], ◌∷◌, map, contains, add, str_eq, if◌then◌else◌,
}
use django_mcp_sql.Raise.{Try, returned, raised, other_error}
use django_mcp_sql.Models.{Profile}

-- A profile, or a `ResolutionOutcome`.
pub data Resolution : Type 0 where
  bound : Profile → Resolution
  no_perm : Resolution
  ambiguous_profile : Resolution

unfoldable pub last_of : Option Profile → Option Profile → Option Profile
last_of none earlier = earlier
last_of (some p) earlier = some p

-- `{p.codename: p for p in profiles}[codename]`: of several profiles the last one counts.
unfoldable pub by_codename : List Profile → String → Option Profile
unfolding last_of
by_codename [] codename = none
by_codename (p ∷ rest) codename =
    last_of (by_codename rest codename) (if str_eq p.codename codename then some p else none)

-- `set(... codename__in=list(by_codename) ...)`, of the codenames of the rows that the query finds.
unfoldable pub matched_codenames : List String → List String → List String
matched_codenames codenames [] = []
matched_codenames codenames (c ∷ rest) =
    let matched = matched_codenames codenames rest in
    if contains codenames c then add c matched else matched

unfoldable pub bound_to : Option Profile → Try Resolution
bound_to none = raised (other_error "KeyError")
bound_to (some p) = returned (bound p)

unfoldable pub outcome_of : List Profile → List String → Try Resolution
unfolding by_codename bound_to
outcome_of profiles [] = returned no_perm
outcome_of profiles (c ∷ []) = bound_to (by_codename profiles c)
outcome_of profiles (c ∷ d ∷ rest) = returned ambiguous_profile

-- `assigned` has the codenames of the permissions that the user holds by a group or directly, a
-- codename once for each way.
unfoldable pub resolve_profile : List Profile → List String → Try Resolution
unfolding outcome_of matched_codenames
resolve_profile profiles assigned =
    outcome_of profiles (matched_codenames (map (λ (p : Profile). p.codename) profiles) assigned)
