-- ===== src/Signals/Cohort.antt =====
-- signals.py: the alerts about users that are added to the group of a profile.
pub mod Gained
pub mod Declared
pub mod Named
pub mod Paged
use django_mcp_sql.Prelude.{
  ℕ, String, Bool, true, false, Option, none, some, List, [], ◌∷◌, map, any, length, str_eq, format,
  show, ltb, ◌==◌, is_empty, if◌then◌else◌,
}
use django_mcp_sql.Raise.{Exn, database_error, Try, returned, raised, ◌>>=◌}
use django_mcp_sql.Models.{Profile}
use django_mcp_sql.Dict.{get, put}
use django_mcp_sql.Grants.Sets.{sorted}
use django_mcp_sql.World
use django_mcp_sql.World.{Act, error, exception, pure, raise, log, ◌>>◌}

-- What the receiver reads of the database.
pub record Cohort : Type 0 where
  pub profiles : List Profile
  -- the rows of `Group`, by key and name
  pub groups : List (ℕ × String)
  -- `Group.objects.filter(user__pk=uid, ...)`, by key
  pub member_of : ℕ → Try (List ℕ)
  -- the users with these keys; `get_username()` of each, which may raise
  pub users : List ℕ → Try (List (ℕ × Try String))

-- `{p.group_name: p.name for p in ...}`
unfoldable pub name_to_profile : List (String × String) → List Profile → List (String × String)
name_to_profile built [] = built
name_to_profile built (p ∷ rest) = name_to_profile (put p.group_name p.name built) rest

unfoldable pub with_profile : ℕ → Option String → List (ℕ × String) → List (ℕ × String)
with_profile pk none rest = rest
with_profile pk (some name) rest = (pk, name) ∷ rest

unfoldable pub pks_of : List (String × String) → List (ℕ × String) → List (ℕ × String)
unfolding with_profile
pks_of names [] = []
pks_of names ((pk, name) ∷ rest) = with_profile pk (get names name) (pks_of names rest)

-- `_mcp_group_pks`
unfoldable pub mcp_group_pks : Cohort → List (ℕ × String)
unfolding name_to_profile pks_of
mcp_group_pks c = pks_of (name_to_profile [] c.profiles) c.groups

-- `mcp_group_pks.get(pk)`
unfoldable pub profile_of : List (ℕ × String) → ℕ → Option String
profile_of [] pk = none
profile_of ((k, name) ∷ rest) pk =
    let later = profile_of rest pk in if k == pk then some name else later

-- The names of the profiles whose groups are among these keys; the query is by `pk__in`.
unfoldable pub profile_names : List (ℕ × String) → List ℕ → List String
unfolding profile_of
profile_names pks [] = []
profile_names pks (pk ∷ rest) = elim (profile_of pks pk) [
  | none ↦ profile_names pks rest
  | some name ↦ name ∷ profile_names pks rest
]

-- `", ".join(profiles)`
unfoldable pub joined_names : List String → String
joined_names [] = ""
joined_names (s ∷ []) = s
joined_names (s ∷ t ∷ rest) = format (s ∷ ", " ∷ joined_names (t ∷ rest) ∷ [])

abbrev pub or_unknown : String → String
or_unknown s = if is_empty s then "?" else s

-- `_user_label`, of a user that is found.
unfoldable pub label_of : Try String → String
label_of (returned username) = username
label_of (raised e) = "?"

unfoldable pub label_in : List (ℕ × Try String) → ℕ → String
unfolding label_of
label_in [] uid = "?"
label_in ((k, username) ∷ rest) uid =
    let later = label_in rest uid in if k == uid then label_of username else later

abbrev pub gained : String → ℕ → List String → World.LogEntry
gained label uid profiles = error (
    format (
      "MCP cohort change: "
      ∷ label
      ∷ " (pk="
      ∷ show uid
      ∷ ") GAINED MCP access via profile group(s) ["
      ∷ or_unknown (joined_names profiles)
      ∷ "] — confirm this grant was authorized."
      ∷ []))

abbrev pub ambiguity : ℕ → List String → World.LogEntry
ambiguity uid profiles = error (
    format (
      "MCP profile AMBIGUITY: user pk="
      ∷ show uid
      ∷ " is in "
      ∷ show (length profiles)
      ∷ " MCP profile groups ("
      ∷ joined_names profiles
      ∷ ") — MCP access will be DENIED until exactly one remains."
      ∷ []))

-- `except DatabaseError: users = {}`
unfoldable pub users_or_none : Try (List (ℕ × Try String)) → Try (List (ℕ × Try String))
users_or_none (returned users) = returned users
users_or_none (raised (database_error e)) = returned []
users_or_none (raised e) = raised e

module _ {C : Type 0} (c : Cohort) (pks : List (ℕ × String)) where
  -- The `try` of one round in `_mcp_memberships`.
  unfoldable pub memberships_of : ℕ → Try (List ℕ) → Act C (List String)
  memberships_of uid (returned found) = pure (sorted (profile_names pks found))
  memberships_of uid (raised (database_error e)) =
      log (exception (format ("MCP membership query failed for user pk=" ∷ show uid ∷ [])))
      >> pure []
  memberships_of uid (raised e) = raise e

  -- `_mcp_memberships`, for the users in this order.
  unfoldable pub mcp_memberships : List ℕ → Act C (List (ℕ × List String))
  unfolding memberships_of
  mcp_memberships [] = pure []
  mcp_memberships (uid ∷ rest) =
      World.◌>>=◌ (memberships_of uid (c.member_of uid))
        (λ profiles. World.◌>>=◌ (mcp_memberships rest) (λ out. pure ((uid, profiles) ∷ out)))

  -- One round of the loop in `_alert_mcp_group_grant`.
  unfoldable pub alert_user : List (ℕ × Try String) → ℕ × List String → Act C (Unit {0})
  unfolding label_in
  alert_user users (uid, profiles) =
      log (gained (label_in users uid) uid profiles)
      >> (if ltb 1 (length profiles) then log (ambiguity uid profiles) else pure tt)

  unfoldable pub alert_users : List (ℕ × Try String) → List (ℕ × List String) → Act C (Unit {0})
  unfolding alert_user
  alert_users users [] = pure tt
  alert_users users (m ∷ rest) = alert_user users m >> alert_users users rest

  unfoldable pub alert_mcp_group_grant : List ℕ → Act C (Unit {0})
  unfolding mcp_memberships alert_users users_or_none
  alert_mcp_group_grant [] = pure tt
  alert_mcp_group_grant (uid ∷ rest) = World.◌>>=◌ (mcp_memberships (uid ∷ rest)) (λ memberships.
      World.◌>>=◌ (World.lift (users_or_none (c.users (uid ∷ rest))))
        (λ users. alert_users users memberships))

-- The signal: the action, the key of the instance, the set of keys, and the side of the relation.
pub record M2mChanged : Type 0 where
  pub action : String
  pub instance_pk : ℕ
  pub pk_set : Option (List ℕ)
  pub reverse : Bool

abbrev pub keys_or_none : Option (List ℕ) → List ℕ
keys_or_none none = []
keys_or_none (some keys) = keys

unfoldable pub is_mcp_group : List (ℕ × String) → ℕ → Bool
is_mcp_group pks pk = any (λ (p : ℕ × String). p.0 == pk) pks

-- The users that a signal adds to the group of a profile.
unfoldable pub added_users : List (ℕ × String) → M2mChanged → List ℕ
unfolding is_mcp_group
added_users pks s =
    if s.reverse
    then (if is_mcp_group pks s.instance_pk then keys_or_none s.pk_set else [])
    else if any (is_mcp_group pks) (keys_or_none s.pk_set)
    then s.instance_pk ∷ []
    else []

module _ {C : Type 0} (c : Cohort) where
  unfoldable pub with_groups : M2mChanged → List (ℕ × String) → Act C (Unit {0})
  unfolding added_users alert_mcp_group_grant
  with_groups s [] = pure tt
  with_groups s (p ∷ pks) = alert_mcp_group_grant c (p ∷ pks) (added_users (p ∷ pks) s)

  unfoldable pub alert_on_mcp_group_grant : M2mChanged → Act C (Unit {0})
  unfolding with_groups mcp_group_pks
  alert_on_mcp_group_grant s =
      if str_eq s.action "post_add" then with_groups s (mcp_group_pks c) else pure tt
