-- ===== src/Signals/Cohort/Paged.antt =====
-- signals.py: which pages a change of groups sends.
use mathlib.Core.List.{append_assoc}
use django_mcp_sql.Prelude.{
  ℕ, String, ◌≡◌, refl, ◌↔◌, inl, inr, true, false, contains, List, [], ◌∷◌, ◌++◌, map, any, length,
  ltb, str_eq, if◌then◌else◌, Bool-cases,
}
use django_mcp_sql.Raise.{Try, returned}
use django_mcp_sql.World.{World, LogEntry}
use django_mcp_sql.Throttle.Counting.{append_nil}
use django_mcp_sql.Grants.Sets.{sorted}
use django_mcp_sql.Signals.Cohort.Gained.{Gaining, paged_users, paged_users-Gaining}
use django_mcp_sql.Signals.Cohort.Named.{IsKeyed, IsIn, sorted-profile_names_iff}
use django_mcp_sql.Signals.Cohort.{
  Cohort, M2mChanged, mcp_group_pks, profile_names, label_in, gained, ambiguity, memberships_of,
  mcp_memberships, alert_user, alert_users, users_or_none, alert_mcp_group_grant, keys_or_none,
  is_mcp_group, added_users, with_groups, alert_on_mcp_group_grant,
}

-- The pages about these users: that each has gained access, and, for one who is now in several groups,
-- that this is ambiguous.
unfoldable pub pages : List (ℕ × Try String) → List (ℕ × List String) → List LogEntry
pages users [] = []
pages users ((uid, profiles) ∷ rest) =
    gained (label_in users uid) uid profiles
      ∷ (if ltb 1 (length profiles) then ambiguity uid profiles ∷ [] else [])
    ++ pages users rest

-- The profiles of each user, by name.
abbrev pub members : List (ℕ × String) → (ℕ → List ℕ) → List ℕ → List (ℕ × List String)
members pks found uids = map (λ uid. (uid, sorted (profile_names pks (found uid)))) uids

module _ {C : Type 0} where
  abbrev logging : World C → List LogEntry → World C
  logging w entries = record w { logs = w.logs ++ entries }

module _ {C : Type 0} (c : Cohort) (pks : List (ℕ × String)) where
  alert_users-pages :
      (users : List (ℕ × Try String)) (members : List (ℕ × List String)) (w : World C)
      → alert_users c pks users members w ≡ (returned tt, logging w (pages users members))
  unfolding alert_users alert_user pages
  alert_users-pages users [] w = rw (append_nil w.logs) refl
  alert_users-pages users ((uid, profiles) ∷ rest) w =
      let page : LogEntry = gained (label_in users uid) uid profiles in
      elim (Bool-cases (ltb 1 (length profiles))) [
        | inl several ↦
            rw
              (
                several,
                alert_users-pages users rest
                    (logging (logging w (page ∷ [])) (ambiguity uid profiles ∷ [])),
                append_assoc (w.logs ++ page ∷ []) (ambiguity uid profiles ∷ []) (pages users rest),
                append_assoc w.logs (page ∷ []) (ambiguity uid profiles ∷ pages users rest),
              )
              refl
        | inr one ↦
            rw
              (
                one,
                alert_users-pages users rest (logging w (page ∷ [])),
                append_assoc w.logs (page ∷ []) (pages users rest),
              )
              refl
      ]

  module _ (found : ℕ → List ℕ) (answers : (uid : ℕ) → c.member_of uid ≡ returned (found uid)) where
    mcp_memberships-members :
        (uids : List ℕ) (w : World C)
        → mcp_memberships c pks uids w ≡ (returned (members pks found uids), w)
    unfolding mcp_memberships memberships_of
    mcp_memberships-members [] w = refl
    mcp_memberships-members (uid ∷ rest) w = rw (answers uid, mcp_memberships-members rest w) refl

    alert_mcp_group_grant-pages :
        (users : List (ℕ × Try String)) (uids : List ℕ) (w : World C)
        → c.users uids ≡ returned users
        → alert_mcp_group_grant c pks uids w
          ≡ (returned tt, logging w (pages users (members pks found uids)))
    unfolding alert_mcp_group_grant users_or_none
    alert_mcp_group_grant-pages users [] w h = unfold pages in rw (append_nil w.logs) refl
    alert_mcp_group_grant-pages users (uid ∷ rest) w h =
        rw (mcp_memberships-members (uid ∷ rest) w, h)
          (alert_users-pages users (members pks found (uid ∷ rest)) w)

no_group : (keys : List ℕ) → any (is_mcp_group []) keys ≡ false
unfolding is_mcp_group
no_group [] = refl
no_group (k ∷ rest) = no_group rest

added_users-none : (s : M2mChanged) → added_users [] s ≡ []
unfolding added_users is_mcp_group
added_users-none s = elim (Bool-cases s.reverse) [
  | inl back ↦ rw back refl
  | inr forth ↦ rw (forth, no_group (keys_or_none s.pk_set)) refl
]

module _ {C : Type 0} (c : Cohort) (found : ℕ → List ℕ)
    (answers : (uid : ℕ) → c.member_of uid ≡ returned (found uid)) where
  with_groups-pages :
      (s : M2mChanged) (pks : List (ℕ × String)) (users : List (ℕ × Try String)) (w : World C)
      → c.users (added_users pks s) ≡ returned users
      → with_groups c s pks w
        ≡ (returned tt, logging w (pages users (members pks found (added_users pks s))))
  unfolding with_groups
  with_groups-pages s [] users w h =
      rw (added_users-none s) (unfold pages in rw (append_nil w.logs) refl)
  with_groups-pages s (p ∷ pks) users w h =
      alert_mcp_group_grant-pages c (p ∷ pks) found answers users (added_users (p ∷ pks) s) w h

  alert_on_mcp_group_grant-logs :
      (s : M2mChanged) (users : List (ℕ × Try String)) (w : World C)
      → c.users (paged_users c s) ≡ returned users
      → alert_on_mcp_group_grant c s w
        ≡ (returned tt, logging w (pages users (members (mcp_group_pks c) found (paged_users c s))))
  unfolding alert_on_mcp_group_grant
  alert_on_mcp_group_grant-logs s users w h = elim (Bool-cases (str_eq s.action "post_add")) [
    | inl added ↦ rw added (with_groups-pages s (mcp_group_pks c) users w (rw added at h))
    | inr other ↦ rw other (unfold pages in rw (append_nil w.logs) refl)
  ]

-- What a change of groups does, where `found` are the groups of each user and `users_of` the users
-- with some keys.
pub record IsPaged {C : Type 0} (c : Cohort) (found : ℕ → List ℕ)
    (users_of : List ℕ → List (ℕ × Try String)) (s : M2mChanged) (w : World C) : Type 0 where
  pub about : List ℕ
  pub who : Gaining c s about
  pub named : ℕ → List String
  pub which :
      (uid : ℕ) (name : String) → (contains (named uid) name ≡ true) ↔ IsIn c (found uid) name
  pub run : alert_on_mcp_group_grant c s w ≡ (
    returned tt,
    record w { logs = w.logs ++ pages (users_of about) (map (λ uid. (uid, named uid)) about) },
  )

module _ {C : Type 0} (c : Cohort) (keyed : IsKeyed c.groups) (found : ℕ → List ℕ)
    (answers : (uid : ℕ) → c.member_of uid ≡ returned (found uid))
    (users_of : List ℕ → List (ℕ × Try String))
    (known : (uids : List ℕ) → c.users uids ≡ returned (users_of uids)) where
  -- Where the queries answer and no two groups have one key, a change of the groups of users sends,
  -- for each user that gains access by it, one page that the user has gained access, and a second
  -- one exactly if the page names several profiles; the names on the page are exactly those of the
  -- profiles in whose group the user now is, the last one where several profiles have one group.
  -- The users that gain access are, for the action `post_add` and no other, the user of the signal
  -- if one of the groups that it adds is that of a profile, or, in reverse, the users that it adds
  -- if its group is that of a profile; it sends nothing about other users, and nothing else
  -- changes.
  pub alert_on_mcp_group_grant-pages : (s : M2mChanged) (w : World C) → IsPaged c found users_of s w
  alert_on_mcp_group_grant-pages s w = record {
    about = paged_users c s;
    who = paged_users-Gaining c s;
    named = λ uid. sorted (profile_names (mcp_group_pks c) (found uid));
    which = λ uid name. sorted-profile_names_iff c keyed name (found uid);
    run =
        alert_on_mcp_group_grant-logs c found answers s (users_of (paged_users c s)) w
          (known (paged_users c s));
  }
