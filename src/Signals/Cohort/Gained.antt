-- ===== src/Signals/Cohort/Gained.antt =====
-- signals.py: which users a change of groups is about.
use django_mcp_sql.Prelude.{
  ℕ, String, ◌≡◌, refl, sym, ◌≢◌, ◌∙◌, ◌↔◌, inl, inr, Bool, true, false, ◌&&◌, ◌||◌, Option, none,
  some, List, [], ◌∷◌, any, Any, any_iff, str_eq, eq_iff, ◌==◌, ==_iff, if◌then◌else◌, Bool-cases,
  arith,
}
use django_mcp_sql.Models.{Profile}
use django_mcp_sql.Dict.{get, put, get-put-same, get-put-other}
use django_mcp_sql.Signals.Cohort.{
  Cohort, M2mChanged, name_to_profile, with_profile, pks_of, mcp_group_pks, keys_or_none,
  is_mcp_group, added_users,
}

-- There is a group with this key whose name some profile gives as that of its group.
pub IsProfileGroup : Cohort → ℕ → Type 0
IsProfileGroup c pk =
    Any (λ (g : ℕ × String). (g.0 ≡ pk) × Any (λ (p : Profile). p.group_name ≡ g.1) c.profiles)
      c.groups

-- The users that gain access: forward, the signal is of one user and has the keys of groups; in
-- reverse, it is of one group and has the keys of users.
pub data Gaining (c : Cohort) (s : M2mChanged) : List ℕ → Type 0 where
  other_action : s.action ≢ "post_add" → Gaining c s []
  joined :
      s.action ≡ "post_add"
      → s.reverse ≡ false
      → Any (IsProfileGroup c) (keys_or_none s.pk_set)
      → Gaining c s (s.instance_pk ∷ [])
  joined_others :
      s.action ≡ "post_add"
      → s.reverse ≡ false
      → ¬ Any (IsProfileGroup c) (keys_or_none s.pk_set)
      → Gaining c s []
  admitted :
      s.action ≡ "post_add"
      → s.reverse ≡ true
      → IsProfileGroup c s.instance_pk
      → Gaining c s (keys_or_none s.pk_set)
  admitted_elsewhere :
      s.action ≡ "post_add" → s.reverse ≡ true → ¬ IsProfileGroup c s.instance_pk → Gaining c s []

abbrev is_some : Option String → Bool
is_some none = false
is_some (some x) = true

abbrev names_group : String → Profile → Bool
names_group name p = str_eq p.group_name name

or_true : (a b : Bool) → b ≡ true → true ≡ (a || b)
or_true a b h = ground arith

or_assoc : (a b c : Bool) → ((a || b) || c) ≡ (a || (b || c))
or_assoc a b c = ground arith

or_false : (a : Bool) → a ≡ (a || false)
or_false a = ground arith

is_some-put :
    (key value : String) (d : List (String × String)) (name : String)
    → is_some (get (put key value d) name) ≡ (is_some (get d name) || str_eq key name)
is_some-put key value d name = elim (Bool-cases (str_eq key name)) [
  | inl same ↦
      rw ((eq_iff key name).0 same, get-put-same name value d, (eq_iff name name).1 refl)
        (or_true (is_some (get d name)) true refl)
  | inr other ↦ rw (get-put-other key value d name other, other) (or_false (is_some (get d name)))
]

is_some-name_to_profile :
    (built : List (String × String)) (ps : List Profile) (name : String)
    → is_some (get (name_to_profile built ps) name)
      ≡ (is_some (get built name) || any (names_group name) ps)
unfolding name_to_profile
is_some-name_to_profile built [] name = or_false (is_some (get built name))
is_some-name_to_profile built (p ∷ rest) name =
    is_some-name_to_profile (put p.group_name p.name built) rest name
    ∙ rw (is_some-put p.group_name p.name built name) (
        or_assoc (is_some (get built name)) (str_eq p.group_name name)
          (any (names_group name) rest))

is_mcp_group-pks_of :
    (names : List (String × String)) (groups : List (ℕ × String)) (pk : ℕ)
    → is_mcp_group (pks_of names groups) pk
      ≡ any (λ (g : ℕ × String). (g.0 == pk) && is_some (get names g.1)) groups
unfolding is_mcp_group pks_of with_profile
is_mcp_group-pks_of names [] pk = refl
is_mcp_group-pks_of names ((k, name) ∷ rest) pk =
    rw (sym (is_mcp_group-pks_of names rest pk)) (step (get names name))
  where
    step :
        (found : Option String)
        → is_mcp_group (with_profile k found (pks_of names rest)) pk
          ≡ (((k == pk) && is_some found) || is_mcp_group (pks_of names rest) pk)
    step none = ground arith
    step (some x) = ground arith

both_iff :
    {P Q : Type 0} (a b : Bool) → (a ≡ true) ↔ P → (b ≡ true) ↔ Q → ((a && b) ≡ true) ↔ (P × Q)
both_iff true true p q = (λ h. (p.0 refl, q.0 refl), λ h. refl)
both_iff true false p q = (λ h. (p.0 refl, q.0 h), λ h. q.1 h.1)
both_iff false b p q = (λ h. elim (absurd h) [ ], λ h. p.1 h.0)
  where
    absurd : false ≡ true → ⊥
    absurd h = cc

pub is_mcp_group_iff :
    (c : Cohort) (pk : ℕ) → (is_mcp_group (mcp_group_pks c) pk ≡ true) ↔ IsProfileGroup c pk
unfolding mcp_group_pks IsProfileGroup get
is_mcp_group_iff c pk =
    rw (is_mcp_group-pks_of (name_to_profile [] c.profiles) c.groups pk)
      (any_iff _ (λ (g : ℕ × String). both_iff (g.0 == pk) _ (==_iff g.0 pk) (named g.1)) c.groups)
  where
    named :
        (name : String)
        → (is_some (get (name_to_profile [] c.profiles) name) ≡ true)
          ↔ Any (λ (p : Profile). p.group_name ≡ name) c.profiles
    named name =
        rw (is_some-name_to_profile [] c.profiles name)
          (any_iff (names_group name) (λ p. eq_iff p.group_name name) c.profiles)

none_iff : {P : Type 0} (b : Bool) → (b ≡ true) ↔ P → b ≡ false → ¬ P
none_iff b i miss p = clash b (i.1 p) miss
  where
    clash : (b : Bool) → b ≡ true → b ≡ false → ⊥
    clash b hit miss = cc

-- The users that the signal is about.
abbrev pub paged_users : Cohort → M2mChanged → List ℕ
paged_users c s = if str_eq s.action "post_add" then added_users (mcp_group_pks c) s else []

module _ (pks : List (ℕ × String)) (s : M2mChanged) where
  added_users-reverse :
      s.reverse ≡ true
      → added_users pks s ≡ (if is_mcp_group pks s.instance_pk then keys_or_none s.pk_set else [])
  unfolding added_users
  added_users-reverse h = rw h refl

  added_users-forward :
      s.reverse ≡ false
      → added_users pks s
        ≡ (if any (is_mcp_group pks) (keys_or_none s.pk_set) then s.instance_pk ∷ [] else [])
  unfolding added_users
  added_users-forward h = rw h refl

module _ (c : Cohort) (s : M2mChanged) (h : s.action ≡ "post_add") where
  reverse-Gaining : s.reverse ≡ true → Gaining c s (added_users (mcp_group_pks c) s)
  reverse-Gaining back = elim (Bool-cases (is_mcp_group (mcp_group_pks c) s.instance_pk)) [
    | inl hit ↦
        rw (added_users-reverse (mcp_group_pks c) s back, hit)
          (admitted h back ((is_mcp_group_iff c s.instance_pk).0 hit))
    | inr miss ↦
        rw (added_users-reverse (mcp_group_pks c) s back, miss)
          (admitted_elsewhere h back (none_iff _ (is_mcp_group_iff c s.instance_pk) miss))
  ]

  forward-Gaining : s.reverse ≡ false → Gaining c s (added_users (mcp_group_pks c) s)
  forward-Gaining forth =
      let keys = keys_or_none s.pk_set in
      let some_group = any_iff (is_mcp_group (mcp_group_pks c)) (is_mcp_group_iff c) keys in
      elim (Bool-cases (any (is_mcp_group (mcp_group_pks c)) keys)) [
        | inl hit ↦
            rw (added_users-forward (mcp_group_pks c) s forth, hit)
              (joined h forth (some_group.0 hit))
        | inr miss ↦
            rw (added_users-forward (mcp_group_pks c) s forth, miss)
              (joined_others h forth (none_iff _ some_group miss))
      ]

  added_users-Gaining : Gaining c s (added_users (mcp_group_pks c) s)
  added_users-Gaining = elim (Bool-cases s.reverse) [
    | inl back ↦ reverse-Gaining back
    | inr forth ↦ forward-Gaining forth
  ]

pub paged_users-Gaining : (c : Cohort) (s : M2mChanged) → Gaining c s (paged_users c s)
paged_users-Gaining c s = elim (Bool-cases (str_eq s.action "post_add")) [
  | inl added ↦ rw added (added_users-Gaining c s ((eq_iff s.action "post_add").0 added))
  | inr other ↦ rw other (other_action (none_iff _ (eq_iff s.action "post_add") other))
]
