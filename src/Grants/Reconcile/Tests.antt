-- ===== src/Grants/Reconcile/Tests.antt =====
-- grants.py: one role, of which one table is taken back and to which one is given.
use django_mcp_sql.Prelude.{
  String, ◌≡◌, refl, sym, ap, ◌∙◌, ◌⊎◌, inl, inr, Bool, true, false, ◌&&◌, ◌||◌, not, none, List,
  [], ◌∷◌, contains, str_eq, eq_iff, if◌then◌else◌, Bool-cases, arith,
}
use django_mcp_sql.Raise.{Try, other_error, returned, raised}
use django_mcp_sql.Models.{Profile}
use django_mcp_sql.Grants.Reconcile.{Catalog, ProfileDrift}
use django_mcp_sql.Grants.Reconcile.Moved.{IsPostgres, contains-cons}
use django_mcp_sql.Grants.Reconcile.Reached.{Reached}
use django_mcp_sql.Grants.Whole.{reconcile_grants}
use django_mcp_sql.Grants.Whole.Dry.{with_statements, LeavesGrants, reconcile_grants-dry}

-- The grants as pairs of a role and a table.
abbrev Pairs : Type 0
Pairs = List (String × String)

tables_of : Pairs → String → List String
tables_of [] role = []
tables_of ((r, t) ∷ rest) role =
    let more = tables_of rest role in if str_eq r role then t ∷ more else more

without : Pairs → String → String → Pairs
without [] role table = []
without ((r, t) ∷ rest) role table =
    let kept = without rest role table in
    if str_eq role r && str_eq table t then kept else (r, t) ∷ kept

abbrev pairs : Catalog Pairs
pairs = record {
  alias = "default";
  has_role = λ role. returned true;
  is_member = λ role. returned true;
  select_granted = λ g role. returned (tables_of g role);
  grant = λ g role table. returned ((role, table) ∷ g);
  revoke = λ g role table. returned (without g role table);
  table_of = λ entry. returned "app_user";
  managed = λ entry. true;
  model_columns = λ entry. [];
  view_columns = λ table. returned [];
  lower = λ s. s;
}

granted-contains :
    (g : Pairs) (role table r t : String)
    → contains (tables_of ((role, table) ∷ g) r) t
      ≡ (contains (tables_of g r) t || (str_eq role r && str_eq table t))
unfolding tables_of
granted-contains g role table r t = elim (Bool-cases (str_eq role r)) [
  | inl same ↦
      rw (same, contains-cons table (tables_of g r) t)
        (swap (str_eq table t) (contains (tables_of g r) t))
  | inr other ↦ rw other (plain (contains (tables_of g r) t))
]
  where
    swap : (a b : Bool) → (a || b) ≡ (b || (true && a))
    swap a b = ground arith

    plain : (a : Bool) → a ≡ (a || false)
    plain a = ground arith

both_true : (a b : Bool) → (a && b) ≡ true → (a ≡ true) × (b ≡ true)
both_true true b h = (refl, h)
both_true false b h = cc

revoked_here : (c x : Bool) → (c && not (true && x)) ≡ ((x || c) && not (true && x))
revoked_here c x = ground arith

kept_here : (b c x : Bool) → (b ≡ false) ⊎ (x ≡ false) → (b || (c && not x)) ≡ ((b || c) && not x)
kept_here false c x h = refl
kept_here true c false h = refl
kept_here true c true (inl h) = cc
kept_here true c true (inr h) = cc

revoked-contains :
    (g : Pairs) (role table r t : String)
    → contains (tables_of (without g role table) r) t
      ≡ (contains (tables_of g r) t && not (str_eq role r && str_eq table t))
unfolding tables_of without
revoked-contains [] role table r t = unfold contains in refl
revoked-contains ((a, b) ∷ g) role table r t =
    let ih = revoked-contains g role table r t in
    elim (Bool-cases (str_eq role a && str_eq table b)) [
      | inl drop ↦
          let (ha, hb) = both_true (str_eq role a) (str_eq table b) drop in
          let ea : role ≡ a = (eq_iff role a).0 ha in
          let eb : table ≡ b = (eq_iff table b).0 hb in
          elim (Bool-cases (str_eq a r)) [
            | inl same ↦
                let same' : str_eq role r ≡ true = rw (sym ea) at same in
                rw (drop, ih, same, contains-cons b (tables_of g r) t, same', sym eb)
                  (revoked_here (contains (tables_of g r) t) (str_eq table t))
            | inr other ↦ rw (drop, ih, other) refl
          ]
      | inr keep ↦ elim (Bool-cases (str_eq a r)) [
        | inl same ↦
            rw
              (
                keep,
                same,
                contains-cons b (tables_of (without g role table) r) t,
                contains-cons b (tables_of g r) t,
                ih,
              )
              (kept_here (str_eq b t) (contains (tables_of g r) t) (str_eq role r && str_eq table t)
                (apart a b role table r t same keep))
        | inr other ↦ rw (keep, other) ih
      ]
    ]
  where
    apart :
        (a b role table r t : String)
        → str_eq a r ≡ true
        → (str_eq role a && str_eq table b) ≡ false
        → (str_eq b t ≡ false) ⊎ ((str_eq role r && str_eq table t) ≡ false)
    apart a b role table r t same keep = elim (Bool-cases (str_eq b t)) [
      | inr n ↦ inl n
      | inl y ↦
          let er : a ≡ r = (eq_iff a r).0 same in
          let et : b ≡ t = (eq_iff b t).0 y in inr (rw (er, et) at keep)
    ]

pairs-IsPostgres : IsPostgres pairs
pairs-IsPostgres = record {
  fold = λ name. name;
  own = λ g r t. contains (tables_of g r) t;
  foreign = λ g r t. false;
  select_holds = λ g role l t h.
      ap (λ v. contains v t) (sym (returned-inj h)) ∙ or_nothing (contains (tables_of g role) t);
  grant_own = λ g g' role table r t h.
      ap (λ v. contains (tables_of v r) t) (sym (returned-inj h))
      ∙ granted-contains g role table r t;
  grant_foreign = λ g g' role table r t h. refl;
  revoke_own = λ g g' role table r t h.
      ap (λ v. contains (tables_of v r) t) (sym (returned-inj h))
      ∙ revoked-contains g role table r t;
  revoke_foreign = λ g g' role table r t h. refl;
}
  where
    returned-inj : {A : Type 0} {a b : A} → returned a ≡ returned b → a ≡ b
    returned-inj h = cc

    or_nothing : (a : Bool) → a ≡ (a || false)
    or_nothing a = ground arith

abbrev reader : Profile
reader = record {
  name = "reader";
  role = "mcp_reader";
  codename = "use_reader";
  group_name = "Readers";
  allowed_models = "app.User" ∷ [];
  session_context = none;
}

abbrev before_it : Pairs
before_it = ("mcp_reader", "app_old") ∷ ("other", "app_user") ∷ []

abbrev after_it : Pairs
after_it = ("mcp_reader", "app_user") ∷ ("other", "app_user") ∷ []

abbrev sample_drift : ProfileDrift
sample_drift = record { granted = "app_user" ∷ []; revoked = "app_old" ∷ []; skipped_reason = "" }

abbrev broken : Pairs → String → String → Try Pairs
broken g role table = raised (other_error "no such statement")

reconcile_grants-dry_example :
    (reconcile_grants (with_statements pairs broken broken) true false (reader ∷ []) before_it
      ≡ reconcile_grants pairs true false (reader ∷ []) before_it)
    × LeavesGrants before_it (reconcile_grants pairs true false (reader ∷ []) before_it).0
reconcile_grants-dry_example = reconcile_grants-dry pairs broken broken true (reader ∷ []) before_it
