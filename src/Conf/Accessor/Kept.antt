-- ===== src/Conf/Accessor/Kept.antt =====
-- conf.py: what one read leaves in the accessor, and what it gives.
use django_mcp_sql.Prelude.{
  String, ◌≡◌, refl, ◌≢◌, sym, ◌∙◌, inl, inr, Option, none, some, List, [], str_eq, eq_iff,
  Bool-cases, Option-cases,
}
use django_mcp_sql.Raise.{Try, returned, raised}
use django_mcp_sql.Models.{Profile}
use django_mcp_sql.Dict.{get, put, get-put-same, get-put-other}
use django_mcp_sql.Conf.Clouds.{CloudClient}
use django_mcp_sql.Conf.Accessor.{
  Setting, Imports, Accessor, defaults, initial, value_of, keep, cached_or, known_or_refused,
  getattr, keep_profiles, profiles_or, profiles, keep_clients, with_prefix, clients_or,
  cloud_clients,
}

module _ {Object : Type 0} (env : Imports Object) (cfg : List (String × Setting Object)) where
  -- What an accessor that keeps nothing yet reads.
  abbrev fresh : String → Try (Setting Object)
  fresh name = (getattr env cfg name initial).0

  -- Everything that the accessor keeps is what a new one would read.
  pub record Coherent (acc : Accessor Object) : Type 0 where
    pub values :
        (name : String) (v : Setting Object)
        → get acc.cached name ≡ some v
        → fresh name ≡ returned v
    pub profiles_kept :
        (ps : List (String × Profile))
        → acc.cached_profiles ≡ some ps
        → (profiles env cfg initial).0 ≡ returned ps
    pub clients_kept :
        (cs : List (String × CloudClient))
        → acc.cached_clients ≡ some cs
        → (cloud_clients env cfg initial).0 ≡ returned cs

  nothing_kept : (name : String) (v : Setting Object) → get {V = Setting Object} [] name ≢ some v
  unfolding get
  nothing_kept name v h = cc

  pub initial-Coherent : Coherent initial
  initial-Coherent = record {
    values = λ name v h. absurd (nothing_kept name v h);
    profiles_kept = λ ps h. cc;
    clients_kept = λ cs h. cc;
  }

  keep-result :
      (name : String) (acc : Accessor Object) (r : Try (Setting Object))
      → (keep env cfg name acc r).0 ≡ r
  unfolding keep
  keep-result name acc (returned v) = refl
  keep-result name acc (raised e) = refl

  fresh-known :
      (name : String) (default : Setting Object)
      → get (defaults {Object = Object}) name ≡ some default
      → fresh name ≡ value_of env cfg name default
  unfolding getattr known_or_refused cached_or
  fresh-known name default h =
      rw (fresh, h) (unfold get in keep-result name initial (value_of env cfg name default))

  pub getattr-fresh :
      (name : String) (acc : Accessor Object)
      → Coherent acc
      → (getattr env cfg name acc).0 ≡ fresh name
  unfolding getattr known_or_refused cached_or
  getattr-fresh name acc c = elim (Option-cases (get (defaults {Object = Object}) name)) [
    | inl unknown ↦ rw (fresh, unknown) refl
    | inr known ↦
        let (default, e) = known in
        rw (fresh-known name default e) (elim (Option-cases (get acc.cached name)) [
          | inr hit ↦
              let (v, q) = hit in rw (e, q) (sym (c.values name v q) ∙ fresh-known name default e)
          | inl miss ↦ rw (e, miss) (keep-result name acc (value_of env cfg name default))
        ])
  ]

  put-values :
      (name : String) (value : Setting Object) (acc : Accessor Object)
      → Coherent acc
      → fresh name ≡ returned value
      → (j : String) (v : Setting Object) → get (put name value acc.cached) j ≡ some v
      → fresh j ≡ returned v
  put-values name value acc c h j v g = elim (Bool-cases (str_eq name j)) [
    | inl same ↦
        let e : name ≡ j = (eq_iff name j).0 same in
        let k : some value ≡ some v =
          sym (get-put-same name value acc.cached) ∙ (rw (sym e) at g) in
        let q : value ≡ v = cc in rw (sym e, sym q) h
    | inr other ↦ c.values j v (sym (get-put-other name value acc.cached j other) ∙ g)
  ]

  keep-Coherent :
      (name : String) (acc : Accessor Object) (r : Try (Setting Object))
      → Coherent acc
      → fresh name ≡ r
      → Coherent (keep env cfg name acc r).1
  unfolding keep
  keep-Coherent name acc (raised e) c h = c
  keep-Coherent name acc (returned value) c h = record {
    values = put-values name value acc c h;
    profiles_kept = c.profiles_kept;
    clients_kept = c.clients_kept;
  }

  pub getattr-Coherent :
      (name : String) (acc : Accessor Object) → Coherent acc → Coherent (getattr env cfg name acc).1
  unfolding getattr known_or_refused cached_or
  getattr-Coherent name acc c = elim (Option-cases (get (defaults {Object = Object}) name)) [
    | inl unknown ↦ rw unknown c
    | inr known ↦
        let (default, e) = known in
        elim (Option-cases (get acc.cached name)) [
          | inr hit ↦ let (v, q) = hit in rw (e, q) c
          | inl miss ↦
              rw (e, miss)
                (keep-Coherent name acc (value_of env cfg name default) c
                  (fresh-known name default e))
        ]
  ]

  keep_profiles-result :
      (acc : Accessor Object) (r : Try (List (String × Profile)))
      → (keep_profiles env cfg acc r).0 ≡ r
  unfolding keep_profiles
  keep_profiles-result acc (returned ps) = refl
  keep_profiles-result acc (raised e) = refl

  -- The result does not depend on the accessor where no profiles are kept.
  profiles_or-none :
      (acc : Accessor Object) → (profiles_or env cfg acc none).0 ≡ (profiles env cfg initial).0
  unfolding profiles profiles_or
  profiles_or-none acc = keep_profiles-result acc _ ∙ sym (keep_profiles-result initial _)

  pub profiles_or-fresh :
      (acc : Accessor Object) (kept : Option (List (String × Profile)))
      → ((ps : List (String × Profile))
          → kept ≡ some ps
          → (profiles env cfg initial).0 ≡ returned ps)
      → (profiles_or env cfg acc kept).0 ≡ (profiles env cfg initial).0
  profiles_or-fresh acc none h = profiles_or-none acc
  profiles_or-fresh acc (some built) h = unfold profiles_or in sym (h built refl)

  keep_profiles-Coherent :
      (acc : Accessor Object) (r : Try (List (String × Profile)))
      → Coherent acc
      → (profiles env cfg initial).0 ≡ r
      → Coherent (keep_profiles env cfg acc r).1
  unfolding keep_profiles
  keep_profiles-Coherent acc (raised e) c h = c
  keep_profiles-Coherent acc (returned built) c h = record {
    values = c.values;
    profiles_kept = λ ps e. let q : built ≡ ps = cc in rw (sym q) h;
    clients_kept = c.clients_kept;
  }

  pub profiles_or-Coherent :
      (acc : Accessor Object) (kept : Option (List (String × Profile)))
      → Coherent acc
      → Coherent (profiles_or env cfg acc kept).1
  unfolding profiles_or
  profiles_or-Coherent acc (some built) c = c
  profiles_or-Coherent acc none c =
      keep_profiles-Coherent acc _ c
        (sym (profiles_or-none acc) ∙ (unfold profiles_or in keep_profiles-result acc _))

  keep_clients-result :
      (acc : Accessor Object) (r : Try (List (String × CloudClient)))
      → (keep_clients env cfg acc r).0 ≡ r
  unfolding keep_clients
  keep_clients-result acc (returned cs) = refl
  keep_clients-result acc (raised e) = refl

  with_prefix-result :
      (r : Try (Setting Object)) (a b : Accessor Object)
      → (with_prefix env cfg (r, a)).0 ≡ (with_prefix env cfg (r, b)).0
  unfolding with_prefix
  with_prefix-result (raised e) a b = refl
  with_prefix-result (returned prefix) a b = keep_clients-result a _ ∙ sym (keep_clients-result b _)

  -- The result does not depend on the accessor where no clients are kept.
  clients_or-none :
      (acc : Accessor Object)
      → Coherent acc
      → (clients_or env cfg acc none).0 ≡ (cloud_clients env cfg initial).0
  unfolding cloud_clients clients_or
  clients_or-none acc c =
      let prefix : String = "APPLICATION_NAME_PREFIX" in
      let (r, a) = getattr env cfg prefix acc in
      let (q, b) = getattr env cfg prefix initial in
      let e : r ≡ q = getattr-fresh prefix acc c in rw e (with_prefix-result q a b)

  pub clients_or-fresh :
      (acc : Accessor Object) (kept : Option (List (String × CloudClient)))
      → Coherent acc
      → ((cs : List (String × CloudClient))
          → kept ≡ some cs
          → (cloud_clients env cfg initial).0 ≡ returned cs)
      → (clients_or env cfg acc kept).0 ≡ (cloud_clients env cfg initial).0
  clients_or-fresh acc none c h = clients_or-none acc c
  clients_or-fresh acc (some built) c h = unfold clients_or in sym (h built refl)

  keep_clients-Coherent :
      (acc : Accessor Object) (r : Try (List (String × CloudClient)))
      → Coherent acc
      → (cloud_clients env cfg initial).0 ≡ r
      → Coherent (keep_clients env cfg acc r).1
  unfolding keep_clients
  keep_clients-Coherent acc (raised e) c h = c
  keep_clients-Coherent acc (returned built) c h = record {
    values = c.values;
    profiles_kept = c.profiles_kept;
    clients_kept = λ cs e. let q : built ≡ cs = cc in rw (sym q) h;
  }

  with_prefix-Coherent :
      (r : Try (Setting Object)) (acc : Accessor Object)
      → Coherent acc
      → (cloud_clients env cfg initial).0 ≡ (with_prefix env cfg (r, acc)).0
      → Coherent (with_prefix env cfg (r, acc)).1
  unfolding with_prefix
  with_prefix-Coherent (raised e) acc c h = c
  with_prefix-Coherent (returned prefix) acc c h =
      keep_clients-Coherent acc _ c (h ∙ keep_clients-result acc _)

  pub clients_or-Coherent :
      (acc : Accessor Object) (kept : Option (List (String × CloudClient)))
      → Coherent acc
      → Coherent (clients_or env cfg acc kept).1
  unfolding clients_or
  clients_or-Coherent acc (some built) c = c
  clients_or-Coherent acc none c =
      let (r, a) = getattr env cfg "APPLICATION_NAME_PREFIX" acc in
      with_prefix-Coherent r a (getattr-Coherent "APPLICATION_NAME_PREFIX" acc c)
        (sym (clients_or-none acc c))
