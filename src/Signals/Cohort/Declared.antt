-- ===== src/Signals/Cohort/Declared.antt =====
-- signals.py: `{p.group_name: p.name for p in ...}`, of which the last profile of a group stands.
use django_mcp_sql.Prelude.{
  String, ◌≡◌, refl, sym, ap, ◌∙◌, ◌↔◌, ◌⊎◌, inl, inr, Bool, true, false, some, List, [], ◌∷◌, Any,
  here, there, str_eq, eq_iff, Bool-cases,
}
use django_mcp_sql.Models.{Profile}
use django_mcp_sql.Dict.{get, put, get-put-same, get-put-other}
use django_mcp_sql.Signals.Cohort.{name_to_profile}

-- The last profile with this group has this name.
pub data Declares (group name : String) : List Profile → Type 0 where
  last :
      {p : Profile} {rest : List Profile}
      → p.group_name ≡ group
      → p.name ≡ name
      → ¬ Any (λ (q : Profile). q.group_name ≡ group) rest
      → Declares group name (p ∷ rest)
  later :
      {p : Profile} {rest : List Profile}
      → Declares group name rest
      → Declares group name (p ∷ rest)

pub clash : {b : Bool} → b ≡ true → b ≡ false → ⊥
clash hit miss = cc

module _ (group name : String) where
  get-absent :
      (built : List (String × String)) (ps : List Profile)
      → ¬ Any (λ (q : Profile). q.group_name ≡ group) ps
      → get (name_to_profile built ps) group ≡ get built group
  unfolding name_to_profile
  get-absent built [] absent = refl
  get-absent built (p ∷ rest) absent =
      get-absent (put p.group_name p.name built) rest (λ m. absent (there m))
      ∙ elim (Bool-cases (str_eq p.group_name group)) [
        | inl same ↦ elim (absent (here ((eq_iff p.group_name group).0 same))) [ ]
        | inr other ↦ get-put-other p.group_name p.name built group other
      ]

  get-Declares :
      (built : List (String × String)) {ps : List Profile}
      → Declares group name ps
      → get (name_to_profile built ps) group ≡ some name
  unfolding name_to_profile
  get-Declares built (last {p} {rest} pg pn absent) =
      get-absent (put p.group_name p.name built) rest absent
      ∙ rw (pg, pn) (get-put-same group name built)
  get-Declares built (later {p} d) = get-Declares (put p.group_name p.name built) d

  put-found :
      (p : Profile) (built : List (String × String))
      → get (put p.group_name p.name built) group ≡ some name
      → ((p.group_name ≡ group) × (p.name ≡ name))
        ⊎ ((str_eq p.group_name group ≡ false) × (get built group ≡ some name))
  put-found p built e = elim (Bool-cases (str_eq p.group_name group)) [
    | inl same ↦
        let pg : p.group_name ≡ group = (eq_iff p.group_name group).0 same in
        inl (
          pg,
          inj (
              sym (get-put-same p.group_name p.name built)
              ∙ (ap (λ k. get (put p.group_name p.name built) k) pg ∙ e)),
        )
    | inr other ↦ inr (other, sym (get-put-other p.group_name p.name built group other) ∙ e)
  ]
    where
      inj : {a b : String} → some a ≡ some b → a ≡ b
      inj h = cc

  Declares-get :
      (built : List (String × String)) (ps : List Profile)
      → get (name_to_profile built ps) group ≡ some name
      → Declares group name ps
        ⊎ ((¬ Any (λ (q : Profile). q.group_name ≡ group) ps) × (get built group ≡ some name))
  unfolding name_to_profile
  Declares-get built [] e = inr (λ m. elim m [ ], e)
  Declares-get built (p ∷ rest) e = elim (Declares-get (put p.group_name p.name built) rest e) [
    | inl d ↦ inl (later d)
    | inr (absent, found) ↦ elim (put-found p built found) [
      | inl (pg, pn) ↦ inl (last pg pn absent)
      | inr (other, old) ↦ inr (still other absent, old)
    ]
  ]
    where
      still :
          {p : Profile} {rest : List Profile}
          → str_eq p.group_name group ≡ false
          → ¬ Any (λ (q : Profile). q.group_name ≡ group) rest
          → ¬ Any (λ (q : Profile). q.group_name ≡ group) (p ∷ rest)
      still other absent (here q) = clash ((eq_iff _ group).1 q) other
      still other absent (there m) = absent m

  pub name_to_profile_iff :
      (ps : List Profile) → (get (name_to_profile [] ps) group ≡ some name) ↔ Declares group name ps
  unfolding get
  name_to_profile_iff ps = (sound, get-Declares [])
    where
      empty : get {V = String} [] group ≡ some name → ⊥
      empty h = cc

      sound : get (name_to_profile [] ps) group ≡ some name → Declares group name ps
      sound e = elim (Declares-get [] ps e) [
        | inl d ↦ d
        | inr (absent, found) ↦ elim (empty found) [ ]
      ]
