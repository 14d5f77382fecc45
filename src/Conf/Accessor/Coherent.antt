-- ===== src/Conf/Accessor/Coherent.antt =====
-- conf.py: what the accessor keeps is what it would read anew, whatever happened before.
use django_mcp_sql.Prelude.{String, ◌≡◌, inl, inr, List, [], ◌∷◌, str_eq, Bool-cases}
use django_mcp_sql.Conf.Accessor.{
  Setting, Imports, initial, getattr, profiles, cloud_clients, Event, read, read_profiles,
  read_clients, setting_changed, Store, step, steps,
}
use django_mcp_sql.Conf.Accessor.Kept.{
  Coherent, initial-Coherent, getattr-fresh, getattr-Coherent, profiles_or-fresh,
  profiles_or-Coherent, clients_or-fresh, clients_or-Coherent,
}

-- The accessor of a store is coherent with its settings.
abbrev pub IsCoherent : {Object : Type 0} → Imports Object → Store Object → Type 0
IsCoherent env s = Coherent env s.user_cfg s.accessor

module _ {Object : Type 0} (env : Imports Object) where
  step-IsCoherent :
      (event : Event Object) (s : Store Object)
      → IsCoherent env s
      → IsCoherent env (step env event s)
  unfolding step
  step-IsCoherent (read name) s c = getattr-Coherent env s.user_cfg name s.accessor c
  step-IsCoherent read_profiles s c =
      unfold profiles in profiles_or-Coherent env s.user_cfg s.accessor s.accessor.cached_profiles c
  step-IsCoherent read_clients s c =
      unfold cloud_clients in
      clients_or-Coherent env s.user_cfg s.accessor s.accessor.cached_clients c
  step-IsCoherent (setting_changed setting user_cfg) s c =
      elim (Bool-cases (str_eq setting "MCP_SQL")) [
        | inl ours ↦ rw ours (initial-Coherent env user_cfg)
        | inr other ↦ rw other c
      ]

  steps-IsCoherent :
      (events : List (Event Object)) (s : Store Object)
      → IsCoherent env s
      → IsCoherent env (steps env events s)
  unfolding steps
  steps-IsCoherent [] s c = c
  steps-IsCoherent (event ∷ rest) s c =
      steps-IsCoherent rest (step env event s) (step-IsCoherent event s c)

-- Three reads give what an accessor that keeps nothing would give.
pub record ReadsAnew {Object : Type 0} (env : Imports Object) (s : Store Object) : Type 0 where
  pub by_name :
      (name : String)
      → (getattr env s.user_cfg name s.accessor).0 ≡ (getattr env s.user_cfg name initial).0
  pub all_profiles : (profiles env s.user_cfg s.accessor).0 ≡ (profiles env s.user_cfg initial).0
  pub all_clients :
      (cloud_clients env s.user_cfg s.accessor).0 ≡ (cloud_clients env s.user_cfg initial).0

-- After any sequence of reads and of announced changes of the settings, from an accessor that keeps
-- nothing, a read of a setting by any name, of the profiles and of the cloud clients gives what it would
-- give without a cache, from the settings as they are now, an exception included; where the import of a
-- dotted path always gives the same.
pub steps-ReadsAnew :
    {Object : Type 0} (env : Imports Object) (user_cfg : List (String × Setting Object))
    (events : List (Event Object))
    → ReadsAnew env (steps env events (record { user_cfg = user_cfg; accessor = initial }))
steps-ReadsAnew env user_cfg events =
    let s = steps env events (record { user_cfg = user_cfg; accessor = initial }) in
    let c =
      steps-IsCoherent env events (record { user_cfg = user_cfg; accessor = initial })
        (initial-Coherent env user_cfg) in
    record {
      by_name = λ name. getattr-fresh env s.user_cfg name s.accessor c;
      all_profiles =
          unfold profiles in
          profiles_or-fresh env s.user_cfg s.accessor s.accessor.cached_profiles c.profiles_kept;
      all_clients =
          unfold cloud_clients in
          clients_or-fresh env s.user_cfg s.accessor s.accessor.cached_clients c c.clients_kept;
    }
