-- ===== src/Validation/Profiles/Accepted.antt =====
-- validation.py: which profiles are accepted.
use django_mcp_sql.Prelude.{
  String, ◌≡◌, refl, ◌↔◌, ◌≢◌, inl, inr, true, false, Option, none, some, List, [], ◌∷◌, contains,
  is_empty, Bool-cases, All,
}
use django_mcp_sql.Raise.{
  import_error, raise_unless_iff, Try, returned, raised, raise_if_iff, for_each_iff, seq_iff,
  >>=-eq-returned,
}
use django_mcp_sql.Validation.Settings.{ProfileEntry, is_model_ref, is_pg_identifier}
use django_mcp_sql.Validation.Profiles.Registry.{
  check_field, check_field-returned, IsNew, DistinctFrom,
}
use django_mcp_sql.Validation.Profiles.Unique.{column, IsKey, DistinctFrom-IsKey}
use django_mcp_sql.Validation.Profiles.{
  reserved_codenames, check_model_ref, Seen, extended, check_fields, imported,
  check_session_context, validate_profile_entry, profiles_loop, validate_profiles,
}

check_fields-returned :
    (name : String) (entry : ProfileEntry) (seen : Seen) {now : Seen}
    → (check_fields name entry seen ≡ returned now) ↔ (
        IsNew entry.role seen.roles
        × IsNew entry.permission_codename seen.codenames
        × IsNew entry.group_name seen.groups
        × (now ≡ extended name entry seen))
unfolding check_fields
check_fields-returned name entry seen = (
  λ h.
      let (roles, e1, h1) = >>=-eq-returned (check_field name "ROLE" entry.role seen.roles) _ h in
      let (codenames, e2, h2) =
        >>=-eq-returned
          (check_field name "PERMISSION_CODENAME" entry.permission_codename seen.codenames) _ h1 in
      let (groups, e3, h3) =
        >>=-eq-returned (check_field name "GROUP_NAME" entry.group_name seen.groups) _ h2 in
      let (new1, same1) = (check_field-returned name "ROLE" entry.role seen.roles).0 e1 in
      let (new2, same2) =
        (check_field-returned name "PERMISSION_CODENAME" entry.permission_codename seen.codenames).0
          e2 in
      let (new3, same3) =
        (check_field-returned name "GROUP_NAME" entry.group_name seen.groups).0 e3 in
      (new1, new2, new3, cc),
  λ h.
      let (new1, new2, new3, same) = h in
      rw
        (
          same,
          (check_field-returned name "ROLE" entry.role seen.roles).1 (new1, refl),
          (check_field-returned name "PERMISSION_CODENAME" entry.permission_codename
                seen.codenames).1
              (new2, refl),
          (check_field-returned name "GROUP_NAME" entry.group_name seen.groups).1 (new3, refl),
        )
        refl,
)

module _ (import_string : String → Try (Unit {0})) where
  -- A path to a hook, where there is one, can be imported.
  abbrev pub Imports : Option String → Type 0
  Imports none = Unit
  Imports (some path) = is_empty path ≡ false → import_string path ≡ returned tt

  imported_iff :
      (name path : String) (r : Try (Unit {0}))
      → (imported name path r ≡ returned tt) ↔ (r ≡ returned tt)
  unfolding imported
  imported_iff name path (returned u) = (λ h. refl, λ h. refl)
  imported_iff name path (raised (import_error m)) = (λ h. cc, λ h. cc)
  imported_iff name path (raised e) = (λ h. cc, λ h. cc)

  check_session_context_iff :
      (name : String) (path : Option String)
      → (check_session_context import_string name path ≡ returned tt) ↔ Imports path
  unfolding check_session_context
  check_session_context_iff name none = (λ h. tt, λ h. refl)
  check_session_context_iff name (some path) =
      let (f, g) = imported_iff name path (import_string path) in
      elim (Bool-cases (is_empty path)) [
        | inl empty ↦ rw empty (λ h full. cc, λ h. refl)
        | inr full ↦ (λ h p. f (rw full at h), λ h. rw full (g (h full)))
      ]

  -- What one profile must be.
  abbrev pub IsSound : String × ProfileEntry → Type 0
  IsSound (name, entry) =
      (is_pg_identifier entry.role ≡ true)
      × ((contains reserved_codenames entry.permission_codename ≡ false)
          × (Imports entry.session_context
              × All (λ model_entry. is_model_ref model_entry ≡ true) entry.allowed_models))

  validate_profile_entry_iff :
      (name : String) (entry : ProfileEntry)
      → (validate_profile_entry import_string name entry ≡ returned tt) ↔ IsSound (name, entry)
  unfolding validate_profile_entry check_model_ref
  validate_profile_entry_iff name entry =
      seq_iff _ _ (raise_unless_iff (is_pg_identifier entry.role) _) (
        seq_iff _ _ (raise_if_iff (contains reserved_codenames entry.permission_codename) _) (
          seq_iff _ _ (check_session_context_iff name entry.session_context) (
            for_each_iff (check_model_ref name) (λ m. raise_unless_iff (is_model_ref m) _)
              entry.allowed_models)))

  abbrev Passes : Seen → List (String × ProfileEntry) → Type 0
  Passes seen ps =
      All IsSound ps
      × DistinctFrom seen.roles (column (λ entry. entry.role) ps)
      × DistinctFrom seen.codenames (column (λ entry. entry.permission_codename) ps)
      × DistinctFrom seen.groups (column (λ entry. entry.group_name) ps)

  profiles_loop_iff :
      (seen : Seen) (ps : List (String × ProfileEntry))
      → (profiles_loop import_string seen ps ≡ returned tt) ↔ Passes seen ps
  unfolding profiles_loop
  profiles_loop_iff seen [] = (λ h. (tt, tt, tt, tt), λ h. refl)
  profiles_loop_iff seen ((name, entry) ∷ rest) =
      let (f', g') =
        seq_iff (validate_profile_entry import_string name entry)
          (profiles_loop import_string (extended name entry seen) rest)
          (validate_profile_entry_iff name entry)
          (profiles_loop_iff (extended name entry seen) rest) in
      (
        λ h.
            let (now, e, k) = >>=-eq-returned (check_fields name entry seen) _ h in
            let (new1, new2, new3, same) = (check_fields-returned name entry seen).0 e in
            let (sound, (others, roles, codenames, groups)) = f' (rw same at k) in
            ((sound, others), (new1, roles), (new2, codenames), (new3, groups)),
        λ h.
            let ((sound, others), (new1, roles), (new2, codenames), (new3, groups)) = h in
            rw ((check_fields-returned name entry seen).1 (new1, new2, new3, refl))
              (g' (sound, (others, roles, codenames, groups))),
      )

  -- There is a profile; each is sound; and each of the three fields is filled, with no value twice.
  pub record AreProfiles (ps : List (String × ProfileEntry)) : Type 0 where
    pub some_profile : ps ≢ []
    pub sound : All IsSound ps
    pub roles : IsKey (λ entry. entry.role) ps
    pub codenames : IsKey (λ entry. entry.permission_codename) ps
    pub groups : IsKey (λ entry. entry.group_name) ps

  pub validate_profiles_iff :
      (ps : List (String × ProfileEntry))
      → (validate_profiles import_string ps ≡ returned tt) ↔ AreProfiles ps
  unfolding validate_profiles
  validate_profiles_iff [] = (λ h. cc, λ h. absurd (h.some_profile refl))
  validate_profiles_iff (p ∷ rest) =
      let ps : List (String × ProfileEntry) = p ∷ rest in
      let (f, g) = profiles_loop_iff (record { roles = []; codenames = []; groups = [] }) ps in
      let (f1, g1) = DistinctFrom-IsKey (λ entry. entry.role) ps in
      let (f2, g2) = DistinctFrom-IsKey (λ entry. entry.permission_codename) ps in
      let (f3, g3) = DistinctFrom-IsKey (λ entry. entry.group_name) ps in
      (
        λ h.
            let (sound, roles, codenames, groups) = f h in
            record {
              some_profile = λ e. cc;
              sound = sound;
              roles = f1 roles;
              codenames = f2 codenames;
              groups = f3 groups;
            },
        λ h. g (h.sound, g1 h.roles, g2 h.codenames, g3 h.groups),
      )
