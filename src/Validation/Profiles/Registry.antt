-- ===== src/Validation/Profiles/Registry.antt =====
-- validation.py: the values of one field, which no two profiles may share.
use django_mcp_sql.Prelude.{
  String, ◌≡◌, refl, ◌↔◌, inl, inr, false, Option, none, some, List, [], ◌∷◌, All, map, contains,
  is_empty, str_eq, format, if◌then◌else◌, Bool-cases,
}
use django_mcp_sql.Raise.{improperly_configured, Try, returned, raised, ◌>>◌, raise_if}

-- `registry.get(value)`
unfoldable pub seen_by : String → List (String × String) → Option String
seen_by value [] = none
seen_by value ((k, name) ∷ rest) =
    let later = seen_by value rest in if str_eq value k then some name else later

-- `if value in registry: ...; registry[value] = name`, for what the registry has for the value.
unfoldable pub register :
    String → String → String → List (String × String) → Option String → Try (List (String × String))
register name field value registry none = returned ((value, name) ∷ registry)
register name field value registry (some other) = raised (
    improperly_configured (
      format (
        "MCP_SQL.PROFILES['" ∷ name ∷ "']." ∷ field ∷ " '" ∷ value ∷ "' is also used by profile '"
        ∷ other ∷ "'; " ∷ field ∷ " must be unique across profiles" ∷ [])))

-- One round of the loop over the fields.
unfoldable pub check_field :
    String → String → String → List (String × String) → Try (List (String × String))
unfolding register seen_by
check_field name field value registry =
    raise_if (is_empty value) (
      improperly_configured
        (format ("MCP_SQL.PROFILES['" ∷ name ∷ "']." ∷ field ∷ " must be a non-empty string" ∷ [])))
    >> register name field value registry (seen_by value registry)

-- The value is not empty, and new.
abbrev pub IsNew : String → List (String × String) → Type 0
IsNew value registry = (is_empty value ≡ false) × (seen_by value registry ≡ none)

register-returned :
    (name field value : String) (registry : List (String × String)) (found : Option String)
    {now : List (String × String)}
    → (register name field value registry found ≡ returned now)
      ↔ ((found ≡ none) × (now ≡ (value, name) ∷ registry))
unfolding register
register-returned name field value registry none = (λ h. (refl, cc), λ h. cc)
register-returned name field value registry (some other) = (λ h. cc, λ h. cc)

pub check_field-returned :
    (name field value : String) (registry : List (String × String)) {now : List (String × String)}
    → (check_field name field value registry ≡ returned now)
      ↔ (IsNew value registry × (now ≡ (value, name) ∷ registry))
unfolding check_field
check_field-returned name field value registry = elim (Bool-cases (is_empty value)) [
  | inl empty ↦ (λ h. cc (rw empty at h), λ h. cc)
  | inr full ↦
      let (f, g) = register-returned name field value registry (seen_by value registry) in
      (
        λ h. let (new, same) = f (rw full at h) in ((full, new), same),
        λ h. rw full (g (h.0.1, h.1)),
      )
]

-- No value occurs twice.
abbrev pub Distinct : List String → Type 0
Distinct [] = Unit {0}
Distinct (x ∷ xs) = (contains xs x ≡ false) × Distinct xs

-- The values are new one after the other, each entered before the next is looked up.
abbrev pub DistinctFrom : List (String × String) → List (String × String) → Type 0
DistinctFrom registry [] = Unit {0}
DistinctFrom registry ((value, name) ∷ rest) =
    IsNew value registry × DistinctFrom ((value, name) ∷ registry) rest

abbrev pub values : List (String × String) → List String
values l = map (λ (p : String × String). p.0) l

abbrev pub AllNew : List (String × String) → List (String × String) → Type 0
AllNew registry l = All (λ (p : String × String). IsNew p.0 registry) l
