-- ===== src/Signals/Profiles.antt =====
-- signals.py: the permissions and groups of the profiles, provisioned behind `migrate`.
pub mod Provisioned
pub mod Idempotent
use django_mcp_sql.Prelude.{
  String, Bool, true, false, ◌||◌, Option, none, some, List, [], ◌∷◌, ◌++◌, contains, is_empty,
  str_eq, format, if◌then◌else◌,
}
use django_mcp_sql.Models.{Profile}

-- A row of `Permission` on the content type of `MCPQueryLog`.
pub record Permission : Type 0 where
  pub codename : String
  pub label : String

-- A row of `Group`, with the codenames of its permissions on that content type.
pub record Group : Type 0 where
  pub name : String
  pub permissions : List String

pub record Directory : Type 0 where
  pub permissions : List Permission
  pub groups : List Group

-- The guards in front of the receivers of `post_migrate`: the label of the sender, and `using`.
unfoldable pub is_own_sender : Option String → Bool
is_own_sender none = false
is_own_sender (some label) = str_eq label "mcp_sql"

unfoldable pub is_default_alias : Option String → Bool
is_default_alias none = true
is_default_alias (some using) = if is_empty using then true else str_eq using "default"

unfoldable pub has_permission : String → List Permission → Bool
has_permission codename [] = false
has_permission codename (p ∷ rest) = str_eq p.codename codename || has_permission codename rest

-- `Permission.objects.get_or_create(codename=..., defaults=...)`
unfoldable pub ensure_permission : Profile → List Permission → List Permission
unfolding has_permission
ensure_permission profile permissions =
    if has_permission profile.codename permissions
    then permissions
    else permissions
      ++ record {
        codename = profile.codename;
        label = format ("Can use the MCP read-only SQL session (" ∷ profile.name ∷ ")" ∷ []);
      }
        ∷ []

unfoldable pub has_group : String → List Group → Bool
has_group name [] = false
has_group name (g ∷ rest) = str_eq g.name name || has_group name rest

-- `Group.objects.get_or_create(name=...)`
unfoldable pub ensure_group : String → List Group → List Group
unfolding has_group
ensure_group name groups =
    if has_group name groups
    then groups
    else groups ++ record { name = name; permissions = [] } ∷ []

unfoldable pub with_permission : String → List String → List String
with_permission codename permissions =
    if contains permissions codename then permissions else permissions ++ codename ∷ []

-- `group.permissions.add(perm)`, of the group with the name.
unfoldable pub add_permission : String → String → List Group → List Group
unfolding with_permission
add_permission name codename [] = []
add_permission name codename (g ∷ rest) =
    let later = add_permission name codename rest in
    if str_eq g.name name
    then record g { permissions = with_permission codename g.permissions } ∷ rest
    else g ∷ later

-- One round of the loop.
unfoldable pub provision_profile : Profile → Directory → Directory
unfolding ensure_permission ensure_group add_permission
provision_profile profile d = record {
  permissions = ensure_permission profile d.permissions;
  groups =
      add_permission profile.group_name profile.codename (ensure_group profile.group_name d.groups);
}

unfoldable pub provision_all : List Profile → Directory → Directory
unfolding provision_profile
provision_all [] d = d
provision_all (p ∷ rest) d = provision_all rest (provision_profile p d)

unfoldable pub provision_mcp_profiles :
    List Profile → Option String → Option String → Directory → Directory
unfolding is_own_sender is_default_alias provision_all
provision_mcp_profiles profiles sender using d =
    if is_own_sender sender
    then (if is_default_alias using then provision_all profiles d else d)
    else d
