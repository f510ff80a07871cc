-- ===== src/Role/Read.antt =====
-- One role that is read with its permissions, GetRole of backend/internal/role/store.go and
-- GetRoleWithPermissions of service.go.
pub mod Back
use thunder_fork.Prelude.{
  String, Bool, true, false, not, Option, none, some, List, [], ◌∷◌, ◌==◌, if◌then◌else◌,
}
use thunder_fork.Prelude.Assoc.{lookup}
use thunder_fork.Prelude.Result.{Result, ok, err, ◌>>=◌, ◌>>◌, guard}
use thunder_fork.Role.{Role, PermissionRow, Tables}
use thunder_fork.Role.Service.{
  RoleError, Services, Faults, missing_role_id, role_not_found, internal_error,
}

pub record RoleWithPermissions : Type 0 where
  pub id : String
  pub name : String
  pub description : String
  pub ou_id : String
  pub permissions : List String

unfoldable pub get_role_permissions : String → List PermissionRow → List String
get_role_permissions id [] = []
get_role_permissions id (row ∷ rows) =
    let rest = get_role_permissions id rows in
    if row.role_id == id then row.permission ∷ rest else rest

abbrev pub with_its_permissions : Role → List String → RoleWithPermissions
with_its_permissions role permissions = record {
  id = role.id;
  name = role.name;
  description = role.description;
  ou_id = role.ou_id;
  permissions = permissions;
}

abbrev pub found_role : Option Role → List String → Result RoleError RoleWithPermissions
found_role none permissions = err role_not_found
found_role (some role) permissions = ok (with_its_permissions role permissions)

unfoldable pub get_role : Services → Faults → String → Tables → Result RoleError RoleWithPermissions
unfolding get_role_permissions
get_role services faults id tables =
    if faults.read_fails
    then err internal_error
    else found_role (lookup id tables.roles)
        (services.order (get_role_permissions id tables.permissions))

unfoldable pub get_role_with_permissions :
    Services → Faults → String → Tables → Result RoleError RoleWithPermissions
get_role_with_permissions services faults id tables =
    guard (not (id == "")) missing_role_id >> get_role services faults id tables
