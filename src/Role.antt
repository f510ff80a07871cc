-- ===== src/Role.antt =====
-- Roles, backend/internal/role: the data of model.go, and the store of store.go with the queries of
-- storeconstants.go over the rows of its three tables.
--
-- Each writing call is one transaction: with a fault of the database, which a flag stands for, or a row
-- that a unique constraint forbids nothing is written. The deletion of a role deletes the rows that
-- refer to it, as the schema says for a connection that enforces foreign keys. The other constraints of
-- the schema, on the names of roles and on rows of a missing role, are left out: the service tests for
-- them first.
pub mod Service
pub mod Authorized
pub mod Removed
pub mod Sound
pub mod Read
pub mod Examples
use thunder_fork.Prelude.{
  ℕ, String, Bool, true, false, not, Option, none, some, List, [], ◌∷◌, ◌||◌, ◌&&◌, ◌==◌, contains,
  if◌then◌else◌,
}
use thunder_fork.Prelude.Assoc.{Assoc, lookup, insert, without, has}
use thunder_fork.Prelude.Result.{Result, ok, err}

pub record Role : Type 0 where
  pub id : String
  pub name : String
  pub description : String
  pub ou_id : String

-- `AssigneeTypeUser` and `AssigneeTypeGroup`
abbrev pub user_type : String
user_type = "user"

abbrev pub group_type : String
group_type = "group"

pub record RoleAssignment : Type 0 where
  pub id : String
  pub type : String

pub record RoleCreationDetail : Type 0 where
  pub name : String
  pub description : String
  pub ou_id : String
  pub permissions : List String
  pub assignments : List RoleAssignment

pub record RoleUpdateDetail : Type 0 where
  pub name : String
  pub description : String
  pub ou_id : String
  pub permissions : List String

-- The rows of ROLE_PERMISSION and of ROLE_ASSIGNMENT.
pub record PermissionRow : Type 0 where
  pub role_id : String
  pub permission : String

pub record AssignmentRow : Type 0 where
  pub role_id : String
  pub assignee : RoleAssignment

pub record Tables : Type 0 where
  pub roles : Assoc Role
  pub permissions : List PermissionRow
  pub assignments : List AssignmentRow

abbrev pub same_assignee : RoleAssignment → RoleAssignment → Bool
same_assignee a b = a.type == b.type && a.id == b.id

unfoldable pub has_permission : String → String → List PermissionRow → Bool
has_permission id permission [] = false
has_permission id permission (row ∷ rows) =
    row.role_id == id && row.permission == permission || has_permission id permission rows

unfoldable pub has_assignment : String → RoleAssignment → List AssignmentRow → Bool
has_assignment id assignee [] = false
has_assignment id assignee (row ∷ rows) =
    row.role_id == id && same_assignee row.assignee assignee || has_assignment id assignee rows

-- The rows after the insertions, or none if one of them is there already.
unfoldable pub add_permissions_to_role :
    String → List String → List PermissionRow → Option (List PermissionRow)
unfolding has_permission
add_permissions_to_role id [] rows = some rows
add_permissions_to_role id (permission ∷ permissions) rows =
    let rest =
      add_permissions_to_role id permissions
        (record { role_id = id; permission = permission } ∷ rows) in
    if has_permission id permission rows then none else rest

unfoldable pub add_assignments_to_role :
    String → List RoleAssignment → List AssignmentRow → Option (List AssignmentRow)
unfolding has_assignment
add_assignments_to_role id [] rows = some rows
add_assignments_to_role id (assignee ∷ assignees) rows =
    let rest =
      add_assignments_to_role id assignees (record { role_id = id; assignee = assignee } ∷ rows) in
    if has_assignment id assignee rows then none else rest

unfoldable pub without_permissions : String → List PermissionRow → List PermissionRow
without_permissions id [] = []
without_permissions id (row ∷ rows) =
    let rest = without_permissions id rows in if row.role_id == id then rest else row ∷ rest

unfoldable pub without_assignments : String → List AssignmentRow → List AssignmentRow
without_assignments id [] = []
without_assignments id (row ∷ rows) =
    let rest = without_assignments id rows in if row.role_id == id then rest else row ∷ rest

unfoldable pub without_assignment :
    String → RoleAssignment → List AssignmentRow → List AssignmentRow
without_assignment id assignee [] = []
without_assignment id assignee (row ∷ rows) =
    let rest = without_assignment id assignee rows in
    if row.role_id == id && same_assignee row.assignee assignee then rest else row ∷ rest

-- The tables after a call, and whether it succeeded.
abbrev pub commit : Tables → Option Tables → Tables × Bool
commit tables none = (tables, false)
commit tables (some written) = (written, true)

-- The third step of the creation.
abbrev pub with_assignments : Tables → Option (List AssignmentRow) → Option Tables
with_assignments tables none = none
with_assignments tables (some rows) = some (record tables { assignments = rows })

abbrev pub with_permissions : Tables → Option (List PermissionRow) → Option Tables
with_permissions tables none = none
with_permissions tables (some rows) = some (record tables { permissions = rows })

abbrev pub then_assignments : String → List RoleAssignment → Option Tables → Option Tables
then_assignments id assignees none = none
then_assignments id assignees (some tables) =
    with_assignments tables (add_assignments_to_role id assignees tables.assignments)

abbrev pub role_of : String → RoleCreationDetail → Role
role_of id detail = record {
  id = id;
  name = detail.name;
  description = detail.description;
  ou_id = detail.ou_id;
}

unfoldable pub create_role : Bool → String → RoleCreationDetail → Tables → Tables × Bool
create_role fails id detail tables =
    if fails || has id tables.roles
    then (tables, false)
    else commit tables (
        then_assignments id detail.assignments (
          with_permissions (record tables { roles = insert id (role_of id detail) tables.roles })
            (add_permissions_to_role id detail.permissions tables.permissions)))

abbrev pub updated_role : String → RoleUpdateDetail → Role
updated_role id detail = record {
  id = id;
  name = detail.name;
  description = detail.description;
  ou_id = detail.ou_id;
}

unfoldable pub update_role : Bool → String → RoleUpdateDetail → Tables → Tables × Bool
update_role fails id detail tables =
    if fails || not (has id tables.roles)
    then (tables, false)
    else commit tables (
        with_permissions (record tables { roles = insert id (updated_role id detail) tables.roles })
          (add_permissions_to_role id detail.permissions
            (without_permissions id tables.permissions)))

unfoldable pub delete_role : Bool → String → Tables → Tables × Bool
delete_role fails id tables = if fails then (tables, false) else (
  record {
    roles = without id tables.roles;
    permissions = without_permissions id tables.permissions;
    assignments = without_assignments id tables.assignments;
  },
  true,
)

unfoldable pub add_assignments : Bool → String → List RoleAssignment → Tables → Tables × Bool
add_assignments fails id assignees tables =
    if fails
    then (tables, false)
    else commit tables
        (with_assignments tables (add_assignments_to_role id assignees tables.assignments))

-- The loop of the deletions.
unfoldable pub without_all : String → List RoleAssignment → List AssignmentRow → List AssignmentRow
unfolding without_assignment
without_all id [] rows = rows
without_all id (assignee ∷ assignees) rows =
    without_all id assignees (without_assignment id assignee rows)

unfoldable pub remove_assignments : Bool → String → List RoleAssignment → Tables → Tables × Bool
unfolding without_all
remove_assignments fails id assignees tables =
    if fails
    then (tables, false)
    else (record tables { assignments = without_all id assignees tables.assignments }, true)

-- `CheckRoleNameExists`, and the same but for one id.
unfoldable pub check_role_name_exists : String → String → Assoc Role → Bool
check_role_name_exists ou_id name [] = false
check_role_name_exists ou_id name ((id, role) ∷ roles) =
    role.ou_id == ou_id && role.name == name || check_role_name_exists ou_id name roles

unfoldable pub check_role_name_exists_excluding_id : String → String → String → Assoc Role → Bool
check_role_name_exists_excluding_id ou_id name excluded [] = false
check_role_name_exists_excluding_id ou_id name excluded ((id, role) ∷ roles) =
    role.ou_id == ou_id && role.name == name && not (role.id == excluded)
    || check_role_name_exists_excluding_id ou_id name excluded roles

-- `buildAuthorizedPermissionsQuery`: the condition on an assignment,
abbrev pub is_assigned : String → List String → RoleAssignment → Bool
is_assigned user_id groups assignee =
    not (user_id == "") && assignee.type == user_type && assignee.id == user_id
    || assignee.type == group_type && contains assignee.id groups

-- the join over the role,
unfoldable pub any_assigned : String → List String → String → List AssignmentRow → Bool
any_assigned user_id groups role_id [] = false
any_assigned user_id groups role_id (row ∷ rows) =
    row.role_id == role_id && is_assigned user_id groups row.assignee
    || any_assigned user_id groups role_id rows

-- and the permissions that are selected, each once.
unfoldable pub select_permissions :
    String → List String → List String → List AssignmentRow → List PermissionRow → List String
unfolding any_assigned
select_permissions user_id groups requested assignments [] = []
select_permissions user_id groups requested assignments (row ∷ rows) =
    let rest = select_permissions user_id groups requested assignments rows in
    if any_assigned user_id groups row.role_id assignments
      && contains row.permission requested
      && not (contains row.permission rest)
    then row.permission ∷ rest
    else rest
