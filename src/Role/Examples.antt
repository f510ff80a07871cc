-- ===== src/Role/Examples.antt =====
-- Concrete roles: tests, and the theorems at concrete inputs.
use thunder_fork.Prelude.{
  ℕ, String, ◌≡◌, ◌↔◌, Bool, true, false, Option, none, some, List, [], ◌∷◌, ◌==◌, contains, refl,
  if◌then◌else◌, ◌&&◌,
}
use thunder_fork.Prelude.Assoc.{lookup, insert}
use thunder_fork.Prelude.Result.{ok, err}
use thunder_fork.Role.{
  Role, user_type, group_type, RoleAssignment, RoleCreationDetail, RoleUpdateDetail, PermissionRow,
  AssignmentRow, Tables, has_assignment, updated_role,
}
use thunder_fork.Role.Service.{
  Services, Faults, there, create, update_role_with_permissions, delete, add, remove,
  get_authorized_permissions, role_name_conflict, role_not_found, cannot_delete_role,
  empty_assignments, invalid_request_format,
}
use thunder_fork.Role.Authorized.{Grants, authorized_iff}
use thunder_fork.Role.Read.{get_role_with_permissions, with_its_permissions}
use thunder_fork.Role.Read.Back.{get_role_with_permissions-update}
use thunder_fork.Role.Removed.{among, removed_exactly}
use thunder_fork.Role.Sound.Kept.{IsSound}
use thunder_fork.Role.Sound.Calls.{Call, creates, adds, removes, deletes, empty, run, run-IsSound}

abbrev no_faults : Faults
no_faults = record {
  exists_fails = false;
  name_fails = false;
  count_fails = false;
  read_fails = false;
  write_fails = false;
}

abbrev services : Services
services = record {
  get_organization_unit = λ id. there;
  validate_user_ids = λ ids. there;
  validate_group_ids = λ ids. there;
  order = λ permissions. permissions;
}

abbrev alice : RoleAssignment
alice = record { id = "alice"; type = user_type }

abbrev staff : RoleAssignment
staff = record { id = "staff"; type = group_type }

abbrev editor : RoleCreationDetail
editor = record {
  name = "editor";
  description = "";
  ou_id = "ou";
  permissions = "read" ∷ "write" ∷ [];
  assignments = alice ∷ staff ∷ [];
}

abbrev tables : Tables
tables = record {
  roles = ("1", record { id = "1"; name = "editor"; description = ""; ou_id = "ou" }) ∷ [];
  permissions =
      record { role_id = "1"; permission = "write" }
      ∷ record { role_id = "1"; permission = "read" }
      ∷ [];
  assignments =
      record { role_id = "1"; assignee = staff } ∷ record { role_id = "1"; assignee = alice } ∷ [];
}

created : create services no_faults "1" editor empty ≡ (tables, ok "1")
unfolding create thunder_fork.Role.Service.validate_create_role_request
    thunder_fork.Role.Service.valid_assignments thunder_fork.Role.Service.validate_assignment_ids
    thunder_fork.Role.Service.ids_of_type contains thunder_fork.Role.check_role_name_exists
    thunder_fork.Role.create_role lookup thunder_fork.Role.add_permissions_to_role
    thunder_fork.Role.add_assignments_to_role insert
created = refl

created_again : create services no_faults "2" editor tables ≡ (tables, err role_name_conflict)
unfolding create thunder_fork.Role.Service.validate_create_role_request
    thunder_fork.Role.Service.valid_assignments thunder_fork.Role.Service.validate_assignment_ids
    thunder_fork.Role.Service.ids_of_type contains thunder_fork.Role.check_role_name_exists
created_again = refl

-- A role that is assigned is not deleted; one that is missing counts as deleted.
not_deleted : delete services no_faults "1" tables ≡ (tables, err cannot_delete_role)
unfolding delete lookup
not_deleted = refl

missing_deleted : delete services no_faults "2" tables ≡ (tables, ok tt)
unfolding delete lookup
missing_deleted = refl

added_to_none : add services no_faults "2" (alice ∷ []) tables ≡ (tables, err role_not_found)
unfolding add thunder_fork.Role.Service.validate_assignments_request
    thunder_fork.Role.Service.valid_assignments lookup
added_to_none = refl

nothing_added : add services no_faults "1" [] tables ≡ (tables, err empty_assignments)
unfolding add thunder_fork.Role.Service.validate_assignments_request
nothing_added = refl

bad_type :
    add services no_faults "1" (record { id = "x"; type = "app" } ∷ []) tables
    ≡ (tables, err invalid_request_format)
unfolding add thunder_fork.Role.Service.validate_assignments_request
    thunder_fork.Role.Service.valid_assignments
bad_type = refl

abbrev staff_left : Tables
staff_left = record tables { assignments = record { role_id = "1"; assignee = staff } ∷ [] }

alice_removed : remove services no_faults "1" (alice ∷ []) tables ≡ (staff_left, ok tt)
unfolding remove thunder_fork.Role.Service.validate_assignments_request
    thunder_fork.Role.Service.valid_assignments lookup thunder_fork.Role.remove_assignments
alice_removed = refl

removed_exactly_example :
    (staff_left.roles ≡ tables.roles)
    × (staff_left.permissions ≡ tables.permissions)
    × ((role_id : String) (a : RoleAssignment)
        → has_assignment role_id a staff_left.assignments ≡ (
            if "1" == role_id && among a (alice ∷ [])
            then false
            else has_assignment role_id a tables.assignments))
removed_exactly_example =
    removed_exactly services no_faults "1" (alice ∷ []) tables staff_left alice_removed

read_only :
    get_authorized_permissions services no_faults "bob"
      ("staff" ∷ [])
      ("read" ∷ "admin" ∷ [])
      tables
    ≡ ok ("read" ∷ [])
unfolding get_authorized_permissions contains
read_only = refl

authorized_iff_example : (contains "admin" ("read" ∷ []) ≡ true) ↔ (
    (contains "admin" ("read" ∷ "admin" ∷ []) ≡ true) × Grants tables "bob" ("staff" ∷ []) "admin")
authorized_iff_example =
    authorized_iff services no_faults "bob" ("staff" ∷ []) ("read" ∷ "admin" ∷ []) tables
      ("read" ∷ []) "admin" (λ ps p. refl) read_only

abbrev calls : List Call
calls =
    creates no_faults "1" editor
    ∷ removes no_faults "1" (alice ∷ staff ∷ [])
    ∷ deletes no_faults "1"
    ∷ []

all_gone : run services calls empty ≡ empty
unfolding run thunder_fork.Role.Sound.Calls.perform delete lookup remove
    thunder_fork.Role.Service.validate_assignments_request
    thunder_fork.Role.Service.valid_assignments create
    thunder_fork.Role.Service.validate_create_role_request
    thunder_fork.Role.Service.validate_assignment_ids thunder_fork.Role.Service.ids_of_type contains
    thunder_fork.Role.check_role_name_exists thunder_fork.Role.create_role
    thunder_fork.Role.add_permissions_to_role thunder_fork.Role.add_assignments_to_role insert
    thunder_fork.Role.remove_assignments thunder_fork.Prelude.Assoc.without
    thunder_fork.Role.without_all thunder_fork.Role.without_assignment thunder_fork.Role.delete_role
    thunder_fork.Role.without_permissions thunder_fork.Role.without_assignments
all_gone = refl

run-IsSound_example : IsSound (run services calls empty)
run-IsSound_example = run-IsSound services calls

abbrev reader : RoleUpdateDetail
reader = record { name = "reader"; description = "d"; ou_id = "ou"; permissions = "read" ∷ [] }

abbrev updated : Tables
updated = record {
  roles = ("1", updated_role "1" reader) ∷ [];
  permissions = record { role_id = "1"; permission = "read" } ∷ [];
  assignments = tables.assignments;
}

editor_updated :
    update_role_with_permissions services no_faults "1" reader tables ≡ (updated, ok "1")
unfolding update_role_with_permissions thunder_fork.Role.Service.validate_update_role_request lookup
    thunder_fork.Role.check_role_name_exists_excluding_id thunder_fork.Role.update_role
    thunder_fork.Role.add_permissions_to_role thunder_fork.Role.without_permissions insert
editor_updated = refl

get_role_with_permissions-update_example :
    (permissions : List String) × (get_role_with_permissions services no_faults "1" updated
      ≡ ok (with_its_permissions (updated_role "1" reader) permissions))
    × ((p : String) → contains p permissions ≡ contains p ("read" ∷ []))
get_role_with_permissions-update_example =
    get_role_with_permissions-update services no_faults no_faults "1" "1" reader tables updated
      (λ ps p. refl) editor_updated refl
