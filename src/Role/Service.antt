-- ===== src/Role/Service.antt =====
-- The service of roles, backend/internal/role/service.go.
--
-- The services of organization units, users and groups are parameters, and so is the order in which
-- the database lists permissions. A flag stands for a fault of the database. The lists with their
-- pages and the names that they show are left out.
use thunder_fork.Prelude.{
  String, Bool, true, false, not, List, [], ◌∷◌, ◌||◌, ◌&&◌, ◌==◌, contains, is_empty,
  if◌then◌else◌,
}
use thunder_fork.Prelude.Assoc.{has}
use thunder_fork.Prelude.Result.{Result, ok, err, ◌>>=◌, ◌>>◌, guard}
use thunder_fork.Role.{
  user_type, group_type, RoleAssignment, RoleCreationDetail, RoleUpdateDetail, AssignmentRow,
  Tables, create_role, update_role, delete_role, add_assignments, remove_assignments,
  check_role_name_exists, check_role_name_exists_excluding_id, select_permissions,
}

pub data RoleError : Type 0 where
  invalid_request_format missing_role_id role_not_found role_name_conflict : RoleError
  organization_unit_not_found cannot_delete_role invalid_assignment_id : RoleError
  empty_assignments missing_user_or_groups internal_error : RoleError

-- What another service answers: that all is there, that something is not, or a fault.
pub data Answer : Type 0 where
  there absent failing : Answer

-- The organization unit of an id, users by their ids, groups by their ids.
pub record Services : Type 0 where
  pub get_organization_unit : String → Answer
  pub validate_user_ids : List String → Answer
  pub validate_group_ids : List String → Answer
  pub order : List String → List String

-- The faults of the database, of each kind of statement.
pub record Faults : Type 0 where
  pub exists_fails : Bool
  pub name_fails : Bool
  pub count_fails : Bool
  pub read_fails : Bool
  pub write_fails : Bool

-- `utils.UniqueStrings`, from what was seen already.
unfoldable pub unique_from : List String → List String → List String
unique_from seen [] = []
unique_from seen (s ∷ ss) =
    let kept = s ∷ unique_from (s ∷ seen) ss in
    let rest = unique_from seen ss in if contains s seen then rest else kept

unfoldable pub unique_strings : List String → List String
unfolding unique_from
unique_strings ss = unique_from [] ss

unfoldable pub ids_of_type : String → List RoleAssignment → List String
ids_of_type type [] = []
ids_of_type type (a ∷ assignments) =
    let rest = ids_of_type type assignments in if a.type == type then a.id ∷ rest else rest

unfoldable pub valid_assignments : List RoleAssignment → Bool
valid_assignments [] = true
valid_assignments (a ∷ assignments) =
    (a.type == user_type || a.type == group_type)
    && not (a.id == "")
    && valid_assignments assignments

unfoldable pub validate_assignments_request : List RoleAssignment → Result RoleError (Unit {0})
validate_assignments_request assignments =
    guard (not (is_empty assignments)) empty_assignments
    >> guard (valid_assignments assignments) invalid_request_format

unfoldable pub validate_create_role_request : RoleCreationDetail → Result RoleError (Unit {0})
unfolding validate_assignments_request
validate_create_role_request detail =
    guard (not (detail.name == "")) invalid_request_format
    >> guard (not (detail.ou_id == "")) invalid_request_format
    >> (if is_empty detail.assignments
        then ok tt
        else validate_assignments_request detail.assignments)

unfoldable pub validate_update_role_request : RoleUpdateDetail → Result RoleError (Unit {0})
validate_update_role_request detail =
    guard (not (detail.name == "")) invalid_request_format
    >> guard (not (detail.ou_id == "")) invalid_request_format

-- The error for an answer that something is not there.
abbrev pub unless_there : RoleError → Answer → Result RoleError (Unit {0})
unless_there e there = ok tt
unless_there e absent = err e
unless_there e failing = err internal_error

-- No service is asked about no ids.
abbrev pub validate_ids : (List String → Answer) → List String → Result RoleError (Unit {0})
validate_ids validate [] = ok tt
validate_ids validate (id ∷ ids) = unless_there invalid_assignment_id (validate (id ∷ ids))

unfoldable pub validate_assignment_ids :
    Services → List RoleAssignment → Result RoleError (Unit {0})
unfolding unique_strings
validate_assignment_ids services assignments =
    validate_ids services.validate_user_ids (unique_strings (ids_of_type user_type assignments))
    >> validate_ids services.validate_group_ids
        (unique_strings (ids_of_type group_type assignments))

-- An answer of the database, unless it fails.
abbrev pub read : Bool → Bool → Result RoleError Bool
read fails answer = if fails then err internal_error else ok answer

abbrev pub role_exists : Faults → String → Tables → Result RoleError (Unit {0})
role_exists faults id tables =
    read faults.exists_fails (has id tables.roles) >>= λ exists. guard exists role_not_found

abbrev pub name_is_free : Faults → Bool → Result RoleError (Unit {0})
name_is_free faults taken =
    read faults.name_fails taken >>= λ exists. guard (not exists) role_name_conflict

abbrev pub written {ℓ} : {A : Type ℓ} → A → Tables × Bool → Tables × Result RoleError A
written a (tables, true) = (tables, ok a)
written a (tables, false) = (tables, err internal_error)

-- A write, unless a check before it has an error.
abbrev pub after_checks {ℓ} :
    {A : Type ℓ}
    → Result RoleError (Unit {0})
    → Tables × Result RoleError A
    → Tables
    → Tables × Result RoleError A
after_checks (ok _) write tables = write
after_checks (err e) write tables = (tables, err e)

module _ (services : Services) (faults : Faults) where
  abbrev pub unit_exists : String → Result RoleError (Unit {0})
  unit_exists ou_id =
      unless_there organization_unit_not_found (services.get_organization_unit ou_id)

  -- The id of the role that is created.
  unfoldable pub create : String → RoleCreationDetail → Tables → Tables × Result RoleError String
  create uuid detail tables =
      after_checks
        (validate_create_role_request detail
          >> (if is_empty detail.assignments
              then ok tt
              else validate_assignment_ids services detail.assignments)
          >> unit_exists detail.ou_id
          >> name_is_free faults (check_role_name_exists detail.ou_id detail.name tables.roles))
        (written uuid (create_role faults.write_fails uuid detail tables)) tables

  unfoldable pub update_role_with_permissions :
      String → RoleUpdateDetail → Tables → Tables × Result RoleError String
  update_role_with_permissions id detail tables =
      after_checks
        (guard (not (id == "")) missing_role_id
          >> validate_update_role_request detail
          >> role_exists faults id tables
          >> unit_exists detail.ou_id
          >> name_is_free faults
              (check_role_name_exists_excluding_id detail.ou_id detail.name id tables.roles))
        (written id (update_role faults.write_fails id detail tables)) tables

  -- The number of assignments is above 0.
  abbrev pub any_row : String → List AssignmentRow → Bool
  any_row id [] = false
  any_row id (row ∷ rows) = row.role_id == id || any_row id rows

  unfoldable pub delete : String → Tables → Tables × Result RoleError (Unit {0})
  delete id tables =
      if id == ""
      then (tables, err missing_role_id)
      else elim (read faults.exists_fails (has id tables.roles)) [
        | err e ↦ (tables, err e)
        | ok false ↦ (tables, ok tt)
        | ok true ↦
            after_checks
              (read faults.count_fails (any_row id tables.assignments) >>= λ assigned.
                guard (not assigned) cannot_delete_role)
              (written tt (delete_role faults.write_fails id tables)) tables
      ]

  unfoldable pub add : String → List RoleAssignment → Tables → Tables × Result RoleError (Unit {0})
  add id assignees tables =
      after_checks
        (guard (not (id == "")) missing_role_id
          >> validate_assignments_request assignees
          >> role_exists faults id tables
          >> validate_assignment_ids services assignees)
        (written tt (add_assignments faults.write_fails id assignees tables)) tables

  unfoldable pub remove :
      String → List RoleAssignment → Tables → Tables × Result RoleError (Unit {0})
  remove id assignees tables =
      after_checks
        (guard (not (id == "")) missing_role_id
          >> validate_assignments_request assignees
          >> role_exists faults id tables)
        (written tt (remove_assignments faults.write_fails id assignees tables)) tables

  unfoldable pub get_authorized_permissions :
      String → List String → List String → Tables → Result RoleError (List String)
  unfolding select_permissions
  get_authorized_permissions user_id groups requested tables =
      if user_id == "" && is_empty groups
      then err missing_user_or_groups
      else if is_empty requested
      then ok []
      else if faults.read_fails
      then err internal_error
      else ok (
          services.order
            (select_permissions user_id groups requested tables.assignments tables.permissions))
