-- ===== src/Role/Sound.antt =====
-- What holds of the rows of roles, backend/internal/role/store.go: the statement, and what a write keeps
-- of it.
pub mod Names
pub mod Kept
pub mod Calls
use thunder_fork.Prelude.{
  String, ◌≡◌, ◌⊎◌, inl, inr, Bool, true, false, Option, none, some, List, [], ◌∷◌, ◌||◌, ◌&&◌,
  ◌==◌, if◌then◌else◌, arith, refl, eq_iff, eq_refl, sym,
}
use thunder_fork.Prelude.Assoc.{Assoc, lookup, insert, without, has, lookup-insert, lookup-without}
use thunder_fork.Role.{
  Role, RoleAssignment, PermissionRow, AssignmentRow, Tables, has_permission, has_assignment,
  same_assignee, add_permissions_to_role, add_assignments_to_role, without_permissions,
  without_assignments, without_assignment, without_all,
}

-- Each row of a permission, and of an assignment, is of a role that is there.
abbrev pub ArePermissionsOf : Assoc Role → List PermissionRow → Type 0
ArePermissionsOf roles rows =
    (id permission : String) → has_permission id permission rows ≡ true → has id roles ≡ true

abbrev pub AreAssignmentsOf : Assoc Role → List AssignmentRow → Type 0
AreAssignmentsOf roles rows =
    (id : String) (a : RoleAssignment) → has_assignment id a rows ≡ true → has id roles ≡ true

has_permission-added :
    (id : String) (ps : List String) (rows rows' : List PermissionRow) (role_id permission : String)
    → add_permissions_to_role id ps rows ≡ some rows'
    → has_permission role_id permission rows' ≡ true
    → (id ≡ role_id) ⊎ (has_permission role_id permission rows ≡ true)
unfolding add_permissions_to_role has_permission
has_permission-added id [] rows rows' role_id permission h has = ground arith
has_permission-added id (p ∷ ps) rows rows' role_id permission h has =
    elim (has_permission-added id ps (record { role_id = id; permission = p } ∷ rows) rows' role_id
      permission (ground arith) has) [
        | inl same ↦ inl same
        | inr there ↦ ground (arith, eq_iff id role_id)
      ]

has_assignment-added :
    (id : String) (assignees : List RoleAssignment) (rows rows' : List AssignmentRow)
    (role_id : String) (a : RoleAssignment)
    → add_assignments_to_role id assignees rows ≡ some rows'
    → has_assignment role_id a rows' ≡ true
    → (id ≡ role_id) ⊎ (has_assignment role_id a rows ≡ true)
unfolding add_assignments_to_role has_assignment
has_assignment-added id [] rows rows' role_id a h has = ground arith
has_assignment-added id (b ∷ assignees) rows rows' role_id a h has =
    elim (has_assignment-added id assignees (record { role_id = id; assignee = b } ∷ rows) rows'
      role_id a (ground arith) has) [
        | inl same ↦ inl same
        | inr there ↦ ground (arith, eq_iff id role_id)
      ]

pub has_permission-without :
    (id : String) (rows : List PermissionRow) (role_id permission : String)
    → has_permission role_id permission (without_permissions id rows)
      ≡ (if id == role_id then false else has_permission role_id permission rows)
unfolding has_permission without_permissions
has_permission-without id [] role_id permission = ground arith
has_permission-without id (row ∷ rows) role_id permission = ground (
  arith,
  has_permission-without id rows role_id permission,
  eq_iff row.role_id id,
  eq_iff row.role_id role_id,
  eq_iff id role_id,
)

has_assignment-without_role :
    (id : String) (rows : List AssignmentRow) (role_id : String) (a : RoleAssignment)
    → has_assignment role_id a (without_assignments id rows)
      ≡ (if id == role_id then false else has_assignment role_id a rows)
unfolding has_assignment without_assignments
has_assignment-without_role id [] role_id a = ground arith
has_assignment-without_role id (row ∷ rows) role_id a = ground (
  arith,
  has_assignment-without_role id rows role_id a,
  eq_iff row.role_id id,
  eq_iff row.role_id role_id,
  eq_iff id role_id,
)

pub ArePermissionsOf-added :
    (roles : Assoc Role) (id : String) (ps : List String) (rows rows' : List PermissionRow)
    → has id roles ≡ true
    → ArePermissionsOf roles rows
    → add_permissions_to_role id ps rows ≡ some rows'
    → ArePermissionsOf roles rows'
ArePermissionsOf-added roles id ps rows rows' there of_roles h role_id permission held =
    elim (has_permission-added id ps rows rows' role_id permission h held) [
      | inl same ↦ rw (sym same) there
      | inr before ↦ of_roles role_id permission before
    ]

pub AreAssignmentsOf-added :
    (roles : Assoc Role) (id : String) (assignees : List RoleAssignment)
    (rows rows' : List AssignmentRow)
    → has id roles ≡ true
    → AreAssignmentsOf roles rows
    → add_assignments_to_role id assignees rows ≡ some rows'
    → AreAssignmentsOf roles rows'
AreAssignmentsOf-added roles id assignees rows rows' there of_roles h role_id a held =
    elim (has_assignment-added id assignees rows rows' role_id a h held) [
      | inl same ↦ rw (sym same) there
      | inr before ↦ of_roles role_id a before
    ]

-- Writing a role keeps the roles that are there.
pub has-insert :
    (id other : String) (role : Role) (roles : Assoc Role)
    → has other roles ≡ true
    → has other (insert id role roles) ≡ true
has-insert id other role roles h = ground (arith, lookup-insert id other role roles)

pub has-insert_self :
    (id : String) (role : Role) (roles : Assoc Role) → has id (insert id role roles) ≡ true
has-insert_self id role roles = ground (arith, lookup-insert id id role roles, eq_refl id)

pub ArePermissionsOf-without :
    (roles : Assoc Role) (id : String) (rows : List PermissionRow)
    → ArePermissionsOf roles rows
    → ArePermissionsOf (without id roles) (without_permissions id rows)
ArePermissionsOf-without roles id rows of_roles role_id permission held = ground (
  arith,
  has_permission-without id rows role_id permission,
  lookup-without id role_id roles,
  of_roles role_id permission,
)

pub AreAssignmentsOf-without :
    (roles : Assoc Role) (id : String) (rows : List AssignmentRow)
    → AreAssignmentsOf roles rows
    → AreAssignmentsOf (without id roles) (without_assignments id rows)
AreAssignmentsOf-without roles id rows of_roles role_id a held = ground (
  arith,
  has_assignment-without_role id rows role_id a,
  lookup-without id role_id roles,
  of_roles role_id a,
)

-- Only rows of the role itself are replaced.
pub ArePermissionsOf-cleared :
    (roles : Assoc Role) (id : String) (rows : List PermissionRow)
    → ArePermissionsOf roles rows
    → ArePermissionsOf roles (without_permissions id rows)
ArePermissionsOf-cleared roles id rows of_roles role_id permission held =
    ground (arith, has_permission-without id rows role_id permission, of_roles role_id permission)
