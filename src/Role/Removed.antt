-- ===== src/Role/Removed.antt =====
-- Assignments that are removed, RemoveAssignments of backend/internal/role.
use thunder_fork.Prelude.{
  String, ◌≡◌, Bool, false, List, [], ◌∷◌, ◌||◌, ◌&&◌, ◌==◌, if◌then◌else◌, arith, eq_iff, ◌∙◌, ap,
}
use thunder_fork.Prelude.Result.{ok}
use thunder_fork.Role.{
  RoleAssignment, AssignmentRow, Tables, has_assignment, same_assignee, without_assignment,
  without_all, remove_assignments,
}
use thunder_fork.Role.Service.{Services, Faults, remove}

-- An assignee is among those of a request.
abbrev pub among : RoleAssignment → List RoleAssignment → Bool
among a [] = false
among a (b ∷ assignees) = same_assignee b a || among a assignees

has_assignment-without :
    (id role_id : String) (gone a : RoleAssignment) (rows : List AssignmentRow)
    → has_assignment role_id a (without_assignment id gone rows)
      ≡ (if id == role_id && same_assignee gone a then false else has_assignment role_id a rows)
unfolding has_assignment without_assignment
has_assignment-without id role_id gone a [] = ground arith
has_assignment-without id role_id gone a (row ∷ rows) = ground (
  arith,
  has_assignment-without id role_id gone a rows,
  eq_iff row.role_id id,
  eq_iff row.role_id role_id,
  eq_iff id role_id,
  eq_iff row.assignee.type gone.type,
  eq_iff row.assignee.type a.type,
  eq_iff gone.type a.type,
  eq_iff row.assignee.id gone.id,
  eq_iff row.assignee.id a.id,
  eq_iff gone.id a.id,
)

pub has_assignment-without_all :
    (id role_id : String) (a : RoleAssignment) (assignees : List RoleAssignment)
    (rows : List AssignmentRow)
    → has_assignment role_id a (without_all id assignees rows)
      ≡ (if id == role_id && among a assignees then false else has_assignment role_id a rows)
unfolding without_all
has_assignment-without_all id role_id a [] rows = ground arith
has_assignment-without_all id role_id a (b ∷ assignees) rows = ground (
  arith,
  has_assignment-without_all id role_id a assignees (without_assignment id b rows),
  has_assignment-without id role_id b a rows,
)

-- After a removal that succeeds, an assignment is there exactly if it was there before and is not one of
-- those that the request names for its role; roles and permissions are as they were.
pub removed_exactly :
    (services : Services) (faults : Faults) (id : String) (assignees : List RoleAssignment)
    (tables tables' : Tables)
    → remove services faults id assignees tables ≡ (tables', ok tt)
    → (tables'.roles ≡ tables.roles)
      × (tables'.permissions ≡ tables.permissions)
      × ((role_id : String) (a : RoleAssignment)
          → has_assignment role_id a tables'.assignments ≡ (
              if id == role_id && among a assignees
              then false
              else has_assignment role_id a tables.assignments))
unfolding remove remove_assignments
removed_exactly services faults id assignees tables tables' h = (
  ground arith,
  ground arith,
  λ role_id a.
      (let rows : tables'.assignments ≡ without_all id assignees tables.assignments =
          ground arith in
        ap (has_assignment role_id a) rows
        ∙ has_assignment-without_all id role_id a assignees tables.assignments),
)
