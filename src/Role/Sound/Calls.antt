-- ===== src/Role/Sound/Calls.antt =====
-- What the calls of the service keep of the roles and of the rows that refer to them,
-- backend/internal/role/service.go.
use thunder_fork.Prelude.{String, ◌≡◌, Bool, true, false, not, List, [], ◌∷◌, arith, refl}
use thunder_fork.Prelude.Assoc.{lookup, has}
use thunder_fork.Prelude.Result.{Result, ok, err, guard, ◌>>=◌}
use thunder_fork.Role.{
  RoleAssignment, RoleCreationDetail, RoleUpdateDetail, Tables, add_assignments_to_role,
  has_assignment, has_permission, with_assignments, role_of, updated_role, create_role, update_role,
  delete_role, add_assignments, remove_assignments,
}
use thunder_fork.Role.Service.{
  RoleError, Services, Faults, after_checks, written, create, update_role_with_permissions, delete,
  add, remove, read, any_row, cannot_delete_role,
}
use thunder_fork.Role.Sound.Names.{fresh-IsFree, updated-IsFree}
use thunder_fork.Role.Sound.Kept.{
  IsSound, commit-IsSound, with_assignments-IsSound, create_role-IsSound, update_role-IsSound,
  delete_role-IsSound, remove_assignments-IsSound,
}

-- A write that is made only when the checks have no error.
after_checks-IsSound :
    {A : Type 0} (checks : Result RoleError (Unit {0})) (a : A) (write : Tables × Bool)
    (tables : Tables)
    → IsSound tables
    → (checks ≡ ok tt → IsSound write.0)
    → IsSound (after_checks checks (written a write) tables).0
after_checks-IsSound (err e) a write tables sound kept = sound
after_checks-IsSound (ok tt) a (tables', true) tables sound kept = kept refl
after_checks-IsSound (ok tt) a (tables', false) tables sound kept = kept refl

create-IsSound :
    (services : Services) (faults : Faults) (uuid : String) (detail : RoleCreationDetail)
    (tables : Tables)
    → IsSound tables
    → IsSound (create services faults uuid detail tables).0
unfolding create
create-IsSound services faults uuid detail tables sound =
    after_checks-IsSound _ uuid (create_role faults.write_fails uuid detail tables) tables sound
      (λ checked.
        create_role-IsSound faults.write_fails uuid detail tables
          (fresh-IsFree (role_of uuid detail) tables.roles (ground arith)) sound)

update_role_with_permissions-IsSound :
    (services : Services) (faults : Faults) (id : String) (detail : RoleUpdateDetail)
    (tables : Tables)
    → IsSound tables
    → IsSound (update_role_with_permissions services faults id detail tables).0
unfolding update_role_with_permissions
update_role_with_permissions-IsSound services faults id detail tables sound =
    after_checks-IsSound _ id (update_role faults.write_fails id detail tables) tables sound
      (λ checked.
        update_role-IsSound faults.write_fails id detail tables
          (updated-IsFree (updated_role id detail) tables.roles sound.keyed (ground arith)) sound)

delete-IsSound :
    (services : Services) (faults : Faults) (id : String) (tables : Tables)
    → IsSound tables
    → IsSound (delete services faults id tables).0
unfolding delete
delete-IsSound services faults id tables sound =
    let deleted =
      after_checks-IsSound
        (read faults.count_fails (any_row services faults id tables.assignments) >>= λ assigned.
          guard (not assigned) cannot_delete_role)
        tt (delete_role faults.write_fails id tables) tables sound
        (λ checked. delete_role-IsSound faults.write_fails id tables sound) in
    ground (arith, sound, deleted)

add-IsSound :
    (services : Services) (faults : Faults) (id : String) (assignees : List RoleAssignment)
    (tables : Tables)
    → IsSound tables
    → IsSound (add services faults id assignees tables).0
unfolding add add_assignments
add-IsSound services faults id assignees tables sound =
    after_checks-IsSound _ tt (add_assignments faults.write_fails id assignees tables) tables sound
      (λ checked.
        let there : has id tables.roles ≡ true = ground arith in
        let end =
          commit-IsSound tables
            (with_assignments tables (add_assignments_to_role id assignees tables.assignments))
            sound (λ t h. with_assignments-IsSound tables id assignees t there sound h) in
        ground (arith, sound, end))

remove-IsSound :
    (services : Services) (faults : Faults) (id : String) (assignees : List RoleAssignment)
    (tables : Tables)
    → IsSound tables
    → IsSound (remove services faults id assignees tables).0
unfolding remove
remove-IsSound services faults id assignees tables sound =
    after_checks-IsSound _ tt (remove_assignments faults.write_fails id assignees tables) tables
      sound (λ checked. remove_assignments-IsSound faults.write_fails id assignees tables sound)

-- The calls that write, each with the faults of its run.
pub data Call : Type 0 where
  creates : Faults → String → RoleCreationDetail → Call
  updates : Faults → String → RoleUpdateDetail → Call
  deletes : Faults → String → Call
  adds removes : Faults → String → List RoleAssignment → Call

unfoldable pub perform : Services → Call → Tables → Tables
perform services (creates faults uuid detail) tables = (create services faults uuid detail tables).0
perform services (updates faults id detail) tables =
    (update_role_with_permissions services faults id detail tables).0
perform services (deletes faults id) tables = (delete services faults id tables).0
perform services (adds faults id assignees) tables = (add services faults id assignees tables).0
perform services (removes faults id assignees) tables =
    (remove services faults id assignees tables).0

unfoldable pub run : Services → List Call → Tables → Tables
run services [] tables = tables
run services (call ∷ calls) tables = run services calls (perform services call tables)

perform-IsSound :
    (services : Services) (call : Call) (tables : Tables)
    → IsSound tables
    → IsSound (perform services call tables)
unfolding perform
perform-IsSound services (creates faults uuid detail) tables sound =
    create-IsSound services faults uuid detail tables sound
perform-IsSound services (updates faults id detail) tables sound =
    update_role_with_permissions-IsSound services faults id detail tables sound
perform-IsSound services (deletes faults id) tables sound =
    delete-IsSound services faults id tables sound
perform-IsSound services (adds faults id assignees) tables sound =
    add-IsSound services faults id assignees tables sound
perform-IsSound services (removes faults id assignees) tables sound =
    remove-IsSound services faults id assignees tables sound

kept_by_calls :
    (services : Services) (calls : List Call) (tables : Tables)
    → IsSound tables
    → IsSound (run services calls tables)
unfolding run
kept_by_calls services [] tables sound = sound
kept_by_calls services (call ∷ calls) tables sound =
    kept_by_calls services calls (perform services call tables)
      (perform-IsSound services call tables sound)

abbrev pub empty : Tables
empty = record { roles = []; permissions = []; assignments = [] }

-- After any calls of the service on empty tables, whatever the other services answer and whichever
-- statements fail, a role stands under its id, two roles of one unit have different names, and each
-- permission and each assignment is one of a role that is there.
pub run-IsSound : (services : Services) (calls : List Call) → IsSound (run services calls empty)
unfolding lookup has_permission has_assignment
run-IsSound services calls = kept_by_calls services calls empty (record {
  keyed = λ id role h. absurd (ground arith);
  distinct = λ id other a b at_id. absurd (ground arith);
  permissions_of = λ id permission held. absurd (ground arith);
  assignments_of = λ id a held. absurd (ground arith);
})
