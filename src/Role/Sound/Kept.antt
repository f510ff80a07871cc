-- ===== src/Role/Sound/Kept.antt =====
-- What the writes of the store keep of the roles and of the rows that refer to them,
-- backend/internal/role/store.go.
use thunder_fork.Prelude.{
  String, ◌≡◌, Bool, true, false, Option, none, some, List, arith, refl, sym, ap, ◌∙◌,
}
use thunder_fork.Prelude.Assoc.{insert, has}
use thunder_fork.Role.{
  Role, RoleAssignment, RoleCreationDetail, RoleUpdateDetail, PermissionRow, AssignmentRow, Tables,
  add_permissions_to_role, add_assignments_to_role, without_permissions, commit, with_assignments,
  with_permissions, then_assignments, role_of, updated_role, create_role, update_role, delete_role,
  remove_assignments,
}
use thunder_fork.Role.Removed.{has_assignment-without_all}
use thunder_fork.Role.Sound
use thunder_fork.Role.Sound.Names.{
  IsFree, AreKeyed, AreDistinct, AreKeyed-insert, AreKeyed-without, AreDistinct-insert,
  AreDistinct-without,
}

-- A role stands under its id, two roles of one unit have different names, and each permission and each
-- assignment is one of a role that is there.
pub record IsSound (tables : Tables) : Type 0 where
  pub keyed : AreKeyed tables.roles
  pub distinct : AreDistinct tables.roles
  pub permissions_of : Sound.ArePermissionsOf tables.roles tables.permissions
  pub assignments_of : Sound.AreAssignmentsOf tables.roles tables.assignments

-- A transaction writes all its rows or none.
pub commit-IsSound :
    (tables : Tables) (o : Option Tables)
    → IsSound tables
    → ((t : Tables) → o ≡ some t → IsSound t)
    → IsSound (commit tables o).0
commit-IsSound tables none sound kept = sound
commit-IsSound tables (some t) sound kept = kept t refl

with_permissions-IsSound :
    (tables : Tables) (id : String) (ps : List String) (rows : List PermissionRow) (t : Tables)
    → has id tables.roles ≡ true
    → IsSound tables
    → Sound.ArePermissionsOf tables.roles rows
    → with_permissions tables (add_permissions_to_role id ps rows) ≡ some t
    → IsSound t × (t.roles ≡ tables.roles)
with_permissions-IsSound tables id ps rows t there sound of_roles h =
    by_rows (add_permissions_to_role id ps rows) refl h
  where
    by_rows :
        (o : Option (List PermissionRow))
        → add_permissions_to_role id ps rows ≡ o
        → with_permissions tables o ≡ some t
        → IsSound t × (t.roles ≡ tables.roles)
    by_rows none q h = absurd (ground arith)
    by_rows (some rows') q h =
        let same : record tables { permissions = rows' } ≡ t = ground arith in
        rw (sym same) (
          record {
            keyed = sound.keyed;
            distinct = sound.distinct;
            permissions_of =
                Sound.ArePermissionsOf-added tables.roles id ps rows rows' there of_roles q;
            assignments_of = sound.assignments_of;
          },
          refl,
        )

pub with_assignments-IsSound :
    (tables : Tables) (id : String) (assignees : List RoleAssignment) (t : Tables)
    → has id tables.roles ≡ true
    → IsSound tables
    → with_assignments tables (add_assignments_to_role id assignees tables.assignments) ≡ some t
    → IsSound t
with_assignments-IsSound tables id assignees t there sound h =
    by_rows (add_assignments_to_role id assignees tables.assignments) refl h
  where
    by_rows :
        (o : Option (List AssignmentRow))
        → add_assignments_to_role id assignees tables.assignments ≡ o
        → with_assignments tables o ≡ some t
        → IsSound t
    by_rows none q h = absurd (ground arith)
    by_rows (some rows) q h =
        let same : record tables { assignments = rows } ≡ t = ground arith in
        rw (sym same) (record {
          keyed = sound.keyed;
          distinct = sound.distinct;
          permissions_of = sound.permissions_of;
          assignments_of =
              Sound.AreAssignmentsOf-added tables.roles id assignees tables.assignments rows there
                sound.assignments_of q;
        })

then_assignments-IsSound :
    (id : String) (assignees : List RoleAssignment) (o : Option Tables) (t : Tables)
    → ((u : Tables) → o ≡ some u → IsSound u × (has id u.roles ≡ true))
    → then_assignments id assignees o ≡ some t
    → IsSound t
then_assignments-IsSound id assignees none t sound h = absurd (ground arith)
then_assignments-IsSound id assignees (some u) t sound h =
    let (kept, there) = sound u refl in with_assignments-IsSound u id assignees t there kept h

-- Writing a role whose name is free in its unit.
insert-IsSound :
    (role : Role) (tables : Tables)
    → IsFree role tables.roles
    → IsSound tables
    → IsSound (record tables { roles = insert role.id role tables.roles })
insert-IsSound role tables free sound = record {
  keyed = AreKeyed-insert role tables.roles sound.keyed;
  distinct = AreDistinct-insert role tables.roles free sound.distinct;
  permissions_of = λ id permission held.
      Sound.has-insert role.id id role tables.roles (sound.permissions_of id permission held);
  assignments_of =
      λ id a held. Sound.has-insert role.id id role tables.roles (sound.assignments_of id a held);
}

pub create_role-IsSound :
    (fails : Bool) (id : String) (detail : RoleCreationDetail) (tables : Tables)
    → IsFree (role_of id detail) tables.roles
    → IsSound tables
    → IsSound (create_role fails id detail tables).0
unfolding create_role
create_role-IsSound fails id detail tables free sound =
    let inserted : Tables = record tables { roles = insert id (role_of id detail) tables.roles } in
    let rows : Option (List PermissionRow) =
      add_permissions_to_role id detail.permissions tables.permissions in
    let start : IsSound inserted = insert-IsSound (role_of id detail) tables free sound in
    let there : has id inserted.roles ≡ true =
      Sound.has-insert_self id (role_of id detail) tables.roles in
    let end : IsSound
        (commit tables
          (then_assignments id detail.assignments (with_permissions inserted rows))).0 =
      commit-IsSound tables
        (then_assignments id detail.assignments (with_permissions inserted rows)) sound
        (λ t h.
          then_assignments-IsSound id detail.assignments (with_permissions inserted rows) t
            (λ u q.
              let (kept, same) =
                with_permissions-IsSound inserted id detail.permissions tables.permissions u there
                  start start.permissions_of q in
              (kept, ap (has id) same ∙ there))
            h) in
    ground (arith, sound, end)

pub update_role-IsSound :
    (fails : Bool) (id : String) (detail : RoleUpdateDetail) (tables : Tables)
    → IsFree (updated_role id detail) tables.roles
    → IsSound tables
    → IsSound (update_role fails id detail tables).0
unfolding update_role
update_role-IsSound fails id detail tables free sound =
    let inserted : Tables = record tables {
      roles = insert id (updated_role id detail) tables.roles;
    } in
    let rows : List PermissionRow = without_permissions id tables.permissions in
    let start : IsSound inserted = insert-IsSound (updated_role id detail) tables free sound in
    let there : has id inserted.roles ≡ true =
      Sound.has-insert_self id (updated_role id detail) tables.roles in
    let end : IsSound
        (commit tables
          (with_permissions inserted (add_permissions_to_role id detail.permissions rows))).0 =
      commit-IsSound tables
        (with_permissions inserted (add_permissions_to_role id detail.permissions rows)) sound
        (λ t h.
          (with_permissions-IsSound inserted id detail.permissions rows t there start
            (Sound.ArePermissionsOf-cleared inserted.roles id tables.permissions
              start.permissions_of)
            h).0) in
    ground (arith, sound, end)

pub delete_role-IsSound :
    (fails : Bool) (id : String) (tables : Tables)
    → IsSound tables
    → IsSound (delete_role fails id tables).0
unfolding delete_role
delete_role-IsSound true id tables sound = sound
delete_role-IsSound false id tables sound = record {
  keyed = AreKeyed-without id tables.roles sound.keyed;
  distinct = AreDistinct-without id tables.roles sound.distinct;
  permissions_of =
      Sound.ArePermissionsOf-without tables.roles id tables.permissions sound.permissions_of;
  assignments_of =
      Sound.AreAssignmentsOf-without tables.roles id tables.assignments sound.assignments_of;
}

pub remove_assignments-IsSound :
    (fails : Bool) (id : String) (assignees : List RoleAssignment) (tables : Tables)
    → IsSound tables
    → IsSound (remove_assignments fails id assignees tables).0
unfolding remove_assignments
remove_assignments-IsSound true id assignees tables sound = sound
remove_assignments-IsSound false id assignees tables sound = record {
  keyed = sound.keyed;
  distinct = sound.distinct;
  permissions_of = sound.permissions_of;
  assignments_of = λ role_id a held.
      sound.assignments_of role_id a
        (ground (arith, has_assignment-without_all id role_id a assignees tables.assignments));
}
