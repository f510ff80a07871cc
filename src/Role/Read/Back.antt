-- ===== src/Role/Read/Back.antt =====
-- What is read of a role after it was written, backend/internal/role/service.go.
use thunder_fork.Prelude.{
  String, ◌≡◌, false, Option, none, some, List, [], ◌∷◌, ◌||◌, ◌==◌, contains, arith, refl, ap, ◌∙◌,
  eq_refl,
}
use thunder_fork.Prelude.Assoc.{lookup, insert, lookup-insert}
use thunder_fork.Prelude.Result.{ok}
use thunder_fork.Role.{
  RoleUpdateDetail, PermissionRow, Tables, has_permission, add_permissions_to_role,
  without_permissions, updated_role, update_role,
}
use thunder_fork.Role.Service.{Services, Faults, update_role_with_permissions}
use thunder_fork.Role.Sound.{has_permission-without}
use thunder_fork.Role.Read.{
  get_role_permissions, with_its_permissions, get_role, get_role_with_permissions,
}

contains-get_role_permissions :
    (id permission : String) (rows : List PermissionRow)
    → contains permission (get_role_permissions id rows) ≡ has_permission id permission rows
unfolding contains get_role_permissions has_permission
contains-get_role_permissions id permission [] = ground arith
contains-get_role_permissions id permission (row ∷ rows) =
    ground (arith, contains-get_role_permissions id permission rows)

has_permission-added :
    (id permission : String) (ps : List String) (rows rows' : List PermissionRow)
    → add_permissions_to_role id ps rows ≡ some rows'
    → has_permission id permission rows'
      ≡ (contains permission ps || has_permission id permission rows)
unfolding add_permissions_to_role contains has_permission
has_permission-added id permission [] rows rows' h = ground arith
has_permission-added id permission (p ∷ ps) rows rows' h = ground (
  arith,
  has_permission-added id permission ps (record { role_id = id; permission = p } ∷ rows) rows',
  eq_refl id,
)

update_role_with_permissions_cases :
    (services : Services) (faults : Faults) (id id' : String) (detail : RoleUpdateDetail)
    (tables tables' : Tables)
    → update_role_with_permissions services faults id detail tables ≡ (tables', ok id')
    → ((id == "") ≡ false)
      × (tables'.roles ≡ insert id (updated_role id detail) tables.roles)
      × (add_permissions_to_role id detail.permissions (without_permissions id tables.permissions)
          ≡ some tables'.permissions)
unfolding update_role_with_permissions update_role
update_role_with_permissions_cases services faults id id' detail tables tables' h =
    by_rows
      (add_permissions_to_role id detail.permissions (without_permissions id tables.permissions))
      refl
  where
    by_rows :
        (o : Option (List PermissionRow))
        → add_permissions_to_role id detail.permissions (without_permissions id tables.permissions)
          ≡ o
        → ((id == "") ≡ false)
          × (tables'.roles ≡ insert id (updated_role id detail) tables.roles)
          × (add_permissions_to_role id detail.permissions
                (without_permissions id tables.permissions)
              ≡ some tables'.permissions)
    by_rows none q = absurd (ground arith)
    by_rows (some rows) q = (ground arith, ground arith, ground arith)

-- If the order of the database only puts the permissions in another place, then after an update that
-- succeeds, a read that does not fail answers the role as it was updated, and it has a permission
-- exactly if the update names it: none that it had before is left.
pub get_role_with_permissions-update :
    (services : Services) (faults later : Faults) (id id' : String) (detail : RoleUpdateDetail)
    (tables tables' : Tables)
    → ((ps : List String) (p : String) → contains p (services.order ps) ≡ contains p ps)
    → update_role_with_permissions services faults id detail tables ≡ (tables', ok id')
    → later.read_fails ≡ false
    → (permissions : List String) × (get_role_with_permissions services later id tables'
        ≡ ok (with_its_permissions (updated_role id detail) permissions))
      × ((p : String) → contains p permissions ≡ contains p detail.permissions)
unfolding get_role_with_permissions get_role
get_role_with_permissions-update services faults later id id' detail tables tables' reorders h
      reads =
    let (named, roles, rows) =
      update_role_with_permissions_cases services faults id id' detail tables tables' h in
    let found : lookup id tables'.roles ≡ some (updated_role id detail) =
      ap (lookup id) roles
      ∙ ground (arith, lookup-insert id id (updated_role id detail) tables.roles, eq_refl id) in
    let answer : List String = services.order (get_role_permissions id tables'.permissions) in
    (
      answer,
      ground (arith, found, named),
      λ p.
          reorders (get_role_permissions id tables'.permissions) p
          ∙ contains-get_role_permissions id p tables'.permissions
          ∙ has_permission-added id p detail.permissions (without_permissions id tables.permissions)
              tables'.permissions rows
          ∙ ground (arith, has_permission-without id tables.permissions id p, eq_refl id),
    )
