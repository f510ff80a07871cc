-- ===== src/OrgUnit.antt =====
-- Organization units, backend/internal/ou: the data of model.go, and the store of store.go with the
-- queries of storeconstants.go over the rows of its table.
--
-- A row stands under its id, on which the schema has a unique constraint; its other constraints are
-- tested by the service first and are left out here. A flag is a fault of the database, with which
-- nothing is written. The rows of users and groups are read only. The order that the database gives
-- to a list is a parameter.
pub mod Service
pub mod Tree
pub mod Siblings
pub mod Paths
pub mod Pages
pub mod Examples
use thunder_fork.Prelude.{
  ℕ, String, Bool, true, false, Option, none, some, List, [], ◌∷◌, ◌||◌, ◌&&◌, ◌==◌, length,
  if◌then◌else◌, not, is_empty,
}
use thunder_fork.Prelude.Assoc.{Assoc, lookup, insert, without, has}
use thunder_fork.Prelude.Result.{Result, ok, err}

pub record OrganizationUnit : Type 0 where
  pub id : String
  pub handle : String
  pub name : String
  pub description : String
  pub parent : Option String

pub record OrganizationUnitRequest : Type 0 where
  pub handle : String
  pub name : String
  pub description : String
  pub parent : Option String

abbrev pub OuRows : Type 0
OuRows = Assoc OrganizationUnit

-- A user or a group, as this package reads it: its id, its name, and the unit that it is in.
pub record Member : Type 0 where
  pub id : String
  pub name : String
  pub ou_id : String

pub record Members : Type 0 where
  pub users : List Member
  pub groups : List Member

-- The errors of the store: `ErrOrganizationUnitNotFound`, or a fault.
pub data StoreError : Type 0 where
  not_found fault : StoreError

unfoldable pub get_organization_unit : Bool → String → OuRows → Result StoreError OrganizationUnit
get_organization_unit fails id rows =
    if fails then err fault else elim (lookup id rows) [ none ↦ err not_found | some ou ↦ ok ou ]

unfoldable pub is_organization_unit_exists : Bool → String → OuRows → Result StoreError Bool
is_organization_unit_exists fails id rows = if fails then err fault else ok (has id rows)

-- The rows after a write, and whether it succeeded.
unfoldable pub create_organization_unit : Bool → OrganizationUnit → OuRows → OuRows × Bool
create_organization_unit fails ou rows =
    if fails || has ou.id rows then (rows, false) else (insert ou.id ou rows, true)

-- The update of no row is no error.
unfoldable pub update_organization_unit : Bool → OrganizationUnit → OuRows → OuRows × Bool
update_organization_unit fails ou rows =
    if fails
    then (rows, false)
    else if has ou.id rows
    then (insert ou.id ou rows, true)
    else (rows, true)

unfoldable pub delete_organization_unit : Bool → String → OuRows → OuRows × Bool
delete_organization_unit fails id rows = if fails then (rows, false) else (without id rows, true)

-- `PARENT_ID = $2`, or `PARENT_ID IS NULL` where there is no parent.
abbrev pub same_parent : Option String → Option String → Bool
same_parent none none = true
same_parent (some p) (some q) = p == q
same_parent _ _ = false

-- Whether a row passes a test.
unfoldable pub any_row : (OrganizationUnit → Bool) → OuRows → Bool
any_row test [] = false
any_row test ((id, ou) ∷ rows) = test ou || any_row test rows

abbrev pub has_name : String → Option String → OrganizationUnit → Bool
has_name name parent ou = ou.name == name && same_parent ou.parent parent

abbrev pub has_handle : String → Option String → OrganizationUnit → Bool
has_handle handle parent ou = ou.handle == handle && same_parent ou.parent parent

-- `CheckOrganizationUnitNameConflict` and `CheckOrganizationUnitHandleConflict`.
unfoldable pub check_name_conflict : Bool → String → Option String → OuRows → Result StoreError Bool
check_name_conflict fails name parent rows =
    if fails then err fault else ok (any_row (has_name name parent) rows)

unfoldable pub check_handle_conflict :
    Bool → String → Option String → OuRows → Result StoreError Bool
check_handle_conflict fails handle parent rows =
    if fails then err fault else ok (any_row (has_handle handle parent) rows)

-- The members of a unit.
unfoldable pub members_of : String → List Member → List Member
members_of id [] = []
members_of id (m ∷ ms) = let rest = members_of id ms in if m.ou_id == id then m ∷ rest else rest

abbrev pub is_child_of : String → OrganizationUnit → Bool
is_child_of id ou = same_parent ou.parent (some id)

-- A sum of three counts that is above 0.
unfoldable pub check_has_child_resources : Bool → Members → String → OuRows → Result StoreError Bool
unfolding members_of
check_has_child_resources fails members id rows =
    if fails
    then err fault
    else ok (
        any_row (is_child_of id) rows
        || not (is_empty (members_of id members.users))
        || not (is_empty (members_of id members.groups)))

-- The rows that pass a test.
unfoldable pub rows_with : (OrganizationUnit → Bool) → OuRows → List OrganizationUnit
rows_with test [] = []
rows_with test ((id, ou) ∷ rows) =
    let rest = rows_with test rows in if test ou then ou ∷ rest else rest

-- The first row that passes a test.
unfoldable pub first_row : (OrganizationUnit → Bool) → OuRows → Option OrganizationUnit
first_row test [] = none
first_row test ((id, ou) ∷ rows) =
    let rest = first_row test rows in if test ou then some ou else rest

-- `parentID` of the loop below: the id of the unit that it is at.
abbrev pub id_of : Option OrganizationUnit → Option String
id_of none = none
id_of (some ou) = some ou.id

-- The loop of `GetOrganizationUnitByPath`: from a unit, or none yet, down the handles.
unfoldable pub descend :
    (String → Bool)
    → Option OrganizationUnit
    → List String
    → OuRows
    → Result StoreError OrganizationUnit
unfolding first_row
descend fails none [] rows = err not_found
descend fails (some ou) [] rows = ok ou
descend fails current (handle ∷ handles) rows =
    if fails handle then err fault else elim (first_row (has_handle handle (id_of current)) rows) [
      | none ↦ err not_found
      | some ou ↦ descend fails (some ou) handles rows
    ]

unfoldable pub get_organization_unit_by_path :
    (String → Bool) → List String → OuRows → Result StoreError OrganizationUnit
unfolding descend
get_organization_unit_by_path fails handles rows = descend fails none handles rows
