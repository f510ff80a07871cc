-- ===== src/OrgUnit/Service.antt =====
-- The service of organization units, backend/internal/ou/service.go: creation, look-up, update and
-- deletion, by id and by path.
--
-- The ids are generated: the one of a new unit is an argument. The two loops that climb to the
-- parents, in `IsParent` and `checkCircularDependency`, are one function here, on fuel; `unfinished` is
-- no error of the code but a loop that has not ended within the fuel. A path is cut at each `/`, whose
-- code is 47.
use thunder_fork.Prelude.{
  ℕ, zero, suc, String, Bool, true, false, Option, none, some, List, [], ◌∷◌, ◌||◌, ◌==◌, not,
  if◌then◌else◌,
}
use thunder_fork.Prelude.Result.{Result, ok, err, ◌>>=◌, ◌>>◌, guard}
use thunder_fork.Prelude.Texts.{trim_space, has_char, trim_char, split_on}
use thunder_fork.OrgUnit.{
  OrganizationUnit, OrganizationUnitRequest, OuRows, Members, StoreError, not_found, fault,
  get_organization_unit, is_organization_unit_exists, create_organization_unit,
  update_organization_unit, delete_organization_unit, check_name_conflict, check_handle_conflict,
  check_has_child_resources, get_organization_unit_by_path,
}

pub data OuError : Type 0 where
  invalid_request_format unit_not_found name_conflict parent_not_found cannot_delete : OuError
  circular_dependency handle_conflict invalid_handle_path invalid_limit invalid_offset : OuError
  internal_error unfinished : OuError

-- The faults of the database in one call of the service: of each kind of statement, for the reads of
-- a unit by the id that is read, and for the reads along a path by the handle.
pub record Faults : Type 0 where
  pub get_fails : String → Bool
  pub path_fails : String → Bool
  pub exists_fails : Bool
  pub name_fails : Bool
  pub handle_fails : Bool
  pub children_fails : Bool
  pub write_fails : Bool

-- An error of the store as one of the service.
abbrev pub service_error : StoreError → OuError
service_error not_found = unit_not_found
service_error fault = internal_error

abbrev pub from_store {ℓ} : {A : Type ℓ} → Result StoreError A → Result OuError A
from_store (ok a) = ok a
from_store (err e) = err (service_error e)

abbrev pub is_blank : String → Bool
is_blank s = trim_space s == ""

unfoldable pub validate_ou_name : String → Result OuError (Unit {0})
validate_ou_name name = guard (not (is_blank name)) invalid_request_format

unfoldable pub validate_ou_handle : String → Result OuError (Unit {0})
validate_ou_handle handle =
    guard (not (is_blank handle)) invalid_request_format
    >> guard (not (has_char 47 (trim_space handle))) invalid_request_format

-- The parts of a path that are not blank.
unfoldable pub valid_handles : List String → List String
valid_handles [] = []
valid_handles (handle ∷ handles) =
    let rest = valid_handles handles in if is_blank handle then rest else trim_space handle ∷ rest

unfoldable pub validate_and_process_handle_path : String → Result OuError (List String)
unfolding valid_handles
validate_and_process_handle_path path =
    guard (not (is_blank path)) invalid_handle_path
    >> guard (not (trim_char 47 path == "")) invalid_handle_path
    >> ok (valid_handles (split_on 47 (trim_char 47 path)))

-- The parent of a request, if it names one, has to be there.
unfoldable pub check_parent : Faults → Option String → OuRows → Result OuError (Unit {0})
check_parent faults none rows = ok tt
check_parent faults (some parent) rows =
    from_store (is_organization_unit_exists faults.exists_fails parent rows) >>= λ exists.
    guard exists parent_not_found

unfoldable pub check_request : Faults → OrganizationUnitRequest → OuRows → Result OuError (Unit {0})
check_request faults request rows =
    validate_ou_name request.name
    >> validate_ou_handle request.handle
    >> check_parent faults request.parent rows

unfoldable pub check_name : Faults → String → Option String → OuRows → Result OuError (Unit {0})
check_name faults name parent rows =
    from_store (check_name_conflict faults.name_fails name parent rows) >>= λ conflict.
    guard (not conflict) name_conflict

unfoldable pub check_handle : Faults → String → Option String → OuRows → Result OuError (Unit {0})
check_handle faults handle parent rows =
    from_store (check_handle_conflict faults.handle_fails handle parent rows) >>= λ conflict.
    guard (not conflict) handle_conflict

-- The unit that a request makes of an id.
abbrev pub unit_of : String → OrganizationUnitRequest → OrganizationUnit
unit_of id request = record {
  id = id;
  handle = request.handle;
  name = request.name;
  description = request.description;
  parent = request.parent;
}

-- The end of a write.
abbrev pub written {ℓ} : {A : Type ℓ} → A → OuRows × Bool → OuRows × Result OuError A
written a (rows, true) = (rows, ok a)
written a (rows, false) = (rows, err internal_error)

-- A write, unless a check before it has an error.
abbrev pub after_checks {ℓ} :
    {A : Type ℓ}
    → Result OuError (Unit {0})
    → OuRows × Result OuError A
    → OuRows
    → OuRows × Result OuError A
after_checks (ok _) write rows = write
after_checks (err e) write rows = (rows, err e)

unfoldable pub create_unit :
    Faults → String → OrganizationUnitRequest → OuRows → OuRows × Result OuError OrganizationUnit
create_unit faults uuid request rows =
    after_checks
      (check_request faults request rows
        >> check_name faults request.name request.parent rows
        >> check_handle faults request.handle request.parent rows)
      (written (unit_of uuid request)
        (create_organization_unit faults.write_fails (unit_of uuid request) rows))
      rows

-- How a climb from a unit over its parents ends: at the unit that is looked for, at a root, at a unit
-- that is missing, at a fault, or not within the fuel.
pub data Climb : Type 0 where
  reached at_root missing failed out_of_fuel : Climb

unfoldable pub climb : ℕ → (String → Bool) → String → Option String → OuRows → Climb
climb fuel fails target none rows = at_root
climb zero fails target (some current) rows = out_of_fuel
climb (suc fuel) fails target (some current) rows =
    if current == target
    then reached
    else elim (get_organization_unit (fails current) current rows) [
      | err not_found ↦ missing
      | err fault ↦ failed
      | ok ou ↦ climb fuel fails target ou.parent rows
    ]

unfoldable pub is_parent : ℕ → Faults → String → String → OuRows → Result OuError Bool
is_parent fuel faults parent_id child_id rows =
    if is_blank parent_id || is_blank child_id
    then err invalid_request_format
    else elim (climb fuel faults.get_fails parent_id (some child_id) rows) [
      | reached ↦ ok true
      | at_root ↦ ok false
      | missing ↦ err unit_not_found
      | failed ↦ err internal_error
      | out_of_fuel ↦ err unfinished
    ]

unfoldable pub check_circular_dependency :
    ℕ → Faults → String → Option String → OuRows → Result OuError (Unit {0})
check_circular_dependency fuel faults id parent rows =
    elim (climb fuel faults.get_fails id parent rows) [
      | reached ↦ err circular_dependency
      | at_root ↦ ok tt
      | missing ↦ ok tt
      | failed ↦ err internal_error
      | out_of_fuel ↦ err unfinished
    ]

-- `existingOU.Parent != request.Parent`: two pointers, one from the row and one from the request, are
-- never the same unless both are nil.
unfoldable pub parent_differs : Option String → Option String → Bool
parent_differs none none = false
parent_differs _ _ = true

-- A check that is left out if nothing has changed.
abbrev pub if_changed : Bool → Result OuError (Unit {0}) → Result OuError (Unit {0})
if_changed changed check = if changed then check else ok tt

unfoldable pub update_ou_internal :
    ℕ
    → Faults
    → String
    → OrganizationUnitRequest
    → OrganizationUnit
    → OuRows
    → OuRows × Result OuError OrganizationUnit
unfolding parent_differs
update_ou_internal fuel faults id request existing rows =
    let moved = parent_differs existing.parent request.parent in
    after_checks
      (check_request faults request rows
        >> check_circular_dependency fuel faults id request.parent rows
        >> if_changed (moved || not (existing.name == request.name))
            (check_name faults request.name request.parent rows)
        >> if_changed (moved || not (existing.handle == request.handle))
            (check_handle faults request.handle request.parent rows))
      (written (unit_of existing.id request)
        (update_organization_unit faults.write_fails (unit_of existing.id request) rows))
      rows

-- What follows the read of a unit.
abbrev pub with_unit {ℓ} :
    {A : Type ℓ}
    → Result OuError OrganizationUnit
    → OuRows
    → (OrganizationUnit → OuRows × Result OuError A)
    → OuRows × Result OuError A
with_unit (err e) rows next = (rows, err e)
with_unit (ok ou) rows next = next ou

unfoldable pub get_unit : Faults → String → OuRows → Result OuError OrganizationUnit
get_unit faults id rows = from_store (get_organization_unit (faults.get_fails id) id rows)

unfoldable pub get_unit_by_path : Faults → String → OuRows → Result OuError OrganizationUnit
get_unit_by_path faults path rows = validate_and_process_handle_path path >>= λ handles.
    from_store (get_organization_unit_by_path faults.path_fails handles rows)

unfoldable pub update_unit :
    ℕ
    → Faults
    → String
    → OrganizationUnitRequest
    → OuRows
    → OuRows × Result OuError OrganizationUnit
unfolding get_unit
update_unit fuel faults id request rows =
    with_unit (get_unit faults id rows) rows
      λ existing. update_ou_internal fuel faults id request existing rows

unfoldable pub update_unit_by_path :
    ℕ
    → Faults
    → String
    → OrganizationUnitRequest
    → OuRows
    → OuRows × Result OuError OrganizationUnit
unfolding get_unit_by_path
update_unit_by_path fuel faults path request rows =
    with_unit (get_unit_by_path faults path rows) rows
      λ existing. update_ou_internal fuel faults existing.id request existing rows

unfoldable pub delete_ou_internal :
    Faults → Members → String → OuRows → OuRows × Result OuError (Unit {0})
delete_ou_internal faults members id rows =
    after_checks
      (from_store (check_has_child_resources faults.children_fails members id rows)
        >>= λ has_children. guard (not has_children) cannot_delete)
      (written tt (delete_organization_unit faults.write_fails id rows)) rows

unfoldable pub delete_unit : Faults → Members → String → OuRows → OuRows × Result OuError (Unit {0})
unfolding delete_ou_internal
delete_unit faults members id rows =
    after_checks
      (from_store (is_organization_unit_exists faults.exists_fails id rows) >>= λ exists.
        guard exists unit_not_found)
      (delete_ou_internal faults members id rows) rows

unfoldable pub delete_unit_by_path :
    Faults → Members → String → OuRows → OuRows × Result OuError (Unit {0})
unfolding delete_ou_internal get_unit_by_path
delete_unit_by_path faults members path rows =
    with_unit (get_unit_by_path faults path rows) rows
      λ existing. delete_ou_internal faults members existing.id rows
