-- ===== src/OrgUnit/Tree/Calls.antt =====
-- What the calls of the service keep of the units, backend/internal/ou/service.go.
use thunder_fork.Prelude.{
  ℕ, String, ◌≡◌, sym, ◌⊎◌, inl, inr, false, Option, none, some, List, [], ◌∷◌, arith, refl,
  some_of_is_some,
}
use thunder_fork.Prelude.Assoc.{lookup, insert, without, has}
use thunder_fork.Prelude.Result.{Result, ok, err}
use thunder_fork.OrgUnit.{
  OrganizationUnit, OrganizationUnitRequest, OuRows, Members, any_row, is_child_of,
  is_organization_unit_exists, create_organization_unit, update_organization_unit,
  get_organization_unit, delete_organization_unit, check_has_child_resources,
}
use thunder_fork.OrgUnit.Service.{
  OuError, Faults, unit_of, check_parent, check_request, create_unit, check_circular_dependency,
  update_ou_internal, update_unit, update_unit_by_path, get_unit, get_unit_by_path,
  delete_ou_internal, delete_unit, delete_unit_by_path,
}
use thunder_fork.OrgUnit.Tree.{IsForest, Rooted-absent, climb-Apart}
use thunder_fork.OrgUnit.Tree.Kept.{IsPlaced, IsForest-insert, IsForest-without}

-- A parent that was checked is there.
check_parent-has :
    (faults : Faults) (parent : String) (rows : OuRows)
    → check_parent faults (some parent) rows ≡ ok tt
    → (ou : OrganizationUnit) × (lookup parent rows ≡ some ou)
unfolding check_parent is_organization_unit_exists
check_parent-has faults parent rows h = some_of_is_some (lookup parent rows) (ground arith)

pub create_unit-cases :
    (faults : Faults) (uuid : String) (request : OrganizationUnitRequest) (rows : OuRows)
    → ((create_unit faults uuid request rows).0 ≡ rows)
      ⊎ (((create_unit faults uuid request rows).0 ≡ insert uuid (unit_of uuid request) rows)
          × (has uuid rows ≡ false)
          × (check_parent faults request.parent rows ≡ ok tt))
unfolding create_unit create_organization_unit check_request
create_unit-cases faults uuid request rows = ground arith

pub update_ou_internal-cases :
    (fuel : ℕ) (faults : Faults) (id : String) (request : OrganizationUnitRequest)
    (existing : OrganizationUnit) (rows : OuRows)
    → ((update_ou_internal fuel faults id request existing rows).0 ≡ rows)
      ⊎ (((update_ou_internal fuel faults id request existing rows).0
            ≡ insert existing.id (unit_of existing.id request) rows)
          × (check_parent faults request.parent rows ≡ ok tt)
          × (check_circular_dependency fuel faults id request.parent rows ≡ ok tt))
unfolding update_ou_internal update_organization_unit check_request
update_ou_internal-cases fuel faults id request existing rows = ground arith

pub delete_ou_internal-cases :
    (faults : Faults) (members : Members) (id : String) (rows : OuRows)
    → ((delete_ou_internal faults members id rows).0 ≡ rows)
      ⊎ (((delete_ou_internal faults members id rows).0 ≡ without id rows)
          × (any_row (is_child_of id) rows ≡ false))
unfolding delete_ou_internal delete_organization_unit check_has_child_resources
delete_ou_internal-cases faults members id rows = ground arith

-- A parent that was checked, and is not a unit that is missing.
fresh-IsPlaced :
    (faults : Faults) (id : String) (parent : Option String) (rows : OuRows)
    → IsForest rows
    → check_parent faults parent rows ≡ ok tt
    → lookup id rows ≡ none
    → IsPlaced rows id parent
fresh-IsPlaced faults id none rows forest h fresh = tt
fresh-IsPlaced faults id (some parent) rows forest h fresh =
    let (ou, at) = check_parent-has faults parent rows h in
    Rooted-absent id parent rows fresh (forest.rooted parent ou at)

-- A parent that was checked, and whose parents do not lead to the unit.
moved-IsPlaced :
    (fuel : ℕ) (faults : Faults) (id : String) (parent : Option String) (rows : OuRows)
    → IsForest rows
    → check_parent faults parent rows ≡ ok tt
    → check_circular_dependency fuel faults id parent rows ≡ ok tt
    → IsPlaced rows id parent
unfolding check_circular_dependency
moved-IsPlaced fuel faults id none rows forest h circular = tt
moved-IsPlaced fuel faults id (some parent) rows forest h circular =
    let (ou, at) = check_parent-has faults parent rows h in
    climb-Apart fuel faults.get_fails id parent rows (ground arith) (forest.rooted parent ou at)

pub create_unit-IsForest :
    (faults : Faults) (uuid : String) (request : OrganizationUnitRequest) (rows : OuRows)
    → IsForest rows
    → IsForest (create_unit faults uuid request rows).0
create_unit-IsForest faults uuid request rows forest =
    elim (create_unit-cases faults uuid request rows) [
      | inl same ↦ rw same forest
      | inr (written, fresh, parent) ↦ rw written (
          IsForest-insert rows (unit_of uuid request) forest
            (fresh-IsPlaced faults uuid request.parent rows forest parent (ground arith)))
    ]

pub update_ou_internal-IsForest :
    (fuel : ℕ) (faults : Faults) (request : OrganizationUnitRequest) (existing : OrganizationUnit)
    (rows : OuRows)
    → IsForest rows
    → IsForest (update_ou_internal fuel faults existing.id request existing rows).0
update_ou_internal-IsForest fuel faults request existing rows forest =
    elim (update_ou_internal-cases fuel faults existing.id request existing rows) [
      | inl same ↦ rw same forest
      | inr (written, parent, circular) ↦ rw written (
          IsForest-insert rows (unit_of existing.id request) forest
            (moved-IsPlaced fuel faults existing.id request.parent rows forest parent circular))
    ]

pub delete_ou_internal-IsForest :
    (faults : Faults) (members : Members) (id : String) (rows : OuRows)
    → IsForest rows
    → IsForest (delete_ou_internal faults members id rows).0
delete_ou_internal-IsForest faults members id rows forest =
    elim (delete_ou_internal-cases faults members id rows) [
      | inl same ↦ rw same forest
      | inr (deleted, childless) ↦ rw deleted (IsForest-without rows id forest childless)
    ]

pub get_unit-lookup :
    (faults : Faults) (id : String) (rows : OuRows) (ou : OrganizationUnit)
    → get_unit faults id rows ≡ ok ou
    → lookup id rows ≡ some ou
unfolding get_unit get_organization_unit
get_unit-lookup faults id rows ou h = ground arith

update_unit-IsForest :
    (fuel : ℕ) (faults : Faults) (id : String) (request : OrganizationUnitRequest) (rows : OuRows)
    → IsForest rows
    → IsForest (update_unit fuel faults id request rows).0
unfolding update_unit
update_unit-IsForest fuel faults id request rows forest = by_read (get_unit faults id rows) refl
  where
    by_read :
        (r : Result OuError OrganizationUnit)
        → get_unit faults id rows ≡ r
        → IsForest (update_unit fuel faults id request rows).0
    by_read (err e) q = rw q forest
    by_read (ok existing) q =
        let same : existing.id ≡ id =
          forest.keyed id existing (get_unit-lookup faults id rows existing q) in
        rw (q, sym same) (update_ou_internal-IsForest fuel faults request existing rows forest)

update_unit_by_path-IsForest :
    (fuel : ℕ) (faults : Faults) (path : String) (request : OrganizationUnitRequest) (rows : OuRows)
    → IsForest rows
    → IsForest (update_unit_by_path fuel faults path request rows).0
unfolding update_unit_by_path
update_unit_by_path-IsForest fuel faults path request rows forest =
    by_read (get_unit_by_path faults path rows) refl
  where
    by_read :
        (r : Result OuError OrganizationUnit)
        → get_unit_by_path faults path rows ≡ r
        → IsForest (update_unit_by_path fuel faults path request rows).0
    by_read (err e) q = rw q forest
    by_read (ok existing) q =
        rw q (update_ou_internal-IsForest fuel faults request existing rows forest)

delete_unit-IsForest :
    (faults : Faults) (members : Members) (id : String) (rows : OuRows)
    → IsForest rows
    → IsForest (delete_unit faults members id rows).0
unfolding delete_unit is_organization_unit_exists
delete_unit-IsForest faults members id rows forest =
    ground (arith, forest, delete_ou_internal-IsForest faults members id rows forest)

delete_unit_by_path-IsForest :
    (faults : Faults) (members : Members) (path : String) (rows : OuRows)
    → IsForest rows
    → IsForest (delete_unit_by_path faults members path rows).0
unfolding delete_unit_by_path
delete_unit_by_path-IsForest faults members path rows forest =
    by_read (get_unit_by_path faults path rows) refl
  where
    by_read :
        (r : Result OuError OrganizationUnit)
        → get_unit_by_path faults path rows ≡ r
        → IsForest (delete_unit_by_path faults members path rows).0
    by_read (err e) q = rw q forest
    by_read (ok existing) q =
        rw q (delete_ou_internal-IsForest faults members existing.id rows forest)

-- The calls that write, each with the faults of its run.
pub data Call : Type 0 where
  create : Faults → String → OrganizationUnitRequest → Call
  update update_by_path : ℕ → Faults → String → OrganizationUnitRequest → Call
  delete delete_by_path : Faults → Members → String → Call

unfoldable pub perform : Call → OuRows → OuRows
perform (create faults uuid request) rows = (create_unit faults uuid request rows).0
perform (update fuel faults id request) rows = (update_unit fuel faults id request rows).0
perform (update_by_path fuel faults path request) rows =
    (update_unit_by_path fuel faults path request rows).0
perform (delete faults members id) rows = (delete_unit faults members id rows).0
perform (delete_by_path faults members path) rows = (delete_unit_by_path faults members path rows).0

pub perform-IsForest : (call : Call) (rows : OuRows) → IsForest rows → IsForest (perform call rows)
unfolding perform
perform-IsForest (create faults uuid request) rows forest =
    create_unit-IsForest faults uuid request rows forest
perform-IsForest (update fuel faults id request) rows forest =
    update_unit-IsForest fuel faults id request rows forest
perform-IsForest (update_by_path fuel faults path request) rows forest =
    update_unit_by_path-IsForest fuel faults path request rows forest
perform-IsForest (delete faults members id) rows forest =
    delete_unit-IsForest faults members id rows forest
perform-IsForest (delete_by_path faults members path) rows forest =
    delete_unit_by_path-IsForest faults members path rows forest

unfoldable pub run : List Call → OuRows → OuRows
run [] rows = rows
run (call ∷ calls) rows = run calls (perform call rows)

-- Whatever the calls of the service, one after the other, and whatever faults of the database they
-- meet: in a table in which every row stands under its id and the parents of each unit lead to a root,
-- they do so afterwards.
pub run-IsForest : (calls : List Call) (rows : OuRows) → IsForest rows → IsForest (run calls rows)
unfolding run
run-IsForest [] rows forest = forest
run-IsForest (call ∷ calls) rows forest =
    run-IsForest calls (perform call rows) (perform-IsForest call rows forest)
