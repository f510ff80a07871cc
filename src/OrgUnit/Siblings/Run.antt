-- ===== src/OrgUnit/Siblings/Run.antt =====
-- Names and handles after a series of calls of the service, backend/internal/ou/service.go.
use thunder_fork.Prelude.{ℕ, String, ◌≡◌, inl, inr, List, [], ◌∷◌, arith, refl, sym, ap, ◌∙◌}
use thunder_fork.Prelude.Assoc.{lookup}
use thunder_fork.Prelude.Result.{Result, ok, err}
use thunder_fork.OrgUnit.{
  OrganizationUnit, OrganizationUnitRequest, OuRows, Members, is_organization_unit_exists,
}
use thunder_fork.OrgUnit.Service.{
  OuError, Faults, update_unit, update_unit_by_path, get_unit, get_unit_by_path, delete_ou_internal,
  delete_unit, delete_unit_by_path,
}
use thunder_fork.OrgUnit.Tree.{IsForest}
use thunder_fork.OrgUnit.Tree.Calls.{
  Call, create, update, update_by_path, delete, delete_by_path, perform, run, get_unit-lookup,
  perform-IsForest, delete_ou_internal-cases,
}
use thunder_fork.OrgUnit.Siblings.Calls.{
  IsDistinct, IsDistinct-without, create_unit-IsDistinct, update_ou_internal-IsDistinct,
  get_unit_by_path-lookup,
}

delete_ou_internal-IsDistinct :
    (faults : Faults) (members : Members) (id : String) (rows : OuRows)
    → IsDistinct rows
    → IsDistinct (delete_ou_internal faults members id rows).0
delete_ou_internal-IsDistinct faults members id rows distinct =
    elim (delete_ou_internal-cases faults members id rows) [
      | inl same ↦ rw same distinct
      | inr (deleted, childless) ↦ rw deleted (IsDistinct-without id rows distinct)
    ]

update_unit-IsDistinct :
    (fuel : ℕ) (faults : Faults) (id : String) (request : OrganizationUnitRequest) (rows : OuRows)
    → IsForest rows
    → IsDistinct rows
    → IsDistinct (update_unit fuel faults id request rows).0
unfolding update_unit
update_unit-IsDistinct fuel faults id request rows forest distinct =
    by_read (get_unit faults id rows) refl
  where
    by_read :
        (r : Result OuError OrganizationUnit)
        → get_unit faults id rows ≡ r
        → IsDistinct (update_unit fuel faults id request rows).0
    by_read (err e) q = rw q distinct
    by_read (ok existing) q =
        let at = get_unit-lookup faults id rows existing q in
        let same : existing.id ≡ id = forest.keyed id existing at in
        rw (q, sym same)
          (update_ou_internal-IsDistinct fuel faults request existing rows
            (ap (λ i. lookup i rows) same ∙ at) distinct)

update_unit_by_path-IsDistinct :
    (fuel : ℕ) (faults : Faults) (path : String) (request : OrganizationUnitRequest) (rows : OuRows)
    → IsForest rows
    → IsDistinct rows
    → IsDistinct (update_unit_by_path fuel faults path request rows).0
unfolding update_unit_by_path
update_unit_by_path-IsDistinct fuel faults path request rows forest distinct =
    by_read (get_unit_by_path faults path rows) refl
  where
    by_read :
        (r : Result OuError OrganizationUnit)
        → get_unit_by_path faults path rows ≡ r
        → IsDistinct (update_unit_by_path fuel faults path request rows).0
    by_read (err e) q = rw q distinct
    by_read (ok existing) q = rw q (
        update_ou_internal-IsDistinct fuel faults request existing rows
          (get_unit_by_path-lookup faults path rows existing forest distinct.unique q) distinct)

delete_unit-IsDistinct :
    (faults : Faults) (members : Members) (id : String) (rows : OuRows)
    → IsDistinct rows
    → IsDistinct (delete_unit faults members id rows).0
unfolding delete_unit is_organization_unit_exists
delete_unit-IsDistinct faults members id rows distinct =
    ground (arith, distinct, delete_ou_internal-IsDistinct faults members id rows distinct)

delete_unit_by_path-IsDistinct :
    (faults : Faults) (members : Members) (path : String) (rows : OuRows)
    → IsDistinct rows
    → IsDistinct (delete_unit_by_path faults members path rows).0
unfolding delete_unit_by_path
delete_unit_by_path-IsDistinct faults members path rows distinct =
    by_read (get_unit_by_path faults path rows) refl
  where
    by_read :
        (r : Result OuError OrganizationUnit)
        → get_unit_by_path faults path rows ≡ r
        → IsDistinct (delete_unit_by_path faults members path rows).0
    by_read (err e) q = rw q distinct
    by_read (ok existing) q =
        rw q (delete_ou_internal-IsDistinct faults members existing.id rows distinct)

perform-IsDistinct :
    (call : Call) (rows : OuRows) → IsForest rows → IsDistinct rows → IsDistinct (perform call rows)
unfolding perform
perform-IsDistinct (create faults uuid request) rows forest distinct =
    create_unit-IsDistinct faults uuid request rows distinct
perform-IsDistinct (update fuel faults id request) rows forest distinct =
    update_unit-IsDistinct fuel faults id request rows forest distinct
perform-IsDistinct (update_by_path fuel faults path request) rows forest distinct =
    update_unit_by_path-IsDistinct fuel faults path request rows forest distinct
perform-IsDistinct (delete faults members id) rows forest distinct =
    delete_unit-IsDistinct faults members id rows distinct
perform-IsDistinct (delete_by_path faults members path) rows forest distinct =
    delete_unit_by_path-IsDistinct faults members path rows distinct

-- Whatever the calls of the service, one after the other, and whatever faults of the database they
-- meet: in a table of a forest that holds no key twice, and no two units with the same parent, or both
-- without one, and the same name or the same handle, that is so afterwards.
pub run-IsDistinct :
    (calls : List Call) (rows : OuRows)
    → IsForest rows
    → IsDistinct rows
    → IsDistinct (run calls rows)
unfolding run
run-IsDistinct [] rows forest distinct = distinct
run-IsDistinct (call ∷ calls) rows forest distinct =
    run-IsDistinct calls (perform call rows) (perform-IsForest call rows forest)
      (perform-IsDistinct call rows forest distinct)
