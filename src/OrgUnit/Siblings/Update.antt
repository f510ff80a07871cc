-- ===== src/OrgUnit/Siblings/Update.antt =====
-- An update that leaves a unit under its parent, updateOUInternal of backend/internal/ou/service.go.
use thunder_fork.Prelude.{
  ℕ, String, ◌≡◌, ◌≢◌, ◌⊎◌, inl, inr, true, some, arith, refl, eq_refl, Bool-cases,
}
use thunder_fork.Prelude.Assoc.{lookup}
use thunder_fork.Prelude.Result.{ok}
use thunder_fork.OrgUnit.{
  OrganizationUnit, OrganizationUnitRequest, OuRows, any_row, has_name, has_handle,
  check_name_conflict, check_handle_conflict, get_organization_unit,
}
use thunder_fork.OrgUnit.Service.{
  Faults, check_name, check_handle, parent_differs, update_ou_internal, update_unit, get_unit,
}
use thunder_fork.OrgUnit.Siblings.{any_row-true, same_parent_refl}

-- The request keeps the name or the handle of the unit.
abbrev pub Keeps : OrganizationUnitRequest → OrganizationUnit → Type 0
Keeps request existing = (request.name ≡ existing.name) ⊎ (request.handle ≡ existing.handle)

module _ (faults : Faults) (request : OrganizationUnitRequest) (existing : OrganizationUnit)
    (id : String) (rows : OuRows) where
  -- The unit itself has the name or the handle that is looked for.
  kept-conflict :
      lookup id rows ≡ some existing
      → request.parent ≡ existing.parent
      → Keeps request existing
      → (any_row (has_name request.name request.parent) rows ≡ true)
        ⊎ (any_row (has_handle request.handle request.parent) rows ≡ true)
  kept-conflict at same (inl kept) = inl (
      any_row-true (has_name request.name request.parent) rows id existing at
        (ground (arith, kept, same, eq_refl existing.name, same_parent_refl existing.parent)))
  kept-conflict at same (inr kept) = inr (
      any_row-true (has_handle request.handle request.parent) rows id existing at
        (ground (arith, kept, same, eq_refl existing.handle, same_parent_refl existing.parent)))

  update_ou_internal-refused :
      (fuel : ℕ) (parent : String)
      → existing.parent ≡ some parent
      → request.parent ≡ existing.parent
      → (any_row (has_name request.name request.parent) rows ≡ true)
        ⊎ (any_row (has_handle request.handle request.parent) rows ≡ true)
      → ((update_ou_internal fuel faults id request existing rows).0 ≡ rows)
        × ((u : OrganizationUnit)
            → (update_ou_internal fuel faults id request existing rows).1 ≢ ok u)
  unfolding update_ou_internal parent_differs check_name check_handle check_name_conflict
      check_handle_conflict
  update_ou_internal-refused fuel parent up same conflict =
      let moved : parent_differs existing.parent request.parent ≡ true = rw (same, up) refl in
      (ground (arith, moved, conflict), λ u h. ground (arith, moved, conflict, h))

  -- An update of a unit that has a parent, with the same parent and the same name or the same handle, is
  -- never carried out: it leaves the table as it was and does not return a unit.
  pub update_unit-refused :
      (fuel : ℕ) (parent : String)
      → lookup id rows ≡ some existing
      → existing.parent ≡ some parent
      → request.parent ≡ existing.parent
      → Keeps request existing
      → ((update_unit fuel faults id request rows).0 ≡ rows)
        × ((u : OrganizationUnit) → (update_unit fuel faults id request rows).1 ≢ ok u)
  unfolding update_unit get_unit get_organization_unit
  update_unit-refused fuel parent at up same keeps =
      let (kept, refused) =
        update_ou_internal-refused fuel parent up same (kept-conflict at same keeps) in
      elim (Bool-cases (faults.get_fails id)) [
        | inl fails ↦ (ground (arith, fails), λ u h. ground (arith, fails, h))
        | inr works ↦
            (ground (arith, works, at, kept), λ u h. refused u (ground (arith, works, at, h)))
      ]
