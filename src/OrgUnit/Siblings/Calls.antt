-- ===== src/OrgUnit/Siblings/Calls.antt =====
-- What the calls of the service keep of the names and handles, backend/internal/ou/service.go.
use thunder_fork.Prelude.{
  ℕ, String, ◌≡◌, ◌⊎◌, inl, inr, Bool, true, false, Option, none, some, List, [], ◌∷◌, ◌==◌, arith,
  refl, eq_iff,
}
use thunder_fork.Prelude.Assoc.{
  lookup, insert, without, UniqueKeys, UniqueKeys-insert, UniqueKeys-without,
}
use thunder_fork.Prelude.Result.{Result, ok, err}
use thunder_fork.OrgUnit.{
  OrganizationUnit, OrganizationUnitRequest, OuRows, first_row, has_name, has_handle,
  check_name_conflict, check_handle_conflict, create_organization_unit, update_organization_unit,
  get_organization_unit_by_path, descend, id_of,
}
use thunder_fork.OrgUnit.Service.{
  OuError, Faults, unit_of, check_name, check_handle, create_unit, parent_differs,
  update_ou_internal, get_unit_by_path, validate_and_process_handle_path,
}
use thunder_fork.OrgUnit.Tree.{IsForest, any_row-false}
use thunder_fork.OrgUnit.Siblings.{
  clash, NoTwins, NoTwins-insert, NoTwins-without, first_row-lookup,
}

-- No key stands twice, and no two units under the same parent, or without one, have the same name or
-- the same handle.
pub record IsDistinct (rows : OuRows) : Type 0 where
  pub unique : UniqueKeys rows
  pub names : NoTwins (λ ou. ou.name) rows
  pub handles : NoTwins (λ ou. ou.handle) rows

-- The rows that the unit is written among have nothing in common with it.
abbrev IsFree : (OrganizationUnit → String) → String → OrganizationUnit → OuRows → Type 0
IsFree field id ou rows =
    (other : String) (ou' : OrganizationUnit)
    → (other == id) ≡ false
    → lookup other rows ≡ some ou'
    → clash field ou' ou ≡ false

IsDistinct-insert :
    (id : String) (ou : OrganizationUnit) (rows : OuRows)
    → IsDistinct rows
    → IsFree (λ ou. ou.name) id ou rows
    → IsFree (λ ou. ou.handle) id ou rows
    → IsDistinct (insert id ou rows)
IsDistinct-insert id ou rows distinct names handles = record {
  unique = UniqueKeys-insert id ou rows distinct.unique;
  names = NoTwins-insert (λ ou. ou.name) id ou rows distinct.names names;
  handles = NoTwins-insert (λ ou. ou.handle) id ou rows distinct.handles handles;
}

pub IsDistinct-without :
    (id : String) (rows : OuRows) → IsDistinct rows → IsDistinct (without id rows)
IsDistinct-without id rows distinct = record {
  unique = UniqueKeys-without id rows distinct.unique;
  names = NoTwins-without (λ ou. ou.name) id rows distinct.names;
  handles = NoTwins-without (λ ou. ou.handle) id rows distinct.handles;
}

checked_name-IsFree :
    (faults : Faults) (id : String) (request : OrganizationUnitRequest) (rows : OuRows)
    → check_name faults request.name request.parent rows ≡ ok tt
    → IsFree (λ ou. ou.name) id (unit_of id request) rows
unfolding check_name check_name_conflict
checked_name-IsFree faults id request rows h other ou n at =
    any_row-false (has_name request.name request.parent) rows other ou (ground arith) at

checked_handle-IsFree :
    (faults : Faults) (id : String) (request : OrganizationUnitRequest) (rows : OuRows)
    → check_handle faults request.handle request.parent rows ≡ ok tt
    → IsFree (λ ou. ou.handle) id (unit_of id request) rows
unfolding check_handle check_handle_conflict
checked_handle-IsFree faults id request rows h other ou n at =
    any_row-false (has_handle request.handle request.parent) rows other ou (ground arith) at

-- A unit that keeps its text and stays without a parent.
kept-IsFree :
    (field : OrganizationUnit → String) (existing new : OrganizationUnit) (rows : OuRows)
    → NoTwins field rows
    → lookup existing.id rows ≡ some existing
    → parent_differs existing.parent new.parent ≡ false
    → field existing ≡ field new
    → IsFree field existing.id new rows
unfolding parent_differs
kept-IsFree field existing new rows apart at still same other ou n at' =
    by_clash (clash field ou new) refl
  where
    parents : existing.parent ≡ new.parent
    parents = both existing.parent new.parent still
      where
        both : (p q : Option String) → parent_differs p q ≡ false → p ≡ q
        both none none h = refl
        both none (some q) h = cc
        both (some p) q h = cc

    by_clash : (b : Bool) → clash field ou new ≡ b → clash field ou new ≡ false
    by_clash false e = e
    by_clash true e =
        let twins : clash field ou existing ≡ true = rw (same, parents) e in
        absurd (
          ground
            (arith, eq_iff other existing.id, apart other existing.id ou existing at' at twins))

create_unit-checks :
    (faults : Faults) (uuid : String) (request : OrganizationUnitRequest) (rows : OuRows)
    → ((create_unit faults uuid request rows).0 ≡ rows)
      ⊎ (((create_unit faults uuid request rows).0 ≡ insert uuid (unit_of uuid request) rows)
          × (check_name faults request.name request.parent rows ≡ ok tt)
          × (check_handle faults request.handle request.parent rows ≡ ok tt))
unfolding create_unit create_organization_unit
create_unit-checks faults uuid request rows = ground arith

pub create_unit-IsDistinct :
    (faults : Faults) (uuid : String) (request : OrganizationUnitRequest) (rows : OuRows)
    → IsDistinct rows
    → IsDistinct (create_unit faults uuid request rows).0
create_unit-IsDistinct faults uuid request rows distinct =
    elim (create_unit-checks faults uuid request rows) [
      | inl same ↦ rw same distinct
      | inr (written, name, handle) ↦ rw written (
          IsDistinct-insert uuid (unit_of uuid request) rows distinct
            (checked_name-IsFree faults uuid request rows name)
            (checked_handle-IsFree faults uuid request rows handle))
    ]

-- A text is checked, or neither it nor the parent changes.
abbrev Checked :
    Result OuError (Unit {0}) → Option String → Option String → String → String → Type 0
Checked check old new text text' =
    (check ≡ ok tt) ⊎ ((parent_differs old new ≡ false) × (text ≡ text'))

update_ou_internal-checks :
    (fuel : ℕ) (faults : Faults) (id : String) (request : OrganizationUnitRequest)
    (existing : OrganizationUnit) (rows : OuRows)
    → ((update_ou_internal fuel faults id request existing rows).0 ≡ rows)
      ⊎ (((update_ou_internal fuel faults id request existing rows).0
            ≡ insert existing.id (unit_of existing.id request) rows)
          × Checked
              (check_name faults request.name request.parent rows)
              existing.parent
              request.parent
              existing.name
              request.name
          × Checked
              (check_handle faults request.handle request.parent rows)
              existing.parent
              request.parent
              existing.handle
              request.handle)
unfolding update_ou_internal update_organization_unit
update_ou_internal-checks fuel faults id request existing rows =
    ground (arith, eq_iff existing.name request.name, eq_iff existing.handle request.handle)

pub update_ou_internal-IsDistinct :
    (fuel : ℕ) (faults : Faults) (request : OrganizationUnitRequest) (existing : OrganizationUnit)
    (rows : OuRows)
    → lookup existing.id rows ≡ some existing
    → IsDistinct rows
    → IsDistinct (update_ou_internal fuel faults existing.id request existing rows).0
update_ou_internal-IsDistinct fuel faults request existing rows at distinct =
    elim (update_ou_internal-checks fuel faults existing.id request existing rows) [
      | inl same ↦ rw same distinct
      | inr (written, name, handle) ↦ rw written (
          IsDistinct-insert existing.id new rows distinct
            (elim name [
              | inl checked ↦ checked_name-IsFree faults existing.id request rows checked
              | inr (still, same) ↦
                  kept-IsFree (λ ou. ou.name) existing new rows distinct.names at still same
            ])
            (elim handle [
              | inl checked ↦ checked_handle-IsFree faults existing.id request rows checked
              | inr (still, same) ↦
                  kept-IsFree (λ ou. ou.handle) existing new rows distinct.handles at still same
            ]))
    ]
  where
    new : OrganizationUnit
    new = unit_of existing.id request

-- A unit that is found along a path stands under its id.
descend-lookup :
    (fails : String → Bool) (current : Option OrganizationUnit) (handles : List String)
    (rows : OuRows) (ou : OrganizationUnit)
    → IsForest rows
    → UniqueKeys rows
    → descend fails current handles rows ≡ ok ou
    → (current ≡ some ou) ⊎ (lookup ou.id rows ≡ some ou)
unfolding descend
descend-lookup fails none [] rows ou forest unique h = cc
descend-lookup fails (some x) [] rows ou forest unique h = inl (ground arith)
descend-lookup fails current (handle ∷ handles) rows ou forest unique h = inr (
    by_row (λ next. descend-lookup fails (some next) handles rows ou forest unique)
      (first_row (has_handle handle (id_of current)) rows) refl)
  where
    by_row :
        ((next : OrganizationUnit)
          → descend fails (some next) handles rows ≡ ok ou
          → (some next ≡ some ou) ⊎ (lookup ou.id rows ≡ some ou))
        → (o : Option OrganizationUnit) → first_row (has_handle handle (id_of current)) rows ≡ o
        → lookup ou.id rows ≡ some ou
    by_row ih none e = absurd (ground arith)
    by_row ih (some next) e =
        let (key, at, passes) =
          first_row-lookup (has_handle handle (id_of current)) rows next unique e in
        elim (ih next (ground arith)) [
          | inl same ↦ ground (arith, at, forest.keyed key next at, same)
          | inr there ↦ there
        ]

pub get_unit_by_path-lookup :
    (faults : Faults) (path : String) (rows : OuRows) (ou : OrganizationUnit)
    → IsForest rows
    → UniqueKeys rows
    → get_unit_by_path faults path rows ≡ ok ou
    → lookup ou.id rows ≡ some ou
unfolding get_unit_by_path get_organization_unit_by_path
get_unit_by_path-lookup faults path rows ou forest unique h =
    by_handles (validate_and_process_handle_path path) refl
  where
    by_handles :
        (r : Result OuError (List String))
        → validate_and_process_handle_path path ≡ r
        → lookup ou.id rows ≡ some ou
    by_handles (err e) q = absurd (ground arith)
    by_handles (ok handles) q =
        elim (descend-lookup faults.path_fails none handles rows ou forest unique (ground arith)) [
          | inl none_there ↦ cc
          | inr there ↦ there
        ]
