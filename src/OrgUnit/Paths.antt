-- ===== src/OrgUnit/Paths.antt =====
-- Units by their paths, GetOrganizationUnitByPath of backend/internal/ou/store.go and service.go.
use thunder_fork.Prelude.{
  String, ◌≡◌, ◌↔◌, Bool, true, false, Option, none, some, List, [], ◌∷◌, arith, refl, eq_iff,
  eq_refl, ap, sym, ◌∙◌, subst,
}
use thunder_fork.Prelude.Assoc.{lookup}
use thunder_fork.Prelude.Result.{ok}
use thunder_fork.OrgUnit.{
  OrganizationUnit, OuRows, first_row, has_handle, descend, id_of, get_organization_unit_by_path,
}
use thunder_fork.OrgUnit.Tree.{IsForest}
use thunder_fork.OrgUnit.Siblings.{
  clash, first_row-lookup, first_row-some, same_parent-eq, same_parent_refl,
}
use thunder_fork.OrgUnit.Siblings.Calls.{IsDistinct}

-- The handles lead from a unit, or from above the roots, down to another: each is that of a child.
pub data Leads : OuRows → Option String → List String → String → Type 0 where
  here : {rows : OuRows} {id : String} → Leads rows (some id) [] id
  down :
      {rows : OuRows} {start : Option String} {child id : String} {handles : List String}
      {ou : OrganizationUnit}
      → lookup child rows ≡ some ou
      → ou.parent ≡ start
      → Leads rows (some child) handles id
      → Leads rows start (ou.handle ∷ handles) id

-- The unit that a walk is at stands under its id.
abbrev IsAt : OuRows → Option OrganizationUnit → Type 0
IsAt rows none = Unit {0}
IsAt rows (some ou) = lookup ou.id rows ≡ some ou

module _ (rows : OuRows) (forest : IsForest rows) (distinct : IsDistinct rows)
    (fails : String → Bool) where
  descend-Leads :
      (current : Option OrganizationUnit) (handles : List String) (ou : OrganizationUnit)
      → IsAt rows current
      → descend fails current handles rows ≡ ok ou
      → (lookup ou.id rows ≡ some ou) × Leads rows (id_of current) handles ou.id
  unfolding descend
  descend-Leads none [] ou at h = cc
  descend-Leads (some x) [] ou at h =
      let same : x ≡ ou = ground arith in
      subst (λ y. (lookup y.id rows ≡ some y) × Leads rows (some x.id) [] y.id) same (at, here)
  descend-Leads current (handle ∷ handles) ou at h =
      by_row (λ next. descend-Leads (some next) handles ou)
        (first_row (has_handle handle (id_of current)) rows) refl
    where
      by_row :
          ((next : OrganizationUnit)
            → IsAt rows (some next)
            → descend fails (some next) handles rows ≡ ok ou
            → (lookup ou.id rows ≡ some ou) × Leads rows (some next.id) handles ou.id)
          → (o : Option OrganizationUnit) → first_row (has_handle handle (id_of current)) rows ≡ o
          → (lookup ou.id rows ≡ some ou) × Leads rows (id_of current) (handle ∷ handles) ou.id
      by_row ih none e = absurd (ground arith)
      by_row ih (some next) e =
          let (key, there, passes) =
            first_row-lookup (has_handle handle (id_of current)) rows next distinct.unique e in
          let at_id : lookup next.id rows ≡ some next =
            ap (λ i. lookup i rows) (forest.keyed key next there) ∙ there in
          let (found, leads) = ih next at_id (ground arith) in
          (
            found,
            subst (λ t. Leads rows (id_of current) (t ∷ handles) ou.id)
                ((eq_iff next.handle handle).0 (ground arith))
                (down at_id (same_parent-eq next.parent (id_of current) (ground arith)) leads),
          )

  Leads-descend :
      (current : Option OrganizationUnit) (handles : List String) (ou : OrganizationUnit)
      (start : Option String)
      → Leads rows start handles ou.id
      → start ≡ id_of current
      → ((h : String) → fails h ≡ false)
      → IsAt rows current
      → lookup ou.id rows ≡ some ou
      → descend fails current handles rows ≡ ok ou
  unfolding descend
  Leads-descend none handles ou start here s works at found = cc
  Leads-descend (some x) handles ou start here s works at found = ground (arith, s, at, found)
  Leads-descend current handles ou start
        (down {child = child} {handles = hs} {ou = next} there up rest) s works at found =
      let test = has_handle next.handle (id_of current) in
      let passes : test next ≡ true =
        ground (arith, eq_refl next.handle, same_parent_refl (id_of current), up, s) in
      let (row, first) = first_row-some test rows child next there passes in
      let (key, at_key, row_passes) = first_row-lookup test rows row distinct.unique first in
      let twins : clash (λ ou. ou.handle) row next ≡ true = rw (up, s) row_passes in
      let same_key : key ≡ child = distinct.handles key child row next at_key there twins in
      let same : row ≡ next = ground (arith, same_key, at_key, there) in
      let keyed : next.id ≡ child = forest.keyed child next there in
      let ih : descend fails (some next) hs rows ≡ ok ou =
        Leads-descend (some next) hs ou (some child) rest (ap some (sym keyed)) works
          (ap (λ i. lookup i rows) keyed ∙ there) found in
      ground (arith, works next.handle, first, same, ih)

-- In a forest whose siblings have different handles, and if no read fails, the look-up by a path gives
-- a unit exactly if the table holds it under its id and the handles lead to it from above the roots.
pub get_by_path_iff :
    (rows : OuRows) (fails : String → Bool) (handles : List String) (ou : OrganizationUnit)
    → IsForest rows
    → IsDistinct rows
    → ((h : String) → fails h ≡ false)
    → (get_organization_unit_by_path fails handles rows ≡ ok ou)
      ↔ ((lookup ou.id rows ≡ some ou) × Leads rows none handles ou.id)
unfolding get_organization_unit_by_path
get_by_path_iff rows fails handles ou forest distinct works = (
  λ h. descend-Leads rows forest distinct fails none handles ou tt h,
  λ (found, leads).
      Leads-descend rows forest distinct fails none handles ou none leads refl works tt found,
)
