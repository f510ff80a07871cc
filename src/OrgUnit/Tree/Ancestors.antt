-- ===== src/OrgUnit/Tree/Ancestors.antt =====
-- The climb over the parents of a unit, in IsParent and checkCircularDependency of
-- backend/internal/ou/service.go: that it ends, and what it finds.
use thunder_fork.Prelude.{
  ℕ, zero, suc, ◌≤◌, String, ◌≡◌, ◌⊎◌, ◌↔◌, inl, inr, Bool, true, false, some, ◌==◌, arith, refl,
  eq_iff, Bool-cases, subst,
}
use thunder_fork.Prelude.Assoc.{lookup}
use thunder_fork.Prelude.Result.{ok, err}
use thunder_fork.OrgUnit.{OrganizationUnit, OuRows, get_organization_unit}
use thunder_fork.OrgUnit.Service.{
  Faults, reached, at_root, climb, is_blank, is_parent, check_circular_dependency,
  circular_dependency,
}
use thunder_fork.OrgUnit.Tree.{Rooted, root, below}

-- A unit is another, or one of the parents over it.
pub data Ancestor : OuRows → String → String → Type 0 where
  itself : {rows : OuRows} {id : String} → Ancestor rows id id
  above :
      {rows : OuRows} {ancestor id parent : String} {ou : OrganizationUnit}
      → lookup id rows ≡ some ou
      → ou.parent ≡ some parent
      → Ancestor rows ancestor parent
      → Ancestor rows ancestor id

-- The number of units from one to its root.
abbrev pub depth : {rows : OuRows} {id : String} → Rooted rows id → ℕ
depth (root at top) = 1
depth (below at up rest) = suc (depth rest)

Ancestor-cases :
    {rows : OuRows} {ancestor id : String}
    → Ancestor rows ancestor id
    → (id ≡ ancestor)
      ⊎ ((ou : OrganizationUnit) × (parent : String) × (lookup id rows ≡ some ou)
          × (ou.parent ≡ some parent)
          × Ancestor rows ancestor parent)
Ancestor-cases itself = inl refl
Ancestor-cases (above {parent = parent} {ou = ou} at up rest) = inr (ou, parent, at, up, rest)

abbrev Found : ℕ → (String → Bool) → String → String → OuRows → Type 0
Found fuel fails target id rows =
    ((climb fuel fails target (some id) rows ≡ reached) × Ancestor rows target id)
    ⊎ ((climb fuel fails target (some id) rows ≡ at_root) × (Ancestor rows target id → ⊥))

climb-Found :
    (fuel : ℕ) (fails : String → Bool) (target id : String) (rows : OuRows)
    → ((x : String) → fails x ≡ false)
    → (r : Rooted rows id) → depth r ≤ fuel
    → Found fuel fails target id rows
unfolding climb get_organization_unit
climb-Found zero fails target id rows works (root at top) enough = absurd (omega arith)
climb-Found zero fails target id rows works (below at up rest) enough = absurd (omega arith)
climb-Found (suc fuel) fails target id rows works (root at top) enough =
    elim (Bool-cases (id == target)) [
      | inl same ↦
          inl (ground arith, subst (λ t. Ancestor rows t id) ((eq_iff id target).0 same) itself)
      | inr n ↦ inr (
        ground (arith, at, top, works id),
        λ a. elim (Ancestor-cases a) [
          | inl same ↦ absurd (ground (arith, eq_iff id target))
          | inr (ou, parent, at', up, rest) ↦ absurd (ground (arith, at, at', top, up))
        ],
      )
    ]
climb-Found (suc fuel) fails target id rows works (below {parent = p} {ou = ou} at up rest) enough =
    elim (Bool-cases (id == target)) [
      | inl same ↦
          inl (ground arith, subst (λ t. Ancestor rows t id) ((eq_iff id target).0 same) itself)
      | inr n ↦ elim (climb-Found fuel fails target p rows works rest (omega arith)) [
        | inl (found, a) ↦ inl (ground (arith, at, up, works id, found), above at up a)
        | inr (found, not_above) ↦ inr (
          ground (arith, at, up, works id, found),
          λ a. elim (Ancestor-cases a) [
            | inl same ↦ absurd (ground (arith, eq_iff id target))
            | inr (ou', parent, at', up', rest') ↦
                not_above
                  (subst (λ q. Ancestor rows target q) (ground (arith, at, at', up, up')) rest')
          ],
        )
      ]
    ]

-- On a unit whose parents lead to a root, with the number of units up to there as fuel, and if no read
-- fails: IsParent answers, for ids that are not blank, and answers true exactly if the one unit is the
-- other or among its parents; and the test for a circular dependency fails exactly if the unit is its
-- new parent or among the parents over that.
pub climbs_decide :
    (fuel : ℕ) (faults : Faults) (target id : String) (rows : OuRows) (r : Rooted rows id)
    → ((x : String) → faults.get_fails x ≡ false)
    → depth r ≤ fuel
    → (is_blank target ≡ false
        → is_blank id ≡ false
        → (b : Bool) × (is_parent fuel faults target id rows ≡ ok b)
          × ((b ≡ true) ↔ Ancestor rows target id))
      × ((check_circular_dependency fuel faults target (some id) rows ≡ err circular_dependency)
          ↔ Ancestor rows target id)
      × ((check_circular_dependency fuel faults target (some id) rows ≡ ok tt)
          ↔ (Ancestor rows target id → ⊥))
unfolding is_parent check_circular_dependency
climbs_decide fuel faults target id rows r works enough =
    elim (climb-Found fuel faults.get_fails target id rows works r enough) [
      | inl (found, a) ↦ (
        λ n m. (true, ground (arith, found), (λ _. a, λ _. refl)),
        (λ _. a, λ _. ground (arith, found)),
        (λ h. absurd (ground (arith, found)), λ none_above. absurd (none_above a)),
      )
      | inr (found, none_above) ↦ (
        λ n m. (false, ground (arith, found), (λ h. cc, λ a. absurd (none_above a))),
        (λ h. absurd (ground (arith, found)), λ a. absurd (none_above a)),
        (λ _. none_above, λ _. ground (arith, found)),
      )
    ]
