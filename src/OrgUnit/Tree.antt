-- ===== src/OrgUnit/Tree.antt =====
-- The units as a forest: from each one the parents lead to a root. What a write to one row leaves of
-- that.
pub mod Kept
pub mod Calls
pub mod Ancestors
use thunder_fork.Prelude.{
  ℕ, zero, suc, String, ◌≡◌, ◌⊎◌, inl, inr, Bool, true, false, Option, none, some, List, [], ◌∷◌,
  ◌==◌, arith, refl, eq_iff, Bool-cases, Option-cases, ◌∙◌, sym, ap,
}
use thunder_fork.Prelude.Assoc.{lookup}
use thunder_fork.OrgUnit.{OrganizationUnit, OuRows, get_organization_unit, any_row, is_child_of}
use thunder_fork.OrgUnit.Service.{Climb, at_root, missing, reached, failed, out_of_fuel, climb}

-- The parents of a unit lead to a root.
pub data Rooted : OuRows → String → Type 0 where
  root :
      {rows : OuRows} {id : String} {ou : OrganizationUnit}
      → lookup id rows ≡ some ou
      → ou.parent ≡ none
      → Rooted rows id
  below :
      {rows : OuRows} {id parent : String} {ou : OrganizationUnit}
      → lookup id rows ≡ some ou
      → ou.parent ≡ some parent
      → Rooted rows parent
      → Rooted rows id

-- They do, and neither the unit nor one of them is another.
pub data Apart : OuRows → String → String → Type 0 where
  root_apart :
      {rows : OuRows} {other id : String} {ou : OrganizationUnit}
      → (id == other) ≡ false
      → lookup id rows ≡ some ou
      → ou.parent ≡ none
      → Apart rows other id
  below_apart :
      {rows : OuRows} {other id parent : String} {ou : OrganizationUnit}
      → (id == other) ≡ false
      → lookup id rows ≡ some ou
      → ou.parent ≡ some parent
      → Apart rows other parent
      → Apart rows other id

-- Each row stands under its id, and the parents of each lead to a root.
pub record IsForest (rows : OuRows) : Type 0 where
  pub keyed : (id : String) (ou : OrganizationUnit) → lookup id rows ≡ some ou → ou.id ≡ id
  pub rooted : (id : String) (ou : OrganizationUnit) → lookup id rows ≡ some ou → Rooted rows id

-- Two tables that differ at one row at most.
abbrev pub Agree : String → OuRows → OuRows → Type 0
Agree other rows rows' = (id : String) → (id == other) ≡ false → lookup id rows' ≡ lookup id rows

pub Apart-Agree :
    (other id : String) (rows rows' : OuRows)
    → Agree other rows rows'
    → Apart rows other id
    → Rooted rows' id
Apart-Agree other id rows rows' agree (root_apart n at top) = root (agree id n ∙ at) top
Apart-Agree other id rows rows' agree (below_apart {parent = p} n at up rest) =
    below (agree id n ∙ at) up (Apart-Agree other p rows rows' agree rest)

-- The unit of a row that was written, and all others, if that one still has a root.
pub Rooted-Agree :
    (other id : String) (rows rows' : OuRows)
    → Agree other rows rows'
    → Rooted rows' other
    → Rooted rows id
    → Rooted rows' id
Rooted-Agree other id rows rows' agree new (root at top) = elim (Bool-cases (id == other)) [
  | inl same ↦ rw ((eq_iff id other).0 same) new
  | inr n ↦ root (agree id n ∙ at) top
]
Rooted-Agree other id rows rows' agree new (below {parent = p} at up rest) =
    elim (Bool-cases (id == other)) [
      | inl same ↦ rw ((eq_iff id other).0 same) new
      | inr n ↦ below (agree id n ∙ at) up (Rooted-Agree other p rows rows' agree new rest)
    ]

-- A unit that is not there is none of the parents.
pub Rooted-absent :
    (other id : String) (rows : OuRows)
    → lookup other rows ≡ none
    → Rooted rows id
    → Apart rows other id
Rooted-absent other id rows none_there (root at top) =
    root_apart (ground (arith, eq_iff id other)) at top
Rooted-absent other id rows none_there (below {parent = p} at up rest) =
    below_apart (ground (arith, eq_iff id other)) at up (Rooted-absent other p rows none_there rest)

pub any_row-false :
    (test : OrganizationUnit → Bool) (rows : OuRows) (id : String) (ou : OrganizationUnit)
    → any_row test rows ≡ false
    → lookup id rows ≡ some ou
    → test ou ≡ false
unfolding any_row lookup
any_row-false test [] id ou h at = cc
any_row-false test ((key, x) ∷ rows) id ou h at = ground (arith, any_row-false test rows id ou)

-- A unit without children is no parent.
pub Rooted-childless :
    (other id : String) (rows : OuRows)
    → any_row (is_child_of other) rows ≡ false
    → (id == other) ≡ false
    → Rooted rows id
    → Apart rows other id
Rooted-childless other id rows childless n (root at top) = root_apart n at top
Rooted-childless other id rows childless n (below {parent = p} {ou = ou} at up rest) =
    below_apart n at up (
      Rooted-childless other p rows childless
        (ground (arith, any_row-false (is_child_of other) rows id ou childless at, up)) rest)

-- A climb that passes the test for a circular dependency.
abbrev pub passes : Climb → Bool
passes at_root = true
passes missing = true
passes _ = false

pub climb-Apart :
    (fuel : ℕ) (fails : String → Bool) (other id : String) (rows : OuRows)
    → passes (climb fuel fails other (some id) rows) ≡ true
    → Rooted rows id
    → Apart rows other id
unfolding climb get_organization_unit
climb-Apart zero fails other id rows h r = cc
climb-Apart (suc fuel) fails other id rows h (root at top) = root_apart (ground arith) at top
climb-Apart (suc fuel) fails other id rows h (below {parent = p} at up rest) =
    below_apart (ground arith) at up (climb-Apart fuel fails other p rows (ground arith) rest)
