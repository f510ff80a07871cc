-- ===== src/OrgUnit/Siblings.antt =====
-- Units under the same parent: their names and handles, and what a write to one row leaves of that.
pub mod Calls
pub mod Run
pub mod Update
use thunder_fork.Prelude.{
  ℕ, String, ◌≡◌, Bool, true, false, Option, none, some, List, [], ◌∷◌, ◌==◌, ◌&&◌, ◌||◌, arith,
  refl, eq_iff, eq_refl, eq_comm, Bool-cases, inl, inr, if◌then◌else◌, ap, sym, ◌∙◌, is_some,
  some_of_is_some,
}
use thunder_fork.Prelude.Assoc.{
  lookup, insert, without, has, lookup-insert, lookup-without, UniqueKeys, UniqueKeys-insert,
  UniqueKeys-without,
}
use thunder_fork.OrgUnit.{OrganizationUnit, OuRows, same_parent, any_row, first_row}

-- A text of a unit that another one under the same parent must not have.
abbrev pub clash : (OrganizationUnit → String) → OrganizationUnit → OrganizationUnit → Bool
clash field ou other = field ou == field other && same_parent ou.parent other.parent

-- No two units under the same parent have that text in common.
abbrev pub NoTwins : (OrganizationUnit → String) → OuRows → Type 0
NoTwins field rows =
    (id other : String) (ou ou' : OrganizationUnit)
    → lookup id rows ≡ some ou
    → lookup other rows ≡ some ou'
    → clash field ou ou' ≡ true
    → id ≡ other

same_parent_comm : (p q : Option String) → same_parent p q ≡ same_parent q p
same_parent_comm none none = refl
same_parent_comm none (some q) = refl
same_parent_comm (some p) none = refl
same_parent_comm (some p) (some q) = eq_comm p q

pub same_parent-eq : (p q : Option String) → same_parent p q ≡ true → p ≡ q
same_parent-eq none none h = refl
same_parent-eq none (some q) h = cc
same_parent-eq (some p) none h = cc
same_parent-eq (some p) (some q) h = ap some ((eq_iff p q).0 h)

pub same_parent_refl : (p : Option String) → same_parent p p ≡ true
same_parent_refl none = refl
same_parent_refl (some p) = eq_refl p

clash_comm :
    (field : OrganizationUnit → String) (ou other : OrganizationUnit)
    → clash field ou other ≡ clash field other ou
clash_comm field ou other =
    rw (eq_comm (field ou) (field other), same_parent_comm ou.parent other.parent) refl

pub NoTwins-insert :
    (field : OrganizationUnit → String) (id : String) (ou : OrganizationUnit) (rows : OuRows)
    → NoTwins field rows
    → ((other : String) (ou' : OrganizationUnit)
        → (other == id) ≡ false
        → lookup other rows ≡ some ou'
        → clash field ou' ou ≡ false)
    → NoTwins field (insert id ou rows)
NoTwins-insert field id ou rows apart free a b x y at at' c = elim (Bool-cases (a == id)) [
  | inl p ↦ elim (Bool-cases (b == id)) [
    | inl q ↦ ground (arith, eq_iff a id, eq_iff b id)
    | inr q ↦ absurd (
        ground (
          arith,
          lookup-insert id a ou rows,
          lookup-insert id b ou rows,
          eq_comm id a,
          eq_comm id b,
          free b y q,
          clash_comm field x y,
        ))
  ]
  | inr p ↦ elim (Bool-cases (b == id)) [
    | inl q ↦ absurd (
        ground (
          arith,
          lookup-insert id a ou rows,
          lookup-insert id b ou rows,
          eq_comm id a,
          eq_comm id b,
          free a x p,
        ))
    | inr q ↦
        apart a b x y (ground (arith, lookup-insert id a ou rows, eq_comm id a))
          (ground (arith, lookup-insert id b ou rows, eq_comm id b)) c
  ]
]

pub NoTwins-without :
    (field : OrganizationUnit → String) (id : String) (rows : OuRows)
    → NoTwins field rows
    → NoTwins field (without id rows)
NoTwins-without field id rows apart a b x y at at' c =
    apart a b x y (ground (arith, lookup-without id a rows))
      (ground (arith, lookup-without id b rows)) c

-- A row that passes a test, and the key under which it stands.
pub first_row-lookup :
    (test : OrganizationUnit → Bool) (rows : OuRows) (ou : OrganizationUnit)
    → UniqueKeys rows
    → first_row test rows ≡ some ou
    → (id : String) × (lookup id rows ≡ some ou) × (test ou ≡ true)
unfolding first_row lookup
first_row-lookup test [] ou unique h = cc
first_row-lookup test ((key, x) ∷ rows) ou unique h = elim (Bool-cases (test x)) [
  | inl passes ↦ (key, ground (arith, eq_refl key), ground arith)
  | inr fails ↦
      (let (id, at, passes) = first_row-lookup test rows ou unique.1 (ground arith) in
        (id, ground (arith, eq_iff key id), passes))
]

pub first_row-some :
    (test : OrganizationUnit → Bool) (rows : OuRows) (id : String) (ou : OrganizationUnit)
    → lookup id rows ≡ some ou
    → test ou ≡ true
    → (found : OrganizationUnit) × (first_row test rows ≡ some found)
unfolding first_row lookup
first_row-some test [] id ou at passes = cc
first_row-some test ((key, x) ∷ rows) id ou at passes = elim (Bool-cases (test x)) [
  | inl first ↦ (x, ground arith)
  | inr later ↦
      (let (found, h) = first_row-some test rows id ou (ground arith) passes in
        (found, ground arith))
]

pub any_row-true :
    (test : OrganizationUnit → Bool) (rows : OuRows) (id : String) (ou : OrganizationUnit)
    → lookup id rows ≡ some ou
    → test ou ≡ true
    → any_row test rows ≡ true
unfolding any_row lookup
any_row-true test [] id ou at passes = cc
any_row-true test ((key, x) ∷ rows) id ou at passes = ground (arith, any_row-true test rows id ou)
