-- ===== src/OrgUnit/Tree/Kept.antt =====
-- A row that is written or deleted, and the forest.
use thunder_fork.Prelude.{
  String, ◌≡◌, inl, inr, false, Option, none, some, ◌==◌, arith, refl, eq_iff, Bool-cases, eq_comm,
}
use thunder_fork.Prelude.Assoc.{lookup, insert, without, lookup-insert, lookup-without}
use thunder_fork.OrgUnit.{OrganizationUnit, OuRows, any_row, is_child_of}
use thunder_fork.OrgUnit.Tree.{
  Rooted, root, below, Apart, IsForest, Agree, Apart-Agree, Rooted-Agree, Rooted-childless,
}

-- The parent of a unit, if it has one, has a root and lies apart from the unit.
abbrev pub IsPlaced : OuRows → String → Option String → Type 0
IsPlaced rows id none = Unit {0}
IsPlaced rows id (some parent) = Apart rows id parent

insert-Agree :
    (id : String) (ou : OrganizationUnit) (rows : OuRows) → Agree id rows (insert id ou rows)
insert-Agree id ou rows other n = ground (arith, lookup-insert id other ou rows, eq_comm id other)

without-Agree : (id : String) (rows : OuRows) → Agree id rows (without id rows)
without-Agree id rows other n = ground (arith, lookup-without id other rows, eq_comm id other)

placed-Rooted :
    (rows : OuRows) (ou : OrganizationUnit)
    → IsPlaced rows ou.id ou.parent
    → Rooted (insert ou.id ou rows) ou.id
placed-Rooted rows ou placed = by_parent ou.parent refl placed
  where
    at : lookup ou.id (insert ou.id ou rows) ≡ some ou
    at = ground (arith, lookup-insert ou.id ou.id ou rows, eq_iff ou.id ou.id)

    by_parent :
        (o : Option String)
        → ou.parent ≡ o
        → IsPlaced rows ou.id o
        → Rooted (insert ou.id ou rows) ou.id
    by_parent none up p = root at up
    by_parent (some parent) up p =
        below at up
          (Apart-Agree ou.id parent rows (insert ou.id ou rows) (insert-Agree ou.id ou rows) p)

-- A unit that is written to its row, under a parent that is none of its children.
pub IsForest-insert :
    (rows : OuRows) (ou : OrganizationUnit)
    → IsForest rows
    → IsPlaced rows ou.id ou.parent
    → IsForest (insert ou.id ou rows)
IsForest-insert rows ou forest placed = record {
  keyed = λ id found at.
      ground (arith, lookup-insert ou.id id ou rows, eq_iff ou.id id, forest.keyed id found);
  rooted = λ id found at. elim (Bool-cases (id == ou.id)) [
    | inl same ↦ rw ((eq_iff id ou.id).0 same) (placed-Rooted rows ou placed)
    | inr n ↦
        Rooted-Agree ou.id id rows (insert ou.id ou rows) (insert-Agree ou.id ou rows)
          (placed-Rooted rows ou placed)
          (forest.rooted id found (ground (arith, insert-Agree ou.id ou rows id)))
  ];
}

pub IsForest-without :
    (rows : OuRows) (id : String)
    → IsForest rows
    → any_row (is_child_of id) rows ≡ false
    → IsForest (without id rows)
IsForest-without rows id forest childless = record {
  keyed = λ other found at. ground (arith, lookup-without id other rows, forest.keyed other found);
  rooted = λ other found at. elim (Bool-cases (other == id)) [
    | inl same ↦ absurd (ground (arith, lookup-without id other rows, eq_comm id other))
    | inr n ↦ Apart-Agree id other rows (without id rows) (without-Agree id rows) (
        Rooted-childless id other rows childless n
          (forest.rooted other found (ground (arith, without-Agree id rows other))))
  ];
}
