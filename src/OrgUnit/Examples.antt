-- ===== src/OrgUnit/Examples.antt =====
-- Concrete organization units: tests, and the theorems at concrete inputs.
use thunder_fork.Prelude.{
  ℕ, String, ◌≡◌, ◌≢◌, ◌↔◌, Bool, true, false, Option, none, some, List, [], ◌∷◌, ◌==◌, refl, inl,
  inr, arith, subst,
}
use thunder_fork.Prelude.Assoc.{insert, lookup}
use thunder_fork.Prelude.Result.{ok, err}
use thunder_fork.OrgUnit.{
  create_organization_unit, check_has_child_resources, is_organization_unit_exists,
  check_name_conflict, any_row, check_handle_conflict, OrganizationUnit, OrganizationUnitRequest,
  OuRows, Members, get_organization_unit_by_path,
}
use thunder_fork.OrgUnit.Service.{
  delete_unit, check_request, validate_ou_name, validate_ou_handle, check_parent, check_name,
  check_handle, Faults, is_parent, is_blank, check_circular_dependency, circular_dependency,
  name_conflict, create_unit, update_unit,
}
use thunder_fork.OrgUnit.Tree.{Rooted, root, below, IsForest}
use thunder_fork.OrgUnit.Tree.Calls.{perform, Call, create, delete, run, run-IsForest}
use thunder_fork.OrgUnit.Tree.Ancestors.{Ancestor, climbs_decide}
use thunder_fork.OrgUnit.Siblings.Calls.{IsDistinct}
use thunder_fork.OrgUnit.Siblings.Run.{run-IsDistinct}
use thunder_fork.OrgUnit.Siblings.Update.{update_unit-refused}
use thunder_fork.OrgUnit.Paths.{Leads, get_by_path_iff}
use thunder_fork.Prelude.Int.{pos, negsuc, int64}
use thunder_fork.OrgUnit.Pages.{next, last, Link, ListResponse, ListFaults, build_pagination_links}
use thunder_fork.OrgUnit.Pages.Laws.{next_of}
use thunder_fork.Prelude.Texts.{trim_space, has_char}

abbrev no_faults : Faults
no_faults = record {
  get_fails = λ id. false;
  path_fails = λ handle. false;
  exists_fails = false;
  name_fails = false;
  handle_fails = false;
  children_fails = false;
  write_fails = false;
}

abbrev request : String → Option String → OrganizationUnitRequest
request name parent = record { handle = name; name = name; description = ""; parent = parent }

abbrev unit : String → String → Option String → OrganizationUnit
unit id name parent = record {
  id = id;
  handle = name;
  name = name;
  description = "";
  parent = parent;
}

abbrev nobody : Members
nobody = record { users = []; groups = [] }

abbrev corp : OrganizationUnit
corp = unit "1" "corp" none

abbrev sales : OrganizationUnit
sales = unit "2" "sales" (some "1")

abbrev rows : OuRows
rows = ("1", corp) ∷ ("2", sales) ∷ []

-- Two units are created; the one that is a parent stays.
abbrev calls : List Call
calls =
    create no_faults "1" (request "corp" none)
    ∷ create no_faults "2" (request "sales" (some "1"))
    ∷ delete no_faults nobody "1"
    ∷ []

calls-run : run calls [] ≡ rows
unfolding run perform delete_unit is_organization_unit_exists lookup create_unit check_request
    validate_ou_name trim_space validate_ou_handle has_char check_parent check_name
    check_name_conflict any_row check_handle check_handle_conflict create_organization_unit insert
    check_has_child_resources
calls-run = refl

empty-IsForest : IsForest []
unfolding lookup
empty-IsForest = record { keyed = λ id ou at. cc; rooted = λ id ou at. cc }

empty-IsDistinct : IsDistinct []
unfolding lookup
empty-IsDistinct = record {
  unique = tt;
  names = λ id other ou ou' at at' c. cc;
  handles = λ id other ou ou' at at' c. cc;
}

run-IsForest_example : IsForest (run calls [])
run-IsForest_example = run-IsForest calls [] empty-IsForest

run-IsDistinct_example : IsDistinct (run calls [])
run-IsDistinct_example = run-IsDistinct calls [] empty-IsForest empty-IsDistinct

rows-IsForest : IsForest rows
rows-IsForest = subst IsForest calls-run (run-IsForest calls [] empty-IsForest)

rows-IsDistinct : IsDistinct rows
rows-IsDistinct =
    subst IsDistinct calls-run (run-IsDistinct calls [] empty-IsForest empty-IsDistinct)

sales-Rooted : Rooted rows "2"
unfolding lookup
sales-Rooted = below {ou = sales} refl refl (root {ou = corp} refl refl)

climbs_decide_example :
    (is_blank "1" ≡ false
      → is_blank "2" ≡ false
      → (b : Bool) × (is_parent 2 no_faults "1" "2" rows ≡ ok b)
        × ((b ≡ true) ↔ Ancestor rows "1" "2"))
    × ((check_circular_dependency 2 no_faults "1" (some "2") rows ≡ err circular_dependency)
        ↔ Ancestor rows "1" "2")
    × ((check_circular_dependency 2 no_faults "1" (some "2") rows ≡ ok tt)
        ↔ (Ancestor rows "1" "2" → ⊥))
unfolding lookup
climbs_decide_example =
    climbs_decide 2 no_faults "1" "2" rows
      (below {ou = sales} refl refl (root {ou = corp} refl refl)) (λ x. refl) (omega arith)

-- The root cannot be moved below its child.
moved_below :
    (update_unit 3 no_faults "1" (request "corp" (some "2")) rows).1 ≡ err circular_dependency
unfolding update_unit thunder_fork.OrgUnit.get_organization_unit lookup
    thunder_fork.OrgUnit.Service.update_ou_internal thunder_fork.OrgUnit.Service.check_request
    thunder_fork.OrgUnit.Service.validate_ou_name thunder_fork.Prelude.Texts.trim_space
    thunder_fork.OrgUnit.Service.validate_ou_handle thunder_fork.Prelude.Texts.has_char
    thunder_fork.OrgUnit.Service.check_parent thunder_fork.OrgUnit.is_organization_unit_exists
    check_circular_dependency thunder_fork.OrgUnit.Service.climb
moved_below = refl

get_by_path_iff_example :
    (get_organization_unit_by_path (λ h. false) ("corp" ∷ "sales" ∷ []) rows ≡ ok sales)
    ↔ ((lookup "2" rows ≡ some sales) × Leads rows none ("corp" ∷ "sales" ∷ []) "2")
get_by_path_iff_example =
    get_by_path_iff rows (λ h. false) ("corp" ∷ "sales" ∷ []) sales rows-IsForest rows-IsDistinct
      (λ h. refl)

found_by_path : get_organization_unit_by_path (λ h. false) ("corp" ∷ "sales" ∷ []) rows ≡ ok sales
unfolding get_organization_unit_by_path
found_by_path = refl

-- An update of the description only.
abbrev described : OrganizationUnitRequest
described = record { handle = "sales"; name = "sales"; description = "d"; parent = some "1" }

described_refused : update_unit 3 no_faults "2" described rows ≡ (rows, err name_conflict)
unfolding update_unit thunder_fork.OrgUnit.get_organization_unit lookup
    thunder_fork.OrgUnit.Service.update_ou_internal thunder_fork.OrgUnit.Service.check_request
    thunder_fork.OrgUnit.Service.validate_ou_name thunder_fork.Prelude.Texts.trim_space
    thunder_fork.OrgUnit.Service.validate_ou_handle thunder_fork.Prelude.Texts.has_char
    thunder_fork.OrgUnit.Service.check_parent thunder_fork.OrgUnit.is_organization_unit_exists
    check_circular_dependency thunder_fork.OrgUnit.Service.climb
    thunder_fork.OrgUnit.Service.check_name thunder_fork.OrgUnit.check_name_conflict
    thunder_fork.OrgUnit.any_row
described_refused = refl

update_unit-refused_example :
    ((update_unit 3 no_faults "2" described rows).0 ≡ rows)
    × ((u : OrganizationUnit) → (update_unit 3 no_faults "2" described rows).1 ≢ ok u)
unfolding lookup
update_unit-refused_example =
    update_unit-refused no_faults described sales "2" rows 3 "1" refl refl refl (inl refl)

abbrev reads : ListFaults
reads = record { list_fails = false; count_fails = false }

abbrev by_one : List OrganizationUnit → List OrganizationUnit
by_one units = units

abbrev first_of_two : ListResponse OrganizationUnit
first_of_two = record {
  total_results = 2;
  items = corp ∷ [];
  start_index = pos 1;
  count = 1;
  links =
      record { rel = next; offset = pos 1; limit = 1 }
      ∷ record { rel = last; offset = pos 1; limit = 1 }
      ∷ [];
}

-- The link to the next page at the largest offset.
wrapped_link :
    next_of (build_pagination_links 30 0x7fff_ffff_ffff_ffff 2)
    ≡ some (record { rel = next; offset = negsuc 0x7fff_ffff_ffff_ffe2; limit = 30 })
unfolding build_pagination_links int64
wrapped_link = refl
