-- ===== src/OrgUnit/Pages.antt =====
-- Lists of units, users and groups in pages, backend/internal/ou/service.go, with the queries of
-- store.go.
--
-- The order of a query is a parameter. Of the text of a link the model keeps the two numbers. The
-- assertion of the type of the items is left out. A Go `int` has 64 bits, and a sum of two wraps.
pub mod Laws
pub mod Follow
use Prim.Native.Nat.{◌*◌, ◌/◌}
use thunder_fork.Prelude.{
  ℕ, ◌+◌, ◌-◌, String, Bool, none, List, [], ◌∷◌, ◌++◌, length, ltb, take, drop, if◌then◌else◌,
  ◌||◌,
}
use thunder_fork.Prelude.Int.{ℤ, pos, negsuc, int64, ltb_ℤ}
use thunder_fork.Prelude.Result.{Result, ok, err, ◌>>=◌, ◌>>◌, guard}
use thunder_fork.OrgUnit.{
  OrganizationUnit, OuRows, Member, Members, fault, rows_with, same_parent, is_child_of, members_of,
  is_organization_unit_exists,
}
use thunder_fork.OrgUnit.Service.{
  OuError, invalid_limit, invalid_offset, unit_not_found, Faults, from_store, get_unit_by_path,
}

-- `serverconst.MaxPageSize`
abbrev pub max_page_size : ℕ
max_page_size = 100

-- The limit and the offset, which are natural numbers if they pass.
unfoldable pub validate_pagination_params : ℤ → ℤ → Result OuError (ℕ × ℕ)
validate_pagination_params (negsuc _) offset = err invalid_limit
validate_pagination_params (pos limit) offset =
    if ltb limit 1 || ltb max_page_size limit
    then err invalid_limit
    else elim offset [ negsuc _ ↦ err invalid_offset | pos o ↦ ok (limit, o) ]

pub data Rel : Type 0 where
  first prev next last : Rel

pub record Link : Type 0 where
  pub rel : Rel
  pub offset : ℤ
  pub limit : ℕ

-- The offset of the last page. In Go it is 0 or -1 for no items, and no offset is below it then.
abbrev pub last_page_offset : ℕ → ℕ → ℕ
last_page_offset limit total = ((total - 1) / limit) * limit

abbrev pub back_links : ℕ → ℕ → List Link
back_links limit offset =
    if ltb 0 offset
    then record { rel = first; offset = pos 0; limit = limit }
      ∷ record { rel = prev; offset = pos (offset - limit); limit = limit }
      ∷ []
    else []

abbrev pub next_link : ℕ → ℕ → ℕ → List Link
next_link limit offset total =
    if ltb_ℤ (int64 (offset + limit)) (pos total)
    then record { rel = next; offset = int64 (offset + limit); limit = limit } ∷ []
    else []

abbrev pub last_link : ℕ → ℕ → ℕ → List Link
last_link limit offset total =
    if ltb offset (last_page_offset limit total)
    then record { rel = last; offset = pos (last_page_offset limit total); limit = limit } ∷ []
    else []

unfoldable pub build_pagination_links : ℕ → ℕ → ℕ → List Link
build_pagination_links limit offset total =
    back_links limit offset ++ (next_link limit offset total ++ last_link limit offset total)

pub record ListResponse (A : Type 0) : Type 0 where
  pub total_results : ℕ
  pub items : List A
  pub start_index : ℤ
  pub count : ℕ
  pub links : List Link

abbrev pub list_response : {A : Type 0} → ℕ → ℕ → ℕ → List A → ListResponse A
list_response limit offset total items = record {
  total_results = total;
  items = items;
  start_index = int64 (offset + 1);
  count = length items;
  links = build_pagination_links limit offset total;
}

-- `LIMIT $1 OFFSET $2`
unfoldable pub page_of : {A : Type 0} → ℕ → ℕ → List A → List A
page_of limit offset items = take limit (drop offset items)

-- The orders of the queries.
pub record Orders : Type 0 where
  pub units : List OrganizationUnit → List OrganizationUnit
  pub members : List Member → List Member

-- The faults of the two queries of a list.
pub record ListFaults : Type 0 where
  pub list_fails : Bool
  pub count_fails : Bool

-- A page, and the number of all items.
unfoldable pub get_list :
    {A : Type 0} → ListFaults → (List A → List A) → ℕ → ℕ → List A → Result OuError (List A × ℕ)
unfolding page_of
get_list faults order limit offset items =
    from_store (if faults.list_fails then err fault else ok (page_of limit offset (order items)))
    >>= λ page.
        from_store (if faults.count_fails then err fault else ok (length items)) >>= λ total.
        ok (page, total)

-- `getResourceListWithExistenceCheck`, with the response that its callers make of it.
unfoldable pub get_resource_list_with_existence_check :
    {A : Type 0}
    → Faults
    → ListFaults
    → (List A → List A)
    → String
    → ℤ
    → ℤ
    → List A
    → OuRows
    → Result OuError (ListResponse A)
unfolding get_list validate_pagination_params
get_resource_list_with_existence_check faults list_faults order id limit offset items rows =
    validate_pagination_params limit offset >>= λ (l, o).
    from_store (is_organization_unit_exists faults.exists_fails id rows) >>= λ exists.
    guard exists unit_not_found
    >> (get_list list_faults order l o items >>= λ (page, total). ok (list_response l o total page))

unfoldable pub get_organization_unit_list :
    ListFaults → Orders → ℤ → ℤ → OuRows → Result OuError (ListResponse OrganizationUnit)
unfolding get_list validate_pagination_params
get_organization_unit_list list_faults orders limit offset rows =
    validate_pagination_params limit offset >>= λ (l, o).
    get_list list_faults orders.units l o (rows_with (λ ou. same_parent ou.parent none) rows)
    >>= λ (page, total). ok (list_response l o total page)

module _ (faults : Faults) (list_faults : ListFaults) (orders : Orders) (members : Members) where
  unfoldable pub get_organization_unit_children :
      String → ℤ → ℤ → OuRows → Result OuError (ListResponse OrganizationUnit)
  get_organization_unit_children id limit offset rows =
      get_resource_list_with_existence_check faults list_faults orders.units id limit offset
        (rows_with (is_child_of id) rows) rows

  unfoldable pub get_organization_unit_users :
      String → ℤ → ℤ → OuRows → Result OuError (ListResponse Member)
  get_organization_unit_users id limit offset rows =
      get_resource_list_with_existence_check faults list_faults orders.members id limit offset
        (members_of id members.users) rows

  unfoldable pub get_organization_unit_groups :
      String → ℤ → ℤ → OuRows → Result OuError (ListResponse Member)
  get_organization_unit_groups id limit offset rows =
      get_resource_list_with_existence_check faults list_faults orders.members id limit offset
        (members_of id members.groups) rows

  unfoldable pub get_organization_unit_children_by_path :
      String → ℤ → ℤ → OuRows → Result OuError (ListResponse OrganizationUnit)
  unfolding get_organization_unit_children
  get_organization_unit_children_by_path path limit offset rows =
      get_unit_by_path faults path rows >>= λ ou.
      get_organization_unit_children ou.id limit offset rows

  unfoldable pub get_organization_unit_users_by_path :
      String → ℤ → ℤ → OuRows → Result OuError (ListResponse Member)
  unfolding get_organization_unit_users
  get_organization_unit_users_by_path path limit offset rows =
      get_unit_by_path faults path rows >>= λ ou.
      get_organization_unit_users ou.id limit offset rows

  unfoldable pub get_organization_unit_groups_by_path :
      String → ℤ → ℤ → OuRows → Result OuError (ListResponse Member)
  unfolding get_organization_unit_groups
  get_organization_unit_groups_by_path path limit offset rows =
      get_unit_by_path faults path rows >>= λ ou.
      get_organization_unit_groups ou.id limit offset rows
