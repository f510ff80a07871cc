-- ===== src/OrgUnit/Pages/Follow.antt =====
-- A client that follows the links of the lists of backend/internal/ou/service.go.
use thunder_fork.Prelude.{ℕ, zero, suc, String, Option, none, some, List, [], ◌++◌}
use thunder_fork.Prelude.Int.{ℤ, pos}
use thunder_fork.Prelude.Result.{Result, ok, ◌>>=◌}
use thunder_fork.OrgUnit.{OuRows}
use thunder_fork.OrgUnit.Service.{OuError, Faults}
use thunder_fork.OrgUnit.Pages.{Link, ListFaults, get_resource_list_with_existence_check}
use thunder_fork.OrgUnit.Pages.Laws.{next_of}

-- The items of a page, and of the page that a link on it leads to.
abbrev go_on :
    {A : Type 0}
    → List A
    → Option Link
    → (ℤ → ℤ → Result OuError (List A))
    → Result OuError (List A)
go_on items none ask = ok items
go_on items (some link) ask = ask (pos link.limit) link.offset >>= λ rest. ok (items ++ rest)

module _ {A : Type 0} (faults : Faults) (list_faults : ListFaults) (order : List A → List A)
    (id : String) (items : List A) (rows : OuRows) where
  -- The items that a client reads that asks for a page and then asks for what the link to the next one
  -- says, as long as there is one; with fuel, one unit for each page.
  abbrev pub follow : ℕ → ℤ → ℤ → Result OuError (List A)
  follow zero limit offset = ok []
  follow (suc fuel) limit offset =
      get_resource_list_with_existence_check faults list_faults order id limit offset items rows
      >>= λ response. go_on response.items (next_of response.links) (follow fuel)
