-- ===== src/OrgUnit/Pages/Laws.antt =====
-- The links between the pages of a list, and the pages themselves, backend/internal/ou/service.go.
use Prim.Native.Nat.{◌%◌}
use native.Mathlib.Nat.{div-add-mod', div-mul-le_self, mod-lt}
use thunder_fork.Prelude.{
  ℕ, ◌+◌, ◌-◌, ◌≤◌, ◌<◌, ◌≡◌, ◌⊎◌, inl, inr, leb, is_some, Option, none, some, List, [], ◌∷◌, ◌++◌,
  All, length, ltb, if◌then◌else◌, ◌||◌, arith, refl, ◌∙◌, Bool-cases,
}
use thunder_fork.Prelude.Int.{ℤ, pos, negsuc, int64, int64_bound, ltb_ℤ, ◌<ℤ◌}
use thunder_fork.Prelude.Result.{Result, ok}
use thunder_fork.OrgUnit.Pages.{
  max_page_size, validate_pagination_params, Rel, first, prev, next, last, Link, last_page_offset,
  back_links, next_link, last_link, build_pagination_links, ListResponse,
}

-- What a link on the page at an offset promises: a page of the same length, which is the first one, the
-- one before with nothing between, the one after, or the last one with nothing behind. Where the offset of
-- the page after is no int64, its link has a negative offset.
abbrev pub IsRight : ℕ → ℕ → ℕ → Link → Type 0
IsRight limit offset total link = (link.limit ≡ limit) × (elim link.rel [
  | first ↦ (link.offset ≡ pos 0) × (0 < offset)
  | prev ↦ (at : ℕ) × (link.offset ≡ pos at) × (at < offset) × (offset ≤ at + limit)
  | next ↦
      ((link.offset ≡ pos (offset + limit)) × (offset + limit < total))
      ⊎ ((link.offset <ℤ pos 0) × (int64_bound ≤ offset + limit))
  | last ↦ (at : ℕ) × (link.offset ≡ pos at) × (offset < at) × (at < total) × (total ≤ at + limit)
])

pub params-bounds :
    (limit offset : ℤ) (l o : ℕ)
    → validate_pagination_params limit offset ≡ ok (l, o)
    → (limit ≡ pos l) × (offset ≡ pos o) × (1 ≤ l) × (l ≤ max_page_size)
unfolding validate_pagination_params
params-bounds (negsuc n) offset l o h = cc
params-bounds (pos n) (negsuc m) l o h = absurd (ground arith)
params-bounds (pos n) (pos m) l o h = ground arith

All-append : {A : Type 0} (P : A → Type 0) (xs ys : List A) → All P xs → All P ys → All P (xs ++ ys)
All-append P [] ys hs ks = ks
All-append P (x ∷ xs) ys (h, hs) ks = (h, All-append P xs ys hs ks)

last_page-bounds :
    (limit total : ℕ)
    → 1 ≤ limit
    → 0 < last_page_offset limit total
    → (last_page_offset limit total < total) × (total ≤ last_page_offset limit total + limit)
last_page-bounds limit total positive h =
    let rest : (total - 1) % limit < limit = mod-lt (total - 1) (omega arith) in
    omega (arith, div-add-mod' (total - 1) limit, div-mul-le_self (total - 1) limit)

-- The sum of an offset and a limit, which is negative if it is no int64.
wrapped_sum :
    (offset limit : ℕ)
    → offset < int64_bound
    → limit ≤ max_page_size
    → ((offset + limit < int64_bound) × (int64 (offset + limit) ≡ pos (offset + limit)))
      ⊎ ((int64_bound ≤ offset + limit) × (int64 (offset + limit) <ℤ pos 0))
unfolding int64
wrapped_sum offset limit small most = ground arith

module _ (limit offset total : ℕ) (positive : 1 ≤ limit) where
  back_links-IsRight : All (IsRight limit offset total) (back_links limit offset)
  back_links-IsRight = elim (Bool-cases (ltb 0 offset)) [
    | inl some_before ↦ rw some_before (
      (refl, (refl, ground arith)),
      ((refl, (offset - limit, refl, ground arith, ground arith)), tt),
    )
    | inr at_start ↦ rw at_start tt
  ]

  last_link-IsRight : All (IsRight limit offset total) (last_link limit offset total)
  last_link-IsRight = elim (Bool-cases (ltb offset (last_page_offset limit total))) [
    | inl later ↦
        (let below : offset < last_page_offset limit total = ground arith in
          let (there, behind) = last_page-bounds limit total positive (omega arith) in
          rw later ((refl, (last_page_offset limit total, refl, below, there, behind)), tt))
    | inr no_later ↦ rw no_later tt
  ]

  module _ (most : limit ≤ max_page_size) (small : offset < int64_bound) where
    next_link-IsRight : All (IsRight limit offset total) (next_link limit offset total)
    next_link-IsRight = elim (Bool-cases (ltb_ℤ (int64 (offset + limit)) (pos total))) [
      | inl more ↦ rw more ((refl, ground (arith, more, wrapped_sum offset limit small most)), tt)
      | inr no_more ↦ rw no_more tt
    ]

    -- For a limit from 1 to 100 and an offset that is an int64, every link of a page has the limit of
    -- the page and leads where it says: to offset 0 from a later page; to a page before with nothing
    -- between; to the page that follows, which has an item; or to a later page that has an item and
    -- nothing behind it. Only a link to a page that follows whose offset is no int64 has a negative one.
    pub links-IsRight : All (IsRight limit offset total) (build_pagination_links limit offset total)
    unfolding build_pagination_links
    links-IsRight =
        All-append (IsRight limit offset total) (back_links limit offset)
          (next_link limit offset total ++ last_link limit offset total) back_links-IsRight
          (All-append (IsRight limit offset total) (next_link limit offset total)
            (last_link limit offset total) next_link-IsRight last_link-IsRight)

-- The first of the links that leads to the page that follows.
abbrev link_if_next : Rel → Link → Option Link → Option Link
link_if_next next link rest = some link
link_if_next _ link rest = rest

abbrev pub next_of : List Link → Option Link
next_of [] = none
next_of (link ∷ links) = link_if_next link.rel link (next_of links)

next_of-last : (limit offset total : ℕ) → next_of (last_link limit offset total) ≡ none
next_of-last limit offset total = ground arith

next_of-back :
    (limit offset : ℕ) (links : List Link)
    → next_of (back_links limit offset ++ links) ≡ next_of links
next_of-back limit offset links = elim (Bool-cases (ltb 0 offset)) [
  | inl some_before ↦ rw some_before refl
  | inr at_start ↦ rw at_start refl
]

-- The link to the page that follows, where there is one.
abbrev pub the_next : ℕ → ℕ → ℕ → Option Link
the_next limit offset total =
    if ltb_ℤ (int64 (offset + limit)) (pos total)
    then some (record { rel = next; offset = int64 (offset + limit); limit = limit })
    else none

pub next_of-links :
    (limit offset total : ℕ)
    → next_of (build_pagination_links limit offset total) ≡ the_next limit offset total
unfolding build_pagination_links
next_of-links limit offset total =
    next_of-back limit offset (next_link limit offset total ++ last_link limit offset total)
    ∙ elim (Bool-cases (ltb_ℤ (int64 (offset + limit)) (pos total))) [
      | inl more ↦ rw more refl
      | inr no_more ↦ rw no_more (next_of-last limit offset total)
    ]

-- What is known of a list that the service returns.
pub record IsPage {A : Type 0} (limit offset : ℤ) (items : List A) (response : ListResponse A)
    : Type 0 where
  pub l : ℕ
  pub o : ℕ
  pub limit_is : limit ≡ pos l
  pub offset_is : offset ≡ pos o
  pub at_most : (response.count ≤ l) × (l ≤ max_page_size)
  pub counted : response.total_results ≡ length items
  pub next_iff :
      is_some (next_of response.links)
      ≡ (ltb (o + l) response.total_results || leb int64_bound (o + l))
  pub right : All (IsRight l o response.total_results) response.links
