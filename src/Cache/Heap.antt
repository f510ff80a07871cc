-- ===== src/Cache/Heap.antt =====
-- What `heap.Pop` gives: a least item of the heap, and the heap without it.
use thunder_fork.Prelude.{
  String, ◌≡◌, refl, false, none, some, [], ◌∷◌, arith, eq_iff, eq_refl, if◌then◌else◌, ◌==◌, inl,
  inr, Bool-cases,
}
use thunder_fork.Prelude.Assoc.{Assoc, lookup, without, UniqueKeys}
use thunder_fork.Cache.{Stamp, less, least, heap_pop}

-- The stamp that `least` finds.
unfoldable pub least_stamp : Stamp → Assoc Stamp → Stamp
least_stamp s [] = s
least_stamp s ((j, t) ∷ h) = least_stamp (if less t s then t else s) h

lookup-least :
    (k : String) (s : Stamp) (h : Assoc Stamp)
    → UniqueKeys ((k, s) ∷ h)
    → lookup (least k s h) ((k, s) ∷ h) ≡ some (least_stamp s h)
unfolding lookup least least_stamp
lookup-least k s [] u = ground (arith, eq_refl k)
lookup-least k s ((j, t) ∷ h) u = ground (
  arith,
  lookup-least j t h,
  lookup-least k s h,
  eq_iff k j,
  eq_iff k (least j t h),
  eq_iff k (least k s h),
  eq_iff j (least j t h),
  eq_iff j (least k s h),
)

-- The lesser of two stamps, as the loop of `least` keeps it.
abbrev lesser : Stamp → Stamp → Stamp
lesser t s = if less t s then t else s

not-less_trans : (s t u : Stamp) → less t s ≡ false → less s u ≡ false → less t u ≡ false
unfolding less
not-less_trans s t u p q = ground arith

less-lesser : (s t : Stamp) → (less t (lesser t s) ≡ false) × (less s (lesser t s) ≡ false)
unfolding less
less-lesser s t = ground arith

less-least_stamp : (s : Stamp) (h : Assoc Stamp) → less s (least_stamp s h) ≡ false
unfolding least_stamp
less-least_stamp s [] = unfold less in ground arith
less-least_stamp s ((j, t) ∷ h) =
    not-less_trans (lesser t s) s (least_stamp (lesser t s) h) (less-lesser s t).1
      (less-least_stamp (lesser t s) h)

less-least_stamp_held :
    (s : Stamp) (h : Assoc Stamp) (j : String) (t : Stamp)
    → lookup j h ≡ some t
    → less t (least_stamp s h) ≡ false
unfolding lookup least_stamp
less-least_stamp_held s [] j t p = cc
less-least_stamp_held s ((i, r) ∷ h) j t p = elim (Bool-cases (i == j)) [
  | inl e ↦
      let found : r ≡ t = ground arith in
      rw (← found) (
        not-less_trans (lesser r s) r (least_stamp (lesser r s) h) (less-lesser s r).0
          (less-least_stamp (lesser r s) h))
  | inr e ↦ less-least_stamp_held (lesser r s) h j t (rw e at p)
]

less-least_stamp_all :
    (k : String) (s : Stamp) (h : Assoc Stamp) (j : String) (t : Stamp)
    → lookup j ((k, s) ∷ h) ≡ some t
    → less t (least_stamp s h) ≡ false
unfolding lookup
less-least_stamp_all k s h j t p =
    ground (arith, less-least_stamp s h, less-least_stamp_held s h j t)

-- What is popped from a heap that is not empty.
pub record IsPopped (h : Assoc Stamp) (victim : String) (rest : Assoc Stamp) (s : Stamp)
    : Type 0 where
  pub held : lookup victim h ≡ some s
  pub rest_without : rest ≡ without victim h
  pub minimal : (j : String) (t : Stamp) → lookup j h ≡ some t → less t s ≡ false

pub heap_pop-IsPopped :
    (h : Assoc Stamp) (victim : String) (rest : Assoc Stamp)
    → UniqueKeys h
    → heap_pop h ≡ some (victim, rest)
    → (s : Stamp) × IsPopped h victim rest s
unfolding heap_pop
heap_pop-IsPopped [] victim rest u p = cc
heap_pop-IsPopped ((k, s) ∷ h) victim rest u p = (
  least_stamp s h,
  record {
    held = ground (arith, lookup-least k s h u);
    rest_without = ground arith;
    minimal = less-least_stamp_all k s h;
  },
)

pub heap_pop-none : (h : Assoc Stamp) → heap_pop h ≡ none → h ≡ []
unfolding heap_pop
heap_pop-none [] p = refl
heap_pop-none ((k, s) ∷ h) p = cc
