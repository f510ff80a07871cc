-- ===== src/Prelude/Lists.antt =====
-- Lists of texts as Go slices: membership, removal of the first occurrence, the last element.
use Prim.Native.Nat.{ℕ, zero, suc, ◌+◌, ◌-◌, ◌≤◌}
use Prim.Native.String.{String}
use mathlib.Core.Path.{◌≡◌, refl, ap, sym, ◌∙◌}
use mathlib.Core.Bool.{Bool, true, false, ◌||◌}
use mathlib.Core.Option.{Option, none, some}
use mathlib.Core.List.{List, [], ◌∷◌, ◌++◌}
use native.Mathlib.Omega.{arith}
use text.Mathlib.Text.{◌==◌}
use text.Mathlib.TextEquality.{eq_iff}
use thunder_fork.Prelude.Tests.{leb, if◌then◌else◌}

abbrev pub length {ℓ} : {A : Type ℓ} → List A → ℕ
length [] = 0
length (_ ∷ xs) = suc (length xs)

abbrev pub is_empty {ℓ} : {A : Type ℓ} → List A → Bool
is_empty [] = true
is_empty (_ ∷ _) = false

abbrev pub All {ℓ κ} : {A : Type ℓ} → (A → Type κ) → List A → Type κ
All P [] = Unit
All P (x ∷ xs) = P x × All P xs

-- `slices.Contains`.
unfoldable pub contains : String → List String → Bool
contains a [] = false
contains a (x ∷ xs) = x == a || contains a xs

-- Removal of the first occurrence.
unfoldable pub remove_first : String → List String → List String
remove_first a [] = []
remove_first a (x ∷ xs) = let rest = x ∷ remove_first a xs in if x == a then xs else rest

unfoldable pub last? : List String → Option String
last? [] = none
last? (x ∷ []) = some x
last? (x ∷ y ∷ xs) = last? (y ∷ xs)

-- No text stands in the list twice.
abbrev pub NoDup : List String → Type 0
NoDup [] = Unit {0}
NoDup (x ∷ xs) = (contains x xs ≡ false) × NoDup xs

pub contains-append :
    (a : String) (xs ys : List String) → contains a (xs ++ ys) ≡ (contains a xs || contains a ys)
unfolding contains
contains-append a [] ys = refl
contains-append a (x ∷ xs) ys = ground (arith, contains-append a xs ys)

pub contains-remove_first_ne :
    (a b : String) (xs : List String)
    → (a == b) ≡ false
    → contains b (remove_first a xs) ≡ contains b xs
unfolding contains remove_first
contains-remove_first_ne a b [] h = refl
contains-remove_first_ne a b (x ∷ xs) h =
    ground (arith, contains-remove_first_ne a b xs h, eq_iff x a, eq_iff x b, eq_iff a b)

pub contains-remove_first_self :
    (a : String) (xs : List String) → NoDup xs → contains a (remove_first a xs) ≡ false
unfolding contains remove_first
contains-remove_first_self a [] h = refl
contains-remove_first_self a (x ∷ xs) h =
    ground (arith, contains-remove_first_self a xs h.1, eq_iff x a)

pub contains-remove_first :
    (a b : String) (xs : List String)
    → NoDup xs
    → contains b (remove_first a xs) ≡ (if a == b then false else contains b xs)
contains-remove_first a b xs h =
    ground (arith, contains-remove_first_ne a b xs, contains-remove_first_self a xs h, eq_iff a b)

-- What is not in the list is not in what removal leaves.
pub contains-remove_first-false :
    (a b : String) (xs : List String)
    → contains b xs ≡ false
    → contains b (remove_first a xs) ≡ false
unfolding contains remove_first
contains-remove_first-false a b [] h = refl
contains-remove_first-false a b (x ∷ xs) h = ground (arith, contains-remove_first-false a b xs)

pub NoDup-remove_first : (a : String) (xs : List String) → NoDup xs → NoDup (remove_first a xs)
unfolding contains remove_first
NoDup-remove_first a [] h = tt
NoDup-remove_first a (x ∷ xs) h =
    ground (arith, NoDup-remove_first a xs h.1, contains-remove_first-false a x xs h.0)

-- The last element of a list that is not empty is in it.
pub contains-last? : (a : String) (xs : List String) → last? xs ≡ some a → contains a xs ≡ true
unfolding contains last?
contains-last? a [] h = cc
contains-last? a (x ∷ []) h = ground (arith, eq_iff x a)
contains-last? a (x ∷ y ∷ xs) h = ground (arith, contains-last? a (y ∷ xs) h)

pub length-remove_first :
    (a : String) (xs : List String)
    → contains a xs ≡ true
    → length xs ≡ suc (length (remove_first a xs))
unfolding contains remove_first
length-remove_first a [] h = cc
length-remove_first a (x ∷ xs) h = ground (arith, length-remove_first a xs)

pub last?-none : (xs : List String) → last? xs ≡ none → xs ≡ []
unfolding last?
last?-none [] h = refl
last?-none (x ∷ []) h = cc
last?-none (x ∷ y ∷ xs) h = cc (last?-none (y ∷ xs) h)

-- The first elements of a list, and what follows them: `xs[:n]` and `xs[n:]`, up to the end.
abbrev pub take {ℓ} : {A : Type ℓ} → ℕ → List A → List A
take zero xs = []
take (suc n) [] = []
take (suc n) (x ∷ xs) = x ∷ take n xs

abbrev pub drop {ℓ} : {A : Type ℓ} → ℕ → List A → List A
drop zero xs = xs
drop (suc n) [] = []
drop (suc n) (x ∷ xs) = drop n xs

pub length-take {ℓ} :
    {A : Type ℓ} (n : ℕ) (xs : List A)
    → length (take n xs) ≡ (if leb n (length xs) then n else length xs)
length-take zero xs = ground arith
length-take (suc n) [] = ground arith
length-take (suc n) (x ∷ xs) = ground (arith, length-take n xs)

pub length-drop {ℓ} : {A : Type ℓ} (n : ℕ) (xs : List A) → length (drop n xs) ≡ length xs - n
length-drop zero xs = omega arith
length-drop (suc n) [] = omega arith
length-drop (suc n) (x ∷ xs) = omega (arith, length-drop n xs)

pub take-drop {ℓ} : {A : Type ℓ} (n : ℕ) (xs : List A) → take n xs ++ drop n xs ≡ xs
take-drop zero xs = refl
take-drop (suc n) [] = refl
take-drop (suc n) (x ∷ xs) = ap (λ ys. x ∷ ys) (take-drop n xs)

pub drop-nil {ℓ} : {A : Type ℓ} (n : ℕ) → drop {A = A} n [] ≡ []
drop-nil zero = refl
drop-nil (suc n) = refl

pub drop-add {ℓ} : {A : Type ℓ} (m n : ℕ) (xs : List A) → drop (m + n) xs ≡ drop n (drop m xs)
drop-add zero n xs = ap (λ k. drop k xs) (omega arith)
drop-add (suc m) n [] = drop-nil (suc m + n) ∙ sym (drop-nil n)
drop-add (suc m) n (x ∷ xs) =
    let step : suc m + n ≡ suc (m + n) = omega arith in
    ap (λ k. drop k (x ∷ xs)) step ∙ drop-add m n xs

pub take_all {ℓ} : {A : Type ℓ} (n : ℕ) (xs : List A) → length xs ≤ n → take n xs ≡ xs
take_all zero [] h = refl
take_all zero (x ∷ xs) h = absurd (omega arith)
take_all (suc n) [] h = refl
take_all (suc n) (x ∷ xs) h = ap (λ ys. x ∷ ys) (take_all n xs (omega arith))
