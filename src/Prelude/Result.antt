-- ===== src/Prelude/Result.antt =====
-- Results of functions that may fail.
use mathlib.Core.Path.{◌≡◌, refl}
use mathlib.Core.Bool.{Bool, true, false}
use mathlib.Core.Option.{Option, none, some}

pub data Result {ℓ} (E : Type 0) (A : Type ℓ) : Type ℓ where
  ok : A → Result E A
  err : E → Result E A

abbrev pub is_ok {ℓ} : {E : Type 0} {A : Type ℓ} → Result E A → Bool
is_ok (ok a) = true
is_ok (err e) = false

pub ok_of_is_ok {ℓ} :
    {E : Type 0} {A : Type ℓ} (r : Result E A) → is_ok r ≡ true → (a : A) × (r ≡ ok a)
ok_of_is_ok (ok a) h = (a, refl)
ok_of_is_ok (err e) h = cc

-- `if !test { return e }`
abbrev pub guard : {E : Type 0} → Bool → E → Result E (Unit {0})
guard test e = elim test [ true ↦ ok tt | false ↦ err e ]

-- A value that may be missing, with the error for that.
abbrev pub or_err {ℓ} : {E : Type 0} {A : Type ℓ} → E → Option A → Result E A
or_err e none = err e
or_err e (some a) = ok a

-- The call that follows, unless there was an error: `if err != nil { return err }`.
infixl 5 ◌>>=◌ ◌>>◌
abbrev pub ◌>>=◌ {ℓ κ} :
    {E : Type 0} {A : Type ℓ} {C : Type κ} (first : Result E A) (next : A → Result E C) → Result E C
err fault >>= next = err fault
ok value >>= next = next value

abbrev pub ◌>>◌ {κ} :
    {E : Type 0} {C : Type κ} (first : Result E (Unit {0})) (next : Result E C) → Result E C
err fault >> next = err fault
ok value >> next = next
