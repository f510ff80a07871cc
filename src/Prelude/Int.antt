-- ===== src/Prelude/Int.antt =====
-- Go's signed integers of 64 bits, and what amd64 makes of a float64 that is converted to one.
use Prim.Native.Nat.{ℕ, suc, ◌+◌, ◌-◌, ◌*◌, ◌/◌, ◌%◌, ◌^◌, ◌≤◌, ◌<◌}
use mathlib.Core.Path.{◌≡◌, refl}
use mathlib.Core.Bool.{Bool}
use native.Mathlib.Omega.{arith}
use thunder_fork.Prelude.Tests.{ltb, leb, eqb, if◌then◌else◌}

-- `negsuc n` is -(n + 1).
pub data ℤ : Type 0 where
  pos negsuc : ℕ → ℤ

-- 2 ^ 63, the first number above all of them.
abbrev pub int64_bound : ℕ
int64_bound = 0x8000_0000_0000_0000

-- The sum of two natural numbers, as an addition wraps it.
unfoldable pub int64 : ℕ → ℤ
int64 n =
    let word = n % (2 * int64_bound) in
    if ltb word int64_bound then pos word else negsuc (2 * int64_bound - word - 1)

abbrev pub min_int64 : ℤ
min_int64 = negsuc (int64_bound - 1)

infix 50 ◌<ℤ◌ ◌≤ℤ◌
abbrev above : ℤ → ℕ
above (pos n) = n
above (negsuc n) = 0

abbrev below : ℤ → ℕ
below (pos n) = 0
below (negsuc n) = suc n

abbrev pub ◌<ℤ◌ : ℤ → ℤ → Type 0
a <ℤ b = above a + below b < above b + below a

abbrev pub ◌≤ℤ◌ : ℤ → ℤ → Type 0
a ≤ℤ b = above a + below b ≤ above b + below a

abbrev pub ltb_ℤ : ℤ → ℤ → Bool
ltb_ℤ a b = ltb (above a + below b) (above b + below a)

abbrev pub leb_ℤ : ℤ → ℤ → Bool
leb_ℤ a b = leb (above a + below b) (above b + below a)

-- A natural number, as a float64 is converted that holds it.
unfoldable pub int64_of_number : ℕ → ℤ
int64_of_number n = if ltb n int64_bound then pos n else min_int64

abbrev signed : Bool → ℕ → ℤ
signed negative magnitude =
    if eqb magnitude 0 then pos 0 else if negative then negsuc (magnitude - 1) else pos magnitude

-- The number of the bits of a float64 without its sign, towards 0, for an exponent below 1086.
abbrev truncated : ℕ → ℕ → ℕ
truncated exponent mantissa =
    if ltb exponent 1023
    then 0
    else if ltb exponent 1075
    then (2 ^ 52 + mantissa) / 2 ^ (1075 - exponent)
    else (2 ^ 52 + mantissa) * 2 ^ (exponent - 1075)

-- `int64(v)` of the bits of v on amd64: the fraction is cut off; a number that no int64 holds, an infinity
-- or a NaN becomes the least int64.
unfoldable pub int64_of_float : ℕ → ℤ
int64_of_float bits =
    let exponent = bits / 2 ^ 52 % 2 ^ 11 in
    if leb 1086 exponent
    then min_int64
    else signed (eqb (bits / 2 ^ 63 % 2) 1) (truncated exponent (bits % 2 ^ 52))

pub int64-small : (n : ℕ) → n < int64_bound → int64 n ≡ pos n
unfolding int64
int64-small n h = ground arith

-- 1.5, -2.0, 1e19
half_cut : int64_of_float 0x3ff8_0000_0000_0000 ≡ pos 1
unfolding int64_of_float
half_cut = refl

minus_two : int64_of_float 0xc000_0000_0000_0000 ≡ negsuc 1
unfolding int64_of_float
minus_two = refl

too_large : int64_of_float 0x43e1_58e4_6091_3d00 ≡ min_int64
unfolding int64_of_float
too_large = refl
