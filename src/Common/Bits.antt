-- ===== src/Common/Bits.antt =====
-- `a & mask` and `a | b << k`, for all numbers, from the digit recursion of the native operations.
use Prim.Native.Nat.{ℕ, zero, suc, ◌+◌, ◌*◌, ◌/◌, ◌%◌, ◌^◌, ◌≤◌, ◌<◌, min, max}
use Prim.Native.Nat.{bit_and, bit_or, digits, bit_and-bitwise, bit_or-bitwise}
use mathlib.Core.Path.{◌≡◌, refl, ap}
use native.Mathlib.Omega.{arith}
use native.Mathlib.Nat.{pow-suc}

-- One argument bounds the rounds of the recursion: any bound that is high enough gives the result.
module _ (last : ℕ → ℕ) (join : ℕ → ℕ → ℕ) where
  rounds_suffice :
      (few many x y : ℕ)
      → x ≤ few
      → few ≤ many
      → digits last join many x y ≡ digits last join few x y
  rounds_suffice zero zero x y lo hi = refl
  rounds_suffice zero (suc many) zero y lo hi = refl
  rounds_suffice zero (suc many) (suc x) y lo hi = absurd (omega arith)
  rounds_suffice (suc few) zero x y lo hi = absurd (omega arith)
  rounds_suffice (suc few) (suc many) zero y lo hi = refl
  rounds_suffice (suc few) (suc many) (suc x) y lo hi =
      let next = rounds_suffice few many (suc x / 2) (y / 2) (omega arith) (omega arith) in
      ap (λ q. q * 2 + join (suc x % 2) (y % 2)) next

  -- So the low digit splits off.
  low_digit :
      (op : ℕ → ℕ → ℕ)
      → ((x y : ℕ) → op x y ≡ digits last join x x y)
      → (x y : ℕ) → op (suc x) y ≡ op (suc x / 2) (y / 2) * 2 + join (suc x % 2) (y % 2)
  low_digit op spec x y = omega (
    arith,
    spec (suc x) y,
    spec (suc x / 2) (y / 2),
    rounds_suffice (suc x / 2) x (suc x / 2) (y / 2) (omega arith) (omega arith),
  )

and_low_digit : (x y : ℕ) → bit_and x y ≡ bit_and (x / 2) (y / 2) * 2 + min (x % 2) (y % 2)
and_low_digit zero y = omega (arith, bit_and-bitwise 0 y, bit_and-bitwise 0 (y / 2))
and_low_digit (suc x) y = low_digit (λ _. zero) min bit_and bit_and-bitwise x y

or_low_digit : (x y : ℕ) → bit_or x y ≡ bit_or (x / 2) (y / 2) * 2 + max (x % 2) (y % 2)
or_low_digit zero y = omega (arith, bit_or-bitwise 0 y, bit_or-bitwise 0 (y / 2))
or_low_digit (suc x) y = low_digit (λ y. y) max bit_or bit_or-bitwise x y

-- Nothing is left of a number under the empty mask.
and_none : (bound x : ℕ) → x ≤ bound → bit_and x 0 ≡ 0
and_none zero zero h = refl
and_none zero (suc x) h = absurd (omega arith)
and_none (suc bound) zero h = refl
and_none (suc bound) (suc x) h =
    omega (arith, and_low_digit (suc x) 0, and_none bound (suc x / 2) (omega arith))

abbrev ones : ℕ → ℕ
ones zero = 0
ones (suc k) = ones k * 2 + 1

abbrev low_digits : ℕ → ℕ → ℕ
low_digits zero x = 0
low_digits (suc k) x = low_digits k (x / 2) * 2 + x % 2

-- A mask of `k` ones keeps the `k` low digits.
bit_and-ones : (k x : ℕ) → bit_and x (ones k) ≡ low_digits k x
bit_and-ones zero x = and_none x x (omega arith)
bit_and-ones (suc k) x =
    let half : (ones k * 2 + 1) / 2 ≡ ones k = omega arith in
    omega (arith, and_low_digit x (ones (suc k)), ap (bit_and (x / 2)) half, bit_and-ones k (x / 2))

pub bit_and_255 : (x : ℕ) → bit_and x 255 ≡ x % 256
bit_and_255 x = omega (arith, bit_and-ones 8 x)

-- `x | y << k` where `x` has `k` bits.
pub bit_or_shift : (k x y : ℕ) → x < 2 ^ k → bit_or x (y * 2 ^ k) ≡ x + y * 2 ^ k
bit_or_shift zero zero y h = omega (arith, bit_or-bitwise 0 (y * 2 ^ 0))
bit_or_shift zero (suc x) y h = absurd (omega arith)
bit_or_shift (suc k) x y h =
    let double : y * 2 ^ suc k ≡ 2 * (y * 2 ^ k) = rw (pow-suc 2 k) (omega arith) in
    let half : y * 2 ^ suc k / 2 ≡ y * 2 ^ k = omega arith in
    let even : y * 2 ^ suc k % 2 ≡ 0 = omega arith in
    omega (
      arith,
      or_low_digit x (y * 2 ^ suc k),
      ap (bit_or (x / 2)) half,
      bit_or_shift k (x / 2) y (omega arith),
    )

pub bit_or_127 : (x : ℕ) → x % 128 ≡ 0 → bit_or 127 x ≡ 127 + x
bit_or_127 x h =
    let e : x / 128 * 2 ^ 7 ≡ x = omega arith in
    rw e at (bit_or_shift 7 127 (x / 128) (omega arith))
