-- ===== src/Common/Int.antt =====
-- Signed machine integers: ℤ over the native numbers, and two's complement words.
use Prim.Native.Nat.{ℕ, suc, ◌+◌, ◌-◌, ◌<◌, compare, Ordering}
use mathlib.Core.Path.{◌≡◌, refl}
use mathlib.Core.Logic.{◌⊎◌, inl, inr}
use mathlib.Core.Bool.{Bool, true, false}
use native.Mathlib.Omega.{arith}
use grammers.Common.Tests.{ltb, leb, if◌then◌else◌}

-- `negsuc n` is -(n + 1).
pub data ℤ : Type 0 where
  pos : ℕ → ℤ
  negsuc : ℕ → ℤ

abbrev pub pos_part : ℤ → ℕ
pos_part (pos n) = n
pos_part (negsuc n) = 0

abbrev pub neg_part : ℤ → ℕ
neg_part (pos n) = 0
neg_part (negsuc n) = suc n

-- a - b, as an integer.
abbrev pub sub_ℕ : ℕ → ℕ → ℤ
sub_ℕ a b = if leb b a then pos (a - b) else negsuc (b - a - 1)

infixl 65 ◌+ℤ◌ ◌-ℤ◌
unfoldable pub ◌+ℤ◌ : ℤ → ℤ → ℤ
a +ℤ b = sub_ℕ (pos_part a + pos_part b) (neg_part a + neg_part b)

unfoldable pub ◌-ℤ◌ : ℤ → ℤ → ℤ
a -ℤ b = sub_ℕ (pos_part a + neg_part b) (neg_part a + pos_part b)

abbrev pub cmp_ℤ : ℤ → ℤ → Ordering
cmp_ℤ a b = compare (pos_part a + neg_part b) (pos_part b + neg_part a)

abbrev pub ltb_ℤ : ℤ → ℤ → Bool
ltb_ℤ a b = elim (cmp_ℤ a b) [ Ordering.lt ↦ true | _ ↦ false ]

abbrev pub eqb_ℤ : ℤ → ℤ → Bool
eqb_ℤ a b = elim (cmp_ℤ a b) [ Ordering.eq ↦ true | _ ↦ false ]

-- The integer that a word of two halves `h` stands for, and back: `h` is 2 ^ 31 for i32.
abbrev pub as_signed : ℕ → ℕ → ℤ
as_signed h w = if ltb w h then pos w else negsuc (h + h - w - 1)

abbrev pub as_unsigned : ℕ → ℤ → ℕ
as_unsigned h (pos n) = n
as_unsigned h (negsuc n) = h + h - n - 1

-- The values of a signed type of half size `h`.
abbrev pub IsSigned : ℕ → ℤ → Type 0
IsSigned h (pos n) = n < h
IsSigned h (negsuc n) = n < h

pub as_signed-as_unsigned : (h : ℕ) (z : ℤ) → IsSigned h z → as_signed h (as_unsigned h z) ≡ z
as_signed-as_unsigned h (pos n) p = ground arith
as_signed-as_unsigned h (negsuc n) p = ground arith

pub as_unsigned-lt : (h : ℕ) (z : ℤ) → IsSigned h z → as_unsigned h z < h + h
as_unsigned-lt h (pos n) p = omega arith
as_unsigned-lt h (negsuc n) p = omega arith

pub eqb_ℤ_refl : (z : ℤ) → eqb_ℤ z z ≡ true
eqb_ℤ_refl z = ground arith

pub Ordering-cases : (o : Ordering) → (o ≡ Ordering.eq) ⊎ (o ≡ Ordering.gt) ⊎ (o ≡ Ordering.lt)
Ordering-cases Ordering.eq = inl refl
Ordering-cases Ordering.gt = inr (inl refl)
Ordering-cases Ordering.lt = inr (inr refl)

pub cmp-eq : (a b : ℤ) → cmp_ℤ a b ≡ Ordering.eq → a ≡ b
cmp-eq a b h = ground arith
