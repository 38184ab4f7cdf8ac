-- ===== src/Common/I64.antt =====
-- `i64`: the integers of 64 bits, their wrapping and saturating operations, and their order.
use Prim.Native.Nat.{ℕ, suc, ◌+◌, ◌-◌, ◌%◌, ◌^◌, ◌≤◌, ◌<◌}
use mathlib.Core.Path.{◌≡◌, sym, ap, ◌∙◌}
use mathlib.Core.Logic.{inl, inr}
use native.Mathlib.Omega.{arith}
use grammers.Common.Tests.{ltb, leb, leb→le, ◌==◌, Bool-cases, if◌then◌else◌}
use grammers.Common.Int.{ℤ, pos, negsuc, IsSigned, as_signed, as_unsigned, ltb_ℤ, eqb_ℤ}

abbrev pub IsI64 : ℤ → Type 0
IsI64 z = IsSigned (2 ^ 63) z

-- `a.wrapping_add(o as i64)` for a `u64` that is below `i64::MAX`.
unfoldable pub wrapping_add_i64 : ℤ → ℕ → ℤ
wrapping_add_i64 a o = as_signed (2 ^ 63) ((as_unsigned (2 ^ 63) a + o) % 2 ^ 64)

-- `a.wrapping_sub(b) as u64`
unfoldable pub wrapping_sub_u64 : ℤ → ℤ → ℕ
wrapping_sub_u64 a b = (as_unsigned (2 ^ 63) a + 2 ^ 64 - as_unsigned (2 ^ 63) b) % 2 ^ 64

-- The place of an integer among those of 64 bits, the lowest at 0.
unfoldable pub rank : ℤ → ℕ
rank (pos n) = 2 ^ 63 + n
rank (negsuc n) = 2 ^ 63 - suc n

unfoldable pub of_rank : ℕ → ℤ
of_rank k = if leb (2 ^ 63) k then pos (k - 2 ^ 63) else negsuc (2 ^ 63 - suc k)

-- `a.saturating_sub(n)` for `n` that is not negative.
unfoldable pub saturating_sub : ℤ → ℕ → ℤ
saturating_sub a n = of_rank (rank a - n)

pub rank-of_rank : (k : ℕ) → rank (of_rank k) ≡ k
unfolding rank of_rank
rank-of_rank k = ground arith

pub of_rank-rank : (z : ℤ) → IsI64 z → of_rank (rank z) ≡ z
unfolding rank of_rank
of_rank-rank (pos n) h = ground arith
of_rank-rank (negsuc n) h = ground arith

pub of_rank-IsI64 : (k : ℕ) → k < 2 ^ 64 → IsI64 (of_rank k)
unfolding of_rank
of_rank-IsI64 k h = ground arith

pub rank-lt : (z : ℤ) → IsI64 z → rank z < 2 ^ 64
unfolding rank
rank-lt (pos n) h = omega arith
rank-lt (negsuc n) h = omega arith

pub ltb-rank : (a b : ℤ) → IsI64 a → IsI64 b → ltb_ℤ a b ≡ ltb (rank a) (rank b)
unfolding rank
ltb-rank (pos a) (pos b) ha hb = ground arith
ltb-rank (pos a) (negsuc b) ha hb = ground arith
ltb-rank (negsuc a) (pos b) ha hb = ground arith
ltb-rank (negsuc a) (negsuc b) ha hb = ground arith

pub rank-injective : (a b : ℤ) → IsI64 a → IsI64 b → rank a ≡ rank b → a ≡ b
rank-injective a b ha hb e = sym (of_rank-rank a ha) ∙ ap of_rank e ∙ of_rank-rank b hb

pub saturating_sub-IsI64 : (a : ℤ) (n : ℕ) → IsI64 a → IsI64 (saturating_sub a n)
unfolding saturating_sub
saturating_sub-IsI64 a n h = of_rank-IsI64 (rank a - n) (omega (arith, rank-lt a h))

pub rank-saturating_sub : (a : ℤ) (n : ℕ) → rank (saturating_sub a n) ≡ rank a - n
unfolding saturating_sub
rank-saturating_sub a n = rank-of_rank (rank a - n)

-- Without a wrap the sum's place is the sum.
pub wrapping_add_rank :
    (a : ℤ) (o : ℕ) → IsI64 a → rank a + o < 2 ^ 64 → wrapping_add_i64 a o ≡ of_rank (rank a + o)
unfolding wrapping_add_i64 rank of_rank
wrapping_add_rank (pos a) o h fits = ground arith
wrapping_add_rank (negsuc a) o h fits = ground arith

pub wrapping_sub_rank :
    (a b : ℤ) → IsI64 a → IsI64 b → rank b ≤ rank a → wrapping_sub_u64 a b ≡ rank a - rank b
unfolding wrapping_sub_u64 rank
wrapping_sub_rank (pos a) (pos b) ha hb le = ground arith
wrapping_sub_rank (pos a) (negsuc b) ha hb le = ground arith
wrapping_sub_rank (negsuc a) (pos b) ha hb le = absurd (omega arith)
wrapping_sub_rank (negsuc a) (negsuc b) ha hb le = ground arith

pub wrapping_sub_wrap :
    (a b : ℤ)
    → IsI64 a
    → IsI64 b
    → rank a < rank b
    → wrapping_sub_u64 a b ≡ rank a + 2 ^ 64 - rank b
unfolding wrapping_sub_u64 rank
wrapping_sub_wrap (pos a) (pos b) ha hb le = ground arith
wrapping_sub_wrap (pos a) (negsuc b) ha hb le = absurd (omega arith)
wrapping_sub_wrap (negsuc a) (pos b) ha hb le = ground arith
wrapping_sub_wrap (negsuc a) (negsuc b) ha hb le = ground arith

pub wrapping_add_IsI64 : (a : ℤ) (o : ℕ) → IsI64 a → IsI64 (wrapping_add_i64 a o)
unfolding wrapping_add_i64
wrapping_add_IsI64 a o h = ground arith

pub eqb_rank : (a b : ℤ) → IsI64 a → IsI64 b → eqb_ℤ a b ≡ (rank a == rank b)
unfolding rank
eqb_rank (pos a) (pos b) ha hb = ground arith
eqb_rank (pos a) (negsuc b) ha hb = ground arith
eqb_rank (negsuc a) (pos b) ha hb = ground arith
eqb_rank (negsuc a) (negsuc b) ha hb = ground arith

-- What is added to `b` without a wrap gives `a` only when it is their difference.
pub wrapping_sub_hits :
    (a b : ℤ) (o : ℕ)
    → IsI64 a
    → IsI64 b
    → rank b + o < 2 ^ 64
    → (o == wrapping_sub_u64 a b) ≡ (rank b + o == rank a)
wrapping_sub_hits a b o ha hb fits = elim (Bool-cases (leb (rank b) (rank a))) [
  | inl le ↦ ground (arith, wrapping_sub_rank a b ha hb (leb→le _ _ le))
  | inr gt ↦ ground (arith, rank-lt b hb, wrapping_sub_wrap a b ha hb (ground arith))
]
