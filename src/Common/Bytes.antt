-- ===== src/Common/Bytes.antt =====
-- `to_le_bytes` and `from_le_bytes` of the standard library, for words of any number of bytes.
use Prim.Native.Nat.{ℕ, zero, suc, ◌+◌, ◌*◌, ◌/◌, ◌%◌, ◌^◌, ◌<◌}
use mathlib.Core.Path.{◌≡◌, refl, ap}
use mathlib.Core.List.{List, [], ◌∷◌}
use native.Mathlib.Omega.{arith}
use grammers.Common.Lists.{length, All}

abbrev pub IsByte : ℕ → Type 0
IsByte b = b < 256

-- The `n` low bytes of `w`, lowest first.
unfoldable pub to_le : ℕ → ℕ → List ℕ
to_le zero w = []
to_le (suc n) w = (w % 256) ∷ to_le n (w / 256)

unfoldable pub from_le : List ℕ → ℕ
from_le [] = 0
from_le (b ∷ bs) = b + 256 * from_le bs

pub length-to_le : (n w : ℕ) → length (to_le n w) ≡ n
unfolding to_le
length-to_le zero w = refl
length-to_le (suc n) w = ap suc (length-to_le n (w / 256))

pub to_le-IsByte : (n w : ℕ) → All IsByte (to_le n w)
unfolding to_le
to_le-IsByte zero w = tt
to_le-IsByte (suc n) w = (omega arith, to_le-IsByte n (w / 256))

pub from_le-to_le : (n w : ℕ) → w < 256 ^ n → from_le (to_le n w) ≡ w
unfolding to_le from_le
from_le-to_le zero w h = omega arith
from_le-to_le (suc n) w h = omega (arith, from_le-to_le n (w / 256) (omega arith))

pub to_le-from_le : (bs : List ℕ) → All IsByte bs → to_le (length bs) (from_le bs) ≡ bs
unfolding to_le from_le
to_le-from_le [] h = refl
to_le-from_le (b ∷ bs) h = ground (arith, to_le-from_le bs h.1)

add_digit-lt : (n b r : ℕ) → b < 256 → r < 256 ^ n → b + 256 * r < 256 ^ suc n
add_digit-lt n b r hb hr = omega arith

pub from_le-lt : (bs : List ℕ) → All IsByte bs → from_le bs < 256 ^ length bs
unfolding from_le
from_le-lt [] h = omega arith
from_le-lt (b ∷ bs) h = add_digit-lt (length bs) b (from_le bs) h.0 (from_le-lt bs h.1)
