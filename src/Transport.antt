-- ===== src/Transport.antt =====
-- grammers-mtproto/src/transport/: framing of packets on a byte stream.
-- `mod.rs` is here, one child each for the three framings. A byte is a number below 256, an i32 is
-- an integer; where the code reads an i32 from bytes, `i32_from_le` gives its value.
pub mod Abridged
pub mod Intermediate
pub mod Full
mod Runs
use grammers.Common.{ℕ, ◌+◌, ◌-◌, ◌^◌, ◌%◌, List, Bool, if◌then◌else◌, ltb}
use grammers.Common.Int.{ℤ, pos, negsuc, as_signed, as_unsigned}
use grammers.Common.Bytes.{to_le, from_le}
use grammers.Common.Outcome.{Outcome}

pub data Error : Type 0 where
  missing_bytes : Error
  bad_len : ℤ → Error
  bad_seq : ℤ → ℤ → Error
  bad_crc : ℕ → ℕ → Error
  bad_status : ℕ → Error

-- `data_range` is `data_start..data_end`.
pub record UnpackedOffset : Type 0 where
  pub data_start : ℕ
  pub data_end : ℕ
  pub next_offset : ℕ

-- `i32::from_le_bytes`, `i32::to_le_bytes` and `x as i32` for a `usize`.
abbrev pub i32_from_le : List ℕ → ℤ
i32_from_le bs = as_signed (2 ^ 31) (from_le bs)

abbrev pub i32_to_le : ℤ → List ℕ
i32_to_le z = to_le 4 (as_unsigned (2 ^ 31) z)

abbrev pub as_i32 : ℕ → ℤ
as_i32 n = as_signed (2 ^ 31) (n % 2 ^ 32)

-- `i32::unsigned_abs` and `x as usize` for an i32 that is not negative.
abbrev pub unsigned_abs : ℤ → ℕ
unsigned_abs (pos n) = n
unsigned_abs (negsuc n) = n + 1

-- `x.wrapping_neg() as u32`
abbrev pub wrapping_neg_u32 : ℤ → ℕ
wrapping_neg_u32 z = (2 ^ 32 - as_unsigned (2 ^ 31) z) % 2 ^ 32
