-- ===== src/Transport/Intermediate.antt =====
-- grammers-mtproto/src/transport/intermediate.rs.
pub mod Framing
use grammers.Common.{
  ℕ, ◌+◌, ◌%◌, List, [], ◌∷◌, Bool, true, false, leb, ◌==◌, if◌then◌else◌, length, not,
}
use grammers.Common.Int.{ℤ, ltb_ℤ, eqb_ℤ, pos}
use grammers.Common.Bytes.{to_le}
use grammers.Common.Outcome.{Outcome, ok, err, panic, ◌>>=◌, ◌>>◌, ensure, assert, slice}
use grammers.Buffer
use grammers.Buffer.{DequeBuffer}
use grammers.Transport.{
  Error, missing_bytes, bad_len, bad_status, UnpackedOffset, i32_from_le, i32_to_le, as_i32,
  unsigned_abs, wrapping_neg_u32,
}

pub record Intermediate : Type 0 where
  pub init : Bool

abbrev pub tag : List ℕ
tag = 0xee ∷ 0xee ∷ 0xee ∷ 0xee ∷ []

pub new : Intermediate
new = record { init = false }

unfoldable pub pack : Intermediate → DequeBuffer ℕ → Outcome Error (Intermediate × DequeBuffer ℕ)
pack t buffer = do
  assert (Buffer.len buffer % 4 == 0)
  let framed = Buffer.extend_front 0 (i32_to_le (as_i32 (Buffer.len buffer))) buffer
  ok (if t.init then (t, framed) else (record t { init = true }, Buffer.extend_front 0 tag framed))

-- A packet of four bytes is a status, never data.
unfoldable pub check_status : List ℕ → ℤ → Outcome Error (Unit {0})
check_status buffer len =
    if eqb_ℤ len (pos 4)
    then (do bytes ← slice buffer 4 8; err (bad_status (wrapping_neg_u32 (i32_from_le bytes))))
    else ok tt

unfoldable pub unpack : Intermediate → List ℕ → Outcome Error UnpackedOffset
unpack t buffer = do
  ensure (leb 4 (length buffer)) missing_bytes
  bytes ← slice buffer 0 4
  let len = i32_from_le bytes
  ensure (not (ltb_ℤ len (pos 4))) (bad_len len)
  let size = unsigned_abs len
  ensure (leb (4 + size) (length buffer)) missing_bytes
  check_status buffer len
  ok (record { data_start = 4; data_end = 4 + size; next_offset = 4 + size })

pub init_tag : Intermediate → Intermediate × List ℕ
init_tag t = (record t { init = true }, tag)
