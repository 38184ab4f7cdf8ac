-- ===== src/Transport/Abridged.antt =====
-- grammers-mtproto/src/transport/abridged.rs.
pub mod Framing
use Prim.Native.Nat.{bit_or}
use grammers.Common.{
  ℕ, ◌+◌, ◌*◌, ◌/◌, ◌%◌, ◌^◌, List, [], ◌∷◌, Bool, true, false, ◌&&◌, ltb, leb, ◌==◌, if◌then◌else◌,
  length, not, Option, none, some, get_elem?,
}
use grammers.Common.Int.{ltb_ℤ, pos}
use grammers.Common.Bytes.{to_le, from_le}
use grammers.Common.Outcome.{Outcome, ok, err, panic, ◌>>=◌, ◌>>◌, ensure, assert, slice}
use grammers.Buffer
use grammers.Buffer.{DequeBuffer}
use grammers.Transport.{Error, missing_bytes, bad_status, UnpackedOffset, i32_from_le, unsigned_abs}

pub record Abridged : Type 0 where
  pub init : Bool

pub new : Abridged
new = record { init = false }

-- The length prefix of a payload of `len * 4` bytes.
pub header : ℕ → List ℕ
header len = if ltb len 127 then len ∷ [] else to_le 4 (bit_or 0x7f (len % 2 ^ 32 * 2 ^ 8 % 2 ^ 32))

unfoldable pub pack : Abridged → DequeBuffer ℕ → Outcome Error (Abridged × DequeBuffer ℕ)
unfolding header
pack t buffer = do
  assert (Buffer.len buffer % 4 == 0)
  let framed = Buffer.extend_front 0 (header (Buffer.len buffer / 4)) buffer
  ok (
      if t.init
      then (t, framed)
      else (record t { init = true }, Buffer.extend_front 0 (0xef ∷ []) framed))

-- The header's size and the number of words that it announces.
unfoldable pub read_header : List ℕ → Outcome Error (ℕ × ℕ)
read_header [] = err missing_bytes
read_header (first ∷ rest) = if ltb first 127 then ok (1, first) else (do
  ensure (leb 4 (length (first ∷ rest))) missing_bytes
  bytes ← slice (first ∷ rest) 1 4
  ok (4, from_le bytes))

-- A lone negative int32 is a transport error.
unfoldable pub check_status : List ℕ → ℕ → ℕ → Outcome Error (Unit {0})
check_status buffer header_len len =
    if header_len == 1 && len == 4
    then (do
      bytes ← slice buffer 1 5
      let data_word = i32_from_le bytes
      ensure (not (ltb_ℤ data_word (pos 0))) (bad_status (unsigned_abs data_word)))
    else ok tt

unfoldable pub unpack : Abridged → List ℕ → Outcome Error UnpackedOffset
unpack t buffer = do
  (header_len, words) ← read_header buffer
  let len = words * 4
  ensure (leb (header_len + len) (length buffer)) missing_bytes
  check_status buffer header_len len
  ok (record {
    data_start = header_len;
    data_end = header_len + len;
    next_offset = header_len + len;
  })

pub init_tag : Abridged → Abridged × List ℕ
init_tag t = (record t { init = true }, 0xef ∷ 0xef ∷ 0xef ∷ 0xef ∷ [])
