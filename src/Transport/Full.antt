-- ===== src/Transport/Full.antt =====
-- grammers-mtproto/src/transport/full.rs. The checksum of the crate crc32fast is a parameter.
pub mod Framing
pub mod RoundTrip
use grammers.Common.{
  ℕ, ◌+◌, ◌-◌, ◌%◌, ◌^◌, List, [], ◌∷◌, ◌++◌, leb, ◌==◌, if◌then◌else◌, length, not,
}
use grammers.Common.Int.{ℤ, ltb_ℤ, eqb_ℤ, pos, ◌+ℤ◌}
use grammers.Common.Bytes.{to_le, from_le}
use grammers.Common.Outcome.{Outcome, ok, err, panic, ◌>>=◌, ◌>>◌, ensure, assert, slice}
use grammers.Buffer
use grammers.Buffer.{DequeBuffer}
use grammers.Transport.{
  Error, missing_bytes, bad_len, bad_seq, bad_crc, bad_status, UnpackedOffset, i32_from_le,
  i32_to_le, as_i32, unsigned_abs,
}

pub record Full : Type 0 where
  pub send_seq : ℤ
  pub recv_seq : ℤ

pub new : Full
new = record { send_seq = pos 0; recv_seq = pos 0 }

-- `a + b` on i32: leaving the range is a panic.
unfoldable pub add_i32 : ℤ → ℕ → Outcome Error ℤ
add_i32 a b = let sum = a +ℤ pos b in if ltb_ℤ sum (pos (2 ^ 31)) then ok sum else panic

-- The length in front of a payload is negative (a status) or at least 12.
pub check_len : ℤ → Outcome Error (Unit {0})
check_len len =
    if ltb_ℤ len (pos 12)
    then (if ltb_ℤ len (pos 0) then err (bad_status (unsigned_abs len)) else err (bad_len len))
    else ok tt

-- The size of the packet and its sequence number, if all of its bytes are there.
unfoldable pub read_header : List ℕ → Outcome Error (ℕ × ℤ)
unfolding check_len
read_header buffer = do
  ensure (leb 4 (length buffer)) missing_bytes
  len_bytes ← slice buffer 0 4
  let len = i32_from_le len_bytes
  check_len len
  ensure (not (ltb_ℤ (as_i32 (length buffer)) len)) missing_bytes
  seq_bytes ← slice buffer 4 8
  ok (unsigned_abs len, i32_from_le seq_bytes)

-- `crc` is `crc32fast::Hasher` over the bytes.
unfoldable pub check_crc : (List ℕ → ℕ) → List ℕ → ℕ → Outcome Error (Unit {0})
check_crc crc buffer size = do
  crc_bytes ← slice buffer (size - 4) size
  body ← slice buffer 0 (size - 4)
  ensure (from_le crc_bytes == crc body) (bad_crc (crc body) (from_le crc_bytes))

module _ (crc : List ℕ → ℕ) where
  unfoldable pub pack : Full → DequeBuffer ℕ → Outcome Error (Full × DequeBuffer ℕ)
  pack t buffer = do
    assert (Buffer.len buffer % 4 == 0)
    len ← add_i32 (as_i32 (Buffer.len buffer)) 12
    let numbered = Buffer.extend_front 0 (i32_to_le t.send_seq) buffer
    let framed = Buffer.extend_front 0 (i32_to_le len) numbered
    let summed = Buffer.extend (to_le 4 (crc (Buffer.as_ref framed))) framed
    send_seq ← add_i32 t.send_seq 1
    ok (record t { send_seq = send_seq }, summed)

  unfoldable pub unpack : Full → List ℕ → Outcome Error (Full × UnpackedOffset)
  unpack t buffer = do
    (size, seq) ← read_header buffer
    ensure (eqb_ℤ seq t.recv_seq) (bad_seq t.recv_seq seq)
    check_crc crc buffer size
    recv_seq ← add_i32 t.recv_seq 1
    ok (
      record t { recv_seq = recv_seq },
      record { data_start = 8; data_end = size - 4; next_offset = size },
    )
