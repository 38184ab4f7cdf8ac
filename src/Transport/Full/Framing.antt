-- ===== src/Transport/Full/Framing.antt =====
-- Unpacking a packet (full.rs): the bounds of `unpack`, its answer to a part, and its counter.
use grammers.Common.{
  ℕ, ◌-◌, ◌^◌, ◌≤◌, ◌<◌, ◌≡◌, ◌≢◌, refl, ap, ◌∙◌, List, true, inl, inr, ◌⊎◌, arith, leb, Bool-cases,
  leb→le, length, take, drop, length-take, take-take,
}
use grammers.Common.Outcome.{Outcome, ok, err, panic}
use grammers.Common.Int.{ℤ, pos, ◌+ℤ◌, ltb_ℤ}
use grammers.Transport.{missing_bytes, bad_seq, UnpackedOffset, i32_from_le}
use grammers.Transport.Full.{Full, add_i32, unpack, read_header, check_crc}

-- The counter of received packets is not at the end of its range.
abbrev pub CanCount : ℤ → Type 0
CanCount seq = ltb_ℤ seq (pos (2 ^ 31 - 1)) ≡ true

-- A header that is read announces a packet of at least 12 bytes, all of them there.
read_header_lem :
    (buffer : List ℕ)
    → (read_header buffer ≢ panic)
      × ((size : ℕ) (seq : ℤ)
          → read_header buffer ≡ ok (size, seq)
          → (12 ≤ size)
            × (size ≤ length buffer)
            × (i32_from_le (take 4 buffer) ≡ pos size)
            × (i32_from_le (take 4 (drop 4 buffer)) ≡ seq))
unfolding read_header
read_header_lem buffer = ground arith

-- A header that announces more bytes than there are.
read_header_short :
    (xs : List ℕ) (size : ℕ)
    → length xs < size
    → 12 ≤ size
    → 4 ≤ length xs
    → i32_from_le (take 4 xs) ≡ pos size
    → read_header xs ≡ err missing_bytes
unfolding read_header
read_header_short xs size short lo there e = ground arith

read_header_waits :
    (buffer : List ℕ) (n size : ℕ) (seq : ℤ)
    → read_header buffer ≡ ok (size, seq)
    → n < size
    → read_header (take n buffer) ≡ err missing_bytes
read_header_waits buffer n size seq e h =
    let (lo, fits, word, _) = (read_header_lem buffer).1 size seq e in
    let long : length (take n buffer) ≡ n = omega (arith, length-take n buffer) in
    elim (Bool-cases (leb 4 n)) [
      | inl there ↦
          read_header_short (take n buffer) size (omega arith) lo (ground arith)
            (ap i32_from_le (take-take 4 n buffer (leb→le 4 n there)) ∙ word)
      | inr few ↦ unfold read_header in ground arith
    ]

check_crc-ne-panic :
    (crc : List ℕ → ℕ) (buffer : List ℕ) (size : ℕ)
    → 12 ≤ size
    → size ≤ length buffer
    → check_crc crc buffer size ≢ panic
unfolding check_crc
check_crc-ne-panic crc buffer size h k = ground arith

Outcome-cases :
    {E A : Type 0} (r : Outcome E A)
    → ((a : A) × (r ≡ ok a)) ⊎ ((e : E) × (r ≡ err e)) ⊎ (r ≡ panic)
Outcome-cases (ok a) = inl (a, refl)
Outcome-cases (err e) = inr (inl (e, refl))
Outcome-cases panic = inr (inr refl)

module _ (crc : List ℕ → ℕ) (t : Full) (buffer : List ℕ) where
  -- With a counter that is not at the end of its range, reading from a buffer of any bytes gives an
  -- error or an offset, never a panic.
  pub full_unpack-ne-panic : CanCount t.recv_seq → unpack crc t buffer ≢ panic
  unfolding unpack add_i32 ◌+ℤ◌
  full_unpack-ne-panic h = elim (Outcome-cases (read_header buffer)) [
    | inl ((size, seq), e) ↦ ground (
      arith,
      read_header_lem buffer,
      (read_header_lem buffer).1 size seq e,
      check_crc-ne-panic crc buffer size,
    )
    | inr other ↦ ground (arith, (read_header_lem buffer).0)
  ]

  -- Full: an accepted packet lies within the buffer, its ranges are ordered, and only the receive
  -- counter changes, by one.
  pub full_unpack_bounds :
      (t' : Full) (o : UnpackedOffset)
      → unpack crc t buffer ≡ ok (t', o)
      → (o.data_start ≤ o.data_end)
        × (o.data_end ≤ o.next_offset)
        × (o.next_offset ≤ length buffer)
        × (t'.recv_seq ≡ t.recv_seq +ℤ pos 1)
        × (t'.send_seq ≡ t.send_seq)
  unfolding unpack add_i32
  full_unpack_bounds t' o e = elim (Outcome-cases (read_header buffer)) [
    | inl ((size, seq), q) ↦ ground (arith, (read_header_lem buffer).1 size seq q)
    | inr other ↦ ground arith
  ]

  -- Full: where a whole packet is found, every shorter prefix of it is answered by MissingBytes.
  pub full_unpack_waits :
      (n : ℕ) (t' : Full) (o : UnpackedOffset)
      → unpack crc t buffer ≡ ok (t', o)
      → n < o.next_offset
      → unpack crc t (take n buffer) ≡ err missing_bytes
  unfolding unpack add_i32
  full_unpack_waits n t' o e h = elim (Outcome-cases (read_header buffer)) [
    | inl ((size, seq), q) ↦ ground (arith, read_header_waits buffer n size seq q)
    | inr other ↦ ground arith
  ]

  -- Full: the bytes of an accepted packet are refused the second time, for their sequence number.
  pub full_unpack_twice :
      (t' : Full) (o : UnpackedOffset)
      → unpack crc t buffer ≡ ok (t', o)
      → unpack crc t' buffer ≡ err (bad_seq t'.recv_seq t.recv_seq)
  unfolding unpack add_i32 ◌+ℤ◌
  full_unpack_twice t' o e = elim (Outcome-cases (read_header buffer)) [
    | inl ((size, seq), q) ↦ ground arith
    | inr other ↦ ground arith
  ]
