-- ===== src/Transport/Full/RoundTrip.antt =====
-- `unpack` of what `pack` wrote, with the counters of the two ends in step.
use grammers.Common.{
  ℕ, ◌+◌, ◌-◌, ◌%◌, ◌^◌, ◌≤◌, ◌<◌, ◌≡◌, refl, sym, ap, ◌∙◌, List, ◌++◌, arith, length,
  length-append, append_assoc, take-append, drop-append,
}
use grammers.Common.Bytes.{to_le, length-to_le, from_le-to_le}
use grammers.Common.Outcome.{ok, slice, slice-append}
use grammers.Common.Int.{pos, ◌+ℤ◌}
use grammers.Buffer
use grammers.Buffer.{DequeBuffer}
use grammers.Buffer.Contents.{
  IsValid, as_ref-extend_front, as_ref-extend, extend_front-IsValid, len-length,
}
use grammers.Transport.{Error, UnpackedOffset}
use grammers.Transport.Full.{Full, add_i32, pack, unpack, read_header, check_crc}

module _ (n k : ℕ) (body : List ℕ) where
  counted : List ℕ
  counted = to_le 4 n ++ (to_le 4 k ++ body)

  length-counted : length counted ≡ 8 + length body
  unfolding counted
  length-counted = omega (
    arith,
    length-append (to_le 4 n) (to_le 4 k ++ body),
    length-append (to_le 4 k) body,
    length-to_le 4 n,
    length-to_le 4 k,
  )

  read_header-counted :
      12 ≤ n
      → n ≤ length counted
      → length counted < 2 ^ 31
      → k < 2 ^ 31
      → read_header counted ≡ ok (n, pos k)
  unfolding read_header counted
  read_header-counted lo there hi hk = ground (
    arith,
    length-counted,
    take-append 4 (to_le 4 n) (to_le 4 k ++ body) (length-to_le 4 n),
    drop-append 4 (to_le 4 n) (to_le 4 k ++ body) (length-to_le 4 n),
    take-append 4 (to_le 4 k) body (length-to_le 4 k),
    from_le-to_le 4 n,
    from_le-to_le 4 k,
  )

module _ (crc : List ℕ → ℕ) (crc_fits : (bytes : List ℕ) → crc bytes < 2 ^ 32) where
  check_crc-append :
      (front rest : List ℕ) (size : ℕ)
      → size ≡ length front + 4
      → check_crc crc (front ++ (to_le 4 (crc front) ++ rest)) size ≡ ok tt
  unfolding check_crc
  check_crc-append front rest size h =
      let sum : List ℕ = to_le 4 (crc front) in
      ground (
        arith,
        length-to_le 4 (crc front),
        length-append front (sum ++ rest),
        length-append sum rest,
        take-append (length front) front (sum ++ rest) refl,
        drop-append (length front) front (sum ++ rest) refl,
        take-append 4 sum rest (length-to_le 4 (crc front)),
        from_le-to_le 4 (crc front) (crc_fits front),
      )

  module _ (t : Full) (d : DequeBuffer ℕ) (k : ℕ) (v : IsValid d) (seq : t.send_seq ≡ pos k) where
    size : ℕ
    size = length (Buffer.as_ref d) + 12

    front : List ℕ
    front = to_le 4 size ++ (to_le 4 k ++ Buffer.as_ref d)

    numbered : DequeBuffer ℕ
    numbered = Buffer.extend_front 0 (to_le 4 k) d

    framed : DequeBuffer ℕ
    framed = Buffer.extend_front 0 (to_le 4 size) numbered

    as_ref-framed : Buffer.as_ref framed ≡ front
    unfolding framed numbered front
    as_ref-framed =
        as_ref-extend_front 0 (to_le 4 size) numbered (extend_front-IsValid 0 (to_le 4 k) d v)
        ∙ ap (◌++◌ (to_le 4 size)) (as_ref-extend_front 0 (to_le 4 k) d v)

    summed : DequeBuffer ℕ
    summed = Buffer.extend (to_le 4 (crc front)) framed

    as_ref-summed : Buffer.as_ref summed ≡ front ++ to_le 4 (crc front)
    unfolding summed framed numbered
    as_ref-summed =
        as_ref-extend (to_le 4 (crc front)) framed
          (extend_front-IsValid 0 (to_le 4 size) numbered (extend_front-IsValid 0 (to_le 4 k) d v))
        ∙ ap (λ xs. xs ++ to_le 4 (crc front)) as_ref-framed

    pack_lem :
        length (Buffer.as_ref d) % 4 ≡ 0
        → size < 2 ^ 31
        → k < 2 ^ 31 - 1
        → pack crc t d ≡ ok (record t { send_seq = pos (k + 1) }, summed)
    unfolding pack add_i32 ◌+ℤ◌ size summed framed numbered
    pack_lem words hi hk = ground (arith, len-length d, as_ref-framed)

    length-front : length front + 4 ≡ size
    unfolding front size
    length-front = omega (
      arith,
      length-append (to_le 4 (length (Buffer.as_ref d) + 12)) (to_le 4 k ++ Buffer.as_ref d),
      length-append (to_le 4 k) (Buffer.as_ref d),
      length-to_le 4 (length (Buffer.as_ref d) + 12),
      length-to_le 4 k,
    )

    read_header-front :
        (tail : List ℕ)
        → k < 2 ^ 31
        → 4 ≤ length tail
        → length front + length tail < 2 ^ 31
        → read_header (front ++ tail) ≡ ok (size, pos k)
    unfolding front counted size
    read_header-front tail hk lo hi =
        let payload = Buffer.as_ref d in
        let n : ℕ = length payload + 12 in
        let whole : length (counted n k (payload ++ tail)) ≡ 8 + length payload + length tail =
          omega (arith, length-counted n k (payload ++ tail), length-append payload tail) in
        rw
          (
            append_assoc (to_le 4 n) (to_le 4 k ++ payload) tail,
            append_assoc (to_le 4 k) payload tail,
          )
          (read_header-counted n k (payload ++ tail) (omega arith) (omega (arith, whole))
            (omega (arith, whole, length-front)) hk)

    unpack_lem :
        (r : Full) (rest : List ℕ)
        → r.recv_seq ≡ pos k
        → k < 2 ^ 31 - 1
        → size + length rest < 2 ^ 31
        → unpack crc r (front ++ (to_le 4 (crc front) ++ rest))
          ≡ ok (
            record r { recv_seq = pos (k + 1) },
            record { data_start = 8; data_end = size - 4; next_offset = size },
          )
    unfolding unpack add_i32 ◌+ℤ◌
    unpack_lem r rest same hk hi =
        let sum = to_le 4 (crc front) in
        let long : length (sum ++ rest) ≡ 4 + length rest =
          omega (arith, length-append sum rest, length-to_le 4 (crc front)) in
        ground (
          arith,
          read_header-front (sum ++ rest) (omega arith) (omega (arith, long))
              (omega (arith, long, length-front)),
          check_crc-append front rest size (sym length-front),
        )

    payload_slice :
        (tail : List ℕ) → slice {E = Error} (front ++ tail) 8 (size - 4) ≡ ok (Buffer.as_ref d)
    unfolding front size
    payload_slice tail =
        let payload = Buffer.as_ref d in
        let before = to_le 4 (length payload + 12) ++ to_le 4 k in
        rw (← append_assoc (to_le 4 (length payload + 12)) (to_le 4 k) payload) (
          slice-append before payload tail _ _
            (omega (
              arith,
              length-append (to_le 4 (length payload + 12)) (to_le 4 k),
              length-to_le 4 (length payload + 12),
              length-to_le 4 k,
            ))
            (omega arith))

-- Full: with a 32-bit checksum, a valid buffer of a whole number of words, both counters at the
-- same number below 2^31 - 1, and fewer than 2^31 bytes in the packet and what follows it, pack
-- succeeds and counts one packet; unpack, whatever follows the packet, takes exactly the packet,
-- counts one and finds the payload.
pub full_unpack-pack :
    (crc : List ℕ → ℕ) (t r : Full) (d : DequeBuffer ℕ) (k : ℕ) (rest : List ℕ)
    → ((bytes : List ℕ) → crc bytes < 2 ^ 32)
    → IsValid d
    → length (Buffer.as_ref d) % 4 ≡ 0
    → t.send_seq ≡ pos k
    → r.recv_seq ≡ pos k
    → k < 2 ^ 31 - 1
    → length (Buffer.as_ref d) + 12 + length rest < 2 ^ 31
    → (d' : DequeBuffer ℕ) × (o : UnpackedOffset) × (pack crc t d
        ≡ ok (record t { send_seq = pos (k + 1) }, d'))
      × (unpack crc r (Buffer.as_ref d' ++ rest) ≡ ok (record r { recv_seq = pos (k + 1) }, o))
      × (o.next_offset ≡ length (Buffer.as_ref d'))
      × (slice {E = Error} (Buffer.as_ref d' ++ rest) o.data_start o.data_end
          ≡ ok (Buffer.as_ref d))
unfolding size
full_unpack-pack crc t r d k rest fits v words sent received hk hi =
    let shown = as_ref-summed crc fits t d k v sent in
    let f = front crc fits t d k v sent in
    let sum = to_le 4 (crc f) in
    let regroup = ap (λ bytes. bytes ++ rest) shown ∙ append_assoc f sum rest in
    let size = length (Buffer.as_ref d) + 12 in
    (
      summed crc fits t d k v sent,
      record { data_start = 8; data_end = size - 4; next_offset = size },
      pack_lem crc fits t d k v sent words (omega arith) hk,
      rw regroup (unpack_lem crc fits t d k v sent r rest received hk hi),
      rw shown (
          omega (
            arith,
            length-append f sum,
            length-to_le 4 (crc f),
            length-front crc fits t d k v sent,
          )),
      rw regroup (payload_slice crc fits t d k v sent (sum ++ rest)),
    )
