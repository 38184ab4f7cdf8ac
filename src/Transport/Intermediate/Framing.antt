-- ===== src/Transport/Intermediate/Framing.antt =====
-- Packing and unpacking a frame (intermediate.rs): the bounds of `unpack`, and its answer to a part.
use grammers.Common.{
  ℕ, ◌+◌, ◌%◌, ◌^◌, ◌≤◌, ◌<◌, ◌≡◌, ◌≢◌, refl, sym, List, [], ◌++◌, true, arith, if◌then◌else◌,
  length, take, length-append, length-take, take-take, append_assoc, take-append, drop-append,
}
use grammers.Common.Bytes.{length-to_le, from_le-to_le}
use grammers.Common.Outcome.{ok, err, panic, slice, slice-append}
use grammers.Buffer
use grammers.Buffer.{DequeBuffer}
use grammers.Buffer.Contents.{IsValid, as_ref-extend_front, extend_front-IsValid, len-length}
use grammers.Transport.{
  Error, missing_bytes, bad_status, UnpackedOffset, i32_to_le, i32_from_le, as_i32,
  wrapping_neg_u32,
}
use grammers.Transport.Intermediate.{Intermediate, tag, pack, check_status, unpack}

-- Reading from a buffer of any bytes gives an error or an offset, never a panic, and the offset's
-- ranges are ordered and lie within the buffer.
pub intermediate_unpack_safe :
    (t : Intermediate) (buffer : List ℕ)
    → (unpack t buffer ≢ panic)
      × ((o : UnpackedOffset)
          → unpack t buffer ≡ ok o
          → (o.data_start ≤ o.data_end)
            × (o.data_end ≤ o.next_offset)
            × (o.next_offset ≤ length buffer))
unfolding unpack check_status
intermediate_unpack_safe t buffer = ground arith

-- Where a whole packet is found, every shorter prefix of it is answered by `missing_bytes`.
pub intermediate_unpack_waits :
    (t : Intermediate) (buffer : List ℕ) (n : ℕ) (o : UnpackedOffset)
    → unpack t buffer ≡ ok o
    → n < o.next_offset
    → unpack t (take n buffer) ≡ err missing_bytes
unfolding unpack check_status
intermediate_unpack_waits t buffer n o e h =
    ground (arith, length-take n buffer, take-take 4 n buffer)

frame : List ℕ → List ℕ
frame payload = i32_to_le (as_i32 (length payload)) ++ payload

length-header : (payload : List ℕ) → length (i32_to_le (as_i32 (length payload))) ≡ 4
length-header payload = length-to_le 4 _

length-frame : (payload : List ℕ) → length (frame payload) ≡ 4 + length payload
unfolding frame
length-frame payload =
    omega
      (arith, length-append (i32_to_le (as_i32 (length payload))) payload, length-header payload)

module _ (t : Intermediate) (payload rest : List ℕ) where
  unpack-frame :
      8 ≤ length payload
      → length payload < 2 ^ 31
      → let size = length payload in
        unpack t (frame payload ++ rest)
        ≡ ok (record { data_start = 4; data_end = 4 + size; next_offset = 4 + size })
  unfolding unpack check_status frame
  unpack-frame lo hi =
      let header : List ℕ = i32_to_le (as_i32 (length payload)) in
      rw (append_assoc header payload rest) (
        ground (
          arith,
          from_le-to_le 4 (length payload),
          length-header payload,
          take-append 4 header (payload ++ rest),
          length-append header (payload ++ rest),
          length-append payload rest,
        ))

  unpack_status :
      length payload ≡ 4
      → unpack t (frame payload ++ rest) ≡ err (bad_status (wrapping_neg_u32 (i32_from_le payload)))
  unfolding unpack check_status frame
  unpack_status h =
      let header : List ℕ = i32_to_le (as_i32 (length payload)) in
      ground (
        arith,
        append_assoc header payload rest,
        from_le-to_le 4 (length payload),
        length-header payload,
        take-append 4 header (payload ++ rest),
        take-append 4 payload rest,
        drop-append 4 header (payload ++ rest),
        length-append header (payload ++ rest),
        length-append payload rest,
      )

module _ (t : Intermediate) (d : DequeBuffer ℕ) (v : IsValid d)
    (words : length (Buffer.as_ref d) % 4 ≡ 0) where
  payload : List ℕ
  payload = Buffer.as_ref d

  framed : DequeBuffer ℕ
  framed = Buffer.extend_front 0 (i32_to_le (as_i32 (length payload))) d

  -- What `pack` leaves behind: a stream marked as begun, and the frame behind the first tag.
  pack_lem :
      (d' : DequeBuffer ℕ) × (pack t d ≡ ok (record { init = true }, d'))
      × (Buffer.as_ref d' ≡ (if t.init then [] else tag) ++ frame payload)
  unfolding pack payload framed frame
  pack_lem =
      let shown = as_ref-extend_front 0 (i32_to_le (as_i32 (length payload))) d v in
      let valid = extend_front-IsValid 0 (i32_to_le (as_i32 (length payload))) d v in
      (
        if t.init then framed else Buffer.extend_front 0 tag framed,
        ground (arith, len-length d),
        ground (arith, shown, as_ref-extend_front 0 tag framed valid),
      )

-- Intermediate: pack succeeds on a valid buffer of whole words (two or more, below 2^31 bytes), and
-- unpack takes exactly the frame and finds the payload.
pub intermediate_unpack-pack :
    (t : Intermediate) (d : DequeBuffer ℕ) (rest : List ℕ)
    → IsValid d
    → length (Buffer.as_ref d) % 4 ≡ 0
    → 8 ≤ length (Buffer.as_ref d)
    → length (Buffer.as_ref d) < 2 ^ 31
    → (d' : DequeBuffer ℕ) × (bytes : List ℕ) × (o : UnpackedOffset) × (pack t d
        ≡ ok (record { init = true }, d'))
      × (Buffer.as_ref d' ≡ (if t.init then [] else tag) ++ bytes)
      × (unpack (record { init = true }) (bytes ++ rest) ≡ ok o)
      × (o.next_offset ≡ length bytes)
      × (slice {E = Error} (bytes ++ rest) o.data_start o.data_end ≡ ok (Buffer.as_ref d))
unfolding frame payload
intermediate_unpack-pack t d rest v words lo hi =
    let payload = Buffer.as_ref d in
    let header = i32_to_le (as_i32 (length payload)) in
    let (d', packed, shown) = pack_lem t d v words in
    (
      d',
      frame payload,
      _,
      packed,
      shown,
      unpack-frame _ payload rest lo hi,
      sym (length-frame payload),
      slice-append header payload rest _ _ (length-header payload) refl,
    )

-- A valid buffer of four bytes is framed in the same way, but what `unpack` makes of that frame is
-- the status whose number is the payload's, negated: no such payload can be received.
pub intermediate_unpack-pack_status :
    (t : Intermediate) (d : DequeBuffer ℕ) (rest : List ℕ)
    → IsValid d
    → length (Buffer.as_ref d) ≡ 4
    → (d' : DequeBuffer ℕ) × (bytes : List ℕ) × (pack t d ≡ ok (record { init = true }, d'))
      × (Buffer.as_ref d' ≡ (if t.init then [] else tag) ++ bytes)
      × (unpack (record { init = true }) (bytes ++ rest)
          ≡ err (bad_status (wrapping_neg_u32 (i32_from_le (Buffer.as_ref d)))))
unfolding frame payload
intermediate_unpack-pack_status t d rest v h =
    let (d', packed, shown) = pack_lem t d v (omega arith) in
    (d', frame (Buffer.as_ref d), packed, shown, unpack_status _ (Buffer.as_ref d) rest h)
