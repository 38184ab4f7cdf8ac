-- ===== src/Transport/Abridged/Framing.antt =====
-- Packing and unpacking a frame (abridged.rs): the bounds of `unpack`, and its answer to a part.
use grammers.Common.{
  ℕ, zero, suc, ◌+◌, ◌*◌, ◌%◌, ◌^◌, ◌≤◌, ◌<◌, ◌≡◌, ◌≢◌, refl, ◌∙◌, List, [], ◌∷◌, ◌++◌, true, false,
  inl, inr, ◌⊎◌, arith, ltb, if◌then◌else◌, Bool-cases, length, take, length-append, length-take,
  append_assoc,
}
use grammers.Common.Bytes.{to_le, from_le}
use Prim.Native.Nat.{bit_or}
use grammers.Common.Bits.{bit_or_127}
use grammers.Common.Outcome.{ok, err, panic, slice, slice-append}
use grammers.Buffer
use grammers.Buffer.{DequeBuffer}
use grammers.Buffer.Contents.{IsValid, as_ref-extend_front, extend_front-IsValid, len-length}
use grammers.Transport.{Error, missing_bytes, UnpackedOffset}
use grammers.Transport.Abridged.{Abridged, header, pack, read_header, check_status, unpack}

-- Reading from a buffer of any bytes gives an error or an offset, never a panic, and the offset's
-- ranges are ordered and lie within the buffer.
pub abridged_unpack_safe :
    (t : Abridged) (buffer : List ℕ)
    → (unpack t buffer ≢ panic)
      × ((o : UnpackedOffset)
          → unpack t buffer ≡ ok o
          → (o.data_start ≤ o.data_end)
            × (o.data_end ≤ o.next_offset)
            × (o.next_offset ≤ length buffer))
unfolding unpack read_header check_status
abridged_unpack_safe t [] = ground arith
abridged_unpack_safe t (first ∷ rest) = ground arith

-- Where a whole packet is found, every shorter prefix of it is answered by `missing_bytes`.
pub abridged_unpack_waits :
    (t : Abridged) (buffer : List ℕ) (n : ℕ) (o : UnpackedOffset)
    → unpack t buffer ≡ ok o
    → n < o.next_offset
    → unpack t (take n buffer) ≡ err missing_bytes
unfolding unpack read_header check_status
abridged_unpack_waits t [] n o e h = ground arith
abridged_unpack_waits t (a ∷ rest) zero o e h = refl
abridged_unpack_waits t (a ∷ rest) (suc n) o e h = ground (arith, length-take n rest)

-- The header of `len` words, read back in front of anything.
read_header-header :
    (len : ℕ) (rest : List ℕ)
    → len < 2 ^ 24
    → read_header (header len ++ rest) ≡ ok (length (header len), len)
unfolding read_header header to_le from_le
read_header-header len rest h = elim (Bool-cases (ltb len 127)) [
  | inl e ↦ ground arith
  | inr e ↦
      let word : bit_or 127 (len % 2 ^ 32 * 2 ^ 8 % 2 ^ 32) ≡ 127 + 256 * len =
        bit_or_127 _ (omega arith) ∙ omega arith in
      rw (e, word) (ground arith)
]

header-length : (len : ℕ) → (1 ≤ length (header len)) × (length (header len) ≤ 4)
unfolding header to_le
header-length len = ground arith

unpack-header :
    (t : Abridged) (payload rest : List ℕ) (len : ℕ)
    → length payload ≡ len * 4
    → len < 2 ^ 24
    → len ≢ 1
    → let size = length (header len) in
      unpack t ((header len ++ payload) ++ rest)
      ≡ ok (record { data_start = size; data_end = size + len * 4; next_offset = size + len * 4 })
unfolding unpack check_status
unpack-header t payload rest len hp hl h1 = ground (
  arith,
  append_assoc (header len) payload rest,
  read_header-header len (payload ++ rest) hl,
  header-length len,
  length-append (header len) (payload ++ rest),
  length-append payload rest,
)

-- Abridged: pack succeeds on a valid buffer of whole words (not one, below 2^24), and unpack takes
-- exactly the frame that it wrote and finds the payload.
pub abridged_unpack-pack :
    (t : Abridged) (d : DequeBuffer ℕ) (rest : List ℕ) (len : ℕ)
    → IsValid d
    → length (Buffer.as_ref d) ≡ len * 4
    → len < 2 ^ 24
    → len ≢ 1
    → (d' : DequeBuffer ℕ) × (frame : List ℕ) × (o : UnpackedOffset) × (pack t d
        ≡ ok (record { init = true }, d'))
      × (Buffer.as_ref d' ≡ (if t.init then [] else 0xef ∷ []) ++ frame)
      × (unpack (record { init = true }) (frame ++ rest) ≡ ok o)
      × (o.next_offset ≡ length frame)
      × (slice {E = Error} (frame ++ rest) o.data_start o.data_end ≡ ok (Buffer.as_ref d))
unfolding pack
abridged_unpack-pack t d rest len v hp hl h1 = (
  d',
  frame,
  _,
  packed (Bool-cases t.init),
  shown (Bool-cases t.init),
  unpack-header _ payload rest len hp hl h1,
  omega (arith, length-append (header len) payload),
  slice-append (header len) payload rest _ _ refl (omega arith),
)
  where
    payload : List ℕ
    payload = Buffer.as_ref d

    frame : List ℕ
    frame = header len ++ payload

    framed : DequeBuffer ℕ
    framed = Buffer.extend_front 0 (header len) d

    d' : DequeBuffer ℕ
    d' = if t.init then framed else Buffer.extend_front 0 (0xef ∷ []) framed

    framed_lem : Buffer.as_ref framed ≡ frame
    framed_lem = as_ref-extend_front 0 (header len) d v

    packed : (t.init ≡ true) ⊎ (t.init ≡ false) → pack t d ≡ ok (record { init = true }, d')
    packed c = ground (arith, len-length d)

    shown :
        (t.init ≡ true) ⊎ (t.init ≡ false)
        → Buffer.as_ref d' ≡ (if t.init then [] else 0xef ∷ []) ++ frame
    shown c = ground (
      arith,
      framed_lem,
      as_ref-extend_front 0 (0xef ∷ []) framed (extend_front-IsValid 0 (header len) d v),
    )
