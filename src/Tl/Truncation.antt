-- ===== src/Tl/Truncation.antt =====
-- Decoding an encoding that is cut short.
use grammers.Common.{
  ℕ, zero, suc, ◌+◌, ◌-◌, ◌/◌, ◌%◌, ◌^◌, ◌≤◌, ◌<◌, ◌≡◌, refl, List, [], ◌∷◌, ◌++◌, false, ltb, leb,
  ◌==◌, if◌then◌else◌, take-append_le, take-append_ge, length-take, get_elem?, length, take,
  replicate, arith, inl, inr, length-take, length-append, length-replicate, Bool-cases, leb→le, All,
  append_assoc, none,
}
use grammers.Common.Bytes.{to_le, length-to_le}
use grammers.Common.Bits.{bit_and_255}
use grammers.Common.Outcome.{Outcome, ok, err, panic}
use grammers.Tl.{Error, Cursor, M, lift, bind, ◌>>=◌, read_byte, read_slice, read_exact}
use grammers.Tl.Serialize.{
  serialize_u32, serialize_items, serialize_raw_vec, serialize_vec, bytes_header, padding,
  serialize_bytes,
}
use grammers.Tl.Deserialize.{
  read_three, read_prefix, skip_padding, read_bytes, deserialize_u32, deserialize_items,
  deserialize_vector, deserialize_vec,
}
use grammers.Tl.{unexpected_eof}
use grammers.Tl.RoundTrip.{
  at, Reads, read_byte-Reads, low_three, read_prefix-Reads, read_slice-Reads, deserialize_u32-Reads,
  len_word,
}

-- Where a buffer ends inside `bytes`, `m` at their front is stopped by the end of the buffer.
abbrev pub Waits {ℓ} : {A : Type ℓ} → M A → List ℕ → Type ℓ
Waits m bytes =
    (before : List ℕ) (depth n : ℕ)
    → n < length bytes
    → length before + length bytes < 2 ^ 64
    → (m (at (before ++ take n bytes) depth (length before))).0 ≡ err unexpected_eof

Waits-bind_first :
    {A B : Type 0} (f : A → M B) (r : Outcome Error A × Cursor)
    → r.0 ≡ err unexpected_eof
    → (bind r f).0 ≡ err unexpected_eof
Waits-bind_first f (ok a, c) e = cc
Waits-bind_first f (err e', c) e = ground arith
Waits-bind_first f (panic, c) e = cc

Waits-bind :
    {A B : Type 0} (m : M A) (f : A → M B) (xs ys : List ℕ) (a : A)
    → Reads m xs a
    → Waits m xs
    → Waits (f a) ys
    → Waits (m >>= f) (xs ++ ys)
Waits-bind m f xs ys a reads first second before depth n h small =
    elim (Bool-cases (ltb n (length xs))) [
      | inl e ↦ rw (take-append_le n xs ys (ground arith)) (
          Waits-bind_first f _
            (first before depth n (ground arith) (omega (arith, length-append xs ys))))
      | inr e ↦
          let k : ℕ = n - length xs in
          let cut : take n (xs ++ ys) ≡ xs ++ take k ys = take-append_ge n xs ys (ground arith) in
          let size : length (before ++ (xs ++ take k ys)) < 2 ^ 64 = omega (
            arith,
            length-append before (xs ++ take k ys),
            length-append xs (take k ys),
            length-take k ys,
            length-append xs ys,
          ) in
          let read = reads before (take k ys) depth size in
          let rest =
            second (before ++ xs) depth k (ground (arith, length-append xs ys))
              (omega (arith, length-append before xs, length-append xs ys)) in
          let rest' = rw (append_assoc before xs (take k ys), length-append before xs) at rest in
          rw (cut, read) rest'
    ]

Waits-last : {A B : Type 0} (m : M A) (f : A → M B) (xs : List ℕ) → Waits m xs → Waits (m >>= f) xs
Waits-last m f xs first before depth n h small = Waits-bind_first f _ (first before depth n h small)

read_slice-Waits : (k : ℕ) (bytes : List ℕ) → length bytes ≡ k → Waits (read_slice k) bytes
unfolding read_slice
read_slice-Waits k bytes e before depth n h small =
    ground (arith, length-append before (take n bytes), length-take n bytes)

read_exact-Waits : (k : ℕ) (bytes : List ℕ) → length bytes ≡ k → Waits (read_exact k) bytes
unfolding read_exact
read_exact-Waits k bytes e before depth n h small =
    ground (arith, length-append before (take n bytes), length-take n bytes)

get_elem?-end : (xs : List ℕ) → get_elem? (xs ++ []) (length xs) ≡ none
get_elem?-end [] = refl
get_elem?-end (x ∷ xs) = get_elem?-end xs

read_byte-Waits : (b : ℕ) → Waits read_byte (b ∷ [])
unfolding read_byte
read_byte-Waits b before depth zero h small = rw (get_elem?-end before, read_byte)
read_byte-Waits b before depth (suc n) h small = absurd (omega arith)

short_prefix-Waits : (n : ℕ) → n ≤ 253 → Waits read_prefix (n ∷ [])
unfolding read_prefix
short_prefix-Waits n h = Waits-last read_byte _ (n ∷ []) (read_byte-Waits n)

read_three-Waits : (n : ℕ) → Waits read_three (low_three n)
unfolding read_three
read_three-Waits n =
    Waits-last (read_slice 3) _ (low_three n) (read_slice-Waits 3 (low_three n) refl)

long_prefix-Waits : (n : ℕ) → Waits read_prefix (254 ∷ low_three n)
unfolding read_prefix
long_prefix-Waits n =
    Waits-bind read_byte _ (254 ∷ []) (low_three n) 254 (read_byte-Reads 254) (read_byte-Waits 254)
      (Waits-last read_three _ (low_three n) (read_three-Waits n))

read_prefix-Waits : (n : ℕ) → n < 2 ^ 24 → Waits read_prefix (bytes_header n).0
unfolding bytes_header
read_prefix-Waits n h = elim (Bool-cases (leb n 253)) [
  | inl e ↦
      let low : n % 256 ≡ n = omega (arith, leb→le n 253 e) in
      rw (e, low) (short_prefix-Waits n (leb→le n 253 e))
  | inr e ↦
      rw (e, bit_and_255 n, bit_and_255 (n / 2 ^ 8), bit_and_255 (n / 2 ^ 16)) (long_prefix-Waits n)
]

skip_padding-Waits : (len : ℕ) → Waits (skip_padding (len % 4)) (replicate (padding len) 0)
unfolding skip_padding
skip_padding-Waits len = elim (Bool-cases (len % 4 == 0)) [
  | inl e ↦
      let nothing : padding len ≡ 0 = ground arith in
      rw (e, nothing) (λ before depth n h small. absurd (omega arith))
  | inr e ↦
      let some_bytes : padding len ≡ 4 - len % 4 = ground arith in
      let fill : List ℕ = replicate (4 - len % 4) 0 in
      rw (e, some_bytes)
        (Waits-last (read_slice (4 - len % 4)) _ fill
          (read_slice-Waits (4 - len % 4) fill (length-replicate {A = ℕ} (4 - len % 4) 0)))
]

-- A buffer that ends anywhere inside the encoding of a byte string is answered by UnexpectedEof.
pub read_bytes-Waits :
    (bytes : List ℕ) → length bytes < 2 ^ 24 → Waits read_bytes (serialize_bytes bytes)
unfolding read_bytes serialize_bytes
read_bytes-Waits bytes h =
    let n : ℕ = length bytes in
    let (header, len) = bytes_header n in
    let fill : List ℕ = replicate (padding len) 0 in
    Waits-bind read_prefix _ header (bytes ++ fill) (n, len % 4) (read_prefix-Reads n h)
      (read_prefix-Waits n h)
      (Waits-bind (read_slice n) _ bytes fill bytes (read_slice-Reads bytes)
        (read_slice-Waits n bytes refl)
        (Waits-last (skip_padding (len % 4)) _ fill (skip_padding-Waits len)))

deserialize_u32-Waits : (w : ℕ) → Waits deserialize_u32 (to_le 4 w)
unfolding deserialize_u32
deserialize_u32-Waits w =
    Waits-last (read_exact 4) _ (to_le 4 w) (read_exact-Waits 4 (to_le 4 w) (length-to_le 4 w))

module _ {A : Type 0} (serialize : A → List ℕ) (deserialize : M A) (Fits : A → Type 0)
    (reads : (a : A) → Fits a → Reads deserialize (serialize a) a)
    (waits : (a : A) → Fits a → Waits deserialize (serialize a)) where
  deserialize_items-Waits :
      (xs : List A)
      → All Fits xs
      → Waits (deserialize_items deserialize (length xs)) (serialize_items serialize xs)
  unfolding deserialize_items serialize_items
  deserialize_items-Waits [] fits = λ before depth n h small. absurd (omega arith)
  deserialize_items-Waits (x ∷ xs) fits =
      Waits-bind deserialize _ (serialize x) (serialize_items serialize xs) x (reads x fits.0)
        (waits x fits.0)
        (Waits-last (deserialize_items deserialize (length xs)) _ _
          (deserialize_items-Waits xs fits.1))

  vector_body-Waits :
      (xs : List A)
      → All Fits xs
      → Waits
          (if length xs == 0 then lift (ok []) else (do
            first ← deserialize
            values ← deserialize_items deserialize (length xs - 1)
            lift (ok (first ∷ values))))
          (serialize_items serialize xs)
  unfolding serialize_items
  vector_body-Waits [] fits = λ before depth n h small. absurd (omega arith)
  vector_body-Waits (x ∷ xs) fits =
      let rounds : length (x ∷ xs) - 1 ≡ length xs = omega arith in
      let more : (length (x ∷ xs) == 0) ≡ false = ground arith in
      rw (more, rounds) (unfold deserialize_items in deserialize_items-Waits (x ∷ xs) fits)

  deserialize_vector-Waits :
      (xs : List A)
      → All Fits xs
      → length xs < 2 ^ 32
      → Waits (deserialize_vector deserialize) (serialize_raw_vec serialize xs)
  unfolding deserialize_vector serialize_raw_vec serialize_u32
  deserialize_vector-Waits xs fits h = rw (len_word serialize deserialize Fits reads xs h) (
      Waits-bind deserialize_u32 _ (to_le 4 (length xs)) (serialize_items serialize xs) (length xs)
        (deserialize_u32-Reads (length xs) h) (deserialize_u32-Waits (length xs))
        (vector_body-Waits xs fits))

  -- If an item's decoder reads back each item that fits and is stopped where its encoding is cut
  -- short, then a buffer that ends anywhere inside the encoding of a boxed vector of fewer than
  -- 2 ^ 32 such items is answered by `unexpected_eof`.
  pub deserialize_vec-Waits :
      (xs : List A)
      → All Fits xs
      → length xs < 2 ^ 32
      → Waits (deserialize_vec deserialize) (serialize_vec serialize xs)
  unfolding deserialize_vec serialize_vec serialize_raw_vec serialize_u32
  deserialize_vec-Waits xs fits h =
      Waits-bind deserialize_u32 _ (to_le 4 0x1cb5_c415) (serialize_raw_vec serialize xs)
        0x1cb5_c415 (deserialize_u32-Reads 0x1cb5_c415 (omega arith))
        (deserialize_u32-Waits 0x1cb5_c415) (deserialize_vector-Waits xs fits h)
