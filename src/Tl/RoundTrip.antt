-- ===== src/Tl/RoundTrip.antt =====
-- Decoding what an encoder wrote, at any place in a buffer.
use grammers.Common.{
  ℕ, ◌+◌, ◌-◌, ◌*◌, ◌/◌, ◌%◌, ◌^◌, ◌≤◌, ◌<◌, ◌≡◌, refl, ap, subst, ◌∙◌, List, [], ◌∷◌, ◌++◌, Bool,
  true, false, leb, ◌==◌, if◌then◌else◌, get_elem?, length, replicate, arith, inl, inr,
  length-append, length-replicate, Bool-cases, leb→le, All, append_assoc, some,
}
use grammers.Common.Int.{ℤ, as_signed, as_unsigned, IsSigned, as_signed-as_unsigned, as_unsigned-lt}
use grammers.Common.Bytes.{to_le, from_le, from_le-to_le, length-to_le}
use Prim.Native.Nat.{bit_and}
use grammers.Common.Bits.{bit_and_255, bit_or_shift}
use grammers.Common.Outcome.{Outcome, ok, slice-append}
use grammers.Tl.{Error, Cursor, M, lift, ◌>>=◌, read_byte, read_slice, read_exact}
use grammers.Tl.Serialize.{
  serialize_u32, serialize_bool, serialize_i32, serialize_i64, serialize_f64, serialize_array,
  len_i32, serialize_items, serialize_raw_vec, serialize_vec, bytes_header, padding,
  serialize_bytes,
}
use grammers.Tl.Deserialize.{
  join_three, read_three, read_prefix, skip_padding, read_bytes, deserialize_u32, deserialize_i32,
  deserialize_i64, deserialize_f64, deserialize_array, deserialize_bool, deserialize_items,
  deserialize_vector, deserialize_vec,
}

abbrev pub at : List ℕ → ℕ → ℕ → Cursor
at buf depth p = record { buf = buf; pos = p; depth = depth }

-- `m` at the front of `bytes` takes exactly these and returns `a`, in a buffer of any size that a
-- `usize` can count.
abbrev pub Reads {ℓ} : {A : Type ℓ} → M A → List ℕ → A → Type ℓ
Reads m bytes a =
    (before rest : List ℕ) (depth : ℕ)
    → length (before ++ (bytes ++ rest)) < 2 ^ 64
    → m (at (before ++ (bytes ++ rest)) depth (length before))
      ≡ (ok a, at (before ++ (bytes ++ rest)) depth (length before + length bytes))

Reads-lift : {A : Type 0} (a : A) → Reads (lift (ok a)) [] a
Reads-lift a before rest depth h = ap (λ p. (ok a, at (before ++ rest) depth p)) (omega arith)

Reads-bind :
    {A B : Type 0} (m : M A) (f : A → M B) (xs ys : List ℕ) (a : A) (b : B)
    → Reads m xs a
    → Reads (f a) ys b
    → Reads (m >>= f) (xs ++ ys) b
Reads-bind m f xs ys a b hm hf before rest depth h =
    let e : before ++ ((xs ++ ys) ++ rest) ≡ before ++ (xs ++ (ys ++ rest)) =
      ap (◌++◌ before) (append_assoc xs ys rest) in
    let buf = before ++ (xs ++ (ys ++ rest)) in
    let small : length buf < 2 ^ 64 = rw e at h in
    let first = hm before (ys ++ rest) depth small in
    let small' : length ((before ++ xs) ++ (ys ++ rest)) < 2 ^ 64 = rw append_assoc small in
    let second = hf (before ++ xs) rest depth small' in
    let second' = rw (append_assoc before xs (ys ++ rest), length-append before xs) at second in
    rw (e, first) (second' ∙ ap (λ p. (ok b, at buf depth p)) (omega (arith, length-append xs ys)))

pub read_slice-Reads : (bytes : List ℕ) → Reads (read_slice (length bytes)) bytes bytes
unfolding read_slice
read_slice-Reads bytes before rest depth h =
    let part =
      slice-append {E = Error} before bytes rest (length before) (length before + length bytes) refl
        refl in
    let part' = rw append_assoc at part in
    ground (arith, part', length-append before (bytes ++ rest), length-append bytes rest)

read_exact-Reads : (bytes : List ℕ) → Reads (read_exact (length bytes)) bytes bytes
unfolding read_exact
read_exact-Reads bytes before rest depth h =
    let part =
      slice-append {E = Error} before bytes rest (length before) (length before + length bytes) refl
        refl in
    let part' = rw append_assoc at part in
    ground (arith, part', length-append before (bytes ++ rest), length-append bytes rest)

get_elem?-append : (xs ys : List ℕ) (b : ℕ) → get_elem? (xs ++ (b ∷ ys)) (length xs) ≡ some b
get_elem?-append [] ys b = refl
get_elem?-append (x ∷ xs) ys b = get_elem?-append xs ys b

pub read_byte-Reads : (b : ℕ) → Reads read_byte (b ∷ []) b
unfolding read_byte
read_byte-Reads b before rest depth h = rw (get_elem?-append before rest b, read_byte)

pub read_slice-Reads_of :
    (n : ℕ) (bytes : List ℕ) → length bytes ≡ n → Reads (read_slice n) bytes bytes
read_slice-Reads_of n bytes e =
    subst (λ n. Reads (read_slice n) bytes bytes) e (read_slice-Reads bytes)

pub read_exact-Reads_of :
    (n : ℕ) (bytes : List ℕ) → length bytes ≡ n → Reads (read_exact n) bytes bytes
read_exact-Reads_of n bytes e =
    subst (λ n. Reads (read_exact n) bytes bytes) e (read_exact-Reads bytes)

pub Reads-map :
    {A B : Type 0} (m : M A) (g : A → B) (xs : List ℕ) (a : A) (b : B)
    → Reads m xs a
    → g a ≡ b
    → Reads (m >>= λ x. lift (ok (g x))) xs b
Reads-map m g xs a b hm e before rest depth h = rw (hm before rest depth h, e)

Reads-check :
    {A B : Type 0} (m : M A) (g : A → Outcome Error B) (xs : List ℕ) (a : A) (b : B)
    → Reads m xs a
    → g a ≡ ok b
    → Reads (m >>= λ x. lift (g x)) xs b
Reads-check m g xs a b hm e before rest depth h = rw (hm before rest depth h, e)

-- A word of 32 bits.
pub deserialize_u32-Reads : (w : ℕ) → w < 2 ^ 32 → Reads deserialize_u32 (serialize_u32 w) w
unfolding deserialize_u32 serialize_u32
deserialize_u32-Reads w h =
    Reads-map (read_exact 4) from_le (to_le 4 w) (to_le 4 w) w
      (read_exact-Reads_of 4 (to_le 4 w) (length-to_le 4 w)) (from_le-to_le 4 w h)

deserialize_i32-Reads : (z : ℤ) → IsSigned (2 ^ 31) z → Reads deserialize_i32 (serialize_i32 z) z
unfolding deserialize_i32 serialize_i32
deserialize_i32-Reads z h =
    let w : ℕ = as_unsigned (2 ^ 31) z in
    Reads-map (read_exact 4) (λ bs. as_signed (2 ^ 31) (from_le bs)) (to_le 4 w) (to_le 4 w) z
      (read_exact-Reads_of 4 (to_le 4 w) (length-to_le 4 w))
      (ap (as_signed (2 ^ 31)) (from_le-to_le 4 w (as_unsigned-lt (2 ^ 31) z h))
        ∙ as_signed-as_unsigned (2 ^ 31) z h)

deserialize_i64-Reads : (z : ℤ) → IsSigned (2 ^ 63) z → Reads deserialize_i64 (serialize_i64 z) z
unfolding deserialize_i64 serialize_i64
deserialize_i64-Reads z h =
    let w : ℕ = as_unsigned (2 ^ 63) z in
    Reads-map (read_exact 8) (λ bs. as_signed (2 ^ 63) (from_le bs)) (to_le 8 w) (to_le 8 w) z
      (read_exact-Reads_of 8 (to_le 8 w) (length-to_le 8 w))
      (ap (as_signed (2 ^ 63)) (from_le-to_le 8 w (as_unsigned-lt (2 ^ 63) z h))
        ∙ as_signed-as_unsigned (2 ^ 63) z h)

deserialize_f64-Reads : (bits : ℕ) → bits < 2 ^ 64 → Reads deserialize_f64 (serialize_f64 bits) bits
unfolding deserialize_f64 serialize_f64
deserialize_f64-Reads w h =
    Reads-map (read_exact 8) from_le (to_le 8 w) (to_le 8 w) w
      (read_exact-Reads_of 8 (to_le 8 w) (length-to_le 8 w)) (from_le-to_le 8 w h)

deserialize_bool-Reads : (b : Bool) → Reads deserialize_bool (serialize_bool b) b
unfolding deserialize_bool serialize_bool
deserialize_bool-Reads true =
    Reads-check deserialize_u32 _ _ 0x9972_75b5 true
      (deserialize_u32-Reads 0x9972_75b5 (omega arith)) refl
deserialize_bool-Reads false =
    Reads-check deserialize_u32 _ _ 0xbc79_9737 false
      (deserialize_u32-Reads 0xbc79_9737 (omega arith)) refl

deserialize_array-Reads :
    (bytes : List ℕ) → Reads (deserialize_array (length bytes)) (serialize_array bytes) bytes
unfolding deserialize_array serialize_array
deserialize_array-Reads bytes = read_exact-Reads bytes

-- The fixed-size primitives are read back from any place in a buffer.
pub primitives-Reads :
    ((z : ℤ) → IsSigned (2 ^ 31) z → Reads deserialize_i32 (serialize_i32 z) z)
    × ((w : ℕ) → w < 2 ^ 32 → Reads deserialize_u32 (serialize_u32 w) w)
    × ((z : ℤ) → IsSigned (2 ^ 63) z → Reads deserialize_i64 (serialize_i64 z) z)
    × ((bits : ℕ) → bits < 2 ^ 64 → Reads deserialize_f64 (serialize_f64 bits) bits)
    × ((b : Bool) → Reads deserialize_bool (serialize_bool b) b)
    × ((bytes : List ℕ) → Reads (deserialize_array (length bytes)) (serialize_array bytes) bytes)
primitives-Reads = (
  deserialize_i32-Reads, deserialize_u32-Reads, deserialize_i64-Reads, deserialize_f64-Reads,
  deserialize_bool-Reads, deserialize_array-Reads,
)

module _ {A : Type 0} (serialize : A → List ℕ) (deserialize : M A) (Fits : A → Type 0)
    (item : (a : A) → Fits a → Reads deserialize (serialize a) a) where
  deserialize_items-Reads :
      (xs : List A)
      → All Fits xs
      → Reads (deserialize_items deserialize (length xs)) (serialize_items serialize xs) xs
  unfolding deserialize_items serialize_items
  deserialize_items-Reads [] fits = Reads-lift []
  deserialize_items-Reads (x ∷ xs) fits =
      Reads-bind deserialize _ (serialize x) (serialize_items serialize xs) x (x ∷ xs)
        (item x fits.0)
        (Reads-map (deserialize_items deserialize (length xs)) (◌∷◌ x) _ xs (x ∷ xs)
          (deserialize_items-Reads xs fits.1) refl)

  pub len_word : (xs : List A) → length xs < 2 ^ 32 → as_unsigned (2 ^ 31) (len_i32 xs) ≡ length xs
  len_word xs h = ground arith

  vector_body-Reads :
      (xs : List A)
      → All Fits xs
      → Reads
          (if length xs == 0 then lift (ok []) else (do
            first ← deserialize
            values ← deserialize_items deserialize (length xs - 1)
            lift (ok (first ∷ values))))
          (serialize_items serialize xs)
          xs
  unfolding serialize_items
  vector_body-Reads [] fits = Reads-lift []
  vector_body-Reads (x ∷ xs) fits =
      let rounds : length (x ∷ xs) - 1 ≡ length xs = omega arith in
      let more : (length (x ∷ xs) == 0) ≡ false = ground arith in
      rw (more, rounds) (unfold deserialize_items in deserialize_items-Reads (x ∷ xs) fits)

  deserialize_vector-Reads :
      (xs : List A)
      → All Fits xs
      → length xs < 2 ^ 32
      → Reads (deserialize_vector deserialize) (serialize_raw_vec serialize xs) xs
  unfolding deserialize_vector serialize_raw_vec serialize_u32
  deserialize_vector-Reads xs fits h = rw (len_word xs h) (
      Reads-bind deserialize_u32 _ (to_le 4 (length xs)) (serialize_items serialize xs) (length xs)
        xs (deserialize_u32-Reads (length xs) h) (vector_body-Reads xs fits))

  -- If the item decoder reads back each item, vectors of fewer than 2^32 items are read back, bare
  -- and boxed.
  pub vectors-Reads :
      (xs : List A)
      → All Fits xs
      → length xs < 2 ^ 32
      → Reads (deserialize_vector deserialize) (serialize_raw_vec serialize xs) xs
        × Reads (deserialize_vec deserialize) (serialize_vec serialize xs) xs
  unfolding deserialize_vec serialize_vec serialize_raw_vec
  vectors-Reads xs fits h = (
    deserialize_vector-Reads xs fits h,
    Reads-bind deserialize_u32 _ (to_le 4 0x1cb5_c415) (serialize_raw_vec serialize xs) 0x1cb5_c415
        xs (deserialize_u32-Reads 0x1cb5_c415 (omega arith)) (deserialize_vector-Reads xs fits h),
  )

-- The three length bytes behind the mark 254.
join_three-lem :
    (n : ℕ) → n < 2 ^ 24 → join_three (n % 256 ∷ n / 2 ^ 8 % 256 ∷ n / 2 ^ 16 % 256 ∷ []) ≡ ok n
unfolding join_three
join_three-lem n h =
    rw
      (
        bit_or_shift 8 (n % 256) (n / 2 ^ 8 % 256) (omega arith),
        bit_or_shift 16 (n % 256 + n / 2 ^ 8 % 256 * 2 ^ 8) (n / 2 ^ 16 % 256) (omega arith),
      )
      (ap ok (omega arith))

abbrev pub low_three : ℕ → List ℕ
low_three n = (n % 256) ∷ (n / 2 ^ 8 % 256) ∷ (n / 2 ^ 16 % 256) ∷ []

pub read_three-Reads : (n : ℕ) → n < 2 ^ 24 → Reads read_three (low_three n) n
unfolding read_three
read_three-Reads n h =
    Reads-check (read_slice 3) join_three (low_three n) (low_three n) n
      (read_slice-Reads_of 3 (low_three n) refl) (join_three-lem n h)

pub short_prefix-Reads : (n : ℕ) → n ≤ 253 → Reads read_prefix (n ∷ []) (n, (n + 1) % 4)
unfolding read_prefix
short_prefix-Reads n h =
    let other : (n == 254) ≡ false = ground arith in
    Reads-bind read_byte _ (n ∷ []) [] n (n, (n + 1) % 4) (read_byte-Reads n)
      (rw other (Reads-lift (n, (n + 1) % 4)))

pub long_prefix-Reads : (n : ℕ) → n < 2 ^ 24 → Reads read_prefix (254 ∷ low_three n) (n, n % 4)
unfolding read_prefix
long_prefix-Reads n h =
    Reads-bind read_byte _ (254 ∷ []) (low_three n) 254 (n, n % 4) (read_byte-Reads 254)
      (Reads-map read_three (λ len. (len, len % 4)) (low_three n) n (n, n % 4)
        (read_three-Reads n h) refl)

pub read_prefix-Reads :
    (n : ℕ) → n < 2 ^ 24 → Reads read_prefix (bytes_header n).0 (n, (bytes_header n).1 % 4)
unfolding bytes_header
read_prefix-Reads n h = elim (Bool-cases (leb n 253)) [
  | inl e ↦
      let low : n % 256 ≡ n = omega (arith, leb→le n 253 e) in
      rw (e, low) (short_prefix-Reads n (leb→le n 253 e))
  | inr e ↦
      rw (e, bit_and_255 n, bit_and_255 (n / 2 ^ 8), bit_and_255 (n / 2 ^ 16))
        (long_prefix-Reads n h)
]

pub skip_padding-Reads : (len : ℕ) → Reads (skip_padding (len % 4)) (replicate (padding len) 0) tt
unfolding skip_padding
skip_padding-Reads len = elim (Bool-cases (len % 4 == 0)) [
  | inl e ↦ let nothing : padding len ≡ 0 = ground arith in rw (e, nothing) (Reads-lift tt)
  | inr e ↦
      let some_bytes : padding len ≡ 4 - len % 4 = ground arith in
      let fill : List ℕ = replicate (4 - len % 4) 0 in
      rw (e, some_bytes)
        (Reads-map (read_slice (4 - len % 4)) (λ _. tt) fill fill tt
          (read_slice-Reads_of (4 - len % 4) fill (length-replicate (4 - len % 4) 0)) refl)
]

-- A byte string shorter than 2^24 is read back from any place in a buffer.
pub read_bytes-serialize_bytes :
    (bytes : List ℕ) → length bytes < 2 ^ 24 → Reads read_bytes (serialize_bytes bytes) bytes
unfolding read_bytes serialize_bytes
read_bytes-serialize_bytes bytes h =
    let n : ℕ = length bytes in
    let (header, len) = bytes_header n in
    let fill : List ℕ = replicate (padding len) 0 in
    Reads-bind read_prefix _ header (bytes ++ fill) (n, len % 4) bytes (read_prefix-Reads n h)
      (Reads-bind (read_slice n) _ bytes fill bytes bytes (read_slice-Reads bytes) (
        Reads-map (skip_padding (len % 4)) (λ _. bytes) fill tt bytes (skip_padding-Reads len)
          refl))

-- The encoding of a byte string, of any length, fills whole words of four bytes.
pub serialize_bytes_aligned : (bytes : List ℕ) → length (serialize_bytes bytes) % 4 ≡ 0
unfolding serialize_bytes bytes_header
serialize_bytes_aligned bytes = elim (Bool-cases (leb (length bytes) 253)) [
  | inl e ↦ rw e (whole ((length bytes % 256) ∷ []) (length bytes + 1) (omega arith))
  | inr e ↦ rw e (
      whole
        (254
          ∷ bit_and (length bytes) 0xff
          ∷ bit_and (length bytes / 2 ^ 8) 0xff
          ∷ bit_and (length bytes / 2 ^ 16) 0xff
          ∷ [])
        (length bytes) (omega arith))
]
  where
    whole :
        (header : List ℕ) (len : ℕ)
        → (length header + length bytes) % 4 ≡ len % 4
        → length (header ++ (bytes ++ replicate (padding len) 0)) % 4 ≡ 0
    whole header len e = omega (
      arith,
      length-append header (bytes ++ replicate (padding len) 0),
      length-append bytes (replicate (padding len) 0),
      length-replicate {A = ℕ} (padding len) 0,
    )
