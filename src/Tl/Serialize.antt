-- ===== src/Tl/Serialize.antt =====
-- grammers-tl-types/src/serialize.rs. A serializer is the list of the bytes that it extends its
-- buffer with. A u32, u64 or f64 is its bit pattern; a string is its bytes.
use Prim.Native.Nat.{bit_and}
use grammers.Common.{
  ℕ, ◌+◌, ◌-◌, ◌/◌, ◌%◌, ◌^◌, List, [], ◌∷◌, ◌++◌, Bool, leb, if◌then◌else◌, length, replicate,
}
use grammers.Common.Int.{ℤ, as_unsigned, as_signed}
use grammers.Common.Bytes.{to_le}

unfoldable pub serialize_u32 : ℕ → List ℕ
serialize_u32 w = to_le 4 w

unfoldable pub serialize_bool : Bool → List ℕ
unfolding serialize_u32
serialize_bool b = serialize_u32 (if b then 0x9972_75b5 else 0xbc79_9737)

unfoldable pub serialize_i32 : ℤ → List ℕ
serialize_i32 z = to_le 4 (as_unsigned (2 ^ 31) z)

unfoldable pub serialize_i64 : ℤ → List ℕ
serialize_i64 z = to_le 8 (as_unsigned (2 ^ 63) z)

unfoldable pub serialize_f64 : ℕ → List ℕ
serialize_f64 bits = to_le 8 bits

-- `[u8; 16]` and `[u8; 32]`.
unfoldable pub serialize_array : List ℕ → List ℕ
serialize_array bytes = bytes

-- `self.len() as i32`
abbrev pub len_i32 {ℓ} : {A : Type ℓ} → List A → ℤ
len_i32 xs = as_signed (2 ^ 31) (length xs % 2 ^ 32)

module _ {ℓ} {A : Type ℓ} (serialize : A → List ℕ) where
  unfoldable pub serialize_items : List A → List ℕ
  serialize_items [] = []
  serialize_items (x ∷ xs) = serialize x ++ serialize_items xs

  unfoldable pub serialize_raw_vec : List A → List ℕ
  unfolding serialize_i32
  serialize_raw_vec xs = serialize_i32 (len_i32 xs) ++ serialize_items xs

  unfoldable pub serialize_vec : List A → List ℕ
  unfolding serialize_u32 serialize_i32
  serialize_vec xs = serialize_u32 0x1cb5_c415 ++ (serialize_i32 (len_i32 xs) ++ serialize_items xs)

-- The length prefix of a byte string, and the size that counts for its padding.
unfoldable pub bytes_header : ℕ → List ℕ × ℕ
bytes_header n =
    if leb n 253
    then ((n % 256) ∷ [], n + 1)
    else (254 ∷ bit_and n 0xff ∷ bit_and (n / 2 ^ 8) 0xff ∷ bit_and (n / 2 ^ 16) 0xff ∷ [], n)

abbrev pub padding : ℕ → ℕ
padding len = (4 - len % 4) % 4

-- `&[u8]`, to which `Vec<u8>` and `String` delegate.
unfoldable pub serialize_bytes : List ℕ → List ℕ
unfolding bytes_header
serialize_bytes bytes =
    let (header, len) = bytes_header (length bytes) in
    header ++ (bytes ++ replicate (padding len) 0)
