-- ===== src/Tl/Deserialize.antt =====
-- grammers-tl-types/src/deserialize.rs: `read_bytes` and the `Deserializable` implementations.
-- `String::from_utf8_lossy` and the capacity that a vector reserves are left out.
use grammers.Common.{
  ℕ, zero, suc, ◌+◌, ◌-◌, ◌*◌, ◌%◌, ◌^◌, List, [], ◌∷◌, Bool, true, false, ◌==◌, if◌then◌else◌,
}
use Prim.Native.Nat.{bit_or}
use grammers.Common.Int.{ℤ, as_signed}
use grammers.Common.Bytes.{from_le}
use grammers.Common.Outcome.{Outcome, ok, err, panic}
use grammers.Tl.{
  Error, unexpected_constructor, M, lift, ◌>>=◌, ◌>>◌, from_slice, read_byte, read_slice,
  read_exact,
}

-- `bytes[0] | bytes[1] << 8 | bytes[2] << 16`, where the slice has three bytes.
unfoldable pub join_three : List ℕ → Outcome Error ℕ
join_three (b₀ ∷ b₁ ∷ b₂ ∷ _) = ok (bit_or (bit_or b₀ (b₁ * 2 ^ 8)) (b₂ * 2 ^ 16))
join_three _ = panic

unfoldable pub read_three : M ℕ
read_three = do bytes ← read_slice 3; lift (join_three bytes)

-- The length that the first byte, or the three behind the mark 254, announce, with the remainder
-- that decides on the padding.
unfoldable pub read_prefix : M (ℕ × ℕ)
read_prefix = do
  first ← read_byte
  if first == 254
      then (do len ← read_three; lift (ok (len, len % 4)))
      else lift (ok (first, (first + 1) % 4))

unfoldable pub skip_padding : ℕ → M (Unit {0})
skip_padding padding =
    if padding == 0 then lift (ok tt) else (do read_slice (4 - padding); lift (ok tt))

unfoldable pub read_bytes : M (List ℕ)
read_bytes = do
  (len, padding) ← read_prefix
  result ← read_slice len
  skip_padding padding
  lift (ok result)

unfoldable pub deserialize_u32 : M ℕ
deserialize_u32 = do buffer ← read_exact 4; lift (ok (from_le buffer))

unfoldable pub deserialize_i32 : M ℤ
deserialize_i32 = do buffer ← read_exact 4; lift (ok (as_signed (2 ^ 31) (from_le buffer)))

unfoldable pub deserialize_i64 : M ℤ
deserialize_i64 = do buffer ← read_exact 8; lift (ok (as_signed (2 ^ 63) (from_le buffer)))

unfoldable pub deserialize_f64 : M ℕ
deserialize_f64 = do buffer ← read_exact 8; lift (ok (from_le buffer))

-- `[u8; 16]` and `[u8; 32]`.
unfoldable pub deserialize_array : ℕ → M (List ℕ)
deserialize_array n = read_exact n

unfoldable pub deserialize_bool : M Bool
deserialize_bool = do
  id ← deserialize_u32
  lift (
      if id == 0x9972_75b5
      then ok true
      else if id == 0xbc79_9737
      then ok false
      else err (unexpected_constructor id))

module _ {ℓ} {A : Type ℓ} (deserialize : M A) where
  -- `for _ in 1..len`, with the rounds left.
  unfoldable pub deserialize_items : ℕ → M (List A)
  deserialize_items zero = lift (ok [])
  deserialize_items (suc n) = do
    value ← deserialize
    values ← deserialize_items n
    lift (ok (value ∷ values))

  unfoldable pub deserialize_vector : M (List A)
  deserialize_vector = do
    len ← deserialize_u32
    if len == 0 then lift (ok []) else (do
      first ← deserialize
      values ← deserialize_items (len - 1)
      lift (ok (first ∷ values)))

  unfoldable pub deserialize_vec : M (List A)
  deserialize_vec = do
    id ← deserialize_u32
    if id == 0x1cb5_c415 then deserialize_vector else lift (err (unexpected_constructor id))

  pub from_bytes : List ℕ → Outcome Error A
  from_bytes bytes = (deserialize (from_slice bytes)).0
