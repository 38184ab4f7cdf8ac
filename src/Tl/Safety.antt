-- ===== src/Tl/Safety.antt =====
-- Decoding any bytes: panics, the bounds of the buffer, and the nesting depth.
use grammers.Common.{
  ℕ, zero, suc, ◌+◌, ◌-◌, ◌≤◌, ◌≡◌, ◌≢◌, refl, List, [], ◌∷◌, Bool, true, false, ◌==◌,
  if◌then◌else◌, get_elem?, lt_of_get_elem?, Option-cases, length, take, drop, arith, inl, inr,
  length-take, length-drop,
}
use grammers.Common.Outcome.{Outcome, ok, err, panic}
use grammers.Tl.{Error, Cursor, M, lift, bind, ◌>>=◌, read_byte, read_slice, read_exact, with_depth}
use grammers.Tl.Deserialize.{
  join_three, read_three, read_prefix, skip_padding, read_bytes, deserialize_u32, deserialize_items,
  deserialize_vector, deserialize_vec,
}

-- What a decoder may do to the cursor `c`.
pub record Steps {ℓ} {A : Type ℓ} (c : Cursor) (r : Outcome Error A × Cursor) : Type ℓ where
  pub no_panic : r.0 ≢ panic
  pub same_buf : r.1.buf ≡ c.buf
  pub same_depth : r.1.depth ≡ c.depth
  pub forward : c.pos ≤ r.1.pos
  pub within : r.1.pos ≤ length c.buf

-- A decoder that behaves so at every cursor within its buffer.
abbrev pub IsSafe {ℓ} : {A : Type ℓ} → M A → Type ℓ
IsSafe m = (c : Cursor) → c.pos ≤ length c.buf → Steps c (m c)

module _ {A : Type 0} where
  ok-IsSafe : (a : A) → IsSafe (lift (ok a))
  ok-IsSafe a c h = ground arith

  err-IsSafe : (e : Error) → IsSafe (lift {A = A} (err e))
  err-IsSafe e c h = ground arith

  Steps-bind :
      {B : Type 0} (f : A → M B) (c : Cursor) (r : Outcome Error A × Cursor)
      → Steps c r
      → ((a : A) → IsSafe (f a))
      → Steps c (bind r f)
  Steps-bind f c (ok a, c') s safe =
      let t : Steps c' (f a c') = safe a c' (grind arith) in ground arith
  Steps-bind f c (err e, c') s safe = ground arith
  Steps-bind f c (panic, c') s safe = ground arith

  >>=-IsSafe :
      {B : Type 0} (m : M A) (f : A → M B) → IsSafe m → ((a : A) → IsSafe (f a)) → IsSafe (m >>= f)
  >>=-IsSafe m f safe rest c h = Steps-bind f c (m c) (safe c h) rest

read_byte-IsSafe : IsSafe read_byte
unfolding read_byte
read_byte-IsSafe c h = elim (Option-cases (get_elem? c.buf c.pos)) [
  | inl e ↦ ground arith
  | inr (b, e) ↦ ground (arith, lt_of_get_elem? c.buf c.pos b e)
]

read_slice-IsSafe : (len : ℕ) → IsSafe (read_slice len)
unfolding read_slice
read_slice-IsSafe len c h = ground arith

read_exact-IsSafe : (len : ℕ) → IsSafe (read_exact len)
unfolding read_exact
read_exact-IsSafe len c h = ground arith

join_three_lem : (bytes : List ℕ) → length bytes ≡ 3 → (n : ℕ) × (join_three bytes ≡ ok n)
unfolding join_three
join_three_lem [] h = absurd (omega arith)
join_three_lem (a ∷ []) h = absurd (omega arith)
join_three_lem (a ∷ b ∷ []) h = absurd (omega arith)
join_three_lem (a ∷ b ∷ d ∷ r) h = (_, refl)

-- A slice that is read has the length asked for, so three bytes can be joined.
read_three-IsSafe : IsSafe read_three
unfolding read_three read_slice
read_three-IsSafe c h = ground (
  arith,
  length-drop c.pos c.buf,
  length-take 3 (drop c.pos c.buf),
  join_three_lem (take (c.pos + 3 - c.pos) (drop c.pos c.buf)),
)

if-IsSafe : {A : Type 0} (b : Bool) (m k : M A) → IsSafe m → IsSafe k → IsSafe (if b then m else k)
if-IsSafe true m k hm hk = hm
if-IsSafe false m k hm hk = hk

read_prefix-IsSafe : IsSafe read_prefix
unfolding read_prefix
read_prefix-IsSafe = >>=-IsSafe read_byte _ read_byte-IsSafe λ first.
    if-IsSafe (first == 254) _ _ (>>=-IsSafe read_three _ read_three-IsSafe λ len. ok-IsSafe _)
      (ok-IsSafe _)

skip_padding-IsSafe : (padding : ℕ) → IsSafe (skip_padding padding)
unfolding skip_padding
skip_padding-IsSafe padding =
    if-IsSafe (padding == 0) _ _ (ok-IsSafe tt)
      (>>=-IsSafe (read_slice (4 - padding)) _ (read_slice-IsSafe (4 - padding)) λ _. ok-IsSafe tt)

-- Decoding a byte string at any position within any buffer does not panic, leaves the buffer and
-- the depth unchanged, and moves the position forward within the buffer, on errors too.
pub read_bytes-IsSafe : IsSafe read_bytes
unfolding read_bytes
read_bytes-IsSafe = >>=-IsSafe read_prefix _ read_prefix-IsSafe λ p.
    >>=-IsSafe (read_slice p.0) _ (read_slice-IsSafe p.0)
      λ result. >>=-IsSafe (skip_padding p.1) _ (skip_padding-IsSafe p.1) λ _. ok-IsSafe result

deserialize_u32-IsSafe : IsSafe deserialize_u32
unfolding deserialize_u32
deserialize_u32-IsSafe = >>=-IsSafe (read_exact 4) _ (read_exact-IsSafe 4) λ buffer. ok-IsSafe _

module _ {A : Type 0} (deserialize : M A) (safe : IsSafe deserialize) where
  deserialize_items-IsSafe : (n : ℕ) → IsSafe (deserialize_items deserialize n)
  unfolding deserialize_items
  deserialize_items-IsSafe zero = ok-IsSafe []
  deserialize_items-IsSafe (suc n) = >>=-IsSafe deserialize _ safe λ value.
      >>=-IsSafe (deserialize_items deserialize n) _ (deserialize_items-IsSafe n)
        λ values. ok-IsSafe _

  deserialize_vector-IsSafe : IsSafe (deserialize_vector deserialize)
  unfolding deserialize_vector
  deserialize_vector-IsSafe = >>=-IsSafe deserialize_u32 _ deserialize_u32-IsSafe λ len.
      if-IsSafe (len == 0) _ _ (ok-IsSafe []) (
        >>=-IsSafe deserialize _ safe λ first.
          >>=-IsSafe (deserialize_items deserialize (len - 1)) _
            (deserialize_items-IsSafe (len - 1)) λ values. ok-IsSafe _)

  -- If the decoder of an item does not panic, keeps buffer and depth, and moves forward within the
  -- buffer, at every cursor within its buffer, then so does that of a boxed vector, whatever count
  -- the buffer announces.
  pub deserialize_vec-IsSafe : IsSafe (deserialize_vec deserialize)
  unfolding deserialize_vec
  deserialize_vec-IsSafe =
      >>=-IsSafe deserialize_u32 _ deserialize_u32-IsSafe
        λ id. if-IsSafe (id == 0x1cb5_c415) _ _ deserialize_vector-IsSafe (err-IsSafe _)

  -- A scope of `enter` around such a decoder behaves so too: it restores the depth that it found,
  -- and past the limit it is an error.
  pub with_depth-IsSafe : IsSafe (with_depth deserialize)
  unfolding with_depth
  with_depth-IsSafe c h = ground (arith, safe (record c { depth = c.depth + 1 }) h)
