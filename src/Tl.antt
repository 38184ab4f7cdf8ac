-- ===== src/Tl.antt =====
-- grammers-tl-types/src/deserialize.rs and serialize.rs: the binary encoding of TL values.
-- The cursor is here; the encoders are in Serialize, the decoders in Deserialize.
pub mod Serialize
pub mod Deserialize
pub mod Safety
pub mod RoundTrip
pub mod Truncation
mod Runs
use grammers.Common.{
  ℕ, suc, ◌+◌, ◌-◌, ◌*◌, ◌%◌, ◌^◌, List, [], ◌∷◌, ◌++◌, Bool, ◌&&◌, Option, none, some, ltb, leb,
  ◌==◌, if◌then◌else◌, length, take, drop, get_elem?,
}
use grammers.Common.Outcome
use grammers.Common.Outcome.{Outcome, ok, err, panic, slice}

pub data Error : Type 0 where
  unexpected_eof depth_limit_exceeded : Error
  unexpected_constructor : ℕ → Error

pub record Cursor : Type 0 where
  pub buf : List ℕ
  pub pos : ℕ
  pub depth : ℕ

abbrev pub max_depth : ℕ
max_depth = 64

-- A method of `&mut Cursor`: its result, and the cursor that it leaves, also on an error.
abbrev pub M {ℓ} : Type ℓ → Type ℓ
M A = Cursor → Outcome Error A × Cursor

abbrev pub lift {ℓ} : {A : Type ℓ} → Outcome Error A → M A
lift r c = (r, c)

abbrev pub bind {ℓ κ} :
    {A : Type ℓ} {B : Type κ} → Outcome Error A × Cursor → (A → M B) → Outcome Error B × Cursor
bind (ok a, c) f = f a c
bind (err e, c) f = (err e, c)
bind (panic, c) f = (panic, c)

infixl 5 ◌>>=◌ ◌>>◌
abbrev pub ◌>>=◌ {ℓ κ} : {A : Type ℓ} {B : Type κ} → M A → (A → M B) → M B
◌>>=◌ m f c = bind (m c) f

abbrev pub ◌>>◌ {ℓ κ} : {A : Type κ} {B : Type ℓ} → M A → M B → M B
m >> k = m >>= λ _. k

pub from_slice : List ℕ → Cursor
from_slice buf = record { buf = buf; pos = 0; depth = 0 }

-- A scope of `enter`: the guard restores the depth when it is dropped, on success and on errors.
pub with_depth {ℓ} : {A : Type ℓ} → M A → M A
with_depth body c =
    if c.depth == max_depth
    then (err depth_limit_exceeded, c)
    else (let (r, c') = body (record c { depth = c.depth + 1 }) in
        (r, record c' { depth = c'.depth - 1 }))

pub read_byte : M ℕ
read_byte c = elim (get_elem? c.buf c.pos) [
  | some byte ↦ (ok byte, record c { pos = c.pos + 1 })
  | none ↦ (err unexpected_eof, c)
]

-- `checked_add` fails past `usize::MAX`.
pub read_slice : ℕ → M (List ℕ)
read_slice len c =
    let end = c.pos + len in
    if ltb end (2 ^ 64) && leb end (length c.buf)
    then (slice c.buf c.pos end, record c { pos = end })
    else (err unexpected_eof, c)

pub read_exact : ℕ → M (List ℕ)
read_exact len c =
    if ltb (length c.buf) (c.pos + len)
    then (err unexpected_eof, c)
    else (slice c.buf c.pos (c.pos + len), record c { pos = c.pos + len })

-- The bytes appended to the caller's vector, and how many they are. A position past the end panics.
pub read_to_end : M (List ℕ × ℕ)
read_to_end c = (
  Outcome.◌>>=◌ (slice c.buf c.pos (length c.buf)) (λ bytes. ok (bytes, length c.buf - c.pos)),
  record c { pos = length c.buf },
)
