-- ===== src/Common/Outcome.antt =====
-- The outcome of a call: a value, an error value, or a panic (a failed assertion, an index out of
-- bounds, an arithmetic overflow).
use Prim.Native.Nat.{ℕ, ◌+◌, ◌-◌}
use mathlib.Core.Path.{◌≡◌, refl}
use mathlib.Core.Logic.{◌⊎◌, inl, inr}
use mathlib.Core.Bool.{Bool, true, false, ◌&&◌}
use mathlib.Core.List.{List, ◌++◌, append_assoc}
use native.Mathlib.Omega.{arith}
use grammers.Common.Tests.{leb, if◌then◌else◌}
use grammers.Common.Lists.{length, take, drop, length-append, take-append, drop-append}

pub data Outcome {ℓ} (E : Type 0) (A : Type ℓ) : Type ℓ where
  ok : A → Outcome E A
  err : E → Outcome E A
  panic : Outcome E A

infixl 5 ◌>>=◌ ◌>>◌
abbrev pub ◌>>=◌ {ℓ κ} :
    {E : Type 0} {A : Type ℓ} {B : Type κ} → Outcome E A → (A → Outcome E B) → Outcome E B
ok a >>= f = f a
err e >>= f = err e
panic >>= f = panic

abbrev pub ◌>>◌ {ℓ} : {E : Type 0} {B : Type ℓ} → Outcome E (Unit {0}) → Outcome E B → Outcome E B
m >> k = m >>= λ _. k

-- `if !b { return Err(e) }`
abbrev pub ensure : {E : Type 0} → Bool → E → Outcome E (Unit {0})
ensure true e = ok tt
ensure false e = err e

-- `assert!(b)`
abbrev pub assert : {E : Type 0} → Bool → Outcome E (Unit {0})
assert true = ok tt
assert false = panic

-- `&xs[a..b]`, which panics out of bounds.
abbrev pub slice {ℓ} : {E : Type 0} {A : Type ℓ} → List A → ℕ → ℕ → Outcome E (List A)
slice xs a b = if leb a b && leb b (length xs) then ok (take (b - a) (drop a xs)) else panic

-- The middle of three parts is the slice between their borders.
pub slice-append :
    {E A : Type 0} (before xs after : List A) (a b : ℕ)
    → length before ≡ a
    → a + length xs ≡ b
    → slice {E = E} ((before ++ xs) ++ after) a b ≡ ok xs
slice-append before xs after a b ha hb =
    rw (append_assoc before xs after, drop-append a before (xs ++ after) ha)
      (ground (
        arith,
        take-append (b - a) xs after (omega arith),
        length-append before (xs ++ after),
        length-append xs after,
      ))

module _ {ℓ} {E : Type 0} {A : Type ℓ} where
  pub ok-injective : (a b : A) → ◌≡◌ {A = Outcome E A} (ok a) (ok b) → a ≡ b
  ok-injective a b h = cc

  -- What a call that returns went through.
  pub bind-ok {κ} :
      {B : Type κ} (m : Outcome E A) (f : A → Outcome E B) (b : B)
      → (m >>= f) ≡ ok b
      → (a : A) × (m ≡ ok a) × (f a ≡ ok b)
  bind-ok (ok a) f b h = (a, refl, h)
  bind-ok (err e) f b h = cc
  bind-ok panic f b h = cc

  pub if-ok :
      (b : Bool) (m n : Outcome E A) (a : A)
      → (if b then m else n) ≡ ok a
      → ((b ≡ true) × (m ≡ ok a)) ⊎ ((b ≡ false) × (n ≡ ok a))
  if-ok true m n a h = inl (refl, h)
  if-ok false m n a h = inr (refl, h)

pub Outcome-cases :
    {E A : Type 0} (o : Outcome E A)
    → ((a : A) × (o ≡ ok a)) ⊎ ((e : E) × (o ≡ err e)) ⊎ (o ≡ panic)
Outcome-cases (ok a) = inl (a, refl)
Outcome-cases (err e) = inr (inl (e, refl))
Outcome-cases panic = inr (inr refl)
