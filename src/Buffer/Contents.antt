-- ===== src/Buffer/Contents.antt =====
-- The buffer as the sequence that `as_ref` shows: what each operation does to it.
use grammers.Common.{
  ℕ, ◌+◌, ◌-◌, ◌≤◌, ◌≡◌, refl, sym, ap, ◌∙◌, List, [], ◌++◌, arith, true, inl, inr, leb, leb→le,
  Bool-cases,
}
use grammers.Common.{
  length, take, drop, replicate, length-append, length-take, length-drop, length-replicate,
  take-append, drop-append, drop-append_le, drop-all, drop-drop,
}
use grammers.Buffer.{
  DequeBuffer, rotate_right, with_capacity, clear, make_room, extend_front, extend, is_empty, len,
  as_ref,
}

-- The front space ends within the vector, and `clear` finds its own front space there.
pub record IsValid {ℓ} {A : Type ℓ} (d : DequeBuffer A) : Type 0 where
  pub in_bounds : d.head ≤ length d.buffer
  pub default_in_bounds : d.default_head ≤ length d.buffer

module _ {ℓ} {A : Type ℓ} where
  rotate_right-append :
      (k : ℕ) (xs ys : List A) → length ys ≡ k → rotate_right k (xs ++ ys) ≡ ys ++ xs
  rotate_right-append k xs ys h =
      let e : length (xs ++ ys) - k ≡ length xs = omega (arith, length-append xs ys) in
      rw (e, drop-append (length xs) xs ys refl, take-append (length xs) xs ys refl)

  -- Room for `n` elements in front of the contents, which stay where they are.
  make_room_lem :
      (default : A) (n : ℕ) (d : DequeBuffer A)
      → IsValid d
      → let r = make_room default n d in
        (r.head + n ≤ length r.buffer)
        × (length d.buffer ≤ length r.buffer)
        × (drop (r.head + n) r.buffer ≡ as_ref d)
        × (r.default_head ≡ d.default_head)
  unfolding make_room as_ref
  make_room_lem default n d v = elim (Bool-cases (leb n d.head)) [
    | inl e ↦
        let h : n ≤ d.head = leb→le n d.head e in
        let at : d.head - n + n ≡ d.head = omega arith in
        rw e (omega arith, omega arith, ap (λ k. drop k d.buffer) at, refl)
    | inr e ↦
        let k : ℕ = n - d.head in
        let free : List A = replicate k default in
        let n_eq : k + d.head ≡ n = ground arith in
        let size : length (free ++ d.buffer) ≡ k + length d.buffer =
          rw (length-append free d.buffer, length-replicate k default) in
        let turned : rotate_right k (d.buffer ++ free) ≡ free ++ d.buffer =
          rotate_right-append k d.buffer free (length-replicate k default) in
        let kept : drop (k + d.head) (free ++ d.buffer) ≡ drop d.head d.buffer =
          sym (drop-drop d.head k (free ++ d.buffer))
          ∙ ap (drop d.head) (drop-append k free d.buffer (length-replicate k default)) in
        rw (e, turned)
          (
            omega (arith, size),
            omega (arith, size),
            ap (λ m. drop m (free ++ d.buffer)) (omega arith) ∙ kept,
            refl,
          )
  ]

  module _ (default : A) (slice : List A) (d : DequeBuffer A) (v : IsValid d) where
    r : DequeBuffer A
    r = make_room default (length slice) d

    length-extend_front : length (extend_front default slice d).buffer ≡ length r.buffer
    unfolding extend_front r
    length-extend_front = omega (
      arith,
      make_room_lem default (length slice) d v,
      length-append (take r.head r.buffer) (slice ++ drop (r.head + length slice) r.buffer),
      length-append slice (drop (r.head + length slice) r.buffer),
      length-take r.head r.buffer,
      length-drop (r.head + length slice) r.buffer,
    )

    -- Extending a valid buffer at the front puts the slice first and leaves the rest.
    pub as_ref-extend_front : as_ref (extend_front default slice d) ≡ slice ++ as_ref d
    unfolding extend_front r as_ref
    as_ref-extend_front =
        let (room, _, kept, _) = make_room_lem default (length slice) d v in
        drop-append r.head (take r.head r.buffer) (slice ++ drop (r.head + length slice) r.buffer)
          (omega (arith, length-take r.head r.buffer))
        ∙ ap (◌++◌ slice) kept

    pub extend_front-IsValid : IsValid (extend_front default slice d)
    unfolding extend_front r
    extend_front-IsValid =
        let (room, grows, _, same) = make_room_lem default (length slice) d v in
        record {
          in_bounds = omega (arith, length-extend_front);
          default_in_bounds = omega (arith, length-extend_front);
        }

  pub as_ref-extend :
      (values : List A) (d : DequeBuffer A)
      → IsValid d
      → as_ref (extend values d) ≡ as_ref d ++ values
  unfolding extend as_ref
  as_ref-extend values d v = drop-append_le d.head d.buffer values v.in_bounds

  pub extend-IsValid : (values : List A) (d : DequeBuffer A) → IsValid d → IsValid (extend values d)
  unfolding extend
  extend-IsValid values d v = omega (arith, length-append d.buffer values)

  pub len-length : (d : DequeBuffer A) → len d ≡ length (as_ref d)
  unfolding len as_ref
  len-length d = omega (arith, length-drop d.head d.buffer)

  with_capacity-IsValid : (default : A) (n : ℕ) → IsValid (with_capacity default n)
  unfolding with_capacity
  with_capacity-IsValid default n = omega (arith, length-replicate n default)

  -- A new buffer is valid and shows nothing, whatever space it has in front.
  pub as_ref-with_capacity :
      (default : A) (n : ℕ)
      → IsValid (with_capacity default n) × (as_ref (with_capacity default n) ≡ [])
  unfolding with_capacity as_ref
  as_ref-with_capacity default n = (
    omega (arith, length-replicate n default),
    drop-all n (replicate n default) (omega (arith, length-replicate n default)),
  )

  -- Clearing a valid buffer leaves a valid one that shows nothing and has its first front space.
  pub as_ref-clear :
      (default : A) (d : DequeBuffer A)
      → IsValid d
      → IsValid (clear default d)
        × (as_ref (clear default d) ≡ [])
        × (is_empty (clear default d) ≡ true)
  unfolding clear as_ref is_empty
  as_ref-clear default d v =
      let n : ℕ = length (take d.default_head d.buffer) in
      let e : n ≡ d.default_head = omega (arith, length-take d.default_head d.buffer) in
      let l : length (replicate n default) ≡ n = length-replicate n default in
      (omega arith, drop-all d.default_head (replicate n default) (omega arith), ground arith)
