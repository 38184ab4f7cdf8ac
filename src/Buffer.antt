-- ===== src/Buffer.antt =====
-- grammers-crypto/src/deque_buffer.rs: a growable buffer with free space in front.
-- `Vec` is a list. What `capacity` reports is the allocator's, and is left out.
pub mod Contents
use grammers.Common.{ℕ, ◌+◌, ◌-◌, List, [], ◌∷◌, ◌++◌, Bool, leb, if◌then◌else◌, ◌==◌}
use grammers.Common.{length, take, drop, replicate}

pub record DequeBuffer {ℓ} (A : Type ℓ) : Type ℓ where
  pub buffer : List A
  pub head : ℕ
  pub default_head : ℕ

-- `slice::rotate_right(k)`: the last `k` elements come first.
abbrev rotate_right {ℓ} : {A : Type ℓ} → ℕ → List A → List A
rotate_right k xs = drop (length xs - k) xs ++ take (length xs - k) xs

-- `xs[at..at + ys.len()].copy_from_slice(ys)`, where that range lies in `xs`.
abbrev overwrite {ℓ} : {A : Type ℓ} → ℕ → List A → List A → List A
overwrite at ys xs = take at xs ++ (ys ++ drop (at + length ys) xs)

module _ {ℓ} {A : Type ℓ} where
  -- `default` is `T::default()`; the back capacity only reserves memory.
  pub with_capacity : A → ℕ → DequeBuffer A
  with_capacity default front_capacity = record {
    buffer = replicate front_capacity default;
    head = front_capacity;
    default_head = front_capacity;
  }

  pub clear : A → DequeBuffer A → DequeBuffer A
  clear default d = record d {
    buffer = replicate (length (take d.default_head d.buffer)) default;
    head = d.default_head;
  }

  pub make_room : A → ℕ → DequeBuffer A → DequeBuffer A
  make_room default n d = if leb n d.head then record d { head = d.head - n } else record d {
    buffer = rotate_right (n - d.head) (d.buffer ++ replicate (n - d.head) default);
    head = 0;
  }

  pub extend_front : A → List A → DequeBuffer A → DequeBuffer A
  unfolding make_room
  extend_front default slice d =
      let r = make_room default (length slice) d in
      record r { buffer = overwrite r.head slice r.buffer }

  pub push : A → DequeBuffer A → DequeBuffer A
  push value d = record d { buffer = d.buffer ++ (value ∷ []) }

  pub extend : List A → DequeBuffer A → DequeBuffer A
  extend values d = record d { buffer = d.buffer ++ values }

  pub is_empty : DequeBuffer A → Bool
  is_empty d = d.head == length d.buffer

  pub len : DequeBuffer A → ℕ
  len d = length d.buffer - d.head

  -- The elements in order, `&buffer[head..]`.
  unfoldable pub as_ref : DequeBuffer A → List A
  as_ref d = drop d.head d.buffer
