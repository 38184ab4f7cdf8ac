-- ===== src/Mtp/Outgoing/Acks.antt =====
-- Acknowledgements in the buffer (grammers-mtproto/src/mtp/encrypted.rs, `serialize_pending_ack`).
use grammers.Common.{
  ℕ, ◌+◌, ◌*◌, ◌%◌, ◌^◌, ◌≤◌, ◌≡◌, refl, sym, ap, ◌∙◌, inl, inr, true, false, not, List, [], ◌∷◌,
  ◌++◌, append-nil, arith, Bool-cases, length, length-append, ◌||◌, ◌==◌, take, drop, length-take,
  subst,
}
use grammers.Common.Int.{ℤ, as_signed, as_unsigned}
use grammers.Common.Bytes.{to_le, length-to_le}
use grammers.Common.Outcome.{ok, bind-ok, if-ok, ok-injective}
use grammers.Tl.Serialize.{serialize_u32, serialize_i32, serialize_i64, serialize_items}
use grammers.Mtp.Session.{Encrypted, Clock, DeserializeError}
use grammers.Mtp.Outgoing.{
  message_fits, serialize_msg_header, ack_count, ack_body, drain_ack, serialize_pending_ack,
}
use grammers.Mtp.Outgoing.Frames.{Message, IsQueued, AgreesWith, IsQueued-agrees, IsQueued-append}

length-serialize_ids : (ids : List ℤ) → length (serialize_items serialize_i64 ids) ≡ 8 * length ids
unfolding serialize_items serialize_i64
length-serialize_ids [] = omega arith
length-serialize_ids (id ∷ ids) =
    let word = to_le 8 (as_unsigned (2 ^ 63) id) in
    omega (
      arith,
      length-append word (serialize_items serialize_i64 ids),
      length-to_le 8 (as_unsigned (2 ^ 63) id),
      length-serialize_ids ids,
    )

length-ack_body : (ids : List ℤ) → length (ack_body ids) ≡ 12 + length ids * 8
unfolding ack_body serialize_u32 serialize_i32
length-ack_body ids =
    let n = as_unsigned (2 ^ 31) (as_signed (2 ^ 31) (length ids % 2 ^ 32)) in
    let items = serialize_items serialize_i64 ids in
    omega (
      arith,
      length-append (to_le 4 0x62d6_b459) (to_le 4 0x1cb5_c415 ++ (to_le 4 n ++ items)),
      length-append (to_le 4 0x1cb5_c415) (to_le 4 n ++ items),
      length-append (to_le 4 n) items,
      length-to_le 4 0x62d6_b459,
      length-to_le 4 0x1cb5_c415,
      length-to_le 4 n,
      length-serialize_ids ids,
    )

-- The settings that shape a request.
abbrev pub SameSettings : Encrypted → Encrypted → Type 0
SameSettings s t =
    (t.receive_updates ≡ s.receive_updates) × (t.compression_threshold ≡ s.compression_threshold)

drain_ack_lem :
    (n : ℕ) (s : Encrypted)
    → AgreesWith s (drain_ack n s)
      × SameSettings s (drain_ack n s)
      × ((drain_ack n s).pending_ack ≡ drop n s.pending_ack)
unfolding drain_ack
drain_ack_lem n s = elim (Bool-cases (length (drop n s.pending_ack) == 0)) [
  | inl all ↦ rw all ((refl, refl, refl), (refl, refl), refl)
  | inr some_left ↦ rw some_left ((refl, refl, refl), (refl, refl), refl)
]

-- One acknowledgement at most, which names the oldest identifiers and takes them off the queue.
pub data Acknowledges (s s' : Encrypted) : List Message → Type 0 where
  nothing : s'.pending_ack ≡ s.pending_ack → Acknowledges s s' []
  oldest :
      (n : ℕ) (m : Message)
      → m.seq % 2 ≡ 0
      → m.body ≡ ack_body (take n s.pending_ack)
      → s'.pending_ack ≡ drop n s.pending_ack
      → Acknowledges s s' (m ∷ [])

ack_count-le : (buffer : List ℕ) (s : Encrypted) → ack_count buffer s ≤ length s.pending_ack
unfolding ack_count
ack_count-le buffer s = omega arith

-- The call when it writes one.
write_ack :
    (lo : ℤ) (c : Clock) (s s₁ s' : Encrypted) (buffer buffer₁ buffer' : List ℕ) (ms : List Message)
    (n : ℕ) (id : ℤ)
    → IsQueued lo s buffer ms
    → n ≤ length s.pending_ack
    → message_fits buffer (12 + n * 8) s ≡ true
    → serialize_msg_header c buffer (12 + n * 8) false s ≡ ok (id, buffer₁, s₁)
    → ◌≡◌ {A = List ℕ × Encrypted}
        (buffer₁ ++ ack_body (take n s₁.pending_ack), drain_ack n s₁)
        (buffer', s')
    → (acks : List Message) × Acknowledges s s' acks
      × SameSettings s s'
      × IsQueued lo s' buffer' (ms ++ acks)
write_ack lo c s s₁ s' buffer buffer₁ buffer' ms n id h le fits got eq =
    let ids = take n s.pending_ack in
    let size = length-ack_body ids ∙ omega (arith, length-take n s.pending_ack) in
    let (seq, even, state, queued) =
      IsQueued-append lo c s s₁ buffer buffer₁ ms (ack_body ids) (12 + n * 8) false id h size fits
        got in
    let pending : s₁.pending_ack ≡ s.pending_ack = ap (λ t. t.pending_ack) state in
    let (agrees, settings, left) = drain_ack_lem n s₁ in
    let m : Message = record { id = id; seq = seq; body = ack_body ids } in
    rw (← ap (λ p. p.0) eq, ← ap (λ p. p.1) eq)
      (
        m ∷ [],
        oldest n m even refl (left ∙ ap (drop n) pending),
        (
          settings.0 ∙ ap (λ t. t.receive_updates) state,
          settings.1 ∙ ap (λ t. t.compression_threshold) state,
        ),
        subst
            (λ acked.
              IsQueued lo (drain_ack n s₁) (buffer₁ ++ ack_body (take n acked)) (ms ++ (m ∷ [])))
            (sym pending) (IsQueued-agrees lo s₁ (drain_ack n s₁) _ _ agrees queued),
      )

pub serialize_pending_ack_lem :
    (lo : ℤ) (c : Clock) (s s' : Encrypted) (buffer buffer' : List ℕ) (ms : List Message)
    → IsQueued lo s buffer ms
    → serialize_pending_ack c buffer s ≡ ok (buffer', s')
    → (acks : List Message) × Acknowledges s s' acks
      × SameSettings s s'
      × IsQueued lo s' buffer' (ms ++ acks)
unfolding serialize_pending_ack
serialize_pending_ack_lem lo c s s' buffer buffer' ms h e =
    elim (if-ok
      ((ack_count buffer s == 0) || not (message_fits buffer (12 + ack_count buffer s * 8) s))
      (ok (buffer, s)) _ (buffer', s') e) [
        | inl (idle, same) ↦
            let eq =
              ok-injective {E = DeserializeError} {A = List ℕ × Encrypted} (buffer, s) (buffer', s')
                same in
            rw (← ap (λ p. p.0) eq, ← ap (λ p. p.1) eq)
              ([], nothing refl, (refl, refl), rw (append-nil ms) h)
        | inr (due, step) ↦
            let ((id, buffer₁, s₁), got, done) =
              bind-ok (serialize_msg_header c buffer (12 + ack_count buffer s * 8) false s) _
                (buffer', s') step in
            write_ack lo c s s₁ s' buffer buffer₁ buffer' ms (ack_count buffer s) id h
              (ack_count-le buffer s) (ground (arith, due)) got
              (ok-injective {E = DeserializeError} {A = List ℕ × Encrypted} _ (buffer', s') done)
      ]
