-- ===== src/Mtp/Outgoing/Containers.antt =====
-- The plain packet around the messages in the buffer (grammers-mtproto/src/mtp/encrypted.rs,
-- `finalize_plain`).
use grammers.Common.{
  ℕ, ◌+◌, ◌%◌, ◌^◌, ◌≤◌, ◌≡◌, ◌≢◌, refl, sym, ap, ◌∙◌, ◌⊎◌, inl, inr, true, false, List, [], ◌∷◌,
  ◌++◌, append_assoc, append-nil, arith, if◌then◌else◌, length, length-append, ◌==◌,
}
use grammers.Common.Int.{ℤ, ltb_ℤ, pos, as_signed, as_unsigned}
use grammers.Common.Bytes.{to_le, length-to_le}
use grammers.Common.Outcome.{ok, bind-ok, if-ok, ok-injective}
use grammers.Tl.Serialize.{serialize_u32, serialize_i32, serialize_i64}
use grammers.Mtp.Session.{Encrypted, Clock, DeserializeError}
use grammers.Mtp.Outgoing.{message_header, get_new_msg_id, get_seq_no, get_current_salt}
use grammers.Mtp.Outgoing.Requests.{wrap_container, packet_header, finalize_plain}
use grammers.Mtp.Outgoing.Ids.{get_new_msg_id_lem, get_seq_no_lem}
use grammers.Mtp.Outgoing.Frames.{Message, frame, frames, Rises, IsQueued}

-- `msg_container`, with the number of its messages.
pub container_body : List Message → List ℕ
container_body ms =
    serialize_u32 0x73f1_f8dc
    ++ (serialize_i32 (as_signed (2 ^ 31) (length ms % 2 ^ 32)) ++ frames ms)

-- One message goes as it is; more go in a container, with an identifier above theirs and an even
-- number.
pub data Carries (s : Encrypted) : List Message → Message → Type 0 where
  alone : (m : Message) → Carries s (m ∷ []) m
  container :
      (ms : List Message) (m : Message)
      → 2 ≤ length ms
      → m.body ≡ container_body ms
      → m.seq % 2 ≡ 0
      → ltb_ℤ s.last_msg_id m.id ≡ true
      → Carries s ms m

pub length-container_body :
    (ms : List Message) → length (container_body ms) ≡ length (frames ms) + 8
unfolding container_body serialize_u32 serialize_i32
length-container_body ms =
    let n = as_unsigned (2 ^ 31) (as_signed (2 ^ 31) (length ms % 2 ^ 32)) in
    omega (
      arith,
      length-append (to_le 4 0x73f1_f8dc) (to_le 4 n ++ frames ms),
      length-append (to_le 4 n) (frames ms),
      length-to_le 4 0x73f1_f8dc,
      length-to_le 4 n,
    )

regroup :
    (i q n t k f : List ℕ) → (i ++ (q ++ (n ++ (t ++ k)))) ++ f ≡ (i ++ (q ++ n)) ++ (t ++ (k ++ f))
regroup i q n t k f =
    rw
      (
        append_assoc i (q ++ (n ++ (t ++ k))) f,
        append_assoc q (n ++ (t ++ k)) f,
        append_assoc n (t ++ k) f,
        append_assoc t k f,
        append_assoc i (q ++ n) (t ++ (k ++ f)),
        append_assoc q n (t ++ (k ++ f)),
      )
      refl

wrap_frame :
    (id : ℤ) (seq : ℕ) (ms : List Message)
    → (serialize_i64 id
          ++ (serialize_i32 (pos seq)
              ++ (serialize_i32 (as_signed (2 ^ 31) ((length (frames ms) + 8) % 2 ^ 32))
                  ++ (serialize_u32 0x73f1_f8dc
                      ++ serialize_i32 (as_signed (2 ^ 31) (length ms % 2 ^ 32))))))
        ++ frames ms
      ≡ frame (record { id = id; seq = seq; body = container_body ms })
unfolding frame message_header container_body
wrap_frame id seq ms = rw (length-container_body ms) (
    regroup (serialize_i64 id) (serialize_i32 (pos seq))
      (serialize_i32 (as_signed (2 ^ 31) ((length (frames ms) + 8) % 2 ^ 32)))
      (serialize_u32 0x73f1_f8dc) (serialize_i32 (as_signed (2 ^ 31) (length ms % 2 ^ 32)))
      (frames ms))

-- What the wrapping writes, in terms of the messages.
wrapped :
    (s s₂ s' : Encrypted) (id : ℤ) (seq count : ℕ) (buffer buffer' : List ℕ) (ms : List Message)
    → buffer ≡ frames ms
    → count ≡ length ms
    → 2 ≤ length ms
    → seq % 2 ≡ 0
    → ltb_ℤ s.last_msg_id id ≡ true
    → s₂.last_msg_id ≡ id
    → ◌≡◌ {A = List ℕ × Encrypted}
        (
          (serialize_i64 id
                ++ (serialize_i32 (pos seq)
                    ++ (serialize_i32 (as_signed (2 ^ 31) ((length buffer + 8) % 2 ^ 32))
                        ++ (serialize_u32 0x73f1_f8dc
                            ++ serialize_i32 (as_signed (2 ^ 31) (count % 2 ^ 32))))))
              ++ buffer,
          s₂,
        )
        (buffer', s')
    → (m : Message) × Carries s ms m × (buffer' ≡ frame m) × (s'.last_msg_id ≡ m.id)
wrapped s s₂ s' id seq count buffer buffer' ms w n many even above last eq =
    let m : Message = record { id = id; seq = seq; body = container_body ms } in
    (
      m,
      container ms m many refl even above,
      sym (ap (λ p. p.0) eq) ∙ rw (w, n) (wrap_frame id seq ms),
      ap (λ (t : Encrypted). t.last_msg_id) (sym (ap (λ p. p.1) eq)) ∙ last,
    )

wrap_container_lem :
    (lo : ℤ) (c : Clock) (s s' : Encrypted) (buffer buffer' : List ℕ) (ms : List Message)
    → IsQueued lo s buffer ms
    → 2 ≤ length ms
    → wrap_container c buffer s ≡ ok (buffer', s')
    → (m : Message) × Carries s ms m × (buffer' ≡ frame m) × (s'.last_msg_id ≡ m.id)
unfolding wrap_container
wrap_container_lem lo c s s' buffer buffer' ms h many e =
    let ((id, s₁), got, rest) = bind-ok (get_new_msg_id c s) _ (buffer', s') e in
    let ((seq, s₂), got₂, done) = bind-ok (get_seq_no false s₁) _ (buffer', s') rest in
    let n = get_new_msg_id_lem c s s₁ id h.in_range h.low got in
    let q = get_seq_no_lem false s₁ s₂ seq (rw n.0 h.even) got₂ in
    let eq = ok-injective {E = DeserializeError} {A = List ℕ × Encrypted} _ (buffer', s') done in
    let count : s₂.msg_count ≡ length ms =
      ap (λ (t : Encrypted). t.msg_count) q.0
      ∙ ap (λ (t : Encrypted). t.msg_count) n.0
      ∙ h.counted in
    let last : s₂.last_msg_id ≡ id =
      ap (λ (t : Encrypted). t.last_msg_id) q.0 ∙ ap (λ (t : Encrypted). t.last_msg_id) n.0 in
    wrapped s s₂ s' id seq s₂.msg_count buffer buffer' ms h.written count many q.3 n.1 last eq

-- The buffer as `finalize_plain` leaves it: nothing, or the packet's header and one message.
pub data Packed (s s' : Encrypted) : List Message → List ℕ → Type 0 where
  no_packet : s' ≡ s → Packed s s' [] []
  packet :
      (ms : List Message) (m : Message)
      → Carries s ms m
      → s'.last_msg_id ≡ m.id
      → s'.msg_count ≡ 0
      → Packed s s' ms (packet_header s' ++ frame m)

packed :
    (s s₁ s' : Encrypted) (buffer₁ buffer' : List ℕ) (ms : List Message) (m : Message)
    → Carries s ms m
    → buffer₁ ≡ frame m
    → s₁.last_msg_id ≡ m.id
    → ◌≡◌ {A = List ℕ × Encrypted}
        (packet_header s₁ ++ buffer₁, record s₁ { msg_count = 0 })
        (buffer', s')
    → Packed s s' ms buffer'
unfolding packet_header get_current_salt
packed s s₁ s' buffer₁ buffer' ms m carries written last eq =
    rw (← ap (λ p. p.0) eq, ← ap (λ p. p.1) eq, written) (packet ms m carries last refl)

-- The states of a packet without messages, with one, and with more.
finalize_plain-cases :
    (c : Clock) (s s' : Encrypted) (buffer buffer' : List ℕ)
    → finalize_plain c buffer s ≡ ok (buffer', s')
    → ((s.msg_count ≡ 0) × (buffer ≡ buffer') × (s ≡ s'))
      ⊎ ((buffer₁ : List ℕ) × (s₁ : Encrypted) × (((s.msg_count ≡ 1)
              × (buffer ≡ buffer₁)
              × (s ≡ s₁))
            ⊎ ((s.msg_count ≢ 0)
                × (s.msg_count ≢ 1)
                × (wrap_container c buffer s ≡ ok (buffer₁, s₁))))
          × ◌≡◌ {A = List ℕ × Encrypted}
              (packet_header s₁ ++ buffer₁, record s₁ { msg_count = 0 })
              (buffer', s'))
unfolding finalize_plain
finalize_plain-cases c s s' buffer buffer' e =
    elim (if-ok (s.msg_count == 0) (ok (buffer, s)) _ (buffer', s') e) [
      | inl (empty, same) ↦
          let eq =
            ok-injective {E = DeserializeError} {A = List ℕ × Encrypted} (buffer, s) (buffer', s')
              same in
          inl (ground (arith, empty), ap (λ p. p.0) eq, ap (λ p. p.1) eq)
      | inr (some_queued, step) ↦
          let ((buffer₁, s₁), got, done) =
            bind-ok (if s.msg_count == 1 then ok (buffer, s) else wrap_container c buffer s) _
              (buffer', s') step in
          let eq =
            ok-injective {E = DeserializeError} {A = List ℕ × Encrypted} _ (buffer', s') done in
          inr (
            buffer₁,
            s₁,
            (elim (if-ok (s.msg_count == 1) (ok (buffer, s)) (wrap_container c buffer s)
                (buffer₁, s₁) got) [
                  | inl (one, same) ↦
                      let same_pair =
                        ok-injective {E = DeserializeError} {A = List ℕ × Encrypted} (buffer, s)
                          (buffer₁, s₁) same in
                      inl (ground (arith, one), ap (λ p. p.0) same_pair, ap (λ p. p.1) same_pair)
                  | inr (more, wrap) ↦ inr (ground (arith, some_queued), ground (arith, more), wrap)
                ]),
            eq,
          )
    ]

only :
    (lo : ℤ) (s : Encrypted) (m : Message) → Rises lo (m ∷ []) s.last_msg_id → s.last_msg_id ≡ m.id
unfolding Rises
only lo s m h = h.1

pub finalize_plain_lem :
    (lo : ℤ) (c : Clock) (s s' : Encrypted) (buffer buffer' : List ℕ) (ms : List Message)
    → IsQueued lo s buffer ms
    → finalize_plain c buffer s ≡ ok (buffer', s')
    → Packed s s' ms buffer'
unfolding frames
finalize_plain_lem lo c s s' buffer buffer' [] h e =
    elim (finalize_plain-cases c s s' buffer buffer' e) [
      | inl (zero_count, b, t) ↦ rw (← b, ← t, h.written) (no_packet refl)
      | inr (buffer₁, s₁, one_or_more, eq) ↦ absurd (ground (arith, h.counted, one_or_more))
    ]
finalize_plain_lem lo c s s' buffer buffer' (m ∷ []) h e =
    elim (finalize_plain-cases c s s' buffer buffer' e) [
      | inl (zero_count, b, t) ↦ absurd (omega (arith, h.counted, zero_count))
      | inr (buffer₁, s₁, inl (one, b, t), eq) ↦
          packed s s₁ s' buffer₁ buffer' (m ∷ []) m (alone m)
            (sym b ∙ h.written ∙ append-nil (frame m))
            (sym (ap (λ (u : Encrypted). u.last_msg_id) t) ∙ only lo s m h.rising) eq
      | inr (buffer₁, s₁, inr (some_queued, more, wrap), eq) ↦
          absurd (more (omega (arith, h.counted)))
    ]
finalize_plain_lem lo c s s' buffer buffer' (m ∷ n ∷ ns) h e =
    elim (finalize_plain-cases c s s' buffer buffer' e) [
      | inl (zero_count, b, t) ↦ absurd (omega (arith, h.counted, zero_count))
      | inr (buffer₁, s₁, inl (one, b, t), eq) ↦ absurd (omega (arith, h.counted, one))
      | inr (buffer₁, s₁, inr (some_queued, more, wrap), eq) ↦
          let (outer, carries, written, last) =
            wrap_container_lem lo c s s₁ buffer buffer₁ (m ∷ n ∷ ns) h (omega arith) wrap in
          packed s s₁ s' buffer₁ buffer' (m ∷ n ∷ ns) outer carries written last eq
    ]
