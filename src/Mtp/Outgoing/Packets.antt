-- ===== src/Mtp/Outgoing/Packets.antt =====
-- Requests in the buffer (grammers-mtproto/src/mtp/encrypted.rs, `push`).
use grammers.Common.{
  ℕ, ◌%◌, ◌≤◌, ◌≡◌, refl, sym, ap, ◌∙◌, ◌⊎◌, inl, inr, Bool, true, false, not, Option, none, some,
  List, [], ◌∷◌, ◌++◌, append_assoc, append-nil, arith, Option-cases, if◌then◌else◌, length, ◌&&◌,
  ◌||◌, ◌==◌, subst,
}
use grammers.Common.Int.{ℤ}
use grammers.Common.Bytes.{to_le}
use grammers.Common.Outcome.{ok, bind-ok, if-ok, ok-injective}
use grammers.Tl.Serialize.{serialize_u32, serialize_i32}
use grammers.Mtp.Replay.{is_some_and}
use grammers.Mtp.Session.{Encrypted, Clock, DeserializeError}
use grammers.Mtp.Outgoing.{
  maximum_length, message_fits, serialize_msg_header, serialize_msg, serialize_pending_ack, ack_due,
}
use grammers.Mtp.Outgoing.Requests.{
  request_fits, request_body, push_request, push_acked, push, try_request_salts, salts_request,
  wants_salts, switch_salt, defer_request,
}
use grammers.Mtp.Outgoing.Frames.{Message, IsQueued, AgreesWith, IsQueued-agrees, IsQueued-append}
use grammers.Mtp.Outgoing.Acks.{
  Acknowledges, nothing, oldest, SameSettings, serialize_pending_ack_lem,
}

length-salts_request : length salts_request ≡ 8
unfolding salts_request serialize_u32 serialize_i32 to_le
length-salts_request = refl

-- Whether a request for salts is out.
abbrev pub asking : Encrypted → Bool
asking s = is_some_and s.salt_request_msg_id (λ _. true)

wants_salts_lem :
    (buffer : List ℕ) (s : Encrypted)
    → wants_salts buffer s ≡ true
    → (message_fits buffer 8 s ≡ true) × (asking s ≡ false)
unfolding wants_salts
wants_salts_lem buffer s h = ground (arith, h)

asking_after :
    (lo id : ℤ) (s₂ s' : Encrypted) (buffer₂ buffer' : List ℕ) (ms : List Message)
    → buffer' ≡ buffer₂
    → s' ≡ record s₂ { salt_request_msg_id = some id }
    → IsQueued lo s₂ buffer₂ ms
    → (asking s' ≡ true) × IsQueued lo s' buffer' ms
unfolding is_some_and
asking_after lo id s₂ s' buffer₂ buffer' ms b t queued =
    rw (b, t) (refl, IsQueued-agrees lo s₂ _ buffer₂ ms (refl, refl, refl) queued)

-- A request for salts is one message, and is out afterwards.
try_request_salts_lem :
    (lo : ℤ) (c : Clock) (s s' : Encrypted) (buffer buffer' : List ℕ) (ms : List Message)
    → IsQueued lo s buffer ms
    → try_request_salts c buffer s ≡ ok (buffer', s')
    → ((buffer' ≡ buffer) × (s' ≡ s))
      ⊎ ((m : Message) × (asking s ≡ false)
          × (asking s' ≡ true)
          × IsQueued lo s' buffer' (ms ++ (m ∷ [])))
unfolding try_request_salts serialize_msg is_some_and
try_request_salts_lem lo c s s' buffer buffer' ms h e =
    elim (if-ok (wants_salts buffer s) _ (ok (buffer, s)) (buffer', s') e) [
      | inr (idle, same) ↦
          let eq =
            ok-injective {E = DeserializeError} {A = List ℕ × Encrypted} (buffer, s) (buffer', s')
              same in
          inl (sym (ap (λ p. p.0) eq), sym (ap (λ p. p.1) eq))
      | inl (wanted, step) ↦
          let ((id, buffer₁, s₁), got, done) =
            bind-ok (serialize_msg c buffer salts_request true s) _ (buffer', s') step in
          let ((id₂, buffer₂, s₂), header, body) =
            bind-ok (serialize_msg_header c buffer (length salts_request) true s) _
              (id, buffer₁, s₁) got in
          let w = wants_salts_lem buffer s wanted in
          let (seq, odd, state, queued) =
            IsQueued-append lo c s s₂ buffer buffer₂ ms salts_request (length salts_request) true
              id₂ h refl (rw length-salts_request w.0) header in
          let eq₁ =
            ok-injective {E = DeserializeError} {A = ℤ × List ℕ × Encrypted} _ (id, buffer₁, s₁)
              body in
          let eq =
            ok-injective {E = DeserializeError} {A = List ℕ × Encrypted} _ (buffer', s') done in
          let b = sym (ap (λ p. p.0) eq) ∙ sym (ap (λ p. p.1) eq₁) in
          let t =
            sym (ap (λ p. p.1) eq)
            ∙ ap (λ (u : Encrypted). record u { salt_request_msg_id = some id })
                (sym (ap (λ p. p.2) eq₁)) in
          let after = asking_after lo id s₂ s' (buffer₂ ++ salts_request) buffer' _ b t queued in
          inr (record { id = id₂; seq = seq; body = salts_request }, w.1, after.0, after.1)
    ]

switch_salt_lem :
    (c : Clock) (s : Encrypted)
    → AgreesWith s (switch_salt c s)
      × SameSettings s (switch_salt c s)
      × (asking (switch_salt c s) ≡ asking s)
unfolding switch_salt
switch_salt_lem c s = elim (Option-cases s.start_salt_time) [
  | inl none_known ↦ rw none_known ((refl, refl, refl), (refl, refl), refl)
  | inr (start, known) ↦ rw known ((refl, refl, refl), (refl, refl), refl)
]

-- The request's message, with its odd number, behind at most one acknowledgement; or no request.
pub data Pushed (body : List ℕ) : Option ℤ → List Message → Type 0 where
  deferred : (acks : List Message) → length acks ≤ 1 → Pushed body none acks
  written :
      (acks : List Message) (m : Message)
      → length acks ≤ 1
      → m.seq % 2 ≡ 1
      → m.body ≡ body
      → Pushed body (some m.id) (acks ++ (m ∷ []))

module _ (gzip : List ℕ → List ℕ) where
  same_body :
      (request : List ℕ) (s t : Encrypted)
      → SameSettings s t
      → request_body gzip request t ≡ request_body gzip request s
  unfolding request_body
  same_body request s t (a, b) = rw (a, b) refl

  push_request_lem :
      (lo : ℤ) (c : Clock) (request : List ℕ) (wrote : Bool) (s s' : Encrypted)
      (buffer buffer' : List ℕ) (ms acks : List Message) (r : Option ℤ)
      → IsQueued lo s buffer (ms ++ acks)
      → length acks ≤ 1
      → push_request gzip c request wrote buffer s ≡ ok (r, buffer', s')
      → (new : List Message) × Pushed (request_body gzip request s) r new
        × IsQueued lo s' buffer' (ms ++ new)
  unfolding push_request defer_request
  push_request_lem lo c request wrote s s' buffer buffer' ms acks r h few e =
      let body = request_body gzip request s in
      elim (if-ok ((s.msg_count == maximum_length) || not (message_fits buffer (length body) s))
        (ok (defer_request wrote buffer s)) _ (r, buffer', s') e) [
          | inl (full, same) ↦
              let eq =
                ok-injective {E = DeserializeError} {A = Option ℤ × List ℕ × Encrypted}
                  (defer_request wrote buffer s) (r, buffer', s') same in
              rw (← ap (λ p. p.0) eq, ← ap (λ p. p.1) eq, ← ap (λ p. p.2) eq)
                (
                  acks,
                  deferred acks few,
                  IsQueued-agrees lo s _ buffer (ms ++ acks) (refl, refl, refl) h,
                )
          | inr (fits, step) ↦
              let ((id, buffer₁, s₁), got, done) =
                bind-ok (serialize_msg_header c buffer (length body) true s) _ (r, buffer', s')
                  step in
              let eq =
                ok-injective {E = DeserializeError} {A = Option ℤ × List ℕ × Encrypted} _
                  (r, buffer', s') done in
              let (seq, odd, state, queued) =
                IsQueued-append lo c s s₁ buffer buffer₁ (ms ++ acks) body (length body) true id h
                  refl (ground (arith, fits)) got in
              let m : Message = record { id = id; seq = seq; body = body } in
              rw (← ap (λ p. p.0) eq, ← ap (λ p. p.1) eq, ← ap (λ p. p.2) eq)
                (
                  acks ++ (m ∷ []),
                  written acks m few odd refl,
                  rw (← append_assoc ms acks (m ∷ []))
                      (IsQueued-agrees lo s₁ _ _ _ (refl, refl, refl) queued),
                )
        ]

  push_acked_lem :
      (lo : ℤ) (c c' : Clock) (request : List ℕ) (s s' : Encrypted) (buffer buffer' : List ℕ)
      (ms : List Message) (r : Option ℤ)
      → IsQueued lo s buffer ms
      → push_acked gzip c c' request buffer s ≡ ok (r, buffer', s')
      → (new : List Message) × Pushed (request_body gzip request s) r new
        × IsQueued lo s' buffer' (ms ++ new)
  unfolding push_acked
  push_acked_lem lo c c' request s s' buffer buffer' ms r h e =
      let acking = not s.request_deferred_by_ack && ack_due c s in
      let ((buffer₁, s₁), got, step) =
        bind-ok (if acking then serialize_pending_ack c buffer s else ok (buffer, s)) _
          (r, buffer', s') e in
      let (acks, few, settings, queued) = acked acking buffer₁ s₁ got in
      let (new, pushed, queued') =
        push_request_lem lo c' request _ s₁ s' buffer₁ buffer' ms acks r queued few step in
      (new, subst (λ b. Pushed b r new) (same_body request s s₁ settings) pushed, queued')
    where
      at_most_one : (t : Encrypted) (acks : List Message) → Acknowledges s t acks → length acks ≤ 1
      at_most_one t acks (nothing e) = omega arith
      at_most_one t acks (oldest n m even body left) = omega arith

      acked :
          (acking : Bool) (buffer₁ : List ℕ) (s₁ : Encrypted)
          → (if acking then serialize_pending_ack c buffer s else ok (buffer, s)) ≡ ok (buffer₁, s₁)
          → (acks : List Message) × (length acks ≤ 1)
            × SameSettings s s₁
            × IsQueued lo s₁ buffer₁ (ms ++ acks)
      acked true buffer₁ s₁ got =
          let (acks, ack, settings, queued) =
            serialize_pending_ack_lem lo c s s₁ buffer buffer₁ ms h got in
          (acks, at_most_one s₁ acks ack, settings, queued)
      acked false buffer₁ s₁ got =
          let eq =
            ok-injective {E = DeserializeError} {A = List ℕ × Encrypted} (buffer, s) (buffer₁, s₁)
              got in
          rw (← ap (λ p. p.0) eq, ← ap (λ p. p.1) eq)
            ([], omega arith, (refl, refl), rw (append-nil ms) h)

  -- Where a buffer holds a packet of messages and push returns, the buffer holds those messages and
  -- the new ones, within the limits on their size and number and with rising identifiers; a request
  -- that is taken is the last of them, under the identifier returned.
  pub push-IsQueued :
      (lo : ℤ) (c c' : Clock) (request : List ℕ) (s s' : Encrypted) (buffer buffer' : List ℕ)
      (ms : List Message) (r : Option ℤ)
      → IsQueued lo s buffer ms
      → push gzip c c' request buffer s ≡ ok (r, buffer', s')
      → (new : List Message) × Pushed (request_body gzip request s) r new
        × IsQueued lo s' buffer' (ms ++ new)
  unfolding push
  push-IsQueued lo c c' request s s' buffer buffer' ms r h e =
      elim (if-ok (not (request_fits request s.receive_updates)) (ok (none, buffer, s)) _
        (r, buffer', s') e) [
          | inl (invalid, same) ↦
              let eq =
                ok-injective {E = DeserializeError} {A = Option ℤ × List ℕ × Encrypted}
                  (none, buffer, s) (r, buffer', s') same in
              rw (← ap (λ p. p.0) eq, ← ap (λ p. p.1) eq, ← ap (λ p. p.2) eq)
                ([], deferred [] (omega arith), rw (append-nil ms) h)
          | inr (valid, step) ↦
              let t = switch_salt c s in
              let w = switch_salt_lem c s in
              let ((buffer₁, s₁), got, rest) =
                bind-ok (try_request_salts c buffer t) _ (r, buffer', s') step in
              let q =
                try_request_salts_lem lo c t s₁ buffer buffer₁ ms
                  (IsQueued-agrees lo s t buffer ms w.0 h) got in
              elim (if-ok (not (asking s) && asking s₁) (ok (none, buffer₁, s₁)) _ (r, buffer', s')
                rest) [
                  | inl (asked, same) ↦
                      let eq =
                        ok-injective {E = DeserializeError} {A = Option ℤ × List ℕ × Encrypted}
                          (none, buffer₁, s₁) (r, buffer', s') same in
                      let (new, few, queued) = asked_messages buffer₁ s₁ q in
                      rw (← ap (λ p. p.0) eq, ← ap (λ p. p.1) eq, ← ap (λ p. p.2) eq)
                        (new, deferred new few, queued)
                  | inr (silent, acked) ↦
                      let (kept, same) = silent_state buffer₁ s₁ (w.2) silent q in
                      let settings : SameSettings s s₁ = subst (SameSettings s) (sym same) w.1 in
                      let queued : IsQueued lo s₁ buffer₁ ms =
                        silent_queued buffer₁ s₁ kept same
                          (IsQueued-agrees lo s t buffer ms w.0 h) in
                      let (new, pushed, queued') =
                        push_acked_lem lo c c' request s₁ s' buffer₁ buffer' ms r queued acked in
                      (
                        new,
                        subst (λ b. Pushed b r new) (same_body request s s₁ settings) pushed,
                        queued',
                      )
                ]
        ]
    where
      asked_messages :
          (buffer₁ : List ℕ) (s₁ : Encrypted)
          → ((buffer₁ ≡ buffer) × (s₁ ≡ switch_salt c s))
            ⊎ ((m : Message) × (asking (switch_salt c s) ≡ false)
                × (asking s₁ ≡ true)
                × IsQueued lo s₁ buffer₁ (ms ++ (m ∷ [])))
          → (new : List Message) × (length new ≤ 1) × IsQueued lo s₁ buffer₁ (ms ++ new)
      asked_messages buffer₁ s₁ (inl (b, t)) = (
        [],
        omega arith,
        rw (append-nil ms, b, t)
            (IsQueued-agrees lo s (switch_salt c s) buffer ms (switch_salt_lem c s).0 h),
      )
      asked_messages buffer₁ s₁ (inr (m, before, after, queued)) = (m ∷ [], omega arith, queued)

      silent_state :
          (buffer₁ : List ℕ) (s₁ : Encrypted)
          → asking (switch_salt c s) ≡ asking s
          → not (asking s) && asking s₁ ≡ false
          → ((buffer₁ ≡ buffer) × (s₁ ≡ switch_salt c s))
            ⊎ ((m : Message) × (asking (switch_salt c s) ≡ false)
                × (asking s₁ ≡ true)
                × IsQueued lo s₁ buffer₁ (ms ++ (m ∷ [])))
          → (buffer₁ ≡ buffer) × (s₁ ≡ switch_salt c s)
      silent_state buffer₁ s₁ same silent (inl e) = e
      silent_state buffer₁ s₁ same silent (inr (m, before, after, queued)) = absurd (ground arith)

      silent_queued :
          (buffer₁ : List ℕ) (s₁ : Encrypted)
          → buffer₁ ≡ buffer
          → s₁ ≡ switch_salt c s
          → IsQueued lo (switch_salt c s) buffer ms
          → IsQueued lo s₁ buffer₁ ms
      silent_queued buffer₁ s₁ kept same queued = rw (kept, same) queued
