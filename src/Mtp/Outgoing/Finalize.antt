-- ===== src/Mtp/Outgoing/Finalize.antt =====
-- Packets that are sealed (grammers-mtproto/src/mtp/encrypted.rs, `finalize`).
use grammers.Common.{
  ℕ, ◌+◌, ◌^◌, ◌≤◌, ◌≡◌, refl, sym, ap, ◌∙◌, Bool, true, false, Option, none, some, List, [], ◌++◌,
  append-nil, arith, if◌then◌else◌, length, length-append, ◌==◌, subst,
}
use grammers.Common.Int.{ℤ, as_unsigned}
use grammers.Common.Bytes.{to_le, length-to_le}
use grammers.Common.Outcome.{Outcome, ok, bind-ok, ok-injective}
use grammers.Tl.Serialize.{serialize_i64}
use grammers.Mtp.Session.{Encrypted, Clock, DeserializeError}
use grammers.Mtp.Outgoing.{message_header, serialize_pending_ack, get_current_salt}
use grammers.Mtp.Outgoing.Requests.{packet_header, finalize_plain, finalize, flushes_ack}
use grammers.Mtp.Outgoing.Frames.{Message, frame, frames, IsQueued, length-message_header}
use grammers.Mtp.Outgoing.Acks.{Acknowledges, nothing, serialize_pending_ack_lem}
use grammers.Mtp.Outgoing.Containers.{
  Carries, alone, container, length-container_body, Packed, no_packet, packet, finalize_plain_lem,
}

length-packet_header : (s : Encrypted) → length (packet_header s) ≡ 16
unfolding packet_header serialize_i64
length-packet_header s =
    let a = as_unsigned (2 ^ 63) (get_current_salt s) in
    let b = as_unsigned (2 ^ 63) s.session_id in
    omega (arith, length-append (to_le 8 a) (to_le 8 b), length-to_le 8 a, length-to_le 8 b)

length-frame : (m : Message) → length (frame m) ≡ 16 + length m.body
unfolding frame
length-frame m = omega (
  arith,
  length-append (message_header m.id m.seq (length m.body)) m.body,
  length-message_header m.id m.seq (length m.body),
)

length-Carries :
    (s : Encrypted) (ms : List Message) (m : Message)
    → Carries s ms m
    → length (frame m) ≤ length (frames ms) + 24
unfolding frames
length-Carries s _ m (alone _) = ground (arith, append-nil (frame m))
length-Carries s _ _ (container ms m many body even above) =
    omega (arith, length-frame m, ap length body, length-container_body ms)

-- With the key's header and the longest padding the packet stays below Telegram's limit.
pub length-Packed :
    (lo : ℤ) (s s' : Encrypted) (buffer plain : List ℕ) (ms : List Message)
    → IsQueued lo s buffer ms
    → Packed s s' ms plain
    → 24 + (length plain + 27) ≤ 0xff000
length-Packed lo s s' buffer _ _ h (no_packet e) = omega arith
length-Packed lo s s' buffer _ _ h (packet ms m carries last zero_count) = omega (
  arith,
  length-append (packet_header s') (frame m),
  length-packet_header s',
  length-Carries s ms m carries,
  h.room,
  ap length h.written,
)

-- What is sent: nothing, or a packet of all messages, encrypted, under the last identifier.
pub data Sealed (encrypt : List ℕ → List ℕ) (s s' : Encrypted)
    : List Message → Option ℤ → List ℕ → Type 0 where
  nothing_sent : Sealed encrypt s s' [] none []
  sealed :
      (ms : List Message) (m : Message) (plain : List ℕ)
      → Carries s ms m
      → plain ≡ packet_header s' ++ frame m
      → 24 + (length plain + 27) ≤ 0xff000
      → s'.msg_count ≡ 0
      → Sealed encrypt s s' ms (some m.id) (encrypt plain)

module _ (encrypt : List ℕ → List ℕ) where
  seal :
      (lo : ℤ) (s u s' : Encrypted) (buffer plain out : List ℕ) (ms : List Message) (r : Option ℤ)
      → IsQueued lo s buffer ms
      → Packed s u ms plain
      → ◌≡◌ {A = Outcome DeserializeError (Option ℤ × List ℕ × Encrypted)}
          (if length plain == 0
            then ok (none, plain, u)
            else ok (some u.last_msg_id, encrypt plain, u))
          (ok (r, out, s'))
      → Sealed encrypt s s' ms r out
  seal lo s u s' buffer _ out _ r h (no_packet same) e =
      let eq =
        ok-injective {E = DeserializeError} {A = Option ℤ × List ℕ × Encrypted} _ (r, out, s') e in
      rw (← ap (λ p. p.0) eq, ← ap (λ p. p.1) eq) nothing_sent
  seal lo s u s' buffer _ out _ r h (packet ms m carries last zero_count) e =
      let p = packet_header u ++ frame m in
      let full : (length p == 0) ≡ false =
        ground (arith, length-append (packet_header u) (frame m), length-packet_header u) in
      let eq =
        ok-injective {E = DeserializeError} {A = Option ℤ × List ℕ × Encrypted}
          (some u.last_msg_id, encrypt p, u) (r, out, s') (sym (rw full refl) ∙ e) in
      rw (← ap (λ p. p.0) eq, ← ap (λ p. p.1) eq, ← ap (λ p. p.2) eq)
        (subst (λ id. Sealed encrypt s u ms (some id) (encrypt p)) (sym last)
          (sealed ms m p carries refl
            (length-Packed lo s u buffer p ms h (packet ms m carries last zero_count)) zero_count))

  -- Where a buffer holds a packet of messages and finalize returns, it has sent nothing, for no
  -- messages, or a packet of the session's header with all the messages and one acknowledgement at
  -- most, as one message or in one container, that fits the size that the server permits; no
  -- message is left counted.
  pub finalize-Sealed :
      (lo : ℤ) (c c' : Clock) (s s' : Encrypted) (buffer out : List ℕ) (ms : List Message)
      (r : Option ℤ)
      → IsQueued lo s buffer ms
      → finalize encrypt c c' buffer s ≡ ok (r, out, s')
      → (acks : List Message) × (t : Encrypted) × Acknowledges s t acks
        × Sealed encrypt t s' (ms ++ acks) r out
  unfolding finalize
  finalize-Sealed lo c c' s s' buffer out ms r h e =
      let flushing = flushes_ack c buffer s in
      let ((buffer₁, t), got, rest) =
        bind-ok (if flushing then serialize_pending_ack c buffer s else ok (buffer, s)) _
          (r, out, s') e in
      let ((plain, u), got₂, done) = bind-ok (finalize_plain c' buffer₁ t) _ (r, out, s') rest in
      let (acks, ack, queued) = acked flushing buffer₁ t got in
      (
        acks,
        t,
        ack,
        seal lo t u s' buffer₁ plain out (ms ++ acks) r queued
            (finalize_plain_lem lo c' t u buffer₁ plain (ms ++ acks) queued got₂) done,
      )
    where
      acked :
          (flushing : Bool) (buffer₁ : List ℕ) (t : Encrypted)
          → (if flushing then serialize_pending_ack c buffer s else ok (buffer, s))
            ≡ ok (buffer₁, t)
          → (acks : List Message) × Acknowledges s t acks × IsQueued lo t buffer₁ (ms ++ acks)
      acked true buffer₁ t got =
          let (acks, ack, settings, queued) =
            serialize_pending_ack_lem lo c s t buffer buffer₁ ms h got in
          (acks, ack, queued)
      acked false buffer₁ t got =
          let eq =
            ok-injective {E = DeserializeError} {A = List ℕ × Encrypted} (buffer, s) (buffer₁, t)
              got in
          rw (← ap (λ p. p.0) eq, ← ap (λ p. p.1) eq) ([], nothing refl, rw (append-nil ms) h)
