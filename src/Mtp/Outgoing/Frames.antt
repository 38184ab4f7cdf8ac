-- ===== src/Mtp/Outgoing/Frames.antt =====
-- The messages in the buffer of an encrypted session (grammers-mtproto/src/mtp/encrypted.rs).
use grammers.Common.{
  ℕ, ◌+◌, ◌%◌, ◌^◌, ◌≤◌, ◌≡◌, refl, sym, ap, ◌∙◌, Bool, true, List, [], ◌∷◌, ◌++◌, append_assoc,
  append-nil, arith, if◌then◌else◌, length, length-append,
}
use grammers.Common.Int.{ℤ, ltb_ℤ, pos, as_signed, as_unsigned}
use grammers.Common.I64.{IsI64}
use grammers.Common.Bytes.{to_le, length-to_le}
use grammers.Common.Outcome.{ok}
use grammers.Tl.Serialize.{serialize_i32, serialize_i64}
use grammers.Mtp.Session.{Encrypted, Clock}
use grammers.Mtp.Outgoing.{
  maximum_size, maximum_length, message_header, message_fits, serialize_msg_header,
}
use grammers.Mtp.Outgoing.Ids.{low_bits, serialize_msg_header_lem}

pub record Message : Type 0 where
  pub id : ℤ
  pub seq : ℕ
  pub body : List ℕ

unfoldable pub frame : Message → List ℕ
frame m = message_header m.id m.seq (length m.body) ++ m.body

unfoldable pub frames : List Message → List ℕ
frames [] = []
frames (m ∷ ms) = frame m ++ frames ms

-- Identifiers rise from above `lo` to `hi`, the last of them.
unfoldable pub Rises : ℤ → List Message → ℤ → Type 0
Rises lo [] hi = hi ≡ lo
Rises lo (m ∷ ms) hi = (ltb_ℤ lo m.id ≡ true) × Rises m.id ms hi

-- The buffer holds the messages `ms`, which came after the identifier `lo`.
pub record IsQueued (lo : ℤ) (s : Encrypted) (buffer : List ℕ) (ms : List Message) : Type 0 where
  pub written : buffer ≡ frames ms
  pub counted : s.msg_count ≡ length ms
  pub room : length buffer ≤ maximum_size
  pub few : s.msg_count ≤ maximum_length
  pub in_range : IsI64 s.last_msg_id
  pub low : low_bits s.last_msg_id ≡ 0
  pub even : s.sequence % 2 ≡ 0
  pub rising : Rises lo ms s.last_msg_id

pub length-message_header : (id : ℤ) (seq n : ℕ) → length (message_header id seq n) ≡ 16
unfolding message_header serialize_i64 serialize_i32
length-message_header id seq n =
    let a = as_unsigned (2 ^ 63) id in
    let b = as_unsigned (2 ^ 31) (pos seq) in
    let c = as_unsigned (2 ^ 31) (as_signed (2 ^ 31) (n % 2 ^ 32)) in
    omega (
      arith,
      length-append (to_le 8 a) (to_le 4 b ++ to_le 4 c),
      length-append (to_le 4 b) (to_le 4 c),
      length-to_le 8 a,
      length-to_le 4 b,
      length-to_le 4 c,
    )

pub frames-append : (ms ns : List Message) → frames (ms ++ ns) ≡ frames ms ++ frames ns
unfolding frames
frames-append [] ns = refl
frames-append (m ∷ ms) ns =
    rw (frames-append ms ns) (sym (append_assoc (frame m) (frames ms) (frames ns)))

Rises-append :
    (lo hi : ℤ) (ms : List Message) (m : Message)
    → Rises lo ms hi
    → ltb_ℤ hi m.id ≡ true
    → Rises lo (ms ++ (m ∷ [])) m.id
unfolding Rises
Rises-append lo hi [] m h above = (rw (← h) above, refl)
Rises-append lo hi (x ∷ ms) m h above = (h.0, Rises-append x.id hi ms m h.1 above)

-- Two states that the buffer's messages do not tell apart.
abbrev pub AgreesWith : Encrypted → Encrypted → Type 0
AgreesWith s t =
    (t.msg_count ≡ s.msg_count) × (t.last_msg_id ≡ s.last_msg_id) × (t.sequence ≡ s.sequence)

pub IsQueued-agrees :
    (lo : ℤ) (s t : Encrypted) (buffer : List ℕ) (ms : List Message)
    → AgreesWith s t
    → IsQueued lo s buffer ms
    → IsQueued lo t buffer ms
IsQueued-agrees lo s t buffer ms (a, b, c) h = record {
  written = h.written;
  counted = a ∙ h.counted;
  room = h.room;
  few = rw a h.few;
  in_range = rw b h.in_range;
  low = rw b h.low;
  even = rw c h.even;
  rising = rw b h.rising;
}

-- A message that fits joins those in the buffer.
pub IsQueued-append :
    (lo : ℤ) (c : Clock) (s s' : Encrypted) (buffer buffer' : List ℕ) (ms : List Message)
    (body : List ℕ) (n : ℕ) (content_related : Bool) (id : ℤ)
    → IsQueued lo s buffer ms
    → length body ≡ n
    → message_fits buffer n s ≡ true
    → serialize_msg_header c buffer n content_related s ≡ ok (id, buffer', s')
    → (seq : ℕ) × (seq % 2 ≡ (if content_related then 1 else 0))
      × (s' ≡ record s { last_msg_id = id; sequence = s'.sequence; msg_count = s.msg_count + 1 })
      × IsQueued lo s' (buffer' ++ body) (ms ++ (record { id = id; seq = seq; body = body } ∷ []))
unfolding message_fits frames frame
IsQueued-append lo c s s' buffer buffer' ms body n content_related id h size fits e =
    let w =
      serialize_msg_header_lem c buffer n content_related s id buffer' s' h.in_range h.low h.even
        e in
    let m : Message = record { id = id; seq = w.seq; body = body } in
    let count : s'.msg_count ≡ s.msg_count + 1 = ap (λ t. t.msg_count) w.state in
    let last : s'.last_msg_id ≡ id = ap (λ t. t.last_msg_id) w.state in
    (
      w.seq,
      w.parity,
      w.state,
      record {
        written =
            rw (w.written, h.written, frames-append ms (m ∷ []), append-nil (frame m), size)
              (append_assoc (frames ms) (message_header id w.seq n) body);
        counted = count ∙ omega (arith, h.counted, length-append ms (m ∷ []));
        room = rw w.written (
            ground (
              arith,
              size,
              length-append (buffer ++ message_header id w.seq n) body,
              length-append buffer (message_header id w.seq n),
              length-message_header id w.seq n,
            ));
        few = ground (arith, count);
        in_range = rw last w.in_range;
        low = rw last w.low;
        even = w.even;
        rising = rw last (Rises-append lo s.last_msg_id ms m h.rising w.above);
      },
    )
