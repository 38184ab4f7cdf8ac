-- ===== src/Mtp/Outgoing/Ids.antt =====
-- Message identifiers and sequence numbers (grammers-mtproto/src/mtp/encrypted.rs,
-- `get_new_msg_id`, `get_seq_no`, `serialize_msg_header`).
use grammers.Common.{
  ℕ, ◌+◌, ◌%◌, ◌^◌, ◌≤◌, ◌≡◌, refl, sym, ap, ◌∙◌, inl, inr, Bool, true, false, List, ◌++◌, arith,
  leb, if◌then◌else◌,
}
use grammers.Common.Int.{ℤ, pos, negsuc, as_unsigned, ltb_ℤ, ◌+ℤ◌}
use grammers.Common.I64.{IsI64}
use grammers.Common.Outcome.{ok, panic, bind-ok, if-ok, ok-injective}
use grammers.Mtp.Session.{Encrypted, Clock, DeserializeError}
use grammers.Mtp.Outgoing.{
  clock_id, next_id, new_id, get_new_msg_id, get_seq_no, message_header, serialize_msg_header,
}

-- The two lowest bits of an identifier, which clients leave clear.
abbrev pub low_bits : ℤ → ℕ
low_bits z = as_unsigned (2 ^ 63) z % 4

clock_id_low : (c : Clock) (offset : ℤ) → low_bits (clock_id c offset) ≡ 0
unfolding clock_id
clock_id_low c offset = ground arith

next_id-ok :
    (last id : ℤ)
    → IsI64 last
    → next_id last ≡ ok id
    → (ltb_ℤ last id ≡ true) × IsI64 id × (low_bits id ≡ low_bits last)
unfolding next_id ◌+ℤ◌
next_id-ok (pos n) id h e = ground arith
next_id-ok (negsuc n) id h e = ground arith

clock_id-IsI64 : (c : Clock) (offset : ℤ) → IsI64 (clock_id c offset)
unfolding clock_id
clock_id-IsI64 c offset = ground arith

new_id-ok :
    (c : Clock) (s : Encrypted) (id : ℤ)
    → IsI64 s.last_msg_id
    → low_bits s.last_msg_id ≡ 0
    → new_id c s ≡ ok id
    → (ltb_ℤ s.last_msg_id id ≡ true) × IsI64 id × (low_bits id ≡ 0)
unfolding new_id
new_id-ok c s id h low e =
    elim (if-ok (ltb_ℤ s.last_msg_id (clock_id c s.time_offset)) (ok (clock_id c s.time_offset))
      (next_id s.last_msg_id) id e) [
        | inl (above, same) ↦
            rw (← ok-injective (clock_id c s.time_offset) id same)
              (above, clock_id-IsI64 c s.time_offset, clock_id_low c s.time_offset)
        | inr (below, step) ↦ let n = next_id-ok s.last_msg_id id h step in (n.0, n.1, n.2 ∙ low)
      ]

-- Where the last identifier is a 64-bit multiple of four, a new identifier that is returned is
-- greater, is a 64-bit multiple of four, and becomes the last; nothing else changes.
pub get_new_msg_id_lem :
    (c : Clock) (s s' : Encrypted) (id : ℤ)
    → IsI64 s.last_msg_id
    → low_bits s.last_msg_id ≡ 0
    → get_new_msg_id c s ≡ ok (id, s')
    → (s' ≡ record s { last_msg_id = id })
      × (ltb_ℤ s.last_msg_id id ≡ true)
      × IsI64 id
      × (low_bits id ≡ 0)
unfolding get_new_msg_id
get_new_msg_id_lem c s s' id h low e =
    let (a, got, same) =
      bind-ok (new_id c s) (λ id. ok (id, record s { last_msg_id = id })) (id, s') e in
    let eq =
      ok-injective {E = DeserializeError} {A = ℤ × Encrypted} (a, record s { last_msg_id = a })
        (id, s') same in
    let id_eq : a ≡ id = ap (λ p. p.0) eq in
    let n = new_id-ok c s id h low (got ∙ ap ok id_eq) in
    (sym (ap (λ p. p.1) eq) ∙ ap (λ i. record s { last_msg_id = i }) id_eq, n.0, n.1, n.2)

-- A request takes an odd number, and the counter stays even.
pub get_seq_no_lem :
    (content_related : Bool) (s s' : Encrypted) (seq : ℕ)
    → s.sequence % 2 ≡ 0
    → get_seq_no content_related s ≡ ok (seq, s')
    → (s' ≡ record s { sequence = s'.sequence })
      × (s'.sequence % 2 ≡ 0)
      × (s.sequence ≤ s'.sequence)
      × (seq % 2 ≡ (if content_related then 1 else 0))
unfolding get_seq_no
get_seq_no_lem true s s' seq even e =
    elim (if-ok (leb (2 ^ 31) (s.sequence + 2)) panic
      (ok (s.sequence + 1, record s { sequence = s.sequence + 2 })) (seq, s') e) [
        | inl (over, failed) ↦ cc
        | inr (fits, done) ↦
            let eq =
              ok-injective {E = DeserializeError} {A = ℕ × Encrypted}
                (s.sequence + 1, record s { sequence = s.sequence + 2 }) (seq, s') done in
            rw (← ap (λ p. p.0) eq, ← ap (λ p. p.1) eq)
              (refl, omega arith, omega arith, omega arith)
      ]
get_seq_no_lem false s s' seq even e =
    let eq = ok-injective {E = DeserializeError} {A = ℕ × Encrypted} (s.sequence, s) (seq, s') e in
    rw (← ap (λ p. p.0) eq, ← ap (λ p. p.1) eq) (refl, even, omega arith, even)

-- The envelope that a header adds.
pub record IsHeader (content_related : Bool) (body_len : ℕ) (buffer : List ℕ) (s : Encrypted)
    (id : ℤ) (buffer' : List ℕ) (s' : Encrypted) : Type 0 where
  pub seq : ℕ
  pub written : buffer' ≡ buffer ++ message_header id seq body_len
  pub state :
      s' ≡ record s { last_msg_id = id; sequence = s'.sequence; msg_count = s.msg_count + 1 }
  pub above : ltb_ℤ s.last_msg_id id ≡ true
  pub in_range : IsI64 id
  pub low : low_bits id ≡ 0
  pub even : s'.sequence % 2 ≡ 0
  pub parity : seq % 2 ≡ (if content_related then 1 else 0)

IsHeader-of :
    (content_related : Bool) (body_len : ℕ) (buffer : List ℕ) (s : Encrypted) (a : ℤ) (seq : ℕ)
    (s₁ s₂ : Encrypted)
    → s₁ ≡ record s { last_msg_id = a }
    → s₂ ≡ record s₁ { sequence = s₂.sequence }
    → ltb_ℤ s.last_msg_id a ≡ true
    → IsI64 a
    → low_bits a ≡ 0
    → s₂.sequence % 2 ≡ 0
    → seq % 2 ≡ (if content_related then 1 else 0)
    → (id : ℤ) (buffer' : List ℕ) (s' : Encrypted)
    → ◌≡◌ {A = ℤ × List ℕ × Encrypted}
        (a, buffer ++ message_header a seq body_len, record s₂ { msg_count = s₂.msg_count + 1 })
        (id, buffer', s')
    → IsHeader content_related body_len buffer s id buffer' s'
IsHeader-of content_related body_len buffer s a seq s₁ s₂ e₁ e₂ above range low even parity id
      buffer' s' eq =
    rw (← ap (λ p. p.0) eq, ← ap (λ p. p.1) eq, ← ap (λ p. p.2) eq)
      (record {
        seq = seq;
        written = refl;
        state = rw (e₂, e₁) refl;
        above = above;
        in_range = range;
        low = low;
        even = even;
        parity = parity;
      })

pub serialize_msg_header_lem :
    (c : Clock) (buffer : List ℕ) (body_len : ℕ) (content_related : Bool) (s : Encrypted) (id : ℤ)
    (buffer' : List ℕ) (s' : Encrypted)
    → IsI64 s.last_msg_id
    → low_bits s.last_msg_id ≡ 0
    → s.sequence % 2 ≡ 0
    → serialize_msg_header c buffer body_len content_related s ≡ ok (id, buffer', s')
    → IsHeader content_related body_len buffer s id buffer' s'
unfolding serialize_msg_header
serialize_msg_header_lem c buffer body_len content_related s id buffer' s' h low even e =
    let ((a, s₁), got, e₁) = bind-ok (get_new_msg_id c s) _ (id, buffer', s') e in
    let ((seq, s₂), got₂, e₂) = bind-ok (get_seq_no content_related s₁) _ (id, buffer', s') e₁ in
    let n = get_new_msg_id_lem c s s₁ a h low got in
    let q = get_seq_no_lem content_related s₁ s₂ seq (rw n.0 even) got₂ in
    let eq =
      ok-injective {E = DeserializeError} {A = ℤ × List ℕ × Encrypted} _ (id, buffer', s') e₂ in
    IsHeader-of content_related body_len buffer s a seq s₁ s₂ n.0 q.0 n.1 n.2 n.3 q.1 q.3 id buffer'
      s' eq
