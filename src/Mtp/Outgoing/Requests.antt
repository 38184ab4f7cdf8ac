-- ===== src/Mtp/Outgoing/Requests.antt =====
-- Requests and packets of an encrypted session (grammers-mtproto/src/mtp/encrypted.rs). Compression
-- and encryption are parameters.
use grammers.Common.{
  ℕ, ◌+◌, ◌-◌, ◌/◌, ◌%◌, ◌^◌, min, Bool, true, false, not, ◌&&◌, ◌||◌, Option, none, some, List, [],
  ◌∷◌, ◌++◌, if◌then◌else◌, ◌==◌, ltb, leb, length, take,
}
use grammers.Common.Int.{ℤ, pos, negsuc, ◌+ℤ◌, ◌-ℤ◌, as_signed, ltb_ℤ, eqb_ℤ}
use grammers.Common.Bytes.{from_le}
use grammers.Common.Outcome.{Outcome, ok, ◌>>=◌}
use grammers.Tl.Serialize.{serialize_u32, serialize_i32, serialize_i64, serialize_bytes}
use grammers.Mtp.Replay.{is_some_and}
use grammers.Mtp.Session.{Encrypted, Clock, FutureSalt, DeserializeError, is_id}
use grammers.Mtp.Outgoing.{
  num_future_salts, ack_max_delay, size_overhead, maximum_size, maximum_length, i64_max,
  get_new_msg_id, get_seq_no, serialize_msg_header, serialize_msg, message_fits, waited, ack_due,
  serialize_pending_ack, get_current_salt,
}

-- `u32::from_bytes(request).unwrap_or(0)`
unfoldable pub constructor_of : List ℕ → ℕ
constructor_of request = if ltb (length request) 4 then 0 else from_le (take 4 request)

-- The calls of the protocol itself: ping, ping_delay_disconnect, get_future_salts, rpc_drop_answer,
-- destroy_session, and a call that is wrapped already.
unfoldable pub is_protocol_call : ℕ → Bool
is_protocol_call id =
    (id == 0x7abe_77ec)
    || ((id == 0xf342_7b8c)
        || ((id == 0xb921_bd04)
            || ((id == 0x58e4_a740) || ((id == 0xe751_2126) || (id == 0xbf94_59b7)))))

unfoldable pub without_updates_prefix_len : List ℕ → Bool → ℕ
without_updates_prefix_len request receive_updates =
    if receive_updates then 0 else if is_protocol_call (constructor_of request) then 0 else 4

unfoldable pub request_fits : List ℕ → Bool → Bool
request_fits request receive_updates =
    let len = length request in
    let limit = maximum_size - size_overhead in
    if ltb len 4 || not (len % 4 == 0)
    then false
    else leb len (limit - 4) || leb len (limit - without_updates_prefix_len request receive_updates)

-- `id >> 32`
unfoldable pub seconds_of : ℤ → ℤ
seconds_of (pos n) = pos (n / 2 ^ 32)
seconds_of (negsuc n) = negsuc (n / 2 ^ 32)

unfoldable pub correct_time_offset : Clock → ℤ → Encrypted → Encrypted
correct_time_offset c msg_id s =
    let server_seconds = seconds_of msg_id in
    record s {
      time_offset = server_seconds -ℤ pos (min c.secs i64_max);
      last_msg_id =
          if ltb_ℤ (server_seconds +ℤ pos 3) (seconds_of s.last_msg_id)
          then pos 0
          else s.last_msg_id;
    }

-- All but the last salt, which is the one in use, once the one before it is in force.
unfoldable pub pop_salt : List FutureSalt → ℤ → List FutureSalt
pop_salt [] now = []
pop_salt (salt ∷ []) now = salt ∷ []
pop_salt (next ∷ current ∷ []) now =
    if ltb_ℤ now (next.valid_since +ℤ pos 60) then next ∷ current ∷ [] else next ∷ []
pop_salt (salt ∷ next ∷ current ∷ salts) now =
    let rest = pop_salt (next ∷ current ∷ salts) now in salt ∷ rest

unfoldable pub switch_salt : Clock → Encrypted → Encrypted
switch_salt c s = elim s.start_salt_time [
  | none ↦ s
  | some start ↦
      let now = start.0 +ℤ pos (min ((c.instant - start.1) / 1_000_000_000) 0x7fff_ffff) in
      record s { salts = pop_salt s.salts now }
]

-- `GetFutureSalts { num: NUM_FUTURE_SALTS }`
unfoldable pub salts_request : List ℕ
salts_request = serialize_u32 0xb921_bd04 ++ serialize_i32 (pos num_future_salts)

unfoldable pub wants_salts : List ℕ → Encrypted → Bool
wants_salts buffer s =
    (length buffer == 0)
    && ((length s.salts == 1)
        && (not (is_some_and s.salt_request_msg_id (λ _. true))
            && (leb s.salt_request_failures 3
                && (not (eqb_ℤ (get_current_salt s) (pos 0)) && message_fits buffer 8 s))))

unfoldable pub try_request_salts :
    Clock → List ℕ → Encrypted → Outcome DeserializeError (List ℕ × Encrypted)
try_request_salts c buffer s =
    if wants_salts buffer s
    then (do
      (id, buffer, s) ← serialize_msg c buffer salts_request true s
      ok (buffer, record s { salt_request_msg_id = some id }))
    else ok (buffer, s)

-- `request_deferred_by_ack |= wrote_ack; return None`
unfoldable pub defer_request : Bool → List ℕ → Encrypted → Option ℤ × List ℕ × Encrypted
defer_request wrote_ack buffer s =
    (none, buffer, record s { request_deferred_by_ack = s.request_deferred_by_ack || wrote_ack })

module _ (gzip : List ℕ → List ℕ) where
  -- `GzipPacked::new_prefixed(prefix, request).to_bytes()`
  unfoldable pub gzip_packed : List ℕ → List ℕ
  gzip_packed bytes = serialize_u32 0x3072_cfa1 ++ serialize_bytes (gzip bytes)

  -- The prefix that asks for no updates and the request, compressed where that is shorter.
  unfoldable pub request_body : List ℕ → Encrypted → List ℕ
  request_body request s =
      let prefix =
        take (without_updates_prefix_len request s.receive_updates) (serialize_u32 0xbf94_59b7) in
      let plain = prefix ++ request in
      let compressed = gzip_packed plain in
      if is_some_and s.compression_threshold (λ threshold. leb threshold (length plain))
        && ltb (length compressed) (length plain)
      then compressed
      else plain

  -- The request itself, once salts and acknowledgements are out of the way.
  unfoldable pub push_request :
      Clock
      → List ℕ
      → Bool
      → List ℕ
      → Encrypted
      → Outcome DeserializeError (Option ℤ × List ℕ × Encrypted)
  push_request c request wrote_ack buffer s =
      let body = request_body request s in
      if (s.msg_count == maximum_length) || not (message_fits buffer (length body) s)
      then ok (defer_request wrote_ack buffer s)
      else (do
        (id, buffer, s) ← serialize_msg_header c buffer (length body) true s
        ok (some id, buffer ++ body, record s { request_deferred_by_ack = false }))

  -- Clocks are read again for the request.
  unfoldable pub push_acked :
      Clock
      → Clock
      → List ℕ
      → List ℕ
      → Encrypted
      → Outcome DeserializeError (Option ℤ × List ℕ × Encrypted)
  push_acked c c' request buffer s =
      let previous = s.msg_count in
      do
        (buffer, s) ←
            if not s.request_deferred_by_ack && ack_due c s
            then serialize_pending_ack c buffer s
            else ok (buffer, s)
        push_request c' request (not (s.msg_count == previous)) buffer s

  unfoldable pub push :
      Clock
      → Clock
      → List ℕ
      → List ℕ
      → Encrypted
      → Outcome DeserializeError (Option ℤ × List ℕ × Encrypted)
  push c c' request buffer s =
      let requesting = is_some_and s.salt_request_msg_id (λ _. true) in
      if not (request_fits request s.receive_updates) then ok (none, buffer, s) else (do
        (buffer, s) ← try_request_salts c buffer (switch_salt c s)
        if not requesting && is_some_and s.salt_request_msg_id (λ _. true)
            then ok (none, buffer, s)
            else push_acked c c' request buffer s)

-- The header of a container around the messages in the buffer.
unfoldable pub wrap_container :
    Clock → List ℕ → Encrypted → Outcome DeserializeError (List ℕ × Encrypted)
wrap_container c buffer s = do
  (id, s) ← get_new_msg_id c s
  (seq, s) ← get_seq_no false s
  ok (
    (serialize_i64 id
          ++ (serialize_i32 (pos seq)
              ++ (serialize_i32 (as_signed (2 ^ 31) ((length buffer + 8) % 2 ^ 32))
                  ++ (serialize_u32 0x73f1_f8dc
                      ++ serialize_i32 (as_signed (2 ^ 31) (s.msg_count % 2 ^ 32))))))
        ++ buffer,
    s,
  )

unfoldable pub packet_header : Encrypted → List ℕ
packet_header s = serialize_i64 (get_current_salt s) ++ serialize_i64 s.session_id

unfoldable pub finalize_plain :
    Clock → List ℕ → Encrypted → Outcome DeserializeError (List ℕ × Encrypted)
finalize_plain c buffer s = if s.msg_count == 0 then ok (buffer, s) else (do
  (buffer, s) ← if s.msg_count == 1 then ok (buffer, s) else wrap_container c buffer s
  ok (packet_header s ++ buffer, record s { msg_count = 0 }))

unfoldable pub salt_only : Encrypted → Bool
salt_only s = (s.msg_count == 1) && is_id s.salt_request_msg_id s.last_msg_id

unfoldable pub flushes_ack : Clock → List ℕ → Encrypted → Bool
flushes_ack c buffer s =
    not (salt_only s)
    && (ack_due c s
        && (s.ack_flush_due
            || (not (length buffer == 0)
                || (leb 8192 (length s.pending_ack)
                    || is_some_and s.pending_ack_since (waited c)))))

-- The packet, where there is one, and the buffer.
unfoldable pub finalize :
    (List ℕ → List ℕ)
    → Clock
    → Clock
    → List ℕ
    → Encrypted
    → Outcome DeserializeError (Option ℤ × List ℕ × Encrypted)
finalize encrypt c c' buffer s = do
  (buffer, s) ← if flushes_ack c buffer s then serialize_pending_ack c buffer s else ok (buffer, s)
  (buffer, s) ← finalize_plain c' buffer s
  if length buffer == 0 then ok (none, buffer, s) else ok (some s.last_msg_id, encrypt buffer, s)

-- `pending_ack_since.map(|since| since + ACK_MAX_DELAY)`
unfoldable pub service_deadline : Encrypted → Option ℕ
service_deadline s = elim s.pending_ack_since [
  | none ↦ none
  | some since ↦ some (since + ack_max_delay)
]

unfoldable pub on_service_timeout : Encrypted → Encrypted
on_service_timeout s = record s { ack_flush_due = not (length s.pending_ack == 0) }
