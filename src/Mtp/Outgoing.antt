-- ===== src/Mtp/Outgoing.antt =====
-- The sending half of an encrypted session (grammers-mtproto/src/mtp/encrypted.rs): identifiers,
-- acknowledgements, requests and packets. The buffer is the list of its bytes. Compression and
-- encryption are parameters; an overflow is a panic.
pub mod Requests
pub mod Ids
pub mod Frames
pub mod Acks
pub mod Packets
pub mod Containers
pub mod Finalize
mod Runs
use grammers.Common.{
  ℕ, suc, ◌+◌, ◌-◌, ◌*◌, ◌/◌, ◌%◌, ◌^◌, min, max, Bool, true, false, not, ◌&&◌, ◌||◌, Option, none,
  some, List, [], ◌∷◌, ◌++◌, if◌then◌else◌, ◌==◌, ltb, leb, length, take, drop,
}
use grammers.Common.Int.{ℤ, pos, negsuc, ◌+ℤ◌, ◌-ℤ◌, as_signed, ltb_ℤ, pos_part}
use grammers.Common.Outcome.{Outcome, ok, err, panic, ◌>>=◌, ◌>>◌, assert}
use grammers.Tl.Serialize.{serialize_u32, serialize_i32, serialize_i64, serialize_items}
use grammers.Mtp.Replay.{back, is_none_or}
use grammers.Mtp.Session.{Encrypted, Clock, FutureSalt, DeserializeError, resource_limit, is_id}

abbrev pub num_future_salts : ℕ
num_future_salts = 64

-- `ACK_MAX_DELAY`, in nanoseconds.
abbrev pub ack_max_delay : ℕ
ack_max_delay = 10 * 1_000_000_000

abbrev pub size_overhead : ℕ
size_overhead = 16

-- `(0xff000 - 24 - 16 - 27 - 16 - 8) & !3`
abbrev pub maximum_size : ℕ
maximum_size = (0xff000 - 24 - 16 - 27 - 16 - 8) / 4 * 4

abbrev pub maximum_length : ℕ
maximum_length = 100

abbrev pub i64_max : ℕ
i64_max = 2 ^ 63 - 1

-- `now.saturating_add(offset).max(0) as u64`, for `now` capped to an `i64`.
unfoldable pub corrected_seconds : ℕ → ℤ → ℕ
corrected_seconds secs offset = min (pos_part (pos (min secs i64_max) +ℤ offset)) i64_max

-- `((seconds << 32) | (nanoseconds << 2)) as i64`, for nanoseconds below a second.
unfoldable pub clock_id : Clock → ℤ → ℤ
clock_id c offset =
    as_signed (2 ^ 63) ((corrected_seconds c.secs offset * 2 ^ 32 % 2 ^ 64 + c.nanos * 4) % 2 ^ 64)

-- `last_msg_id + 4`, on an overflow of which the code panics.
unfoldable pub next_id : ℤ → Outcome DeserializeError ℤ
next_id last = if ltb_ℤ (pos i64_max) (last +ℤ pos 4) then panic else ok (last +ℤ pos 4)

-- The clock's identifier, unless the last one is not below it.
unfoldable pub new_id : Clock → Encrypted → Outcome DeserializeError ℤ
new_id c s =
    let fresh = clock_id c s.time_offset in
    if ltb_ℤ s.last_msg_id fresh then ok fresh else next_id s.last_msg_id

unfoldable pub get_new_msg_id : Clock → Encrypted → Outcome DeserializeError (ℤ × Encrypted)
get_new_msg_id c s = do id ← new_id c s; ok (id, record s { last_msg_id = id })

unfoldable pub get_seq_no : Bool → Encrypted → Outcome DeserializeError (ℕ × Encrypted)
get_seq_no false s = ok (s.sequence, s)
get_seq_no true s =
    if leb (2 ^ 31) (s.sequence + 2)
    then panic
    else ok (s.sequence + 1, record s { sequence = s.sequence + 2 })

-- The envelope of a message: identifier, sequence number and length.
unfoldable pub message_header : ℤ → ℕ → ℕ → List ℕ
message_header id seq body_len =
    serialize_i64 id
    ++ (serialize_i32 (pos seq) ++ serialize_i32 (as_signed (2 ^ 31) (body_len % 2 ^ 32)))

unfoldable pub serialize_msg_header :
    Clock → List ℕ → ℕ → Bool → Encrypted → Outcome DeserializeError (ℤ × List ℕ × Encrypted)
serialize_msg_header c buffer body_len content_related s = do
  (id, s) ← get_new_msg_id c s
  (seq, s) ← get_seq_no content_related s
  ok (id, buffer ++ message_header id seq body_len, record s { msg_count = s.msg_count + 1 })

unfoldable pub serialize_msg :
    Clock → List ℕ → List ℕ → Bool → Encrypted → Outcome DeserializeError (ℤ × List ℕ × Encrypted)
serialize_msg c buffer body content_related s = do
  (id, buffer, s) ← serialize_msg_header c buffer (length body) content_related s
  ok (id, buffer ++ body, s)

unfoldable pub message_fits : List ℕ → ℕ → Encrypted → Bool
message_fits buffer body_len s =
    ltb s.msg_count maximum_length && leb (length buffer + size_overhead + body_len) maximum_size

unfoldable pub queue_ack : Clock → ℤ → Encrypted → Outcome DeserializeError Encrypted
queue_ack c id s =
    if leb 65536 (length s.pending_ack)
    then err (resource_limit 0)
    else ok (record s {
      pending_ack = s.pending_ack ++ (id ∷ []);
      pending_ack_since = if length s.pending_ack == 0 then some c.instant else s.pending_ack_since;
    })

-- `since.elapsed() >= ACK_MAX_DELAY`
unfoldable pub waited : Clock → ℕ → Bool
waited c since = leb ack_max_delay (c.instant - since)

unfoldable pub ack_due : Clock → Encrypted → Bool
ack_due c s =
    let count = length s.pending_ack in
    not (count == 0)
    && (s.ack_flush_due || (leb s.ack_batch count || is_none_or s.pending_ack_since (waited c)))

-- How many identifiers the next acknowledgement carries.
unfoldable pub ack_count : List ℕ → Encrypted → ℕ
ack_count buffer s =
    min (min (length s.pending_ack) 8192)
      ((maximum_size - (length buffer + size_overhead + 12)) / 8)

-- `MsgsAck`, a vector of identifiers.
unfoldable pub ack_body : List ℤ → List ℕ
ack_body ids =
    serialize_u32 0x62d6_b459
    ++ (serialize_u32 0x1cb5_c415
        ++ (serialize_i32 (as_signed (2 ^ 31) (length ids % 2 ^ 32))
            ++ serialize_items serialize_i64 ids))

-- `drain(..count)`, and the deadline once nothing is left.
unfoldable pub drain_ack : ℕ → Encrypted → Encrypted
drain_ack count s =
    let rest = drop count s.pending_ack in
    if length rest == 0
    then record s { pending_ack = rest; pending_ack_since = none; ack_flush_due = false }
    else record s { pending_ack = rest }

unfoldable pub serialize_pending_ack :
    Clock → List ℕ → Encrypted → Outcome DeserializeError (List ℕ × Encrypted)
serialize_pending_ack c buffer s =
    let count = ack_count buffer s in
    if (count == 0) || not (message_fits buffer (12 + count * 8) s) then ok (buffer, s) else (do
      (id, buffer, s) ← serialize_msg_header c buffer (12 + count * 8) false s
      ok (buffer ++ ack_body (take count s.pending_ack), drain_ack count s))

unfoldable pub get_current_salt : Encrypted → ℤ
get_current_salt s = elim (back s.salts) [ none ↦ pos 0 | some salt ↦ salt.salt ]
