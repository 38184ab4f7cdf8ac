-- ===== src/Mtp/Outgoing/Runs.antt =====
-- Runs of the sending half of an encrypted session (grammers-mtproto/src/mtp/encrypted.rs).
use grammers.Common.{ℕ, ◌≡◌, refl, true, some, List, [], ◌∷◌, ◌++◌, arith}
use grammers.Common.Int.{ℤ, pos, ltb_ℤ, ◌+ℤ◌}
use grammers.Common.I64.{IsI64}
use grammers.Common.Bytes.{to_le}
use grammers.Common.Outcome.{ok}
use grammers.Tl.Serialize.{serialize_u32, serialize_i32, serialize_i64}
use grammers.Mtp.Replay.{back, is_some_and}
use grammers.Mtp.Session.{Encrypted, is_id}
use grammers.Mtp.Samples.{some_clock, new_session}
use grammers.Mtp.Outgoing.{
  get_new_msg_id, new_id, clock_id, corrected_seconds, get_seq_no, message_header,
  serialize_msg_header, message_fits, ack_due, get_current_salt,
}
use grammers.Mtp.Outgoing.Requests.{
  without_updates_prefix_len, request_fits, switch_salt, wants_salts, try_request_salts,
  request_body, push_request, push_acked, push, packet_header, finalize_plain, salt_only,
  flushes_ack, finalize,
}
use grammers.Mtp.Outgoing.Ids.{low_bits, get_new_msg_id_lem}
use grammers.Mtp.Outgoing.Frames.{Message, frames, frame, Rises, IsQueued}
use grammers.Mtp.Outgoing.Packets.{Pushed, push-IsQueued}
use grammers.Mtp.Outgoing.Acks.{Acknowledges}
use grammers.Mtp.Outgoing.Finalize.{Sealed, finalize-Sealed}

abbrev first_id : ℤ
first_id = pos 429_496_729_620

get_new_msg_id_runs :
    get_new_msg_id some_clock new_session
    ≡ ok (first_id, record new_session { last_msg_id = first_id })
unfolding get_new_msg_id new_id clock_id corrected_seconds ◌+ℤ◌
get_new_msg_id_runs = refl

get_new_msg_id_lem_example :
    (record new_session { last_msg_id = first_id } ≡ record new_session { last_msg_id = first_id })
    × (ltb_ℤ (pos 0) first_id ≡ true)
    × IsI64 first_id
    × (low_bits first_id ≡ 0)
get_new_msg_id_lem_example =
    get_new_msg_id_lem some_clock new_session (record new_session { last_msg_id = first_id })
      first_id (omega arith) refl get_new_msg_id_runs

abbrev one_request : List ℕ
one_request = 1 ∷ 2 ∷ 3 ∷ 4 ∷ []

abbrev sent_session : Encrypted
sent_session = record new_session { last_msg_id = first_id; sequence = 2; msg_count = 1 }

abbrev one_message : Message
one_message = record { id = first_id; seq = 1; body = one_request }

push_runs :
    push (λ bytes. bytes) some_clock some_clock one_request [] new_session
    ≡ ok (some first_id, frames (one_message ∷ []), sent_session)
unfolding push request_fits try_request_salts wants_salts switch_salt is_some_and get_current_salt
    back push_acked ack_due push_request message_fits request_body without_updates_prefix_len
    serialize_msg_header get_new_msg_id new_id clock_id corrected_seconds ◌+ℤ◌ get_seq_no
    message_header serialize_i64 serialize_i32 serialize_u32 frames frame to_le
push_runs = refl

new_session-IsQueued : IsQueued (pos 0) new_session [] []
unfolding frames Rises
new_session-IsQueued = record {
  written = refl;
  counted = refl;
  room = omega arith;
  few = omega arith;
  in_range = omega arith;
  low = refl;
  even = refl;
  rising = refl;
}

abbrev sent_bytes : List ℕ
sent_bytes = 20 ∷ 0 ∷ 0 ∷ 0 ∷ 100 ∷ 0 ∷ 0 ∷ 0 ∷ 1 ∷ 0 ∷ 0 ∷ 0 ∷ 4 ∷ 0 ∷ 0 ∷ 0 ∷ one_request

sent_bytes-frames : frames (one_message ∷ []) ≡ sent_bytes
unfolding frames frame message_header serialize_i64 serialize_i32 to_le
sent_bytes-frames = refl

sent_session-IsQueued : IsQueued (pos 0) sent_session (frames (one_message ∷ [])) (one_message ∷ [])
unfolding frames frame message_header serialize_i64 serialize_i32 to_le Rises
sent_session-IsQueued = record {
  written = refl;
  counted = refl;
  room = omega arith;
  few = omega arith;
  in_range = omega arith;
  low = refl;
  even = refl;
  rising = (refl, refl);
}

push-IsQueued_example :
    (new : List Message) × Pushed
      (request_body (λ bytes. bytes) one_request new_session)
      (some first_id)
      new
    × IsQueued (pos 0) sent_session (frames (one_message ∷ [])) ([] ++ new)
push-IsQueued_example =
    push-IsQueued (λ bytes. bytes) (pos 0) some_clock some_clock one_request new_session
      sent_session [] (frames (one_message ∷ [])) [] (some first_id) new_session-IsQueued push_runs

abbrev packed_bytes : List ℕ
packed_bytes = 0 ∷ 0 ∷ 0 ∷ 0 ∷ 0 ∷ 0 ∷ 0 ∷ 0 ∷ 5 ∷ 0 ∷ 0 ∷ 0 ∷ 0 ∷ 0 ∷ 0 ∷ 0 ∷ sent_bytes

finalize_runs :
    finalize (λ bytes. bytes) some_clock some_clock (frames (one_message ∷ [])) sent_session
    ≡ ok (some first_id, packed_bytes, record sent_session { msg_count = 0 })
unfolding finalize flushes_ack salt_only ack_due finalize_plain packet_header get_current_salt back
    frames frame message_header serialize_i64 serialize_i32 to_le is_id
finalize_runs = refl

finalize-Sealed_example :
    (acks : List Message) × (t : Encrypted) × Acknowledges sent_session t acks
    × Sealed
        (λ bytes. bytes)
        t
        (record sent_session { msg_count = 0 })
        ((one_message ∷ []) ++ acks)
        (some first_id)
        packed_bytes
finalize-Sealed_example =
    finalize-Sealed (λ bytes. bytes) (pos 0) some_clock some_clock sent_session
      (record sent_session { msg_count = 0 }) (frames (one_message ∷ [])) packed_bytes
      (one_message ∷ []) (some first_id) sent_session-IsQueued finalize_runs
