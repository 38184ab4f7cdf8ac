-- ===== src/Mtp/Incoming/Runs.antt =====
-- Runs of the receiving half of an encrypted session (grammers-mtproto/src/mtp/encrypted.rs).
use grammers.Common.{
  ◌≤◌, take, length-take, length, subst, ℕ, ◌≢◌, ◌≡◌, refl, inr, none, List, [], ◌∷◌, arith,
}
use grammers.Common.Int.{pos}
use grammers.Common.I64.{wrapping_sub_u64}
use grammers.Common.Bytes.{from_le}
use grammers.Common.Outcome.{ok-injective, panic, ok, err}
use grammers.Mtp.Replay.{new, contains, is_some_and, offset_of, back}
use grammers.Mtp.Replay.Shape.{IsValid, new-IsValid}
use grammers.Mtp.Session.{
  Encrypted, invalid_envelope, message_buffer_too_small, Deserialization, default_limits,
}
use grammers.Mtp.Samples.{some_clock, new_session}
use grammers.Mtp.Incoming.{
  View, Env, new_budget, visit, requires_ack, is_odd, constructor_id, validate_header, is_server_id,
  is_negative,
}
use grammers.Mtp.Incoming.Handlers.{Parsers, is_gzip}
use grammers.Mtp.Incoming.Process.{
  process_plaintext, other, remember_all, pending_ids, kind_of, was_received, process_new, is_stale,
  handle_stale, survives_stale, process_message, remember_received, unwrap, process_bounded,
  finish_packet,
}
use grammers.Mtp.Incoming.Once.{Seen, remember_received_kept}
use grammers.Mtp.Incoming.Packet.{IsDirect, process_message-Seen, process_message-silent}
use grammers.Mtp.Incoming.Failed.{process_message-err}
use grammers.Mtp.Incoming.Total.{IsTotal}
use grammers.Mtp.Incoming.Returned.{process_plaintext-returns}
use grammers.Mtp.Incoming.Wrappers.{IsBounded, IsLimited, unwrap_returns}

-- Parsers that refuse every body, and a decoder that copies up to its limit.
abbrev no_parsers : Parsers
no_parsers = record {
  decompress = λ limit bytes. ok (take limit bytes);
  bad_notification = λ body. err message_buffer_too_small;
  future_salts = λ body. err message_buffer_too_small;
  new_session = λ body. err message_buffer_too_small;
  pong_msg_id = λ body. err message_buffer_too_small;
  msgs_ack = λ body. err message_buffer_too_small;
  answer_msg_id = λ body. err message_buffer_too_small;
  rpc_error_of = λ body. err message_buffer_too_small;
}

abbrev some_update : View
some_update = record { msg_id = pos 4_000_000_001; seq_no = pos 0; body = 1 ∷ 2 ∷ 3 ∷ 4 ∷ [] }

some_update-IsDirect : IsDirect some_update other
unfolding constructor_id is_gzip kind_of from_le
some_update-IsDirect = record {
  id = 67_305_985;
  constructor = refl;
  plain = refl;
  of_kind = refl;
  single = λ e. cc;
}

abbrev after_update : Encrypted
after_update = remember_received (pos 4_000_000_001) new_session

new_session-IsValid : IsValid new_session.received_ids
unfolding new
new_session-IsValid = new-IsValid

-- A session whose floor is above the update.
abbrev later_session : Encrypted
later_session = record new_session { received_floor = pos 5_000_000_001 }

silent_runs :
    process_message no_parsers some_clock some_update later_session ≡ (ok [], later_session)
unfolding process_message finish_packet process_bounded validate_header is_server_id is_negative
    was_received contains new_budget process_new unwrap visit constructor_id is_gzip requires_ack
    is_odd is_stale kind_of handle_stale survives_stale from_le is_some_and offset_of
    wrapping_sub_u64 back remember_all pending_ids
silent_runs = refl

process_message-Seen_example : Seen (pos 4_000_000_001) later_session
process_message-Seen_example =
    process_message-Seen no_parsers some_clock some_update other later_session later_session []
      some_update-IsDirect (omega arith) new_session-IsValid silent_runs

process_message-silent_example : ◌≡◌ {A = List Deserialization} [] []
process_message-silent_example =
    process_message-silent no_parsers some_clock some_update later_session later_session []
      some_update-IsDirect (inr refl) refl silent_runs

remember_received_kept_example :
    Seen (pos 5_000_000_001) (remember_received (pos 6_000_000_001) later_session)
remember_received_kept_example =
    remember_received_kept (pos 6_000_000_001) (pos 5_000_000_001) later_session (omega arith)
      (omega arith) new_session-IsValid (inr refl)

abbrev even_update : View
even_update = record { msg_id = pos 4; seq_no = pos 0; body = 1 ∷ 2 ∷ 3 ∷ 4 ∷ [] }

refused_runs :
    process_message no_parsers some_clock even_update new_session
    ≡ (err (invalid_envelope 0), new_session)
unfolding process_message finish_packet process_bounded validate_header is_server_id is_negative
    new_budget
refused_runs = refl

process_message-err_example :
    (new_session.received_ids ≡ new_session.received_ids)
    × (new_session.received_floor ≡ new_session.received_floor)
    × (new_session.deserialization ≡ [])
process_message-err_example =
    process_message-err no_parsers some_clock even_update new_session new_session
      (invalid_envelope 0) refused_runs

abbrev some_env : Env
some_env = record {
  session = new_session;
  budget = record {
    replay_floor = pos 0;
    pending_received = none;
    limits = default_limits;
    remaining = 9;
    work = 3;
  };
}

no_parsers-IsLimited : IsLimited no_parsers.decompress
no_parsers-IsLimited = record {
  returns = λ limit bytes e. cc;
  within = λ limit bytes out e.
      let same : take limit bytes ≡ out = ok-injective (take limit bytes) out e in
      subst (λ (xs : List ℕ). length xs ≤ limit) same (omega (arith, length-take limit bytes));
}

unwrap_returns_example :
    IsBounded 3 9 (unwrap no_parsers some_clock 3 (1 ∷ 2 ∷ 3 ∷ 4 ∷ []) 0 some_env)
unwrap_returns_example =
    unwrap_returns no_parsers some_clock no_parsers-IsLimited 3 (1 ∷ 2 ∷ 3 ∷ 4 ∷ []) 0 some_env
      (omega arith)

no_parsers-IsTotal : IsTotal no_parsers
no_parsers-IsTotal = record {
  decompress = no_parsers-IsLimited;
  bad_notification = λ body e. cc;
  future_salts = λ body e. cc;
  new_session = λ body e. cc;
  pong_msg_id = λ body e. cc;
  msgs_ack = λ body e. cc;
  answer_msg_id = λ body e. cc;
  rpc_error_of = λ body e. cc;
}

-- An update in a packet: salt, session, envelope, body and padding.
abbrev some_plaintext : List ℕ
some_plaintext =
    0 ∷ 0 ∷ 0 ∷ 0 ∷ 0 ∷ 0 ∷ 0 ∷ 0 ∷ 5 ∷ 0 ∷ 0 ∷ 0 ∷ 0 ∷ 0 ∷ 0 ∷ 0 ∷ 1 ∷ 0 ∷ 0 ∷ 0 ∷ 1 ∷ 0 ∷ 0 ∷ 0
    ∷ 0 ∷ 0 ∷ 0 ∷ 0 ∷ 4 ∷ 0 ∷ 0 ∷ 0 ∷ 1 ∷ 2 ∷ 3 ∷ 4 ∷ 0 ∷ 0 ∷ 0 ∷ 0 ∷ 0 ∷ 0 ∷ 0 ∷ 0 ∷ 0 ∷ 0 ∷ 0 ∷ 0
    ∷ []

process_plaintext-returns_example :
    (process_plaintext no_parsers some_clock some_plaintext new_session).0 ≢ panic
process_plaintext-returns_example =
    process_plaintext-returns no_parsers some_clock no_parsers-IsTotal some_plaintext new_session
