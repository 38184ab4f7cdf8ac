-- ===== src/Mtp/Samples.antt =====
-- The clock and the session that the runs of encrypted sessions start from
-- (grammers-mtproto/src/mtp/encrypted.rs).
use grammers.Common.{true, false, none, [], ◌∷◌}
use grammers.Common.Int.{pos}
use grammers.Mtp.Session.{Encrypted, Clock, default_limits}

abbrev pub some_clock : Clock
some_clock = record { instant = 7; secs = 100; nanos = 5 }

abbrev pub new_session : Encrypted
new_session = record {
  received_ids = record { base = pos 0; offsets = [] };
  received_floor = pos 0;
  decode_limits = default_limits;
  time_offset = pos 0;
  salts = record { valid_since = pos 0; valid_until = pos 0x7fff_ffff; salt = pos 0 } ∷ [];
  start_salt_time = none;
  salt_request_msg_id = none;
  salt_request_failures = 0;
  session_id = pos 5;
  sequence = 0;
  last_msg_id = pos 0;
  pending_ack = [];
  pending_ack_since = none;
  ack_flush_due = false;
  request_deferred_by_ack = false;
  ack_batch = 1;
  compression_threshold = none;
  deserialization = [];
  receive_updates = true;
  msg_count = 0;
}
