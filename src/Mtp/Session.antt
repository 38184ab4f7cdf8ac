-- ===== src/Mtp/Session.antt =====
-- The state of an encrypted session (grammers-mtproto/src/mtp/encrypted.rs), its results and its
-- errors (mtp/mod.rs). Key, encryption and what is logged are left out.
use grammers.Common.{ℕ, ◌*◌, Bool, false, not, ◌&&◌, ◌||◌, Option, none, some, List, [], ◌∷◌, max}
use grammers.Common.Int.{ℤ, pos, eqb_ℤ}
use grammers.Mtp.Replay.{ReplayIds, new}

-- The two reasons of `InvalidEnvelope` and `ResourceLimit` are texts, numbered in the order in
-- which the code names them.
pub data DeserializeError : Type 0 where
  invalid_envelope : ℕ → DeserializeError
  resource_limit : ℕ → DeserializeError
  message_buffer_too_small decompression_failed : DeserializeError
  unexpected_constructor : ℕ → DeserializeError

pub record DecodeLimits : Type 0 where
  pub gzip_output : ℕ
  pub expanded_bytes : ℕ
  pub depth : ℕ
  pub work : ℕ

abbrev pub default_limits : DecodeLimits
default_limits = record {
  gzip_output = 64 * 1024 * 1024;
  expanded_bytes = 128 * 1024 * 1024;
  depth = 32;
  work = 4096;
}

pub record FutureSalt : Type 0 where
  pub valid_since : ℤ
  pub valid_until : ℤ
  pub salt : ℤ

pub record BadMessage : Type 0 where
  pub msg_id : ℤ
  pub code : ℤ

-- A result, for the request that a message identifier names.
pub data Deserialization : Type 0 where
  own_update : ℤ → List ℕ → Deserialization
  update : List ℕ → Deserialization
  rpc_result : ℤ → List ℕ → Deserialization
  rpc_error : ℤ → List ℕ → Deserialization
  bad_message : BadMessage → Deserialization
  failure : ℤ → DeserializeError → Deserialization

unfoldable pub retryable : BadMessage → Bool
retryable m = eqb_ℤ m.code (pos 16) || (eqb_ℤ m.code (pos 17) || eqb_ℤ m.code (pos 48))

unfoldable pub fatal : BadMessage → Bool
fatal m = not (retryable m) && not (eqb_ℤ m.code (pos 32) || eqb_ℤ m.code (pos 33))

-- What the clocks show: the monotonic one in nanoseconds, and the time since the epoch.
pub record Clock : Type 0 where
  pub instant : ℕ
  pub secs : ℕ
  pub nanos : ℕ

pub record Encrypted : Type 0 where
  pub received_ids : ReplayIds
  pub received_floor : ℤ
  pub decode_limits : DecodeLimits
  pub time_offset : ℤ
  pub salts : List FutureSalt
  pub start_salt_time : Option (ℤ × ℕ)
  pub salt_request_msg_id : Option ℤ
  pub salt_request_failures : ℕ
  pub session_id : ℤ
  pub sequence : ℕ
  pub last_msg_id : ℤ
  pub pending_ack : List ℤ
  pub pending_ack_since : Option ℕ
  pub ack_flush_due : Bool
  pub request_deferred_by_ack : Bool
  pub ack_batch : ℕ
  pub compression_threshold : Option ℕ
  pub deserialization : List Deserialization
  pub receive_updates : Bool
  pub msg_count : ℕ

pub record Builder : Type 0 where
  pub decode_limits : DecodeLimits
  pub time_offset : ℤ
  pub first_salt : ℤ
  pub compression_threshold : Option ℕ
  pub receive_updates : Bool
  pub ack_batch : ℕ

unfoldable pub lasting_salt : ℤ → FutureSalt
lasting_salt salt = record { valid_since = pos 0; valid_until = pos 0x7fff_ffff; salt = salt }

-- `finish_with_rng`, with the session identifier that the generator fills in.
unfoldable pub finish : ℤ → Builder → Encrypted
finish session_id b = record {
  received_ids = new;
  received_floor = pos 0;
  decode_limits = b.decode_limits;
  time_offset = b.time_offset;
  salts = lasting_salt b.first_salt ∷ [];
  start_salt_time = none;
  salt_request_msg_id = none;
  salt_request_failures = 0;
  session_id = session_id;
  sequence = 0;
  last_msg_id = pos 0;
  pending_ack = [];
  pending_ack_since = none;
  ack_flush_due = false;
  request_deferred_by_ack = false;
  ack_batch = b.ack_batch;
  compression_threshold = b.compression_threshold;
  deserialization = [];
  receive_updates = b.receive_updates;
  msg_count = 0;
}

unfoldable pub set_receive_updates : Bool → Encrypted → Encrypted
set_receive_updates enabled s = record s { receive_updates = enabled }

unfoldable pub set_decode_limits : DecodeLimits → Encrypted → Encrypted
set_decode_limits limits s = record s { decode_limits = limits }

unfoldable pub set_ack_batch : ℕ → Encrypted → Encrypted
set_ack_batch count s = record s { ack_batch = max count 1 }

-- `Option<MsgId> == Some(id)`
unfoldable pub is_id : Option ℤ → ℤ → Bool
is_id none id = false
is_id (some a) id = eqb_ℤ a id
