-- ===== src/Mtp/Incoming/Handlers.antt =====
-- What an encrypted session does with each kind of message (grammers-mtproto/src/mtp/encrypted.rs,
-- `handle_*`).
use grammers.Common.{
  ℕ, zero, suc, ◌+◌, ◌-◌, ◌^◌, min, Bool, true, false, not, ◌&&◌, ◌||◌, Option, none, some, List,
  [], ◌∷◌, if◌then◌else◌, ◌==◌, ltb, leb, length, drop,
}
use grammers.Common.Int.{ℤ, pos, ltb_ℤ, eqb_ℤ}
use grammers.Common.Outcome.{Outcome, ok, err, panic}
use grammers.Mtp.Session.{
  Encrypted, Clock, DeserializeError, invalid_envelope, FutureSalt, own_update, update, rpc_result,
  rpc_error, bad_message, failure, is_id, lasting_salt,
}
use grammers.Mtp.Outgoing.{num_future_salts}
use grammers.Mtp.Outgoing.Requests.{correct_time_offset}
use grammers.Mtp.Incoming.{
  View, M, ◌>>=◌, ◌>>◌, lift, fails, done, attempt, modify, push_result, visit, decompress_body,
  constructor_id, signed_word, ack,
}
use grammers.Mtp.Session.{message_buffer_too_small}

-- `BadMsgNotification`, with the salt of `BadServerSalt`.
pub record BadNotification : Type 0 where
  pub bad_msg_id : ℤ
  pub error_code : ℤ
  pub new_server_salt : Option ℤ

pub record FutureSalts : Type 0 where
  pub req_msg_id : ℤ
  pub now : ℤ
  pub salts : List FutureSalt

-- The generated types' `from_bytes`, and the decoder of compressed bytes.
pub record Parsers : Type 0 where
  pub decompress : ℕ → List ℕ → Outcome DeserializeError (List ℕ)
  pub bad_notification : List ℕ → Outcome DeserializeError BadNotification
  pub future_salts : List ℕ → Outcome DeserializeError FutureSalts
  pub new_session : List ℕ → Outcome DeserializeError ℤ
  pub pong_msg_id : List ℕ → Outcome DeserializeError ℤ
  pub msgs_ack : List ℕ → Outcome DeserializeError (Unit {0})
  pub answer_msg_id : List ℕ → Outcome DeserializeError ℤ
  pub rpc_error_of : List ℕ → Outcome DeserializeError (List ℕ)

-- One more failure, of at most 255.
unfoldable pub one_more : ℕ → ℕ
one_more n = min (n + 1) 255

unfoldable pub failed_salt_request : Encrypted → Encrypted
failed_salt_request s = record s {
  salt_request_msg_id = none;
  salt_request_failures = one_more s.salt_request_failures;
}

-- Whether the identifier is that of the session's own request for salts, which has failed then.
unfoldable pub fail_salt_request : ℤ → M Bool
fail_salt_request id env =
    if is_id env.session.salt_request_msg_id id
    then (ok true, record env { session = failed_salt_request env.session })
    else (ok false, env)

unfoldable pub reset_salts : ℤ → Encrypted → Encrypted
reset_salts salt s = record s { salts = lasting_salt salt ∷ [] }

unfoldable pub contains_id : ℕ → List ℕ → Bool
contains_id id [] = false
contains_id id (x ∷ xs) = (x == id) || contains_id id xs

abbrev pub update_ids : List ℕ
update_ids =
    0x313b_c7f8 ∷ 0x4d6d_eea5 ∷ 0x78d4_dec1 ∷ 0x725b_04c3 ∷ 0x74ae_4240 ∷ 0x9015_e101 ∷ 0x84d1_9185
    ∷ 0x7f5d_efa6 ∷ 0x4456_63a7 ∷ []

unfoldable pub is_update : List ℕ → Bool
is_update body = elim (constructor_id body) [
  | ok id ↦ contains_id id update_ids
  | err e ↦ false
  | panic ↦ false
]

unfoldable pub store_own_updates : ℤ → List ℕ → M (Unit {0})
store_own_updates id body env =
    if env.session.receive_updates && is_update body
    then push_result (own_update id body) env
    else done env

-- `sort_by_key(|salt| Reverse(salt.valid_since))`, which keeps the order of equal ones.
unfoldable pub insert_salt : FutureSalt → List FutureSalt → List FutureSalt
insert_salt x [] = x ∷ []
insert_salt x (y ∷ ys) =
    let rest = insert_salt x ys in
    if ltb_ℤ x.valid_since y.valid_since then y ∷ rest else x ∷ y ∷ ys

unfoldable pub sort_salts : List FutureSalt → List FutureSalt
sort_salts [] = []
sort_salts (x ∷ xs) = insert_salt x (sort_salts xs)

unfoldable pub all_valid : List FutureSalt → Bool
all_valid [] = true
all_valid (x ∷ xs) = ltb_ℤ x.valid_since x.valid_until && all_valid xs

unfoldable pub is_gzip : List ℕ → Bool
is_gzip body = elim (constructor_id body) [
  | ok id ↦ id == 0x3072_cfa1
  | err e ↦ false
  | panic ↦ false
]

module _ (p : Parsers) (c : Clock) where
  unfoldable pub take_salts : FutureSalts → Encrypted → Encrypted
  take_salts f s = record s {
    start_salt_time = some (f.now, c.instant);
    salt_request_failures = 0;
    salts = sort_salts f.salts;
  }

  unfoldable pub finish_salts : FutureSalts → Bool → Bool → M (Unit {0})
  finish_salts f internal apply =
      if not apply || (length f.salts == 0)
      then modify (λ s. record s {
        salt_request_failures =
            if internal then one_more s.salt_request_failures else s.salt_request_failures;
      })
      else modify (take_salts f)

  unfoldable pub use_salts : FutureSalts → List ℕ → Bool → M (Unit {0})
  use_salts f body apply env =
      if is_id env.session.salt_request_msg_id f.req_msg_id
      then (modify (λ s. record s { salt_request_msg_id = none }) >> finish_salts f true apply) env
      else (push_result (rpc_result f.req_msg_id body) >> finish_salts f false apply) env

  unfoldable pub handle_future_salts : List ℕ → Bool → M (Unit {0})
  handle_future_salts body apply = do
    f ← lift (p.future_salts body)
    if ltb num_future_salts (length f.salts) || not (all_valid f.salts)
        then fails (invalid_envelope 2)
        else use_salts f body apply

  unfoldable pub unwrap_once : List ℕ → ℕ → M (List ℕ)
  unwrap_once body depth = visit depth >> decompress_body p.decompress body depth

  -- The body without its wrappers, or the error of taking one off: at most `work` are taken off.
  unfoldable pub unwrap_result : ℕ → List ℕ → ℕ → M (Outcome DeserializeError (List ℕ))
  unwrap_result zero body depth =
      if is_gzip body then attempt (unwrap_once body (depth + 1)) else lift (ok (ok body))
  unwrap_result (suc left) body depth =
      if is_gzip body
      then (do
        result ← attempt (unwrap_once body (depth + 1))
        elim result [
          | ok inner ↦ unwrap_result left inner (depth + 1)
          | err e ↦ lift (ok (err e))
          | panic ↦ lift panic
        ])
      else lift (ok (ok body))

  -- `if self.fail_salt_request(msg_id) { return Ok(()) }`, and the failure otherwise.
  unfoldable pub report_failure : ℤ → DeserializeError → M (Unit {0})
  report_failure id e = do
    internal ← fail_salt_request id
    if internal then done else push_result (failure id e)

  unfoldable pub salts_answer : ℤ → List ℕ → Bool
  salts_answer id body = elim (p.future_salts body) [
    | ok f ↦ eqb_ℤ f.req_msg_id id && (leb (length f.salts) num_future_salts && all_valid f.salts)
    | err e ↦ false
    | panic ↦ false
  ]

  unfoldable pub give_result : ℤ → ℕ → List ℕ → Bool → M (Unit {0})
  give_result id constructor body emit_own_updates =
      if constructor == 0x2144_ca19
      then elim (p.rpc_error_of body) [
        | ok error ↦ push_result (rpc_error id error)
        | err e ↦ push_result (failure id e)
        | panic ↦ lift panic
      ]
      else (do
        if emit_own_updates then store_own_updates id body else done
        push_result (rpc_result id body))

  unfoldable pub give_or_keep : ℤ → ℕ → List ℕ → Bool → M (Unit {0})
  give_or_keep id constructor body emit_own_updates env =
      if is_id env.session.salt_request_msg_id id
      then (if (constructor == 0xae50_0895) && salts_answer id body
          then handle_future_salts body emit_own_updates env
          else (fail_salt_request id >>= λ _. done) env)
      else give_result id constructor body emit_own_updates env

  unfoldable pub dispatch_result : ℤ → Bool → Outcome DeserializeError (List ℕ) → M (Unit {0})
  dispatch_result id emit_own_updates (err e) = report_failure id e
  dispatch_result id emit_own_updates panic = lift panic
  dispatch_result id emit_own_updates (ok body) = elim (constructor_id body) [
    | err e ↦ report_failure id e
    | panic ↦ lift panic
    | ok constructor ↦ give_or_keep id constructor body emit_own_updates
  ]

  -- `RpcResult::borrowed_parts`, behind its constructor.
  unfoldable pub handle_rpc_result : List ℕ → ℕ → Bool → M (Unit {0})
  handle_rpc_result body depth emit_own_updates env =
      if ltb (length body) 12
      then (err message_buffer_too_small, env)
      else (do
        let id = signed_word 8 (drop 4 body)
        result ← unwrap_result env.budget.work (drop 12 body) depth
        dispatch_result id emit_own_updates result)
          env

  unfoldable pub handle_ack : List ℕ → M (Unit {0})
  handle_ack body = lift (p.msgs_ack body)

  -- The codes of a notification without a salt.
  unfoldable pub apply_code : ℤ → ℤ → M (Unit {0})
  apply_code msg_id code env =
      let s = env.session in
      if eqb_ℤ code (pos 16) || eqb_ℤ code (pos 17)
      then modify (correct_time_offset c msg_id) env
      else if eqb_ℤ code (pos 32)
      then (if leb (2 ^ 31) (s.sequence + 64)
          then (err (invalid_envelope 3), env)
          else modify (λ s. record s { sequence = s.sequence + 64 }) env)
      else if eqb_ℤ code (pos 33)
      then modify (λ s. record s { sequence = s.sequence - 16 }) env
      else done env

  unfoldable pub apply_notification : ℤ → BadNotification → M (Unit {0})
  apply_notification msg_id b = elim b.new_server_salt [
    | some salt ↦ modify (λ s. record (reset_salts salt s) { salt_request_msg_id = none })
    | none ↦ apply_code msg_id b.error_code
  ]

  unfoldable pub handle_bad_notification : View → Bool → M (Unit {0})
  handle_bad_notification v apply = do
    b ← lift (p.bad_notification v.body)
    internal ← fail_salt_request b.bad_msg_id
    if internal
        then done
        else push_result (bad_message (record { msg_id = b.bad_msg_id; code = b.error_code }))
    if apply then apply_notification v.msg_id b else done

  unfoldable pub handle_detailed_info : List ℕ → M (Unit {0})
  handle_detailed_info body = do id ← lift (p.answer_msg_id body); ack c id

  unfoldable pub handle_pong : List ℕ → M (Unit {0})
  handle_pong body = do id ← lift (p.pong_msg_id body); push_result (rpc_result id body)

  unfoldable pub handle_new_session_created : List ℕ → M (Unit {0})
  handle_new_session_created body = do salt ← lift (p.new_session body); modify (reset_salts salt)

  unfoldable pub handle_update : List ℕ → M (Unit {0})
  handle_update body env =
      if env.session.receive_updates then push_result (update body) env else done env
