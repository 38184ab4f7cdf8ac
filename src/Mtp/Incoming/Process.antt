-- ===== src/Mtp/Incoming/Process.antt =====
-- The receiving half of an encrypted session (grammers-mtproto/src/mtp/encrypted.rs,
-- `process_plaintext`, `process_bounded`, `handle_container`).
use grammers.Common.{
  ℕ, zero, suc, ◌+◌, Bool, true, false, not, ◌||◌, Option, none, some, List, [], ◌∷◌, if◌then◌else◌,
  ◌==◌, ltb, length, drop,
}
use grammers.Common.Int.{ℤ, ltb_ℤ, eqb_ℤ}
use grammers.Common.Outcome.{Outcome, ok, err, panic}
use grammers.Mtp.Replay.{remember, contains, max_ℤ, is_some_and}
use grammers.Mtp.Session.{
  Encrypted, Clock, DeserializeError, invalid_envelope, message_buffer_too_small, Deserialization,
}
use grammers.Mtp.Incoming.{
  View, Env, M, ◌>>=◌, ◌>>◌, lift, fails, done, new_budget, visit, decompress_body, constructor_id,
  signed_word, ack, requires_ack, validate_header, view_of, borrowed_messages_validated,
}
use grammers.Mtp.Incoming.Handlers.{
  Parsers, is_gzip, handle_rpc_result, handle_ack, handle_bad_notification, handle_future_salts,
  handle_detailed_info, handle_pong, handle_new_session_created, handle_update,
}

-- The arms of the `match` on the constructor.
pub data Kind : Type 0 where
  result acknowledgement notification future_salt salts pong detailed_info new_session container
        copy ignored other :
      Kind

unfoldable pub kind_of : ℕ → Kind
kind_of id =
    if id == 0xf35c_6d01
    then result
    else if id == 0x62d6_b459
    then acknowledgement
    else if (id == 0xa7ef_f811) || (id == 0xedab_447b)
    then notification
    else if (id == 0xda69_fb52) || ((id == 0x04de_b57d) || (id == 0x8cc0_d131))
    then ignored
    else if (id == 0x276d_3ec6) || (id == 0x809d_b6df)
    then detailed_info
    else if (id == 0x7d86_1a08) || (id == 0x8610_baeb)
    then ignored
    else if id == 0x0949_d9dc
    then future_salt
    else if id == 0xae50_0895
    then salts
    else if id == 0x3477_73c5
    then pong
    else if (id == 0xe220_45fc) || (id == 0x62d3_50c9)
    then ignored
    else if id == 0x9ec2_0908
    then new_session
    else if id == 0x73f1_f8dc
    then container
    else if id == 0xe060_46b2
    then copy
    else if id == 0x9299_359f
    then ignored
    else other

-- The kinds that are handled although their message is stale.
unfoldable pub survives_stale : Kind → Bool
survives_stale result = true
survives_stale container = true
survives_stale pong = true
survives_stale salts = true
survives_stale notification = true
survives_stale acknowledgement = false
survives_stale future_salt = false
survives_stale detailed_info = false
survives_stale new_session = false
survives_stale copy = false
survives_stale ignored = false
survives_stale other = false

unfoldable pub is_pending : ℤ → List ℤ → Bool
is_pending id [] = false
is_pending id (x ∷ xs) = eqb_ℤ x id || is_pending id xs

-- `if let Err(index) = ids.binary_search(&id) { ids.insert(index, id) }` on an ascending list.
unfoldable pub insert_pending : ℤ → List ℤ → List ℤ
insert_pending id [] = id ∷ []
insert_pending id (x ∷ xs) =
    let rest = insert_pending id xs in
    if ltb_ℤ id x then id ∷ x ∷ xs else if eqb_ℤ x id then x ∷ xs else x ∷ rest

unfoldable pub pending_ids : Option (List ℤ) → List ℤ
pending_ids none = []
pending_ids (some ids) = ids

unfoldable pub raise_floor : Option ℤ → ℤ → ℤ
raise_floor none floor = floor
raise_floor (some evicted) floor = max_ℤ floor evicted

unfoldable pub remember_received : ℤ → Encrypted → Encrypted
remember_received id s =
    let (evicted, ids) = remember id s.received_ids in
    record s { received_ids = ids; received_floor = raise_floor evicted s.received_floor }

-- Whether the message was handled before, in an earlier packet or in this one.
unfoldable pub was_received : ℤ → Env → Bool
was_received id env =
    contains id env.session.received_ids || is_some_and env.budget.pending_received (is_pending id)

unfoldable pub is_stale : ℤ → Env → Bool
is_stale id env = not (ltb_ℤ env.budget.replay_floor id)

-- `if result.is_ok() && !stale { … }`
unfoldable pub record_received : ℤ → M (Unit {0})
record_received id env = elim env.budget.pending_received [
  | none ↦ (ok tt, record env { session = remember_received id env.session })
  | some ids ↦ (
    ok tt,
    record env { budget = record env.budget { pending_received = some (insert_pending id ids) } },
  )
]

module _ (p : Parsers) (c : Clock) where
  -- The body without its wrappers, and its depth: at most `work` wrappers are taken off.
  unfoldable pub unwrap : ℕ → List ℕ → ℕ → M (List ℕ × ℕ)
  unwrap zero body depth = do visit depth; id ← lift (constructor_id body); lift panic
  unwrap (suc left) body depth = do
    visit depth
    id ← lift (constructor_id body)
    if is_gzip body
        then (do
          inner ← decompress_body p.decompress body (depth + 1)
          unwrap left inner (depth + 1))
        else lift (ok (body, depth))

  -- How a container's messages are handled is an argument: none are when it is in a container.
  module _ (on_container : View → ℕ → M (Unit {0})) where
    unfoldable pub handle : Kind → View → ℕ → Bool → M (Unit {0})
    handle result v depth fresh = handle_rpc_result p c v.body depth fresh
    handle acknowledgement v depth fresh = handle_ack p c v.body
    handle notification v depth fresh = handle_bad_notification p c v fresh
    handle future_salt v depth fresh = fails (invalid_envelope 4)
    handle salts v depth fresh = handle_future_salts p c v.body fresh
    handle pong v depth fresh = handle_pong p c v.body
    handle detailed_info v depth fresh = handle_detailed_info p c v.body
    handle new_session v depth fresh = handle_new_session_created p c v.body
    handle container v depth fresh = on_container v depth
    handle copy v depth fresh = fails (invalid_envelope 5)
    handle ignored v depth fresh = done
    handle other v depth fresh = handle_update p c v.body

    unfoldable pub handle_fresh : Kind → View → ℕ → M (Unit {0})
    handle_fresh kind v depth = do handle kind v depth true; record_received v.msg_id

    unfoldable pub handle_stale : Kind → View → ℕ → M (Unit {0})
    handle_stale kind v depth = if survives_stale kind then handle kind v depth false else done

    unfoldable pub process_new : View → ℕ → M (Unit {0})
    process_new v depth env =
        (do
          (body, depth) ← unwrap env.budget.work v.body depth
          if requires_ack v then ack c v.msg_id else done
          id ← lift (constructor_id body)
          let inner : View = record v { body = body }
          if is_stale v.msg_id env
              then handle_stale (kind_of id) inner depth
              else handle_fresh (kind_of id) inner depth)
          env

    unfoldable pub process_bounded : Bool → View → ℕ → M (Unit {0})
    process_bounded in_container v depth env =
        (do
          if in_container then done else lift (validate_header v)
          if was_received v.msg_id env
              then (if requires_ack v then ack c v.msg_id else done)
              else process_new v depth)
          env

  -- "nested simple container"
  unfoldable pub refuse_container : View → ℕ → M (Unit {0})
  refuse_container v depth = fails (invalid_envelope 6)

  unfoldable pub process_all : List View → ℕ → M (Unit {0})
  process_all [] depth = done
  process_all (v ∷ vs) depth = do
    process_bounded refuse_container true v depth
    process_all vs depth

  -- `budget.pending_received.get_or_insert_with(Vec::new)`
  unfoldable pub begin_pending : M (Unit {0})
  begin_pending env = elim env.budget.pending_received [
    | some ids ↦ (ok tt, env)
    | none ↦ (ok tt, record env { budget = record env.budget { pending_received = some [] } })
  ]

  unfoldable pub handle_container : View → ℕ → M (Unit {0})
  handle_container v depth = do
    views ← lift (borrowed_messages_validated v.msg_id v.body)
    begin_pending
    process_all views (depth + 1)

  unfoldable pub remember_all : List ℤ → Encrypted → Encrypted
  remember_all [] s = s
  remember_all (id ∷ ids) s = remember_all ids (remember_received id s)

  -- What the packet's end commits, and the results.
  unfoldable pub finish_packet :
      Outcome DeserializeError (Unit {0}) × Env
      → Outcome DeserializeError (List Deserialization) × Encrypted
  finish_packet (err e, env) = (err e, record env.session { deserialization = [] })
  finish_packet (panic, env) = (panic, env.session)
  finish_packet (ok u, env) =
      let s = remember_all (pending_ids env.budget.pending_received) env.session in
      (ok s.deserialization, record s { deserialization = [] })

  unfoldable pub process_message :
      View → Encrypted → Outcome DeserializeError (List Deserialization) × Encrypted
  process_message v s = finish_packet (
      process_bounded handle_container false v 0
        (record { session = s; budget = new_budget s.received_floor s.decode_limits }))

  unfoldable pub process_plaintext :
      List ℕ → Encrypted → Outcome DeserializeError (List Deserialization) × Encrypted
  process_plaintext plaintext s =
      if ltb (length plaintext) 16
      then (err message_buffer_too_small, s)
      else if not (eqb_ℤ (signed_word 8 (drop 8 plaintext)) s.session_id)
      then (err (invalid_envelope 7), s)
      else elim (view_of (drop 16 plaintext)) [
        | err e ↦ (err e, s)
        | panic ↦ (panic, s)
        | ok (v, padding) ↦
            if ltb (length padding) 12 || ltb 1024 (length padding)
            then (err (invalid_envelope 8), s)
            else process_message v s
      ]
