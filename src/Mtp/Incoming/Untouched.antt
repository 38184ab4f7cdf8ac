-- ===== src/Mtp/Incoming/Untouched.antt =====
-- What the handlers leave alone (grammers-mtproto/src/mtp/encrypted.rs): the history of identifiers.
use grammers.Common.{
  ℕ, zero, suc, ◌+◌, ◌^◌, ◌≡◌, refl, ◌∙◌, inl, inr, Bool, true, false, ◌&&◌, ◌||◌, none, List,
  if◌then◌else◌, ◌==◌, Bool-cases, Option-cases, length, leb, ltb, drop,
}
use grammers.Common.Int.{ℤ, pos, eqb_ℤ}
use grammers.Common.Outcome.{Outcome, ok, err, panic}
use grammers.Mtp.Session.{
  Clock, DeserializeError, Deserialization, rpc_result, rpc_error, bad_message, update, failure,
  is_id,
}
use grammers.Mtp.Outgoing.{queue_ack}
use grammers.Mtp.Outgoing.Requests.{correct_time_offset}
use grammers.Mtp.Incoming.{
  View, Env, M, bind, ◌>>=◌, lift, done, attempt, caught, modify, push_result, visit,
  decompress_body, constructor_id, ack, signed_word,
}
use grammers.Mtp.Incoming.Handlers.{
  Parsers, BadNotification, FutureSalts, fail_salt_request, failed_salt_request, reset_salts,
  store_own_updates, take_salts, finish_salts, use_salts, handle_future_salts, unwrap_once,
  unwrap_result, report_failure, salts_answer, give_result, give_or_keep, dispatch_result,
  handle_rpc_result, handle_ack, apply_code, apply_notification, handle_bad_notification,
  handle_detailed_info, handle_pong, handle_new_session_created, handle_update,
}

-- The history, what the packet has received so far, and the floor that it is judged by.
pub record IsSame (env env' : Env) : Type 0 where
  pub ids : env'.session.received_ids ≡ env.session.received_ids
  pub floor : env'.session.received_floor ≡ env.session.received_floor
  pub pending : env'.budget.pending_received ≡ env.budget.pending_received
  pub replay : env'.budget.replay_floor ≡ env.budget.replay_floor

pub IsSame_refl : (env : Env) → IsSame env env
IsSame_refl env = record { ids = refl; floor = refl; pending = refl; replay = refl }

pub IsSame-trans : (a b c : Env) → IsSame a b → IsSame b c → IsSame a c
IsSame-trans a b c h k = record {
  ids = k.ids ∙ h.ids;
  floor = k.floor ∙ h.floor;
  pending = k.pending ∙ h.pending;
  replay = k.replay ∙ h.replay;
}

abbrev pub Keeps : {A : Type 0} → M A → Type 0
Keeps m = (env : Env) → IsSame env (m env).1

Keeps-bind_at :
    {A B : Type 0} (env : Env) (r : Outcome DeserializeError A × Env) (f : A → M B)
    → IsSame env r.1
    → ((a : A) → Keeps (f a))
    → IsSame env (bind r f).1
Keeps-bind_at env (ok a, mid) f h k = IsSame-trans env mid _ h (k a mid)
Keeps-bind_at env (err e, mid) f h k = h
Keeps-bind_at env (panic, mid) f h k = h

pub Keeps-bind :
    {A B : Type 0} (m : M A) (f : A → M B) → Keeps m → ((a : A) → Keeps (f a)) → Keeps (m >>= f)
Keeps-bind m f h k env = Keeps-bind_at env (m env) f (h env) k

pub Keeps-lift : {A : Type 0} (o : Outcome DeserializeError A) → Keeps (lift o)
Keeps-lift o env = IsSame_refl env

pub Keeps-if :
    {A : Type 0} (b : Bool) (m n : M A)
    → Keeps m
    → Keeps n
    → (env : Env) → IsSame env ((if b then m else n) env).1
Keeps-if true m n h k env = h env
Keeps-if false m n h k env = k env

pub Keeps-elim :
    {A B : Type 0} (o : Outcome DeserializeError A) (f : A → M B) (g : DeserializeError → M B)
    (h : M B)
    → ((a : A) → Keeps (f a))
    → ((e : DeserializeError) → Keeps (g e))
    → Keeps h
    → Keeps (elim o [ ok a ↦ f a | err e ↦ g e | panic ↦ h ])
Keeps-elim (ok a) f g h kf kg kh env = kf a env
Keeps-elim (err e) f g h kf kg kh env = kg e env
Keeps-elim panic f g h kf kg kh env = kh env

pub Keeps-done : Keeps done
Keeps-done env = IsSame_refl env

caught-IsSame :
    {A : Type 0} (env : Env) (r : Outcome DeserializeError A × Env)
    → IsSame env r.1
    → IsSame env (caught r).1
caught-IsSame env (ok a, mid) h = h
caught-IsSame env (err e, mid) h = h
caught-IsSame env (panic, mid) h = h

Keeps-attempt : {A : Type 0} (m : M A) → Keeps m → Keeps (attempt m)
Keeps-attempt m h env = caught-IsSame env (m env) (h env)

Keeps-push_result : (d : Deserialization) → Keeps (push_result d)
Keeps-push_result d env = record { ids = refl; floor = refl; pending = refl; replay = refl }

IsSame-if :
    {A : Type 0} (env : Env) (b : Bool) (r r' : Outcome DeserializeError A × Env)
    → IsSame env r.1
    → IsSame env r'.1
    → IsSame env (if b then r else r').1
IsSame-if env true r r' h k = h
IsSame-if env false r r' h k = k

pub Keeps-visit : (depth : ℕ) → Keeps (visit depth)
unfolding visit
Keeps-visit depth env =
    IsSame-if env _ _ _ (IsSame_refl env)
      (record { ids = refl; floor = refl; pending = refl; replay = refl })

pub Keeps-decompress_body :
    (d : ℕ → List ℕ → Outcome DeserializeError (List ℕ)) (bytes : List ℕ) (depth : ℕ)
    → Keeps (decompress_body d bytes depth)
unfolding decompress_body
Keeps-decompress_body d bytes depth env = elim (Bool-cases (ltb env.budget.limits.depth depth)) [
  | inl over ↦ rw (decompress_body, over) (IsSame_refl env)
  | inr within ↦
      rw (decompress_body, within)
        (IsSame-if env _ (panic, env) _ (IsSame_refl env)
          (record { ids = refl; floor = refl; pending = refl; replay = refl }))
]

pub Keeps-ack : (c : Clock) (id : ℤ) → Keeps (ack c id)
unfolding ack queue_ack
Keeps-ack c id env = elim (Bool-cases (leb 65536 (length env.session.pending_ack))) [
  | inl full ↦ rw (ack, queue_ack, full) (IsSame_refl env)
  | inr room ↦
      rw (ack, queue_ack, room) (record { ids = refl; floor = refl; pending = refl; replay = refl })
]

Keeps-fail_salt_request : (id : ℤ) → Keeps (fail_salt_request id)
unfolding fail_salt_request failed_salt_request
Keeps-fail_salt_request id env =
    IsSame-if env _ _ _ (record { ids = refl; floor = refl; pending = refl; replay = refl })
      (IsSame_refl env)

Keeps-store_own_updates : (id : ℤ) (body : List ℕ) → Keeps (store_own_updates id body)
unfolding store_own_updates
Keeps-store_own_updates id body env =
    IsSame-if env _ _ _ (Keeps-push_result _ env) (IsSame_refl env)

module _ (p : Parsers) (c : Clock) where
  Keeps-finish_salts :
      (f : FutureSalts) (internal apply : Bool) → Keeps (finish_salts p c f internal apply)
  unfolding finish_salts take_salts
  Keeps-finish_salts f internal apply =
      Keeps-if _ _ _ (λ env. record { ids = refl; floor = refl; pending = refl; replay = refl })
        (λ env. record { ids = refl; floor = refl; pending = refl; replay = refl })

  Keeps-use_salts :
      (f : FutureSalts) (body : List ℕ) (apply : Bool) → Keeps (use_salts p c f body apply)
  unfolding use_salts
  Keeps-use_salts f body apply env =
      IsSame-if env _ _ _
        (Keeps-bind (modify (λ s. record s { salt_request_msg_id = none }))
          (λ _. finish_salts p c f true apply)
          (λ env. record { ids = refl; floor = refl; pending = refl; replay = refl })
          (λ _. Keeps-finish_salts f true apply) env)
        (Keeps-bind (push_result _) (λ _. finish_salts p c f false apply) (Keeps-push_result _)
          (λ _. Keeps-finish_salts f false apply) env)

  pub Keeps-handle_future_salts :
      (body : List ℕ) (apply : Bool) → Keeps (handle_future_salts p c body apply)
  unfolding handle_future_salts
  Keeps-handle_future_salts body apply =
      Keeps-bind (lift (p.future_salts body)) _ (Keeps-lift (p.future_salts body))
        λ f. Keeps-if _ _ _ (λ env. IsSame_refl env) (Keeps-use_salts f body apply)

  Keeps-unwrap_once : (body : List ℕ) (depth : ℕ) → Keeps (unwrap_once p c body depth)
  unfolding unwrap_once
  Keeps-unwrap_once body depth =
      Keeps-bind (visit depth) _ (Keeps-visit depth)
        λ _. Keeps-decompress_body p.decompress body depth

  Keeps-unwrap_result :
      (work : ℕ) (body : List ℕ) (depth : ℕ) → Keeps (unwrap_result p c work body depth)
  unfolding unwrap_result
  Keeps-unwrap_result zero body depth =
      Keeps-if _ _ _ (Keeps-attempt _ (Keeps-unwrap_once body (depth + 1))) (λ env. IsSame_refl env)
  Keeps-unwrap_result (suc left) body depth =
      Keeps-if _ _ _
        (Keeps-bind (attempt (unwrap_once p c body (depth + 1))) _
          (Keeps-attempt _ (Keeps-unwrap_once body (depth + 1)))
          (λ r.
            Keeps-elim r (λ inner. unwrap_result p c left inner (depth + 1))
              (λ e. lift (ok (err e))) (lift panic)
              (λ inner. Keeps-unwrap_result left inner (depth + 1)) (λ e. λ env. IsSame_refl env)
              (λ env. IsSame_refl env)))
        (λ env. IsSame_refl env)

  Keeps-report_failure : (id : ℤ) (e : DeserializeError) → Keeps (report_failure p c id e)
  unfolding report_failure
  Keeps-report_failure id e =
      Keeps-bind (fail_salt_request id) _ (Keeps-fail_salt_request id)
        λ internal. Keeps-if internal _ _ (λ env. IsSame_refl env) (Keeps-push_result _)

  Keeps-give_result :
      (id : ℤ) (constructor : ℕ) (body : List ℕ) (emit : Bool)
      → Keeps (give_result p c id constructor body emit)
  unfolding give_result
  Keeps-give_result id constructor body emit =
      Keeps-if _ _ _
        (Keeps-elim (p.rpc_error_of body) (λ error. push_result (rpc_error id error))
          (λ e. push_result (failure id e)) (lift panic)
          (λ error. Keeps-push_result (rpc_error id error)) (λ e. Keeps-push_result (failure id e))
          (λ env. IsSame_refl env))
        (Keeps-bind (if emit then store_own_updates id body else done) _
          (Keeps-if emit _ _ (Keeps-store_own_updates id body) Keeps-done)
          λ _. Keeps-push_result (rpc_result id body))

  Keeps-give_or_keep :
      (id : ℤ) (constructor : ℕ) (body : List ℕ) (emit : Bool)
      → Keeps (give_or_keep p c id constructor body emit)
  unfolding give_or_keep
  Keeps-give_or_keep id constructor body emit env =
      elim (Bool-cases (is_id env.session.salt_request_msg_id id)) [
        | inr theirs ↦ rw (give_or_keep, theirs) (Keeps-give_result id constructor body emit env)
        | inl ours ↦
            rw (give_or_keep, ours)
              (elim (Bool-cases ((constructor == 0xae50_0895) && salts_answer p c id body)) [
                | inl valid ↦ rw valid (Keeps-handle_future_salts body emit env)
                | inr invalid ↦ rw invalid (
                    Keeps-bind (fail_salt_request id) (λ _. done) (Keeps-fail_salt_request id)
                      (λ _. Keeps-done) env)
              ])
      ]

  Keeps-dispatch_result :
      (id : ℤ) (emit : Bool) (o : Outcome DeserializeError (List ℕ))
      → Keeps (dispatch_result p c id emit o)
  unfolding dispatch_result
  Keeps-dispatch_result id emit (err e) = Keeps-report_failure id e
  Keeps-dispatch_result id emit panic = λ env. IsSame_refl env
  Keeps-dispatch_result id emit (ok body) =
      Keeps-elim (constructor_id body) (λ constructor. give_or_keep p c id constructor body emit)
        (report_failure p c id) (lift panic)
        (λ constructor. Keeps-give_or_keep id constructor body emit) (Keeps-report_failure id)
        (λ env. IsSame_refl env)

  pub Keeps-handle_rpc_result :
      (body : List ℕ) (depth : ℕ) (emit : Bool) → Keeps (handle_rpc_result p c body depth emit)
  unfolding handle_rpc_result
  Keeps-handle_rpc_result body depth emit env = IsSame-if env _ _ _ (IsSame_refl env) (
      Keeps-bind (unwrap_result p c env.budget.work (drop 12 body) depth) _
        (Keeps-unwrap_result env.budget.work (drop 12 body) depth)
        (λ o. Keeps-dispatch_result (signed_word 8 (drop 4 body)) emit o) env)

  Keeps-apply_code : (msg_id code : ℤ) → Keeps (apply_code p c msg_id code)
  unfolding apply_code correct_time_offset
  Keeps-apply_code msg_id code env =
      elim (Bool-cases (eqb_ℤ code (pos 16) || eqb_ℤ code (pos 17))) [
        | inl clock ↦
            rw (apply_code, clock)
              (record { ids = refl; floor = refl; pending = refl; replay = refl })
        | inr other ↦
            rw (apply_code, other)
              (elim (Bool-cases (eqb_ℤ code (pos 32))) [
                | inl low ↦ rw low (elim (Bool-cases (leb (2 ^ 31) (env.session.sequence + 64))) [
                  | inl over ↦ rw over (IsSame_refl env)
                  | inr fits ↦
                      rw fits (record { ids = refl; floor = refl; pending = refl; replay = refl })
                ])
                | inr other ↦ rw other (elim (Bool-cases (eqb_ℤ code (pos 33))) [
                  | inl high ↦
                      rw high (record { ids = refl; floor = refl; pending = refl; replay = refl })
                  | inr other ↦ rw other (IsSame_refl env)
                ])
              ])
      ]

  Keeps-apply_notification :
      (msg_id : ℤ) (b : BadNotification) → Keeps (apply_notification p c msg_id b)
  unfolding apply_notification reset_salts
  Keeps-apply_notification msg_id b env = elim (Option-cases b.new_server_salt) [
    | inl none_given ↦
        rw (apply_notification, none_given) (Keeps-apply_code msg_id b.error_code env)
    | inr (salt, given) ↦
        rw (apply_notification, given)
          (record { ids = refl; floor = refl; pending = refl; replay = refl })
  ]

  pub Keeps-handle_bad_notification :
      (v : View) (apply : Bool) → Keeps (handle_bad_notification p c v apply)
  unfolding handle_bad_notification
  Keeps-handle_bad_notification v apply =
      Keeps-bind (lift (p.bad_notification v.body)) _ (Keeps-lift (p.bad_notification v.body)) λ b.
        Keeps-bind (fail_salt_request b.bad_msg_id) _ (Keeps-fail_salt_request b.bad_msg_id)
          λ internal.
            Keeps-bind
              (if internal
                then done
                else push_result
                    (bad_message (record { msg_id = b.bad_msg_id; code = b.error_code })))
              _ (Keeps-if internal _ _ Keeps-done (Keeps-push_result _))
              λ _. Keeps-if apply _ _ (Keeps-apply_notification v.msg_id b) Keeps-done

  pub Keeps-handle_detailed_info : (body : List ℕ) → Keeps (handle_detailed_info p c body)
  unfolding handle_detailed_info
  Keeps-handle_detailed_info body =
      Keeps-bind (lift (p.answer_msg_id body)) _ (Keeps-lift (p.answer_msg_id body))
        λ id. Keeps-ack c id

  pub Keeps-handle_pong : (body : List ℕ) → Keeps (handle_pong p c body)
  unfolding handle_pong
  Keeps-handle_pong body =
      Keeps-bind (lift (p.pong_msg_id body)) _ (Keeps-lift (p.pong_msg_id body))
        λ id. Keeps-push_result (rpc_result id body)

  pub Keeps-handle_new_session_created :
      (body : List ℕ) → Keeps (handle_new_session_created p c body)
  unfolding handle_new_session_created reset_salts
  Keeps-handle_new_session_created body =
      Keeps-bind (lift (p.new_session body)) _ (Keeps-lift (p.new_session body))
        λ salt env. (record { ids = refl; floor = refl; pending = refl; replay = refl })

  pub Keeps-handle_ack : (body : List ℕ) → Keeps (handle_ack p c body)
  unfolding handle_ack
  Keeps-handle_ack body = Keeps-lift (p.msgs_ack body)

  pub Keeps-handle_update : (body : List ℕ) → Keeps (handle_update p c body)
  unfolding handle_update
  Keeps-handle_update body env =
      IsSame-if env _ _ _ (Keeps-push_result (update body) env) (IsSame_refl env)
