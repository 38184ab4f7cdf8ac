-- ===== src/Mtp/Incoming/Total.antt =====
-- That the receiving half of an encrypted session returns (grammers-mtproto/src/mtp/encrypted.rs):
-- the handlers.
use grammers.Common.{
  ℕ, zero, suc, ◌+◌, ◌^◌, ◌≢◌, refl, inl, inr, Bool, true, false, ◌&&◌, ◌||◌, none, List,
  if◌then◌else◌, ◌==◌, Bool-cases, Option-cases, length, leb, ltb, drop, arith,
}
use grammers.Common.Int.{ℤ, pos, eqb_ℤ}
use grammers.Common.Outcome.{Outcome, ok, err, panic}
use grammers.Mtp.Session.{Clock, DeserializeError, rpc_error, bad_message, failure, is_id}
use grammers.Mtp.Outgoing.{queue_ack}
use grammers.Mtp.Incoming.{
  View, Env, M, bind, ◌>>=◌, lift, done, attempt, caught, modify, push_result, visit,
  decompress_body, constructor_id, ack, signed_word,
}
use grammers.Mtp.Incoming.Wrappers.{IsLimited, charged-fits}
use grammers.Mtp.Incoming.Handlers.{
  Parsers, BadNotification, FutureSalts, fail_salt_request, store_own_updates, finish_salts,
  use_salts, handle_future_salts, unwrap_once, unwrap_result, report_failure, salts_answer,
  give_result, give_or_keep, dispatch_result, handle_rpc_result, handle_ack, apply_code,
  apply_notification, handle_bad_notification, handle_detailed_info, handle_pong,
  handle_new_session_created, handle_update,
}

-- The call returns an error, or a value of which `Q` holds.
pub data Yields {A : Type 0} (q : A → Type 0) : Outcome DeserializeError A × Env → Type 0 where
  value : {a : A} {env : Env} → q a → Yields q (ok a, env)
  failed : {e : DeserializeError} {env : Env} → Yields q (err e, env)

abbrev pub Any : {A : Type 0} → A → Type 0
Any a = Unit

abbrev pub Returns : {A : Type 0} → M A → Type 0
Returns m = (env : Env) → Yields Any (m env)

pub Yields-returned :
    {A : Type 0} (r : Outcome DeserializeError A × Env) → Yields Any r → r.0 ≢ panic
Yields-returned r (value h) = λ q. cc
Yields-returned r failed = λ q. cc

pub returned-Yields :
    {A : Type 0} (o : Outcome DeserializeError A) (env : Env) → o ≢ panic → Yields Any (o, env)
returned-Yields (ok a) env h = value tt
returned-Yields (err e) env h = failed
returned-Yields panic env h = absurd (h refl)

pub bind-Yields :
    {A B : Type 0} (q : A → Type 0) (t : B → Type 0) (r : Outcome DeserializeError A × Env)
    (f : A → M B)
    → Yields q r
    → ((a : A) → q a → (env : Env) → Yields t (f a env))
    → Yields t (bind r f)
bind-Yields q t r f (value h) k = k _ h _
bind-Yields q t r f failed k = failed

pub Returns-bind :
    {A B : Type 0} (m : M A) (f : A → M B)
    → Returns m
    → ((a : A) → Returns (f a))
    → Returns (m >>= f)
Returns-bind m f h k env = bind-Yields Any Any (m env) f (h env) (λ a x. k a)

pub Returns-lift : {A : Type 0} (o : Outcome DeserializeError A) → o ≢ panic → Returns (lift o)
Returns-lift o h env = returned-Yields o env h

pub Yields-if :
    {A : Type 0} (q : A → Type 0) (b : Bool) (r r' : Outcome DeserializeError A × Env)
    → Yields q r
    → Yields q r'
    → Yields q (if b then r else r')
Yields-if q true r r' h k = h
Yields-if q false r r' h k = k

Yields-if_at :
    {A : Type 0} {q : A → Type 0} (b : Bool) (m n : M A)
    → ((env : Env) → Yields q (m env))
    → ((env : Env) → Yields q (n env))
    → (env : Env) → Yields q ((if b then m else n) env)
Yields-if_at true m n h k env = h env
Yields-if_at false m n h k env = k env

pub Returns-if :
    {A : Type 0} (b : Bool) (m n : M A)
    → Returns m
    → Returns n
    → (env : Env) → Yields Any ((if b then m else n) env)
Returns-if b m n h k = Yields-if_at b m n h k

pub Returns-elim :
    {A B : Type 0} (o : Outcome DeserializeError A) (f : A → M B) (g : DeserializeError → M B)
    (h : M B)
    → o ≢ panic
    → ((a : A) → Returns (f a))
    → ((e : DeserializeError) → Returns (g e))
    → Returns (elim o [ ok a ↦ f a | err e ↦ g e | panic ↦ h ])
Returns-elim (ok a) f g h t kf kg env = kf a env
Returns-elim (err e) f g h t kf kg env = kg e env
Returns-elim panic f g h t kf kg env = absurd (t refl)

caught-Yields :
    {A : Type 0} (r : Outcome DeserializeError A × Env)
    → Yields Any r
    → Yields (λ o. o ≢ panic) (caught r)
caught-Yields r (value h) = value (λ q. cc)
caught-Yields r failed = value (λ q. cc)

attempt-Yields :
    {A : Type 0} (m : M A) → Returns m → (env : Env) → Yields (λ o. o ≢ panic) (attempt m env)
attempt-Yields m h env = caught-Yields (m env) (h env)

pub constructor_id-returns : (body : List ℕ) → constructor_id body ≢ panic
unfolding constructor_id
constructor_id-returns body = ground arith

pub Returns-visit : (depth : ℕ) → Returns (visit depth)
unfolding visit
Returns-visit depth env = Yields-if Any _ _ _ failed (value tt)

pub Returns-ack : (c : Clock) (id : ℤ) → Returns (ack c id)
unfolding ack queue_ack
Returns-ack c id env = elim (Bool-cases (leb 65536 (length env.session.pending_ack))) [
  | inl full ↦ rw (ack, queue_ack, full) failed
  | inr room ↦ rw (ack, queue_ack, room) (value tt)
]

Returns-fail_salt_request : (id : ℤ) → Returns (fail_salt_request id)
unfolding fail_salt_request
Returns-fail_salt_request id env = Yields-if Any _ _ _ (value tt) (value tt)

Returns-store_own_updates : (id : ℤ) (body : List ℕ) → Returns (store_own_updates id body)
unfolding store_own_updates
Returns-store_own_updates id body env = Yields-if Any _ _ _ (value tt) (value tt)

-- Decoders that return a value or an error for every body.
pub record IsTotal (p : Parsers) : Type 0 where
  pub decompress : IsLimited p.decompress
  pub bad_notification : (body : List ℕ) → p.bad_notification body ≢ panic
  pub future_salts : (body : List ℕ) → p.future_salts body ≢ panic
  pub new_session : (body : List ℕ) → p.new_session body ≢ panic
  pub pong_msg_id : (body : List ℕ) → p.pong_msg_id body ≢ panic
  pub msgs_ack : (body : List ℕ) → p.msgs_ack body ≢ panic
  pub answer_msg_id : (body : List ℕ) → p.answer_msg_id body ≢ panic
  pub rpc_error_of : (body : List ℕ) → p.rpc_error_of body ≢ panic

module _ (p : Parsers) (c : Clock) (total : IsTotal p) where
  Returns-finish_salts :
      (f : FutureSalts) (internal apply : Bool) → Returns (finish_salts p c f internal apply)
  unfolding finish_salts
  Returns-finish_salts f internal apply = Returns-if _ _ _ (λ env. value tt) (λ env. value tt)

  Returns-use_salts :
      (f : FutureSalts) (body : List ℕ) (apply : Bool) → Returns (use_salts p c f body apply)
  unfolding use_salts
  Returns-use_salts f body apply env =
      Yields-if Any _ _ _
        (Returns-bind (modify (λ s. record s { salt_request_msg_id = none }))
          (λ _. finish_salts p c f true apply) (λ env. value tt)
          (λ _. Returns-finish_salts f true apply) env)
        (Returns-bind (push_result _) (λ _. finish_salts p c f false apply) (λ env. value tt)
          (λ _. Returns-finish_salts f false apply) env)

  pub Returns-handle_future_salts :
      (body : List ℕ) (apply : Bool) → Returns (handle_future_salts p c body apply)
  unfolding handle_future_salts
  Returns-handle_future_salts body apply =
      Returns-bind (lift (p.future_salts body)) _
        (Returns-lift (p.future_salts body) (total.future_salts body))
        λ f. Returns-if _ _ _ (λ env. failed) (Returns-use_salts f body apply)

  decompress_body-Yields :
      (body : List ℕ) (depth : ℕ) (env : Env)
      → Yields Any (decompress_body p.decompress body depth env)
  unfolding decompress_body
  decompress_body-Yields body depth env = elim (Bool-cases (ltb env.budget.limits.depth depth)) [
    | inl over ↦ rw (decompress_body, over) failed
    | inr within ↦
        let b = env.budget in
        rw (decompress_body, within)
          (rw (charged-fits p.decompress b.limits.gzip_output b.remaining body total.decompress)
            (returned-Yields _ _ (total.decompress.returns _ body)))
  ]

  Returns-unwrap_once : (body : List ℕ) (depth : ℕ) → Returns (unwrap_once p c body depth)
  unfolding unwrap_once
  Returns-unwrap_once body depth =
      Returns-bind (visit depth) _ (Returns-visit depth)
        λ _ env. decompress_body-Yields body depth env

  unwrap_next-Yields :
      (left depth : ℕ) (r : Outcome DeserializeError (List ℕ))
      → r ≢ panic
      → ((inner : List ℕ) (env : Env)
          → Yields (λ o. o ≢ panic) (unwrap_result p c left inner (depth + 1) env))
      → (env : Env)
      → Yields
          (λ o. o ≢ panic)
          ((elim r as (λ r. M (Outcome DeserializeError (List ℕ))) [
            | ok inner ↦ unwrap_result p c left inner (depth + 1)
            | err e ↦ lift (ok (err e))
            | panic ↦ lift panic
          ])
            env)
  unwrap_next-Yields left depth (ok inner) h next env = next inner env
  unwrap_next-Yields left depth (err e) h next env = value (λ q. cc)
  unwrap_next-Yields left depth panic h next env = absurd (h refl)

  unwrap_result-Yields :
      (work : ℕ) (body : List ℕ) (depth : ℕ) (env : Env)
      → Yields (λ o. o ≢ panic) (unwrap_result p c work body depth env)
  unfolding unwrap_result
  unwrap_result-Yields zero body depth env =
      Yields-if_at _ _ _ (attempt-Yields _ (Returns-unwrap_once body (depth + 1)))
        (λ env. value (λ q. cc)) env
  unwrap_result-Yields (suc left) body depth env =
      Yields-if_at _ _ _
        (λ env.
          bind-Yields (λ o. o ≢ panic) (λ o. o ≢ panic)
            (attempt (unwrap_once p c body (depth + 1)) env) _
            (attempt-Yields _ (Returns-unwrap_once body (depth + 1)) env)
            (λ r h env.
              unwrap_next-Yields left depth r h
                (λ inner env. unwrap_result-Yields left inner (depth + 1) env) env))
        (λ env. value (λ q. cc)) env

  Returns-report_failure : (id : ℤ) (e : DeserializeError) → Returns (report_failure p c id e)
  unfolding report_failure
  Returns-report_failure id e =
      Returns-bind (fail_salt_request id) _ (Returns-fail_salt_request id)
        λ internal. Returns-if internal _ _ (λ env. value tt) (λ env. value tt)

  Returns-give_result :
      (id : ℤ) (constructor : ℕ) (body : List ℕ) (emit : Bool)
      → Returns (give_result p c id constructor body emit)
  unfolding give_result
  Returns-give_result id constructor body emit =
      Returns-if _ _ _
        (Returns-elim (p.rpc_error_of body) (λ error. push_result (rpc_error id error))
          (λ e. push_result (failure id e)) (lift panic) (total.rpc_error_of body)
          (λ error env. value tt) (λ e env. value tt))
        (Returns-bind (if emit then store_own_updates id body else done) _
          (Returns-if emit _ _ (Returns-store_own_updates id body) (λ env. value tt))
          λ _ env. value tt)

  Returns-give_or_keep :
      (id : ℤ) (constructor : ℕ) (body : List ℕ) (emit : Bool)
      → Returns (give_or_keep p c id constructor body emit)
  unfolding give_or_keep
  Returns-give_or_keep id constructor body emit env =
      elim (Bool-cases (is_id env.session.salt_request_msg_id id)) [
        | inr theirs ↦ rw (give_or_keep, theirs) (Returns-give_result id constructor body emit env)
        | inl ours ↦
            rw (give_or_keep, ours)
              (elim (Bool-cases ((constructor == 0xae50_0895) && salts_answer p c id body)) [
                | inl valid ↦ rw valid (Returns-handle_future_salts body emit env)
                | inr invalid ↦ rw invalid (
                    Returns-bind (fail_salt_request id) (λ _. done) (Returns-fail_salt_request id)
                      (λ _ env. value tt) env)
              ])
      ]

  Returns-dispatch_result :
      (id : ℤ) (emit : Bool) (o : Outcome DeserializeError (List ℕ))
      → o ≢ panic
      → Returns (dispatch_result p c id emit o)
  unfolding dispatch_result
  Returns-dispatch_result id emit (err e) h = Returns-report_failure id e
  Returns-dispatch_result id emit panic h = absurd (h refl)
  Returns-dispatch_result id emit (ok body) h =
      Returns-elim (constructor_id body) (λ constructor. give_or_keep p c id constructor body emit)
        (report_failure p c id) (lift panic) (constructor_id-returns body)
        (λ constructor. Returns-give_or_keep id constructor body emit) (Returns-report_failure id)

  pub Returns-handle_rpc_result :
      (body : List ℕ) (depth : ℕ) (emit : Bool) → Returns (handle_rpc_result p c body depth emit)
  unfolding handle_rpc_result
  Returns-handle_rpc_result body depth emit env = Yields-if Any _ _ _ failed (
      bind-Yields (λ o. o ≢ panic) Any (unwrap_result p c env.budget.work (drop 12 body) depth env)
        _ (unwrap_result-Yields env.budget.work (drop 12 body) depth env)
        (λ o h. Returns-dispatch_result (signed_word 8 (drop 4 body)) emit o h))

  Returns-apply_code : (msg_id code : ℤ) → Returns (apply_code p c msg_id code)
  unfolding apply_code
  Returns-apply_code msg_id code env =
      elim (Bool-cases (eqb_ℤ code (pos 16) || eqb_ℤ code (pos 17))) [
        | inl clock ↦ rw (apply_code, clock) (value tt)
        | inr other ↦
            rw (apply_code, other)
              (elim (Bool-cases (eqb_ℤ code (pos 32))) [
                | inl low ↦ rw low (elim (Bool-cases (leb (2 ^ 31) (env.session.sequence + 64))) [
                  | inl over ↦ rw over failed
                  | inr fits ↦ rw fits (value tt)
                ])
                | inr other ↦ rw other (elim (Bool-cases (eqb_ℤ code (pos 33))) [
                  | inl high ↦ rw high (value tt)
                  | inr other ↦ rw other (value tt)
                ])
              ])
      ]

  Returns-apply_notification :
      (msg_id : ℤ) (b : BadNotification) → Returns (apply_notification p c msg_id b)
  unfolding apply_notification
  Returns-apply_notification msg_id b env = elim (Option-cases b.new_server_salt) [
    | inl none_given ↦
        rw (apply_notification, none_given) (Returns-apply_code msg_id b.error_code env)
    | inr (salt, given) ↦ rw (apply_notification, given) (value tt)
  ]

  pub Returns-handle_bad_notification :
      (v : View) (apply : Bool) → Returns (handle_bad_notification p c v apply)
  unfolding handle_bad_notification
  Returns-handle_bad_notification v apply =
      Returns-bind (lift (p.bad_notification v.body)) _
        (Returns-lift (p.bad_notification v.body) (total.bad_notification v.body))
        λ b.
          Returns-bind (fail_salt_request b.bad_msg_id) _ (Returns-fail_salt_request b.bad_msg_id)
            λ internal.
              Returns-bind
                (if internal
                  then done
                  else push_result
                      (bad_message (record { msg_id = b.bad_msg_id; code = b.error_code })))
                _ (Returns-if internal _ _ (λ env. value tt) (λ env. value tt))
                λ _. Returns-if apply _ _ (Returns-apply_notification v.msg_id b) (λ env. value tt)

  pub Returns-handle_detailed_info : (body : List ℕ) → Returns (handle_detailed_info p c body)
  unfolding handle_detailed_info
  Returns-handle_detailed_info body =
      Returns-bind (lift (p.answer_msg_id body)) _
        (Returns-lift (p.answer_msg_id body) (total.answer_msg_id body)) λ id. Returns-ack c id

  pub Returns-handle_pong : (body : List ℕ) → Returns (handle_pong p c body)
  unfolding handle_pong
  Returns-handle_pong body =
      Returns-bind (lift (p.pong_msg_id body)) _
        (Returns-lift (p.pong_msg_id body) (total.pong_msg_id body)) λ id env. value tt

  pub Returns-handle_new_session_created :
      (body : List ℕ) → Returns (handle_new_session_created p c body)
  unfolding handle_new_session_created
  Returns-handle_new_session_created body =
      Returns-bind (lift (p.new_session body)) _
        (Returns-lift (p.new_session body) (total.new_session body)) λ salt env. value tt

  pub Returns-handle_ack : (body : List ℕ) → Returns (handle_ack p c body)
  unfolding handle_ack
  Returns-handle_ack body = Returns-lift (p.msgs_ack body) (total.msgs_ack body)

  pub Returns-handle_update : (body : List ℕ) → Returns (handle_update p c body)
  unfolding handle_update
  Returns-handle_update body env = Yields-if Any _ _ _ (value tt) (value tt)
