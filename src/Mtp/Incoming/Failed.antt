-- ===== src/Mtp/Incoming/Failed.antt =====
-- Packets that are refused (grammers-mtproto/src/mtp/encrypted.rs, `process_plaintext`).
use grammers.Common.{
  ℕ, ◌+◌, ◌≡◌, refl, sym, ap, ◌∙◌, inl, inr, Bool, true, false, Option, none, some, List, [], ◌∷◌,
  if◌then◌else◌, subst, Option-cases,
}
use grammers.Common.Int.{ℤ}
use grammers.Common.Outcome.{Outcome, ok, err, panic}
use grammers.Mtp.Session.{Encrypted, Clock, DeserializeError, Deserialization}
use grammers.Mtp.Incoming.{
  View, Env, M, bind, ◌>>=◌, ◌>>◌, lift, done, new_budget, constructor_id, ack, requires_ack,
  validate_header, borrowed_messages_validated,
}
use grammers.Mtp.Incoming.Handlers.{Parsers}
use grammers.Mtp.Incoming.Process.{
  Kind, result, acknowledgement, notification, future_salt, salts, pong, detailed_info, new_session,
  container, copy, ignored, other, kind_of, survives_stale, was_received, is_stale, record_received,
  insert_pending, unwrap, handle, handle_fresh, handle_stale, process_new, process_bounded,
  refuse_container, process_all, begin_pending, handle_container, finish_packet, process_message,
}
use grammers.Mtp.Incoming.Untouched.{
  IsSame, IsSame_refl, Keeps, Keeps-lift, Keeps-if, Keeps-done, Keeps-ack,
}
use grammers.Mtp.Incoming.Once.{Keeps-unwrap, Keeps-handle}

-- The history is the same.
abbrev pub SameHistory : Env → Env → Type 0
SameHistory env env' =
    (env'.session.received_ids ≡ env.session.received_ids)
    × (env'.session.received_floor ≡ env.session.received_floor)

SameHistory-trans : (a b c : Env) → SameHistory a b → SameHistory b c → SameHistory a c
SameHistory-trans a b c h k = (k.0 ∙ h.0, k.1 ∙ h.1)

-- Within a container what is received waits for the packet's end.
IsPending : Env → Type 0
IsPending env = (ids : List ℤ) × (env.budget.pending_received ≡ some ids)

abbrev Waits : {A : Type 0} → M A → Type 0
Waits m = (env : Env) → IsPending env → SameHistory env (m env).1 × IsPending (m env).1

Keeps→Waits : {A : Type 0} (m : M A) → Keeps m → Waits m
unfolding IsPending
Keeps→Waits m h env (ids, e) = let k = h env in ((k.ids, k.floor), (ids, k.pending ∙ e))

bind-Waits :
    {A B : Type 0} (env : Env) (r : Outcome DeserializeError A × Env) (f : A → M B)
    → SameHistory env r.1 × IsPending r.1
    → ((a : A) → Waits (f a))
    → SameHistory env (bind r f).1 × IsPending (bind r f).1
bind-Waits env (ok a, mid) f h k =
    let n = k a mid h.1 in (SameHistory-trans env mid (f a mid).1 h.0 n.0, n.1)
bind-Waits env (err e, mid) f h k = h
bind-Waits env (panic, mid) f h k = h

Waits-bind :
    {A B : Type 0} (m : M A) (f : A → M B) → Waits m → ((a : A) → Waits (f a)) → Waits (m >>= f)
Waits-bind m f h k env pend = bind-Waits env (m env) f (h env pend) k

Waits-if :
    {A : Type 0} (b : Bool) (m n : M A)
    → Waits m
    → Waits n
    → (env : Env) → IsPending env
    → SameHistory env ((if b then m else n) env).1 × IsPending ((if b then m else n) env).1
Waits-if true m n h k env pend = h env pend
Waits-if false m n h k env pend = k env pend

Waits-record_received : (id : ℤ) → Waits (record_received id)
unfolding record_received IsPending
Waits-record_received id env (ids, e) =
    rw (record_received, e) ((refl, refl), (insert_pending id ids, refl))

never :
    (o : Option (List ℤ)) (m : Env) (f : List ℤ → Env) (e : DeserializeError) (env' : Env)
    → ◌≡◌ {A = Outcome DeserializeError (Unit {0}) × Env}
        (elim o [ none ↦ (ok tt, m) | some ids ↦ (ok tt, f ids) ])
        (err e, env')
    → ⊥
never none m f e env' g = cc
never (some ids) m f e env' g = cc

module _ (p : Parsers) (c : Clock) where
  refused :
      (kind : Kind) (v : View) (depth : ℕ) (fresh : Bool)
      → Keeps (handle p c (refuse_container p c) kind v depth fresh)
  unfolding handle refuse_container
  refused container v depth fresh = λ env. IsSame_refl env
  refused result v depth fresh =
      Keeps-handle p c (refuse_container p c) result v depth fresh (λ e. cc)
  refused acknowledgement v depth fresh =
      Keeps-handle p c (refuse_container p c) acknowledgement v depth fresh (λ e. cc)
  refused notification v depth fresh =
      Keeps-handle p c (refuse_container p c) notification v depth fresh (λ e. cc)
  refused future_salt v depth fresh =
      Keeps-handle p c (refuse_container p c) future_salt v depth fresh (λ e. cc)
  refused salts v depth fresh =
      Keeps-handle p c (refuse_container p c) salts v depth fresh (λ e. cc)
  refused pong v depth fresh = Keeps-handle p c (refuse_container p c) pong v depth fresh (λ e. cc)
  refused detailed_info v depth fresh =
      Keeps-handle p c (refuse_container p c) detailed_info v depth fresh (λ e. cc)
  refused new_session v depth fresh =
      Keeps-handle p c (refuse_container p c) new_session v depth fresh (λ e. cc)
  refused copy v depth fresh = Keeps-handle p c (refuse_container p c) copy v depth fresh (λ e. cc)
  refused ignored v depth fresh =
      Keeps-handle p c (refuse_container p c) ignored v depth fresh (λ e. cc)
  refused other v depth fresh =
      Keeps-handle p c (refuse_container p c) other v depth fresh (λ e. cc)

  acks : (v : View) → Keeps (if requires_ack v then ack c v.msg_id else done)
  acks v = Keeps-if (requires_ack v) _ _ (Keeps-ack c v.msg_id) Keeps-done

  Waits-dispatch :
      (stale : Bool) (kind : Kind) (v : View) (depth : ℕ)
      → Waits (
          if stale
          then handle_stale p c (refuse_container p c) kind v depth
          else handle_fresh p c (refuse_container p c) kind v depth)
  unfolding handle_stale handle_fresh
  Waits-dispatch true kind v depth =
      Waits-if (survives_stale kind) (handle p c (refuse_container p c) kind v depth false) done
        (Keeps→Waits (handle p c (refuse_container p c) kind v depth false)
          (refused kind v depth false))
        (Keeps→Waits done Keeps-done)
  Waits-dispatch false kind v depth =
      Waits-bind (handle p c (refuse_container p c) kind v depth true) _
        (Keeps→Waits (handle p c (refuse_container p c) kind v depth true)
          (refused kind v depth true))
        λ _. Waits-record_received v.msg_id

  Waits-process_bounded :
      (v : View) (depth : ℕ) → Waits (process_bounded p c (refuse_container p c) true v depth)
  unfolding process_bounded process_new
  Waits-process_bounded v depth env =
      Waits-if (was_received v.msg_id env) (if requires_ack v then ack c v.msg_id else done)
        (process_new p c (refuse_container p c) v depth)
        (Keeps→Waits (if requires_ack v then ack c v.msg_id else done) (acks v))
        (λ env.
          Waits-bind (unwrap p c env.budget.work v.body depth) _
            (Keeps→Waits (unwrap p c env.budget.work v.body depth)
              (Keeps-unwrap p c env.budget.work v.body depth))
            (λ inner.
              Waits-bind (if requires_ack v then ack c v.msg_id else done) _
                (Keeps→Waits (if requires_ack v then ack c v.msg_id else done) (acks v))
                λ _.
                  Waits-bind (lift (constructor_id inner.0)) _
                    (Keeps→Waits (lift (constructor_id inner.0))
                      (Keeps-lift (constructor_id inner.0)))
                    λ id.
                      Waits-dispatch (is_stale v.msg_id env) (kind_of id)
                        (record v { body = inner.0 }) inner.1)
            env)
        env

  Waits-process_all : (vs : List View) (depth : ℕ) → Waits (process_all p c vs depth)
  unfolding process_all
  Waits-process_all [] depth = Keeps→Waits done Keeps-done
  Waits-process_all (v ∷ vs) depth =
      Waits-bind (process_bounded p c (refuse_container p c) true v depth) _
        (Waits-process_bounded v depth) λ _. Waits-process_all vs depth

  container_at :
      (env : Env) (o : Outcome DeserializeError (List View)) (depth : ℕ)
      → SameHistory env
          (bind (o, env) (λ views. begin_pending p c >> process_all p c views depth)).1
  unfolding begin_pending IsPending
  container_at env (err e) depth = (refl, refl)
  container_at env panic depth = (refl, refl)
  container_at env (ok views) depth = elim (Option-cases env.budget.pending_received) [
    | inl alone ↦ rw (begin_pending, alone) (Waits-process_all views depth _ ([], refl)).0
    | inr (ids, known) ↦ rw (begin_pending, known) (Waits-process_all views depth _ (ids, known)).0
  ]

  -- A container leaves the history alone until its packet ends.
  container-SameHistory :
      (v : View) (depth : ℕ) (env : Env) → SameHistory env (handle_container p c v depth env).1
  unfolding handle_container
  container-SameHistory v depth env =
      container_at env (borrowed_messages_validated v.msg_id v.body) (depth + 1)

  -- Until the packet ends, an error leaves the history alone.
  handle_at :
      (kind : Kind) (v : View) (depth : ℕ) (fresh : Bool) (env : Env)
      → SameHistory env (handle p c (handle_container p c) kind v depth fresh env).1
  unfolding handle
  handle_at container v depth fresh env = container-SameHistory v depth env
  handle_at result v depth fresh env =
      let k = Keeps-handle p c (handle_container p c) result v depth fresh (λ e. cc) env in
      (k.ids, k.floor)
  handle_at acknowledgement v depth fresh env =
      let k = Keeps-handle p c (handle_container p c) acknowledgement v depth fresh (λ e. cc) env in
      (k.ids, k.floor)
  handle_at notification v depth fresh env =
      let k = Keeps-handle p c (handle_container p c) notification v depth fresh (λ e. cc) env in
      (k.ids, k.floor)
  handle_at future_salt v depth fresh env = (refl, refl)
  handle_at salts v depth fresh env =
      let k = Keeps-handle p c (handle_container p c) salts v depth fresh (λ e. cc) env in
      (k.ids, k.floor)
  handle_at pong v depth fresh env =
      let k = Keeps-handle p c (handle_container p c) pong v depth fresh (λ e. cc) env in
      (k.ids, k.floor)
  handle_at detailed_info v depth fresh env =
      let k = Keeps-handle p c (handle_container p c) detailed_info v depth fresh (λ e. cc) env in
      (k.ids, k.floor)
  handle_at new_session v depth fresh env =
      let k = Keeps-handle p c (handle_container p c) new_session v depth fresh (λ e. cc) env in
      (k.ids, k.floor)
  handle_at copy v depth fresh env = (refl, refl)
  handle_at ignored v depth fresh env = (refl, refl)
  handle_at other v depth fresh env =
      let k = Keeps-handle p c (handle_container p c) other v depth fresh (λ e. cc) env in
      (k.ids, k.floor)

  Fails : {A : Type 0} → M A → Type 0
  Fails m = (env env' : Env) (e : DeserializeError) → m env ≡ (err e, env') → SameHistory env env'

  bind-Fails :
      {A B : Type 0} (env env' : Env) (e : DeserializeError) (r : Outcome DeserializeError A × Env)
      (f : A → M B)
      → SameHistory env r.1
      → ((a : A) → Fails (f a))
      → bind r f ≡ (err e, env')
      → SameHistory env env'
  unfolding Fails
  bind-Fails env env' e (ok a, mid) f h k g = SameHistory-trans env mid env' h (k a mid env' e g)
  bind-Fails env env' e (err x, mid) f h k g = subst (SameHistory env) (ap (λ q. q.1) g) h
  bind-Fails env env' e (panic, mid) f h k g = absurd cc

  Fails-bind :
      {A B : Type 0} (m : M A) (f : A → M B) → Keeps m → ((a : A) → Fails (f a)) → Fails (m >>= f)
  unfolding Fails
  Fails-bind m f h k env env' e g =
      let n = h env in bind-Fails env env' e (m env) f (n.ids, n.floor) k g

  Fails-if :
      {A : Type 0} (b : Bool) (m n : M A)
      → Fails m
      → Fails n
      → Fails (λ env. (if b then m else n) env)
  unfolding Fails
  Fails-if true m n h k = h
  Fails-if false m n h k = k

  Fails-Keeps : {A : Type 0} (m : M A) → Keeps m → Fails m
  unfolding Fails
  Fails-Keeps m h env env' e g = let n = subst (λ r. IsSame env r.1) g (h env) in (n.ids, n.floor)

  Fails-record_received : (id : ℤ) → Fails (record_received id)
  unfolding Fails record_received
  Fails-record_received id env env' e g = absurd (never env.budget.pending_received _ _ e env' g)

  Fails-dispatch :
      (stale : Bool) (kind : Kind) (v : View) (depth : ℕ)
      → Fails (
          if stale
          then handle_stale p c (handle_container p c) kind v depth
          else handle_fresh p c (handle_container p c) kind v depth)
  unfolding Fails handle_stale handle_fresh
  Fails-dispatch true kind v depth env env' e g =
      Fails-if (survives_stale kind) (handle p c (handle_container p c) kind v depth false) done
        (λ env env' e g. subst (λ r. SameHistory env r.1) g (handle_at kind v depth false env))
        (Fails-Keeps done Keeps-done) env env' e g
  Fails-dispatch false kind v depth env env' e g =
      bind-Fails env env' e (handle p c (handle_container p c) kind v depth true env)
        (λ _. record_received v.msg_id) (handle_at kind v depth true env)
        (λ _. Fails-record_received v.msg_id) g

  Fails-process_new :
      (v : View) (depth : ℕ) → Fails (process_new p c (handle_container p c) v depth)
  unfolding Fails process_new
  Fails-process_new v depth env env' e g =
      Fails-bind (unwrap p c env.budget.work v.body depth) _
        (Keeps-unwrap p c env.budget.work v.body depth)
        (λ inner. Fails-bind (if requires_ack v then ack c v.msg_id else done) _ (acks v) λ _.
          Fails-bind (lift (constructor_id inner.0)) _ (Keeps-lift (constructor_id inner.0)) λ id.
            Fails-dispatch (is_stale v.msg_id env) (kind_of id) (record v { body = inner.0 })
              inner.1)
        env env' e g

  Fails-process_bounded :
      (v : View) (depth : ℕ) → Fails (process_bounded p c (handle_container p c) false v depth)
  unfolding Fails process_bounded
  Fails-process_bounded v depth env env' e g =
      Fails-bind (lift (validate_header v)) _ (Keeps-lift (validate_header v))
        (λ _.
          Fails-if (was_received v.msg_id env) (if requires_ack v then ack c v.msg_id else done)
            (process_new p c (handle_container p c) v depth)
            (Fails-Keeps (if requires_ack v then ack c v.msg_id else done) (acks v))
            (Fails-process_new v depth))
        env env' e g

  refused_packet :
      (s s' : Encrypted) (e : DeserializeError) (q : Outcome DeserializeError (Unit {0}) × Env)
      → ((env' : Env) (x : DeserializeError)
          → q ≡ (err x, env')
          → SameHistory
              (record { session = s; budget = new_budget s.received_floor s.decode_limits })
              env')
      → finish_packet p c q ≡ (err e, s')
      → (s'.received_ids ≡ s.received_ids)
        × (s'.received_floor ≡ s.received_floor)
        × (s'.deserialization ≡ [])
  unfolding finish_packet
  refused_packet s s' e (ok u, env) h g = cc
  refused_packet s s' e (panic, env) h g = cc
  refused_packet s s' e (err x, env) h g =
      let k = h env x refl in
      let same = ap (λ (r : Outcome DeserializeError (List Deserialization) × Encrypted). r.1) g in
      (
        ap (λ (t : Encrypted). t.received_ids) (sym same) ∙ k.0,
        ap (λ (t : Encrypted). t.received_floor) (sym same) ∙ k.1,
        ap (λ (t : Encrypted). t.deserialization) (sym same),
      )

  -- A packet that is answered by an error, even in the midst of a container, leaves the replay
  -- history and its floor as they were, and gives no results.
  pub process_message-err :
      (v : View) (s s' : Encrypted) (e : DeserializeError)
      → process_message p c v s ≡ (err e, s')
      → (s'.received_ids ≡ s.received_ids)
        × (s'.received_floor ≡ s.received_floor)
        × (s'.deserialization ≡ [])
  unfolding process_message Fails
  process_message-err v s s' e g =
      refused_packet s s' e (process_bounded p c (handle_container p c) false v 0 _)
        (λ env' x h. Fails-process_bounded v 0 _ env' x h) g
