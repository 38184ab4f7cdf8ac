-- ===== src/Mtp/Incoming/Packet.antt =====
-- Packets of an encrypted session from their first message to what they commit
-- (grammers-mtproto/src/mtp/encrypted.rs, `process_plaintext`).
use grammers.Common.{
  ℕ, zero, suc, ◌≡◌, ◌≢◌, refl, sym, ap, ◌∙◌, ◌⊎◌, inl, inr, Bool, true, false, Option, none, some,
  List, [], if◌then◌else◌, arith, subst,
}
use grammers.Common.Int.{ℤ}
use grammers.Common.I64.{IsI64}
use grammers.Common.Outcome.{Outcome, ok, err, panic, ok-injective}
use grammers.Mtp.Replay.{contains, is_some_and}
use grammers.Mtp.Replay.Shape.{IsValid}
use grammers.Mtp.Session.{Encrypted, Clock, DeserializeError, Deserialization}
use grammers.Mtp.Incoming.{
  View, Env, M, bind, lift, done, new_budget, visit, constructor_id, ack, requires_ack,
  validate_header,
}
use grammers.Mtp.Incoming.Handlers.{Parsers, is_gzip}
use grammers.Mtp.Incoming.Process.{
  Kind, container, other, kind_of, survives_stale, remember_received, was_received, is_stale,
  record_received, unwrap, handle, handle_fresh, handle_stale, process_new, process_bounded,
  handle_container, finish_packet, process_message, pending_ids, remember_all,
}
use grammers.Mtp.Incoming.Untouched.{IsSame, IsSame-trans, Keeps, Keeps-if, Keeps-done, Keeps-ack}
use grammers.Mtp.Incoming.Quiet.{SameResults, ack_if-IsQuiet, unwrap-IsQuiet}
use grammers.Mtp.Incoming.Once.{Seen, remember_received-Seen, Keeps-unwrap, Keeps-handle}

-- What a call that returns went through.
returns :
    {A B : Type 0} (r : Outcome DeserializeError A × Env) (f : A → M B) (b : B) (env' : Env)
    → bind r f ≡ (ok b, env')
    → (a : A) × (mid : Env) × (r ≡ (ok a, mid)) × (f a mid ≡ (ok b, env'))
returns (ok a, mid) f b env' h = (a, mid, refl, h)
returns (err e, mid) f b env' h = cc
returns (panic, mid) f b env' h = cc

-- What a call that keeps the history leaves when it returns.
kept :
    {A : Type 0} (m : M A) (env mid : Env) (o : Outcome DeserializeError A)
    → Keeps m
    → m env ≡ (o, mid)
    → IsSame env mid
kept m env mid o h e = subst (λ r. IsSame env r.1) e (h env)

if-M :
    {A : Type 0} (b : Bool) (m n : M A) (env : Env) (r : Outcome DeserializeError A × Env)
    → (if b then m else n) env ≡ r
    → ((b ≡ true) × (m env ≡ r)) ⊎ ((b ≡ false) × (n env ≡ r))
if-M true m n env r h = inl (refl, h)
if-M false m n env r h = inr (refl, h)

same_ok :
    {A : Type 0} (a b : A) (env env' : Env)
    → ◌≡◌ {A = Outcome DeserializeError A × Env} (ok a, env) (ok b, env')
    → (a ≡ b) × (env ≡ env')
same_ok a b env env' h = (ok-injective a b (ap (λ r. r.0) h), ap (λ r. r.1) h)

none_branch :
    {X : Type 0} (o : Option (List ℤ)) (a : X) (f : List ℤ → X) (r : X)
    → o ≡ none
    → (elim o [ none ↦ a | some ids ↦ f ids ]) ≡ r
    → a ≡ r
none_branch none a f r e h = h
none_branch (some ids) a f r e h = absurd cc

-- A message that is neither a container nor compressed.
pub record IsDirect (v : View) (kind : Kind) : Type 0 where
  pub id : ℕ
  pub constructor : constructor_id v.body ≡ ok id
  pub plain : is_gzip v.body ≡ false
  pub of_kind : kind_of id ≡ kind
  pub single : kind ≢ container

module _ (p : Parsers) (c : Clock) where
  unwrap_direct :
      (work : ℕ) (body inner : List ℕ) (depth depth' : ℕ) (env env' : Env)
      → is_gzip body ≡ false
      → unwrap p c work body depth env ≡ (ok (inner, depth'), env')
      → inner ≡ body
  unfolding unwrap
  unwrap_direct zero body inner depth depth' env env' plain e =
      let (a, mid, got, rest) = returns (visit depth env) _ (inner, depth') env' e in
      let (b, mid', got', rest') =
        returns (lift (constructor_id body) mid) _ (inner, depth') env' rest in
      cc
  unwrap_direct (suc left) body inner depth depth' env env' plain e =
      let (a, mid, got, rest) = returns (visit depth env) _ (inner, depth') env' e in
      let (b, mid', got', rest') =
        returns (lift (constructor_id body) mid) _ (inner, depth') env' rest in
      elim (if-M (is_gzip body) _ (lift (ok (body, depth))) mid' (ok (inner, depth'), env') rest') [
        | inl (packed, deeper) ↦ cc
        | inr (same, here) ↦
            sym (
              ap (λ (q : List ℕ × ℕ). q.0) (same_ok (body, depth) (inner, depth') mid' env' here).0)
      ]

  -- What a message that was not received before went through.
  record Handled (on_container : View → ℕ → M (Unit {0})) (v : View) (env env' : Env) (kind : Kind)
      : Type 0 where
    pub mid : Env
    pub depth : ℕ
    pub before : IsSame env mid
    pub quiet : SameResults env mid
    pub last :
        (if is_stale v.msg_id env
            then handle_stale p c on_container kind v depth
            else handle_fresh p c on_container kind v depth)
          mid
        ≡ (ok tt, env')

  same_last :
      (on_container : View → ℕ → M (Unit {0})) (v : View) (body : List ℕ) (k kind : Kind)
      (depth : ℕ) (stale : Bool) (mid mid' : Env) (r : Outcome DeserializeError (Unit {0}) × Env)
      → body ≡ v.body
      → k ≡ kind
      → mid ≡ mid'
      → (if stale
            then handle_stale p c on_container k (record v { body = body }) depth
            else handle_fresh p c on_container k (record v { body = body }) depth)
          mid'
        ≡ r
      → (if stale
            then handle_stale p c on_container kind v depth
            else handle_fresh p c on_container kind v depth)
          mid
        ≡ r
  same_last on_container v body k kind depth stale mid mid' r b e m h =
      subst
        (λ (q : View).
          (if stale
              then handle_stale p c on_container kind q depth
              else handle_fresh p c on_container kind q depth)
            mid
          ≡ r)
        (ap (λ bytes. record v { body = bytes }) b) (rw (← e, m) h)

  process_new-Handled :
      (on_container : View → ℕ → M (Unit {0})) (v : View) (kind : Kind) (depth : ℕ) (env env' : Env)
      → IsDirect v kind
      → process_new p c on_container v depth env ≡ (ok tt, env')
      → Handled on_container v env env' kind
  unfolding process_new
  process_new-Handled on_container v kind depth env env' direct e =
      let ((body, depth₁), mid₁, got₁, rest₁) =
        returns (unwrap p c env.budget.work v.body depth env) _ tt env' e in
      let (a, mid₂, got₂, rest₂) =
        returns ((if requires_ack v then ack c v.msg_id else done) mid₁) _ tt env' rest₁ in
      let (id, mid₃, got₃, rest₃) = returns (lift (constructor_id body) mid₂) _ tt env' rest₂ in
      let same_body =
        unwrap_direct env.budget.work v.body body depth depth₁ env mid₁ direct.plain got₁ in
      let k₁ =
        kept (unwrap p c env.budget.work v.body depth) env mid₁ _
          (Keeps-unwrap p c env.budget.work v.body depth) got₁ in
      let k₂ =
        kept (if requires_ack v then ack c v.msg_id else done) mid₁ mid₂ _
          (Keeps-if (requires_ack v) _ _ (Keeps-ack c v.msg_id) Keeps-done) got₂ in
      let q₁ =
        subst (λ r. SameResults env r.1) got₁
          (unwrap-IsQuiet p c env.budget.work v.body depth env) in
      let q₂ =
        subst (λ r. SameResults mid₁ r.1) got₂ (ack_if-IsQuiet c (requires_ack v) v.msg_id mid₁) in
      let id_eq : direct.id ≡ id =
        ok-injective direct.id id
          (sym direct.constructor ∙ sym (ap constructor_id same_body) ∙ ap (λ r. r.0) got₃) in
      let mid_eq : mid₂ ≡ mid₃ = ap (λ r. r.1) got₃ in
      record {
        mid = mid₂;
        depth = depth₁;
        before = IsSame-trans env mid₁ mid₂ k₁ k₂;
        quiet = q₂ ∙ q₁;
        last =
            same_last on_container v body (kind_of id) kind depth₁ (is_stale v.msg_id env) mid₂ mid₃
              (ok tt, env') same_body (ap kind_of (sym id_eq) ∙ direct.of_kind) mid_eq rest₃;
      }

  finish_packet-ok :
      (q : Outcome DeserializeError (Unit {0}) × Env) (s' : Encrypted) (r : List Deserialization)
      → finish_packet p c q ≡ (ok r, s')
      → q.0 ≡ ok tt
  unfolding finish_packet
  finish_packet-ok (ok u, env) s' r e = refl
  finish_packet-ok (err x, env) s' r e = cc
  finish_packet-ok (panic, env) s' r e = cc

  -- The environment in which a packet's first message is handled.
  abbrev packet_env : Encrypted → Env
  packet_env s = record { session = s; budget = new_budget s.received_floor s.decode_limits }

  first_received :
      (id : ℤ) (s : Encrypted)
      → was_received id (packet_env s) ≡ true
      → contains id s.received_ids ≡ true
  unfolding was_received is_some_and new_budget
  first_received id s h = ground (arith, h)

  first_message :
      (v : View) (kind : Kind) (s : Encrypted) (env' : Env)
      → IsDirect v kind
      → process_bounded p c (handle_container p c) false v 0 (packet_env s) ≡ (ok tt, env')
      → ((contains v.msg_id s.received_ids ≡ true)
          × IsSame (packet_env s) env'
          × SameResults (packet_env s) env')
        ⊎ ((was_received v.msg_id (packet_env s) ≡ false)
            × Handled (handle_container p c) v (packet_env s) env' kind)
  unfolding process_bounded
  first_message v kind s env' direct e =
      let env = packet_env s in
      let (a, mid, got, rest) = returns (lift (validate_header v) env) _ tt env' e in
      let mid_eq : env ≡ mid = ap (λ r. r.1) got in
      let rest' =
        subst
          (λ m.
            (if was_received v.msg_id env
                then (if requires_ack v then ack c v.msg_id else done)
                else process_new p c (handle_container p c) v 0)
              m
            ≡ (ok tt, env'))
          (sym mid_eq) rest in
      elim (if-M (was_received v.msg_id env) (if requires_ack v then ack c v.msg_id else done)
        (process_new p c (handle_container p c) v 0) env (ok tt, env') rest') [
          | inl (again, acked) ↦ inl (
            first_received v.msg_id s again,
            kept (if requires_ack v then ack c v.msg_id else done) env env' _
                (Keeps-if (requires_ack v) _ _ (Keeps-ack c v.msg_id) Keeps-done) acked,
            subst (λ r. SameResults env r.1) acked (ack_if-IsQuiet c (requires_ack v) v.msg_id env),
          )
          | inr (new, handled) ↦
              inr (new, process_new-Handled (handle_container p c) v kind 0 env env' direct handled)
        ]

  -- Without a container nothing is left to commit.
  finish_packet-none :
      (env : Env) (s' : Encrypted) (r : List Deserialization)
      → env.budget.pending_received ≡ none
      → finish_packet p c (ok tt, env) ≡ (ok r, s')
      → (s' ≡ record env.session { deserialization = [] }) × (r ≡ env.session.deserialization)
  unfolding finish_packet pending_ids remember_all
  finish_packet-none env s' r alone e =
      let s₁ = remember_all p c (pending_ids env.budget.pending_received) env.session in
      let nothing : s₁ ≡ env.session =
        ap (λ o. remember_all p c (pending_ids o) env.session) alone in
      (
        sym (ap (λ q. q.1) e) ∙ ap (λ (t : Encrypted). record t { deserialization = [] }) nothing,
        sym (ok-injective s₁.deserialization r (ap (λ q. q.0) e))
            ∙ ap (λ (t : Encrypted). t.deserialization) nothing,
      )

  recorded :
      (id : ℤ) (mid env' : Env)
      → mid.budget.pending_received ≡ none
      → record_received id mid ≡ (ok tt, env')
      → (env'.budget.pending_received ≡ none) × (env'.session ≡ remember_received id mid.session)
  unfolding record_received
  recorded id mid env' alone e =
      let step = none_branch mid.budget.pending_received _ _ (ok tt, env') alone e in
      let same =
        (same_ok tt tt (record mid { session = remember_received id mid.session }) env' step).1 in
      (
        sym (ap (λ (n : Env). n.budget.pending_received) same) ∙ alone,
        sym (ap (λ (n : Env). n.session) same),
      )

  Handled-Seen :
      (v : View) (kind : Kind) (s : Encrypted) (env' : Env)
      → kind ≢ container
      → IsI64 v.msg_id
      → IsValid s.received_ids
      → Handled (handle_container p c) v (packet_env s) env' kind
      → (env'.budget.pending_received ≡ none) × Seen v.msg_id env'.session
  unfolding is_stale handle_stale handle_fresh new_budget
  Handled-Seen v kind s env' single hid valid h =
      elim (if-M (is_stale v.msg_id (packet_env s))
        (handle_stale p c (handle_container p c) kind v h.depth)
        (handle_fresh p c (handle_container p c) kind v h.depth) h.mid (ok tt, env') h.last) [
          | inl (stale, handled) ↦
              let k =
                kept (handle_stale p c (handle_container p c) kind v h.depth) h.mid env' _
                  (Keeps-if (survives_stale kind) _ _
                    (Keeps-handle p c (handle_container p c) kind v h.depth false single)
                    Keeps-done)
                  handled in
              let m = IsSame-trans (packet_env s) h.mid env' h.before k in
              (m.pending, inr (rw m.floor (ground (arith, stale))))
          | inr (fresh, handled) ↦
              let (a, mid, got, rest) =
                returns (handle p c (handle_container p c) kind v h.depth true h.mid) _ tt env'
                  handled in
              let k =
                kept (handle p c (handle_container p c) kind v h.depth true) h.mid mid _
                  (Keeps-handle p c (handle_container p c) kind v h.depth true single) got in
              let m = IsSame-trans (packet_env s) h.mid mid h.before k in
              let w = recorded v.msg_id mid env' m.pending rest in
              (w.0, rw w.1 (remember_received-Seen v.msg_id mid.session hid (rw m.ids valid)))
        ]

  Handled-stale :
      (v : View) (s : Encrypted) (env' : Env)
      → Seen v.msg_id s
      → was_received v.msg_id (packet_env s) ≡ false
      → Handled (handle_container p c) v (packet_env s) env' other
      → (env'.budget.pending_received ≡ none) × SameResults (packet_env s) env'
  unfolding was_received is_stale handle_stale survives_stale new_budget
  Handled-stale v s env' (inl held) new h = absurd (ground (arith, held, new))
  Handled-stale v s env' (inr low) new h =
      elim (if-M (is_stale v.msg_id (packet_env s)) done
        (handle_fresh p c (handle_container p c) other v h.depth) h.mid (ok tt, env') h.last) [
          | inl (stale, silent) ↦
              let same = (same_ok tt tt h.mid env' silent).1 in
              (
                ap (λ (n : Env). n.budget.pending_received) (sym same) ∙ h.before.pending,
                ap (λ (n : Env). n.session.deserialization) (sym same) ∙ h.quiet,
              )
          | inr (fresh, handled) ↦ absurd (ground (arith, low, fresh))
        ]

  -- Where a packet holds one message, neither compressed nor a container, and is accepted, the
  -- message's 64-bit identifier is afterwards in the replay history or at most at its floor; the
  -- history was valid before.
  pub process_message-Seen :
      (v : View) (kind : Kind) (s s' : Encrypted) (r : List Deserialization)
      → IsDirect v kind
      → IsI64 v.msg_id
      → IsValid s.received_ids
      → process_message p c v s ≡ (ok r, s')
      → Seen v.msg_id s'
  unfolding process_message new_budget
  process_message-Seen v kind s s' r direct hid valid e =
      let q = process_bounded p c (handle_container p c) false v 0 (packet_env s) in
      let q_ok : q ≡ (ok tt, q.1) = ap (λ o. (o, q.1)) (finish_packet-ok q s' r e) in
      let done_eq : finish_packet p c (ok tt, q.1) ≡ (ok r, s') =
        ap (finish_packet p c) (sym q_ok) ∙ e in
      let first = first_message v kind s q.1 direct q_ok in
      elim first [
        | inl again ↦
            let f = finish_packet-none q.1 s' r again.1.pending done_eq in
            rw f.0 (inl (rw again.1.ids again.0))
        | inr (new, handled) ↦
            let f = Handled-Seen v kind s q.1 direct.single hid valid handled in
            let g = finish_packet-none q.1 s' r f.0 done_eq in rw g.0 f.1
      ]

  -- Where a packet holds one update, neither compressed nor a container, whose identifier is in the
  -- replay history or at most at its floor, and the session has no result left over, a packet that
  -- is accepted gives no result.
  pub process_message-silent :
      (v : View) (s s' : Encrypted) (r : List Deserialization)
      → IsDirect v other
      → Seen v.msg_id s
      → s.deserialization ≡ []
      → process_message p c v s ≡ (ok r, s')
      → r ≡ []
  unfolding process_message new_budget
  process_message-silent v s s' r direct seen clean e =
      let q = process_bounded p c (handle_container p c) false v 0 (packet_env s) in
      let q_ok : q ≡ (ok tt, q.1) = ap (λ o. (o, q.1)) (finish_packet-ok q s' r e) in
      let done_eq : finish_packet p c (ok tt, q.1) ≡ (ok r, s') =
        ap (finish_packet p c) (sym q_ok) ∙ e in
      elim (first_message v other s q.1 direct q_ok) [
        | inl again ↦ (finish_packet-none q.1 s' r again.1.pending done_eq).1 ∙ again.2 ∙ clean
        | inr (new, handled) ↦
            let f = Handled-stale v s q.1 seen new handled in
            (finish_packet-none q.1 s' r f.0 done_eq).1 ∙ f.1 ∙ clean
      ]
