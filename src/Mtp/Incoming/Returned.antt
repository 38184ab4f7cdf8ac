-- ===== src/Mtp/Incoming/Returned.antt =====
-- That the receiving half of an encrypted session returns (grammers-mtproto/src/mtp/encrypted.rs):
-- messages, containers and packets.
use grammers.Common.{
  ℕ, zero, suc, ◌+◌, ◌≢◌, inl, inr, Bool, true, false, List, [], ◌∷◌, if◌then◌else◌, drop,
  Option-cases, arith,
}
use grammers.Common.Int.{ℤ}
use grammers.Common.Outcome.{Outcome, panic, Outcome-cases}
use grammers.Mtp.Session.{Clock, Encrypted, DeserializeError}
use grammers.Mtp.Incoming.{
  View, Env, M, lift, done, constructor_id, requires_ack, validate_header, view_of, views_of,
  borrowed_messages_validated, ack,
}
use grammers.Mtp.Incoming.Handlers.{Parsers}
use grammers.Mtp.Incoming.Process.{
  Kind, result, container, pong, salts, notification, acknowledgement, future_salt, detailed_info,
  new_session, copy, ignored, other, kind_of, survives_stale, was_received, is_stale,
  record_received, unwrap, handle, handle_fresh, handle_stale, process_new, process_bounded,
  refuse_container, process_all, begin_pending, handle_container, finish_packet, process_message,
  process_plaintext,
}
use grammers.Mtp.Incoming.Wrappers.{unwrap_returns}
use grammers.Mtp.Incoming.Total.{
  Yields, value, failed, Any, Returns, returned-Yields, bind-Yields, Returns-bind, Returns-lift,
  Returns-if, constructor_id-returns, Returns-ack, IsTotal, Returns-handle_future_salts,
  Returns-handle_rpc_result, Returns-handle_bad_notification, Returns-handle_detailed_info,
  Returns-handle_pong, Returns-handle_new_session_created, Returns-handle_ack,
  Returns-handle_update,
}

validate_header-returns : (v : View) → validate_header v ≢ panic
unfolding validate_header
validate_header-returns v = ground arith

view_of-returns : (bytes : List ℕ) → view_of bytes ≢ panic
unfolding view_of
view_of-returns bytes = ground arith

views_of-returns : (count : ℕ) (parent : ℤ) (bytes : List ℕ) → views_of count parent bytes ≢ panic
unfolding views_of
views_of-returns zero parent bytes = ground arith
views_of-returns (suc count) parent bytes = elim (Outcome-cases (view_of bytes)) [
  | inl (a, e) ↦ rw (views_of, e) (ground (arith, views_of-returns count parent a.1))
  | inr (inl (x, e)) ↦ rw (views_of, e) (ground arith)
  | inr (inr e) ↦ absurd (view_of-returns bytes e)
]

borrowed_messages_validated-returns :
    (parent : ℤ) (bytes : List ℕ) → borrowed_messages_validated parent bytes ≢ panic
unfolding borrowed_messages_validated
borrowed_messages_validated-returns parent bytes =
    grind (arith, constructor_id-returns, views_of-returns)

Returns-record_received : (id : ℤ) → Returns (record_received id)
unfolding record_received
Returns-record_received id env = elim (Option-cases env.budget.pending_received) [
  | inl nothing ↦ rw (record_received, nothing) (value tt)
  | inr (ids, given) ↦ rw (record_received, given) (value tt)
]

module _ (p : Parsers) (c : Clock) (total : IsTotal p) where
  module _ (on_container : View → ℕ → M (Unit {0}))
      (inside : (v : View) (depth : ℕ) → Returns (on_container v depth)) where
    Returns-handle :
        (kind : Kind) (v : View) (depth : ℕ) (fresh : Bool)
        → Returns (handle p c on_container kind v depth fresh)
    unfolding handle
    Returns-handle result v depth fresh = Returns-handle_rpc_result p c total v.body depth fresh
    Returns-handle acknowledgement v depth fresh = Returns-handle_ack p c total v.body
    Returns-handle notification v depth fresh = Returns-handle_bad_notification p c total v fresh
    Returns-handle future_salt v depth fresh = λ env. failed
    Returns-handle salts v depth fresh = Returns-handle_future_salts p c total v.body fresh
    Returns-handle pong v depth fresh = Returns-handle_pong p c total v.body
    Returns-handle detailed_info v depth fresh = Returns-handle_detailed_info p c total v.body
    Returns-handle new_session v depth fresh = Returns-handle_new_session_created p c total v.body
    Returns-handle container v depth fresh = inside v depth
    Returns-handle copy v depth fresh = λ env. failed
    Returns-handle ignored v depth fresh = λ env. value tt
    Returns-handle other v depth fresh = Returns-handle_update p c total v.body

    Returns-handle_fresh :
        (kind : Kind) (v : View) (depth : ℕ) → Returns (handle_fresh p c on_container kind v depth)
    unfolding handle_fresh
    Returns-handle_fresh kind v depth =
        Returns-bind (handle p c on_container kind v depth true) _
          (Returns-handle kind v depth true) λ _. Returns-record_received v.msg_id

    Returns-handle_stale :
        (kind : Kind) (v : View) (depth : ℕ) → Returns (handle_stale p c on_container kind v depth)
    unfolding handle_stale
    Returns-handle_stale kind v depth =
        Returns-if (survives_stale kind) _ _ (Returns-handle kind v depth false) (λ env. value tt)

    Returns-process_new : (v : View) (depth : ℕ) → Returns (process_new p c on_container v depth)
    unfolding process_new
    Returns-process_new v depth env =
        bind-Yields Any Any (unwrap p c env.budget.work v.body depth env) _
          (returned-Yields (unwrap p c env.budget.work v.body depth env).0 _
            (unwrap_returns p c total.decompress env.budget.work v.body depth env
              (omega arith)).returned)
          (λ out _.
            Returns-bind (if requires_ack v then ack c v.msg_id else done) _
              (Returns-if (requires_ack v) _ _ (Returns-ack c v.msg_id) (λ env. value tt))
              λ _.
                Returns-bind (lift (constructor_id out.0)) _
                  (Returns-lift (constructor_id out.0) (constructor_id-returns out.0))
                  λ id.
                    Returns-if (is_stale v.msg_id env) _ _
                      (Returns-handle_stale (kind_of id) (record v { body = out.0 }) out.1)
                      (Returns-handle_fresh (kind_of id) (record v { body = out.0 }) out.1))

    Returns-process_bounded :
        (in_container : Bool) (v : View) (depth : ℕ)
        → Returns (process_bounded p c on_container in_container v depth)
    unfolding process_bounded
    Returns-process_bounded in_container v depth env =
        Returns-bind (if in_container then done else lift (validate_header v)) _
          (Returns-if in_container _ _ (λ env. value tt)
            (Returns-lift (validate_header v) (validate_header-returns v)))
          (λ _.
            Returns-if (was_received v.msg_id env) _ _
              (Returns-if (requires_ack v) _ _ (Returns-ack c v.msg_id) (λ env. value tt))
              (Returns-process_new v depth))
          env

  Returns-process_all : (views : List View) (depth : ℕ) → Returns (process_all p c views depth)
  unfolding process_all refuse_container
  Returns-process_all [] depth = λ env. value tt
  Returns-process_all (v ∷ vs) depth =
      Returns-bind (process_bounded p c (refuse_container p c) true v depth) _
        (Returns-process_bounded (refuse_container p c) (λ v depth env. failed) true v depth)
        λ _. Returns-process_all vs depth

  Returns-begin_pending : Returns (begin_pending p c)
  unfolding begin_pending
  Returns-begin_pending env = elim (Option-cases env.budget.pending_received) [
    | inl nothing ↦ rw (begin_pending, nothing) (value tt)
    | inr (ids, given) ↦ rw (begin_pending, given) (value tt)
  ]

  Returns-handle_container : (v : View) (depth : ℕ) → Returns (handle_container p c v depth)
  unfolding handle_container
  Returns-handle_container v depth =
      Returns-bind (lift (borrowed_messages_validated v.msg_id v.body)) _
        (Returns-lift (borrowed_messages_validated v.msg_id v.body)
          (borrowed_messages_validated-returns v.msg_id v.body))
        λ views.
          Returns-bind (begin_pending p c) _ Returns-begin_pending
            λ _. Returns-process_all views (depth + 1)

  finish_packet-returns :
      (r : Outcome DeserializeError (Unit {0}) × Env)
      → Yields Any r
      → (finish_packet p c r).0 ≢ panic
  unfolding finish_packet
  finish_packet-returns r (value h) = λ q. cc
  finish_packet-returns r failed = λ q. cc

  process_message-returns : (v : View) (s : Encrypted) → (process_message p c v s).0 ≢ panic
  unfolding process_message
  process_message-returns v s =
      finish_packet-returns (process_bounded p c (handle_container p c) false v 0 _)
        (Returns-process_bounded (handle_container p c) Returns-handle_container false v 0 _)

  -- If the decoders return a value or an error for every body, and decompression gives no more
  -- bytes than its limit, every packet of plaintext is answered by results or by an error, in every
  -- session: the work of the budget is enough rounds to take off any wrappers, and the bytes that
  -- remain never overflow.
  pub process_plaintext-returns :
      (plaintext : List ℕ) (s : Encrypted) → (process_plaintext p c plaintext s).0 ≢ panic
  unfolding process_plaintext
  process_plaintext-returns plaintext s = elim (Outcome-cases (view_of (drop 16 plaintext))) [
    | inl (a, e) ↦ rw (process_plaintext, e) (ground (arith, process_message-returns a.0 s))
    | inr (inl (x, e)) ↦ rw (process_plaintext, e) (ground arith)
    | inr (inr e) ↦ absurd (view_of-returns (drop 16 plaintext) e)
  ]
