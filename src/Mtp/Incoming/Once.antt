-- ===== src/Mtp/Incoming/Once.antt =====
-- The history of identifiers across messages and packets (grammers-mtproto/src/mtp/encrypted.rs,
-- `process_bounded`, `process_plaintext`, `remember_received`).
use grammers.Common.{
  ℕ, zero, suc, ◌+◌, ◌≡◌, ◌≢◌, refl, ◌⊎◌, inl, inr, Bool, true, false, Option, none, some, List,
  Bool-cases, arith,
}
use grammers.Common.Int.{ℤ, ltb_ℤ}
use grammers.Common.I64.{IsI64}
use grammers.Mtp.Replay.{remember, contains, max_ℤ}
use grammers.Mtp.Replay.Shape.{IsValid}
use grammers.Mtp.Replay.History.{Covers, remember-Covers, remember-contains}
use grammers.Mtp.Session.{Encrypted, Clock}
use grammers.Mtp.Incoming.{View, M, lift, visit, decompress_body, constructor_id}
use grammers.Mtp.Incoming.Handlers.{Parsers, is_gzip}
use grammers.Mtp.Incoming.Process.{
  Kind, result, acknowledgement, notification, future_salt, salts, pong, detailed_info, new_session,
  container, copy, ignored, other, raise_floor, remember_received, unwrap, handle,
}
use grammers.Mtp.Incoming.Untouched.{
  IsSame_refl, Keeps, Keeps-bind, Keeps-lift, Keeps-if, Keeps-done, Keeps-visit,
  Keeps-decompress_body, Keeps-handle_future_salts, Keeps-handle_rpc_result,
  Keeps-handle_bad_notification, Keeps-handle_detailed_info, Keeps-handle_pong,
  Keeps-handle_new_session_created, Keeps-handle_ack, Keeps-handle_update,
}

-- An identifier that is in the history or at most at its floor.
abbrev pub Seen : ℤ → Encrypted → Type 0
Seen id s = (contains id s.received_ids ≡ true) ⊎ (ltb_ℤ s.received_floor id ≡ false)

raise_floor_above :
    (evicted : Option ℤ) (floor y : ℤ)
    → ltb_ℤ floor y ≡ false
    → ltb_ℤ (raise_floor evicted floor) y ≡ false
unfolding raise_floor max_ℤ
raise_floor_above none floor y h = h
raise_floor_above (some e) floor y h = elim (Bool-cases (ltb_ℤ e floor)) [
  | inl lower ↦ rw lower h
  | inr higher ↦ rw higher (ground arith)
]

raise_floor-Covers :
    (evicted : Option ℤ) (floor y : ℤ)
    → Covers evicted y
    → ltb_ℤ (raise_floor evicted floor) y ≡ false
unfolding raise_floor max_ℤ
raise_floor-Covers evicted floor y (e, same, h) = rw same (elim (Bool-cases (ltb_ℤ e floor)) [
  | inl lower ↦ rw lower (ground arith)
  | inr higher ↦ rw higher h
])

-- With a valid replay history, recording an identifier leaves every identifier seen that was in the
-- history or at most at its floor.
pub remember_received_kept :
    (id y : ℤ) (s : Encrypted)
    → IsI64 id
    → IsI64 y
    → IsValid s.received_ids
    → Seen y s
    → Seen y (remember_received id s)
unfolding remember_received
remember_received_kept id y s hid hy h (inr low) =
    inr (raise_floor_above (remember id s.received_ids).0 s.received_floor y low)
remember_received_kept id y s hid hy h (inl held) =
    elim (remember-Covers id s.received_ids hid h y hy held) [
      | inl still ↦ inl still
      | inr left ↦ inr (raise_floor-Covers (remember id s.received_ids).0 s.received_floor y left)
    ]

-- The recorded identifier is seen.
pub remember_received-Seen :
    (id : ℤ) (s : Encrypted) → IsI64 id → IsValid s.received_ids → Seen id (remember_received id s)
unfolding remember_received
remember_received-Seen id s hid h = elim (remember-contains id s.received_ids hid h) [
  | inl held ↦ inl held
  | inr left ↦ inr (
      raise_floor-Covers (remember id s.received_ids).0 s.received_floor id
        (id, left, ground arith))
]

module _ (p : Parsers) (c : Clock) where
  pub Keeps-unwrap : (work : ℕ) (body : List ℕ) (depth : ℕ) → Keeps (unwrap p c work body depth)
  unfolding unwrap
  Keeps-unwrap zero body depth = Keeps-bind (visit depth) _ (Keeps-visit depth) λ _.
      Keeps-bind (lift (constructor_id body)) _ (Keeps-lift (constructor_id body))
        λ _ env. IsSame_refl env
  Keeps-unwrap (suc left) body depth = Keeps-bind (visit depth) _ (Keeps-visit depth) λ _.
      Keeps-bind (lift (constructor_id body)) _ (Keeps-lift (constructor_id body)) λ _.
        Keeps-if (is_gzip body) _ _
          (Keeps-bind (decompress_body p.decompress body (depth + 1)) _
            (Keeps-decompress_body p.decompress body (depth + 1))
            λ inner. Keeps-unwrap left inner (depth + 1))
          (λ env. IsSame_refl env)

  -- Every kind of message but a container leaves the history alone.
  pub Keeps-handle :
      (on_container : View → ℕ → M (Unit {0})) (kind : Kind) (v : View) (depth : ℕ) (fresh : Bool)
      → kind ≢ container
      → Keeps (handle p c on_container kind v depth fresh)
  unfolding handle
  Keeps-handle on_container result v depth fresh h = Keeps-handle_rpc_result p c v.body depth fresh
  Keeps-handle on_container acknowledgement v depth fresh h = Keeps-handle_ack p c v.body
  Keeps-handle on_container notification v depth fresh h = Keeps-handle_bad_notification p c v fresh
  Keeps-handle on_container future_salt v depth fresh h = λ env. IsSame_refl env
  Keeps-handle on_container salts v depth fresh h = Keeps-handle_future_salts p c v.body fresh
  Keeps-handle on_container pong v depth fresh h = Keeps-handle_pong p c v.body
  Keeps-handle on_container detailed_info v depth fresh h = Keeps-handle_detailed_info p c v.body
  Keeps-handle on_container new_session v depth fresh h =
      Keeps-handle_new_session_created p c v.body
  Keeps-handle on_container container v depth fresh h = absurd (h refl)
  Keeps-handle on_container copy v depth fresh h = λ env. IsSame_refl env
  Keeps-handle on_container ignored v depth fresh h = Keeps-done
  Keeps-handle on_container other v depth fresh h = Keeps-handle_update p c v.body
