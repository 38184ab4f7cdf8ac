-- ===== src/Queue/Delivery.antt =====
-- The order in which the queue hands items over (grammers-mtsender/src/queue.rs).
use grammers.Common.{
  ℕ, ◌≡◌, refl, ◌∙◌, ◌⊎◌, inl, inr, Option, List, [], ◌∷◌, ◌++◌, append_assoc, append-nil, arith,
}
use grammers.Queue.{State, queued, unbounded_channel, send, clone_sender, close, drop_receiver}
use grammers.Queue.System.{
  System, Task, running, parked, gone, taken, woken, Reaches, begin, sends, clones, drops_sender,
  wakes, polled_anyway, receives, ends, waits, tries, closes, drops_receiver,
}
use grammers.Queue.Wakeups.{
  send-queued, drop_sender-cases, poll_recv-kept, poll_recv-received, poll_recv-ended,
  try_recv-received,
}

module _ {ℓ} {A : Type ℓ} where
  -- What was queued is what was received, what was dropped and what is queued still.
  abbrev Delivers : List A → List A → List A → System A → Type ℓ
  Delivers sent got lost s =
      (sent ≡ got ++ (lost ++ s.queue.items)) × ((lost ≡ []) ⊎ (s.task ≡ gone))

  append_shift :
      (got : List A) (a : A) (rest : List A) → got ++ (a ∷ rest) ≡ (got ++ (a ∷ [])) ++ rest
  append_shift got a rest = rw (append_assoc got (a ∷ []) rest) refl

  Delivers-send :
      (a : A) (w : Option ℕ) (q q' : State A) (sent got lost : List A) (ws us : List ℕ) (t : Task)
      → send a q ≡ queued w q'
      → Delivers sent got lost (record { queue = q; in_flight = ws; task = t })
      → Delivers (sent ++ (a ∷ [])) got lost (record { queue = q'; in_flight = us; task = t })
  Delivers-send a w q q' sent got lost ws us t e h =
      rw
        (
          (send-queued a w q q' e).2,
          h.0,
          append_assoc got (lost ++ q.items) (a ∷ []),
          append_assoc lost q.items (a ∷ []),
        )
        (refl, h.1)

  Delivers-receive :
      (a : A) (q q' : State A) (sent got lost : List A) (ws : List ℕ)
      → q.items ≡ a ∷ q'.items
      → Delivers sent got lost (record { queue = q; in_flight = ws; task = running })
      → Delivers sent (got ++ (a ∷ [])) lost (record { queue = q'; in_flight = ws; task = running })
  Delivers-receive a q q' sent got lost ws e (h, inl l) =
      rw (l, ← append_shift got a q'.items) (h ∙ rw (l, e) refl, inl refl)
  Delivers-receive a q q' sent got lost ws e (h, inr g) = absurd cc

  drop_receiver-items :
      (dropped : List A) (q q' : State A)
      → drop_receiver q ≡ (dropped, q')
      → (dropped ≡ q.items) × (q'.items ≡ [])
  unfolding drop_receiver
  drop_receiver-items dropped q q' e = ground arith

  Delivers-drop :
      (dropped : List A) (q q' : State A) (sent got lost : List A) (ws : List ℕ)
      → drop_receiver q ≡ (dropped, q')
      → Delivers sent got lost (record { queue = q; in_flight = ws; task = running })
      → Delivers sent got (lost ++ dropped) (record { queue = q'; in_flight = ws; task = gone })
  Delivers-drop dropped q q' sent got lost ws e (h, inl l) =
      let items = drop_receiver-items dropped q q' e in
      rw (items.1, append-nil (lost ++ dropped), items.0) (h, inr refl)
  Delivers-drop dropped q q' sent got lost ws e (h, inr g) = absurd cc

  -- In every order of the steps, the items that were queued are those that were received, in the
  -- same order, then those that a dropped receiver lost, then those that are still queued; none are
  -- lost while the receiver lives.
  pub Reaches-delivers :
      {sent got lost : List A} (s : System A)
      → Reaches sent got lost s
      → (sent ≡ got ++ (lost ++ s.queue.items)) × ((lost ≡ []) ⊎ (s.task ≡ gone))
  unfolding unbounded_channel clone_sender close drop_receiver woken
  Reaches-delivers s begin = (refl, inl refl)
  Reaches-delivers s (sends {sent} {got} {lost} {q} {ws} {t} a w q' r more e) =
      Delivers-send a w q q' sent got lost ws (taken w ws) t e (Reaches-delivers _ r)
  Reaches-delivers s (clones r more) = Reaches-delivers _ r
  Reaches-delivers s (drops_sender {q = q} w q' r more e) = elim (drop_sender-cases w q q' e) [
    | inl last ↦ rw last.1 (Reaches-delivers _ r)
    | inr left ↦ rw left.2 (Reaches-delivers _ r)
  ]
  Reaches-delivers s (wakes {t = running} before after w r) = Reaches-delivers _ r
  Reaches-delivers s (wakes {t = parked v} before after w r) =
      let h = Reaches-delivers _ r in (h.0, inl (ground (arith, h.1)))
  Reaches-delivers s (wakes {t = gone} before after w r) = Reaches-delivers _ r
  Reaches-delivers s (polled_anyway v r) =
      let h = Reaches-delivers _ r in (h.0, inl (ground (arith, h.1)))
  Reaches-delivers s (receives {sent} {got} {lost} {q} {ws} task a q' r e) =
      Delivers-receive a q q' sent got lost ws (poll_recv-received task a q q' e).0
        (Reaches-delivers _ r)
  Reaches-delivers s (ends {q = q} task q' r e) =
      rw (poll_recv-ended task q q' e) (Reaches-delivers _ r)
  Reaches-delivers s (waits {q = q} task q' r e) =
      let h = Reaches-delivers _ r in
      rw (poll_recv-kept task q q' e) (h.0, inl (ground (arith, h.1)))
  Reaches-delivers s (tries {sent} {got} {lost} {q} {ws} a q' r e) =
      Delivers-receive a q q' sent got lost ws (try_recv-received a q q' e).0 (Reaches-delivers _ r)
  Reaches-delivers s (closes r) = Reaches-delivers _ r
  Reaches-delivers s (drops_receiver {sent} {got} {lost} {q} {ws} dropped q' r e) =
      Delivers-drop dropped q q' sent got lost ws e (Reaches-delivers _ r)
