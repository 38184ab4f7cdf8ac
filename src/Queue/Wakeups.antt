-- ===== src/Queue/Wakeups.antt =====
-- Wake-ups in the queue (grammers-mtsender/src/queue.rs).
use grammers.Common.{
  ℕ, subst, ◌<◌, ◌-◌, ◌≡◌, refl, ◌⊎◌, inl, inr, true, false, Option, none, some, List, [], ◌∷◌,
  ◌++◌, arith,
}
use grammers.Queue.{
  State, queued, ready, pending, received, will_wake, send, clone_sender, drop_sender, poll_empty,
  poll_recv, try_recv, close, drop_receiver,
}
use grammers.Queue.System.{
  System, Task, running, parked, gone, taken, woken, deliver, Reaches, begin, sends, clones,
  drops_sender, wakes, polled_anyway, receives, ends, waits, tries, closes, drops_receiver,
}

deliver-append : (us ws : List ℕ) (t : Task) → deliver (us ++ ws) t ≡ deliver ws (deliver us t)
unfolding deliver
deliver-append [] ws t = refl
deliver-append (u ∷ us) ws t = deliver-append us ws (woken u t)

deliver-running : (ws : List ℕ) → deliver ws running ≡ running
unfolding deliver woken
deliver-running [] = refl
deliver-running (w ∷ ws) = deliver-running ws

deliver-taken :
    (w : Option ℕ) (ws : List ℕ) (t : Task)
    → deliver ws t ≡ running
    → deliver (taken w ws) t ≡ running
unfolding taken
deliver-taken none ws t h = h
deliver-taken (some w) ws t h = rw (deliver-append ws (w ∷ []) t, h) (deliver-running (w ∷ []))

woken-cases : (w v : ℕ) → (woken w (parked v) ≡ running) ⊎ (woken w (parked v) ≡ parked v)
unfolding woken
woken-cases w v = ground arith

woken_self : (v : ℕ) → woken v (parked v) ≡ running
unfolding woken
woken_self v = ground arith

-- The waker that registered task `v` wakes it wherever it stands in flight.
deliver-taken_self : (v : ℕ) (ws : List ℕ) → deliver (taken (some v) ws) (parked v) ≡ running
unfolding taken deliver
deliver-taken_self v [] = woken_self v
deliver-taken_self v (w ∷ ws) = elim (woken-cases w v) [
  | inl up ↦ rw (deliver, up) (deliver-running (ws ++ (v ∷ [])))
  | inr still ↦ rw (deliver, still) (deliver-taken_self v ws)
]

deliver-cases :
    (ws : List ℕ) (v : ℕ) → (deliver ws (parked v) ≡ running) ⊎ (deliver ws (parked v) ≡ parked v)
unfolding deliver
deliver-cases [] v = inr refl
deliver-cases (w ∷ ws) v = elim (woken-cases w v) [
  | inl up ↦ rw (deliver, up) (inl (deliver-running ws))
  | inr still ↦ rw (deliver, still) (deliver-cases ws v)
]

-- A waker that left a parked task parked is not missed.
deliver-remove :
    (before after : List ℕ) (w v : ℕ)
    → woken w (parked v) ≡ parked v
    → deliver (before ++ (w ∷ after)) (parked v) ≡ running
    → deliver (before ++ after) (parked v) ≡ running
unfolding deliver
deliver-remove before after w v still h =
    rw (deliver-append before after (parked v)) (elim (deliver-cases before v) [
      | inl up ↦ rw up (deliver-running after)
      | inr same ↦
          rw (same, ← still)
            (subst (λ t. deliver (w ∷ after) t ≡ running) same
              (rw (← deliver-append before (w ∷ after) (parked v)) h))
    ])

module _ {ℓ} {A : Type ℓ} where
  -- Task `v` is the one that the next item or the last sender wakes.
  abbrev pub IsRegistered : ℕ → State A → Type ℓ
  IsRegistered v q = (q.items ≡ []) × (q.closed ≡ false) × (0 < q.senders) × (q.waker ≡ some v)

  -- A waiting task has nothing to receive and is registered, or a wake-up for it is in flight.
  unfoldable pub IsAlert : System A → Type ℓ
  IsAlert s = elim s.task [
    | running ↦ Unit
    | parked v ↦ IsRegistered v s.queue ⊎ (deliver s.in_flight (parked v) ≡ running)
    | gone ↦ (s.queue.closed ≡ true) × (s.queue.items ≡ [])
  ]

  pub send-queued :
      (a : A) (w : Option ℕ) (q q' : State A)
      → send a q ≡ queued w q'
      → (q.closed ≡ false)
        × (w ≡ q.waker)
        × (q' ≡ record q { items = q.items ++ (a ∷ []); waker = none })
  unfolding send
  send-queued a w q q' e = ground arith

  pub drop_sender-cases :
      (w : Option ℕ) (q q' : State A)
      → drop_sender q ≡ (w, q')
      → ((w ≡ q.waker) × (q' ≡ record q { senders = q.senders - 1; waker = none }))
        ⊎ ((w ≡ none) × (0 < q.senders - 1) × (q' ≡ record q { senders = q.senders - 1 }))
  unfolding drop_sender
  drop_sender-cases w q q' e = ground arith

  poll_recv-pending :
      (task : ℕ) (q q' : State A) → poll_recv task q ≡ (pending, q') → IsRegistered task q'
  unfolding poll_recv poll_empty will_wake
  poll_recv-pending task q q' e = ground arith

  pub poll_recv-kept :
      (task : ℕ) (q q' : State A) → poll_recv task q ≡ (pending, q') → q'.items ≡ q.items
  unfolding poll_recv poll_empty
  poll_recv-kept task q q' e = ground arith

  pub poll_recv-received :
      (task : ℕ) (a : A) (q q' : State A)
      → poll_recv task q ≡ (ready (some a), q')
      → (q.items ≡ a ∷ q'.items) × (q'.closed ≡ q.closed)
  unfolding poll_recv poll_empty
  poll_recv-received task a q q' e = ground arith

  pub poll_recv-ended : (task : ℕ) (q q' : State A) → poll_recv task q ≡ (ready none, q') → q' ≡ q
  unfolding poll_recv poll_empty
  poll_recv-ended task q q' e = ground arith

  pub try_recv-received :
      (a : A) (q q' : State A)
      → try_recv q ≡ (received a, q')
      → (q.items ≡ a ∷ q'.items) × (q'.closed ≡ q.closed)
  unfolding try_recv
  try_recv-received a q q' e = ground arith

  IsAlert-send :
      (a : A) (w : Option ℕ) (q q' : State A) (ws : List ℕ) (t : Task)
      → send a q ≡ queued w q'
      → IsAlert (record { queue = q; in_flight = ws; task = t })
      → IsAlert (record { queue = q'; in_flight = taken w ws; task = t })
  unfolding IsAlert
  IsAlert-send a w q q' ws running e h = tt
  IsAlert-send a w q q' ws (parked v) e (inr h) = inr (deliver-taken w ws (parked v) h)
  IsAlert-send a w q q' ws (parked v) e (inl h) =
      rw ((send-queued a w q q' e).1, h.3) (inr (deliver-taken_self v ws))
  IsAlert-send a w q q' ws gone e h = absurd (ground (arith, send-queued a w q q' e))

  IsAlert-drop_sender :
      (w : Option ℕ) (q q' : State A) (ws : List ℕ) (t : Task)
      → drop_sender q ≡ (w, q')
      → IsAlert (record { queue = q; in_flight = ws; task = t })
      → IsAlert (record { queue = q'; in_flight = taken w ws; task = t })
  unfolding IsAlert
  IsAlert-drop_sender w q q' ws running e h = tt
  IsAlert-drop_sender w q q' ws (parked v) e (inr h) = inr (deliver-taken w ws (parked v) h)
  IsAlert-drop_sender w q q' ws (parked v) e (inl h) = elim (drop_sender-cases w q q' e) [
    | inl last ↦ rw (last.0, h.3) (inr (deliver-taken_self v ws))
    | inr more ↦ inl (rw more.2 (h.0, h.1, more.1, h.3))
  ]
  IsAlert-drop_sender w q q' ws gone e h = elim (drop_sender-cases w q q' e) [
    | inl last ↦ rw last.1 h
    | inr more ↦ rw more.2 h
  ]

  IsAlert-wake :
      (q : State A) (before after : List ℕ) (w : ℕ) (t : Task)
      → IsAlert (record { queue = q; in_flight = before ++ (w ∷ after); task = t })
      → IsAlert (record { queue = q; in_flight = before ++ after; task = woken w t })
  unfolding IsAlert woken
  IsAlert-wake q before after w running h = tt
  IsAlert-wake q before after w (parked v) h = elim (woken-cases w v) [
    | inl up ↦ rw up tt
    | inr still ↦
        rw still (elim h [ inl r ↦ inl r | inr d ↦ inr (deliver-remove before after w v still d) ])
  ]
  IsAlert-wake q before after w gone h = h

  -- In every order of the steps of senders, of the receiving task and of the delivery of wake-ups,
  -- a task that sleeps either has its waker registered with an empty, open queue that has senders,
  -- or has a wake-up on its way; a task that is gone has left the queue closed and empty.
  pub Reaches-IsAlert :
      {sent got lost : List A} (s : System A) → Reaches sent got lost s → IsAlert s
  unfolding IsAlert clone_sender close drop_receiver
  Reaches-IsAlert s begin = tt
  Reaches-IsAlert s (sends a w q' r more e) = IsAlert-send a w _ q' _ _ e (Reaches-IsAlert _ r)
  Reaches-IsAlert s (clones {t = running} r more) = tt
  Reaches-IsAlert s (clones {t = parked v} r more) = elim (Reaches-IsAlert _ r) [
    | inl h ↦ inl (h.0, h.1, omega arith, h.3)
    | inr h ↦ inr h
  ]
  Reaches-IsAlert s (clones {t = gone} r more) = Reaches-IsAlert _ r
  Reaches-IsAlert s (drops_sender w q' r more e) =
      IsAlert-drop_sender w _ q' _ _ e (Reaches-IsAlert _ r)
  Reaches-IsAlert s (wakes before after w r) = IsAlert-wake _ before after w _ (Reaches-IsAlert _ r)
  Reaches-IsAlert s (polled_anyway v r) = tt
  Reaches-IsAlert s (receives task a q' r e) = tt
  Reaches-IsAlert s (ends task q' r e) = tt
  Reaches-IsAlert s (waits task q' r e) = inl (poll_recv-pending task _ q' e)
  Reaches-IsAlert s (tries a q' r e) = tt
  Reaches-IsAlert s (closes r) = tt
  Reaches-IsAlert s (drops_receiver dropped q' r e) = ground arith

  IsAlert-awake :
      (q : State A) (ws : List ℕ) (t : Task) (a : A) (rest : List A)
      → IsAlert (record { queue = q; in_flight = ws; task = t })
      → q.items ≡ a ∷ rest
      → deliver ws t ≡ running
  unfolding IsAlert
  IsAlert-awake q ws running a rest h e = deliver-running ws
  IsAlert-awake q ws (parked v) a rest (inl h) e = cc
  IsAlert-awake q ws (parked v) a rest (inr h) e = h
  IsAlert-awake q ws gone a rest h e = cc

  -- Where an item is queued in a reachable state, the wake-ups on their way leave the receiving
  -- task running, and its poll then returns the first item.
  pub item_is_received :
      {sent got lost : List A} (s : System A) (a : A) (rest : List A) (task : ℕ)
      → Reaches sent got lost s
      → s.queue.items ≡ a ∷ rest
      → (deliver s.in_flight s.task ≡ running)
        × (poll_recv task s.queue ≡ (ready (some a), record s.queue { items = rest }))
  unfolding poll_recv
  item_is_received s a rest task r e =
      (IsAlert-awake s.queue s.in_flight s.task a rest (Reaches-IsAlert s r) e, ground arith)

  IsAlert-ends :
      (q : State A) (ws : List ℕ) (t : Task)
      → IsAlert (record { queue = q; in_flight = ws; task = t })
      → q.senders ≡ 0
      → (deliver ws t ≡ running) ⊎ (t ≡ gone)
  unfolding IsAlert
  IsAlert-ends q ws running h e = inl (deliver-running ws)
  IsAlert-ends q ws (parked v) (inl h) e = absurd (omega (arith, h.2))
  IsAlert-ends q ws (parked v) (inr h) e = inl h
  IsAlert-ends q ws gone h e = inr refl

  -- Where the queue of a reachable state is empty and has no senders, the wake-ups on their way
  -- leave the receiving task running unless it is gone, and a poll then returns the end.
  pub end_is_received :
      {sent got lost : List A} (s : System A) (task : ℕ)
      → Reaches sent got lost s
      → s.queue.items ≡ []
      → s.queue.senders ≡ 0
      → ((deliver s.in_flight s.task ≡ running) ⊎ (s.task ≡ gone))
        × (poll_recv task s.queue ≡ (ready none, s.queue))
  unfolding poll_recv poll_empty
  end_is_received s task r e none_left =
      (IsAlert-ends s.queue s.in_flight s.task (Reaches-IsAlert s r) none_left, ground arith)
