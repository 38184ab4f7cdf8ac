-- ===== src/Queue/System.antt =====
-- The senders, the receiving task and the wake-ups between them (grammers-mtsender/src/queue.rs),
-- interleaved in any order.
use grammers.Common.{ℕ, ◌<◌, ◌≡◌, Option, none, some, List, [], ◌∷◌, ◌++◌, ◌==◌, if◌then◌else◌}
use grammers.Queue.{
  State, queued, ready, pending, received, unbounded_channel, send, clone_sender, drop_sender,
  poll_recv, try_recv, close, drop_receiver,
}

-- The receiver's task runs, or waits with the waker that it polled with, or dropped its receiver.
pub data Task : Type 0 where
  running : Task
  parked : ℕ → Task
  gone : Task

-- `in_flight` holds the wakers that were taken and not woken yet.
pub record System {ℓ} (A : Type ℓ) : Type ℓ where
  pub queue : State A
  pub in_flight : List ℕ
  pub task : Task

unfoldable pub taken : Option ℕ → List ℕ → List ℕ
taken none ws = ws
taken (some w) ws = ws ++ (w ∷ [])

unfoldable pub woken : ℕ → Task → Task
woken w running = running
woken w (parked v) = if w == v then running else parked v
woken w gone = gone

-- Wakes every waker in flight.
unfoldable pub deliver : List ℕ → Task → Task
deliver [] t = t
deliver (w ∷ ws) t = deliver ws (woken w t)

abbrev pub start {ℓ} : {A : Type ℓ} → System A
start = record { queue = unbounded_channel; in_flight = []; task = running }

-- The systems that calls lead to, with the items that were queued, those that were received, and
-- those that were dropped with the receiver.
pub data Reaches {ℓ} {A : Type ℓ} : List A → List A → List A → System A → Type ℓ where
  begin : Reaches [] [] [] start
  sends :
      {sent got lost : List A} {q : State A} {ws : List ℕ} {t : Task} (a : A) (w : Option ℕ)
      (q' : State A)
      → Reaches sent got lost (record { queue = q; in_flight = ws; task = t })
      → 0 < q.senders
      → send a q ≡ queued w q'
      → Reaches
          (sent ++ (a ∷ []))
          got
          lost
          (record { queue = q'; in_flight = taken w ws; task = t })
  clones :
      {sent got lost : List A} {q : State A} {ws : List ℕ} {t : Task}
      → Reaches sent got lost (record { queue = q; in_flight = ws; task = t })
      → 0 < q.senders
      → Reaches sent got lost (record { queue = clone_sender q; in_flight = ws; task = t })
  drops_sender :
      {sent got lost : List A} {q : State A} {ws : List ℕ} {t : Task} (w : Option ℕ) (q' : State A)
      → Reaches sent got lost (record { queue = q; in_flight = ws; task = t })
      → 0 < q.senders
      → drop_sender q ≡ (w, q')
      → Reaches sent got lost (record { queue = q'; in_flight = taken w ws; task = t })
  wakes :
      {sent got lost : List A} {q : State A} {t : Task} (before after : List ℕ) (w : ℕ)
      → Reaches sent got lost (record { queue = q; in_flight = before ++ (w ∷ after); task = t })
      → Reaches sent got lost (record { queue = q; in_flight = before ++ after; task = woken w t })
  -- A task may also be polled when it was not woken.
  polled_anyway :
      {sent got lost : List A} {q : State A} {ws : List ℕ} (v : ℕ)
      → Reaches sent got lost (record { queue = q; in_flight = ws; task = parked v })
      → Reaches sent got lost (record { queue = q; in_flight = ws; task = running })
  receives :
      {sent got lost : List A} {q : State A} {ws : List ℕ} (task : ℕ) (a : A) (q' : State A)
      → Reaches sent got lost (record { queue = q; in_flight = ws; task = running })
      → poll_recv task q ≡ (ready (some a), q')
      → Reaches sent (got ++ (a ∷ [])) lost (record { queue = q'; in_flight = ws; task = running })
  ends :
      {sent got lost : List A} {q : State A} {ws : List ℕ} (task : ℕ) (q' : State A)
      → Reaches sent got lost (record { queue = q; in_flight = ws; task = running })
      → poll_recv task q ≡ (ready none, q')
      → Reaches sent got lost (record { queue = q'; in_flight = ws; task = running })
  waits :
      {sent got lost : List A} {q : State A} {ws : List ℕ} (task : ℕ) (q' : State A)
      → Reaches sent got lost (record { queue = q; in_flight = ws; task = running })
      → poll_recv task q ≡ (pending, q')
      → Reaches sent got lost (record { queue = q'; in_flight = ws; task = parked task })
  tries :
      {sent got lost : List A} {q : State A} {ws : List ℕ} (a : A) (q' : State A)
      → Reaches sent got lost (record { queue = q; in_flight = ws; task = running })
      → try_recv q ≡ (received a, q')
      → Reaches sent (got ++ (a ∷ [])) lost (record { queue = q'; in_flight = ws; task = running })
  closes :
      {sent got lost : List A} {q : State A} {ws : List ℕ}
      → Reaches sent got lost (record { queue = q; in_flight = ws; task = running })
      → Reaches sent got lost (record { queue = close q; in_flight = ws; task = running })
  drops_receiver :
      {sent got lost : List A} {q : State A} {ws : List ℕ} (dropped : List A) (q' : State A)
      → Reaches sent got lost (record { queue = q; in_flight = ws; task = running })
      → drop_receiver q ≡ (dropped, q')
      → Reaches sent got (lost ++ dropped) (record { queue = q'; in_flight = ws; task = gone })
