-- ===== src/Queue.antt =====
-- The unbounded queue between the clients and the sender pool (grammers-mtsender/src/queue.rs).
-- A waker is the number of the task that it wakes, so `will_wake` compares numbers. Each operation
-- holds the lock throughout; the waker that it takes is returned, since `wake` runs after it.
pub mod System
pub mod Wakeups
pub mod Delivery
mod Runs
use grammers.Common.{
  ℕ, ◌+◌, ◌-◌, Bool, true, false, ◌||◌, Option, none, some, List, [], ◌∷◌, ◌++◌, if◌then◌else◌,
  ◌==◌,
}

pub record State {ℓ} (A : Type ℓ) : Type ℓ where
  pub items : List A
  pub waker : Option ℕ
  pub senders : ℕ
  pub closed : Bool

-- `Result<(), SendError<T>>`, with the state and the waker to wake.
pub data Sent {ℓ} (A : Type ℓ) : Type ℓ where
  queued : Option ℕ → State A → Sent A
  send_error : A → Sent A

pub data Poll {ℓ} (A : Type ℓ) : Type ℓ where
  ready : Option A → Poll A
  pending : Poll A

pub data TryRecv {ℓ} (A : Type ℓ) : Type ℓ where
  received : A → TryRecv A
  empty disconnected : TryRecv A

-- `waker.as_ref().is_some_and(|waker| waker.will_wake(task))`
unfoldable pub will_wake : Option ℕ → ℕ → Bool
will_wake none task = false
will_wake (some w) task = w == task

module _ {ℓ} {A : Type ℓ} where
  unfoldable pub unbounded_channel : State A
  unbounded_channel = record { items = []; waker = none; senders = 1; closed = false }

  unfoldable pub send : A → State A → Sent A
  send item s =
      if s.closed
      then send_error item
      else queued s.waker (record s { items = s.items ++ (item ∷ []); waker = none })

  unfoldable pub is_closed : State A → Bool
  is_closed s = s.closed

  unfoldable pub clone_sender : State A → State A
  clone_sender s = record s { senders = s.senders + 1 }

  -- The waker to wake, and the state; a sender that is dropped was counted.
  unfoldable pub drop_sender : State A → Option ℕ × State A
  drop_sender s =
      let left = s.senders - 1 in
      if left == 0
      then (s.waker, record s { senders = left; waker = none })
      else (none, record s { senders = left })

  poll_empty : ℕ → State A → Poll A × State A
  poll_empty task s =
      if s.closed || (s.senders == 0)
      then (ready none, s)
      else if will_wake s.waker task
      then (pending, s)
      else (pending, record s { waker = some task })

  unfoldable pub poll_recv : ℕ → State A → Poll A × State A
  unfolding poll_empty
  poll_recv task s = elim s.items [
    | [] ↦ poll_empty task s
    | x ∷ xs ↦ (ready (some x), record s { items = xs })
  ]

  unfoldable pub try_recv : State A → TryRecv A × State A
  try_recv s = elim s.items [
    | [] ↦ (if s.closed || (s.senders == 0) then disconnected else empty, s)
    | x ∷ xs ↦ (received x, record s { items = xs })
  ]

  unfoldable pub close : State A → State A
  close s = record s { closed = true }

  -- The items that are dropped, and the state.
  unfoldable pub drop_receiver : State A → List A × State A
  drop_receiver s = (s.items, record s { items = []; waker = none; closed = true })
