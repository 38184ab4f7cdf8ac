-- ===== src/Queue/Runs.antt =====
-- Runs of the queue (grammers-mtsender/src/queue.rs).
use grammers.Common.{ℕ, ◌≡◌, refl, ◌⊎◌, false, none, some, List, [], ◌∷◌, ◌++◌, arith}
use grammers.Queue.{
  State, ready, send, drop_sender, poll_recv, poll_empty, will_wake, unbounded_channel,
}
use grammers.Queue.System.{
  System, running, parked, gone, taken, deliver, Reaches, begin, sends, drops_sender, waits,
}
use grammers.Queue.Wakeups.{IsAlert, Reaches-IsAlert, item_is_received, end_is_received}
use grammers.Queue.Delivery.{Reaches-delivers}

abbrev idle : State ℕ
idle = record { items = []; waker = none; senders = 1; closed = false }

abbrev waiting : State ℕ
waiting = record { items = []; waker = some 4; senders = 1; closed = false }

abbrev filled : State ℕ
filled = record { items = 9 ∷ []; waker = none; senders = 1; closed = false }

-- Task 4 waits, and item 9 is queued.
abbrev sent_while_parked : System ℕ
sent_while_parked = record { queue = filled; in_flight = 4 ∷ []; task = parked 4 }

parked_run : Reaches {A = ℕ} [] [] [] (record { queue = waiting; in_flight = []; task = parked 4 })
unfolding poll_recv poll_empty will_wake unbounded_channel
parked_run = waits {q = idle} 4 waiting begin refl

sent_run : Reaches {A = ℕ} (9 ∷ []) [] [] sent_while_parked
unfolding send taken
sent_run = sends {q = waiting} 9 (some 4) filled parked_run (omega arith) refl

ended_run : Reaches {A = ℕ} [] [] [] (record {
  queue = record waiting { senders = 0; waker = none };
  in_flight = 4 ∷ [];
  task = parked 4;
})
unfolding drop_sender taken
ended_run = drops_sender {q = waiting} (some 4) _ parked_run (omega arith) refl

Reaches-IsAlert_example : IsAlert sent_while_parked
Reaches-IsAlert_example = Reaches-IsAlert sent_while_parked sent_run

item_is_received_example :
    (deliver (4 ∷ []) (parked 4) ≡ running) × (poll_recv 7 filled ≡ (ready (some 9), idle))
item_is_received_example = item_is_received sent_while_parked 9 [] 7 sent_run refl

end_is_received_example :
    ((deliver (4 ∷ []) (parked 4) ≡ running) ⊎ (parked 4 ≡ gone))
    × (poll_recv 7 (record waiting { senders = 0; waker = none })
        ≡ (ready none, record waiting { senders = 0; waker = none }))
end_is_received_example = end_is_received _ 7 ended_run refl refl

Reaches-delivers_example :
    (◌≡◌ {A = List ℕ} (9 ∷ []) ([] ++ ([] ++ (9 ∷ []))))
    × ((◌≡◌ {A = List ℕ} [] []) ⊎ (parked 4 ≡ gone))
Reaches-delivers_example = Reaches-delivers sent_while_parked sent_run
