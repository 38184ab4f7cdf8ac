-- ===== src/MessageBox/Released/Safe.antt =====
-- The invariant and the panics of releasing held updates (mod.rs).
use grammers.Common.{
  ℕ, ◌≤◌, List, [], ◌∷◌, Bool, true, false, Option, none, some, if◌then◌else◌, length, arith,
}
use grammers.Common.Int.{ℤ}
use grammers.Common.Outcome.{Outcome, ok, err, panic}
use grammers.MessageBox.Defs.{Update, LiveEntry, MessageBoxes}
use grammers.MessageBox.Invariant.{IsValid}
use grammers.MessageBox.Process.{Processed, process_updates_inner}
use grammers.MessageBox.Process.Safety.{IsSafe, process_updates_inner-IsSafe}
use grammers.MessageBox.Difference.{unnumbered, UpdateAndPeers}
use grammers.MessageBox.Difference.Safe.{Survives}
use grammers.MessageBox.Released.{still_held, released, taken, ok_or_none, take_released_updates}

still_held-length :
    (es : List LiveEntry) (hs : List (ℤ × Update)) → length (still_held es hs) ≤ length hs
unfolding still_held
still_held-length es [] = omega arith
still_held-length es ((id, u) ∷ hs) = ground (arith, still_held-length es hs)

taken-IsValid : (b : MessageBoxes) → IsValid b → IsValid (taken b)
taken-IsValid b v = record {
  sorted = v.sorted;
  queued = v.queued;
  recovery = v.recovery;
  ready_count = v.ready_count;
  gaps = v.gaps;
  held_bound = omega (arith, v.held_bound, still_held-length b.entries b.held_updates);
}

abbrev pub of_taken : Option UpdateAndPeers × MessageBoxes → MessageBoxes
of_taken x = x.1

ok_or_none-Survives :
    (m : Outcome MessageBoxes Processed)
    → IsSafe (λ (x : Processed). x.1) m
    → Survives of_taken (ok_or_none m)
ok_or_none-Survives (ok (result, b)) h = h
ok_or_none-Survives (err b) h = h
ok_or_none-Survives panic h = absurd h

released-Survives :
    (ready : Bool) (us : List Update) (now : ℕ) (b : MessageBoxes)
    → IsValid b
    → Survives of_taken (
        if ready
        then elim us [
          | [] ↦ ok (none, taken b)
          | u ∷ us ↦
              ok_or_none (process_updates_inner (some (unnumbered (u ∷ us) 0)) [] now (taken b))
        ]
        else ok (none, b))
released-Survives false us now b v = v
released-Survives true [] now b v = taken-IsValid b v
released-Survives true (u ∷ us) now b v =
    ok_or_none-Survives (process_updates_inner (some (unnumbered (u ∷ us) 0)) [] now (taken b)) (
      process_updates_inner-IsSafe (some (unnumbered (u ∷ us) 0)) [] now (taken b)
        (taken-IsValid b v))

-- On a valid message box, releasing the held updates does not panic and leaves a valid message box.
pub take_released_updates-Survives :
    (now : ℕ) (b : MessageBoxes) → IsValid b → Survives of_taken (take_released_updates now b)
unfolding take_released_updates
take_released_updates-Survives now b v =
    released-Survives b.held_release_ready (released b.entries b.held_updates) now b v
