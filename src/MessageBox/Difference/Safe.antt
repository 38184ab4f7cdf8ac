-- ===== src/MessageBox/Difference/Safe.antt =====
-- The invariant and the panics of applying a difference of the account (mod.rs).
use grammers.Common.{
  ℕ, ◌≡◌, refl, List, [], ◌∷◌, Bool, true, false, if◌then◌else◌, arith, inl, inr, Bool-cases,
  Option-cases,
}
use grammers.Common.Int.{ℤ}
use grammers.Common.Outcome.{Outcome, ok, err, panic, ◌>>=◌}
use grammers.MessageBox.Defs.{Key, common, secondary, Update, MessageBoxes, Gap, LiveEntry, State}
use grammers.MessageBox.Entries.{entry, set_pts, quiet, next_updates_deadline}
use grammers.MessageBox.Invariant.{IsValid, map-GapOk, keep-IsValid}
use grammers.MessageBox.Invariant.Recovery.{try_end_get_diff-ok}
use grammers.MessageBox.Invariant.Account.{account-is_clear, set-IsValid}
use grammers.MessageBox.Process.{Processed}
use grammers.MessageBox.Difference.{
  Difference, empty, full, slice, too_long, FullDifference, set_position, with_state,
  retain_valid_updates, retain_wanted, apply_difference_type, apply_part, end_account,
  apply_difference, try_apply_difference, account_recovering, valid_difference,
}
use grammers.MessageBox.Difference.Accepted.{
  process_unnumbered-ok, retain_valid_updates-All, retain_wanted-All,
}

-- The call does not panic, and where it returns a result it leaves a valid message box.
abbrev pub Survives : {A : Type 0} → (A → MessageBoxes) → Outcome Gap A → Type 0
Survives boxes (ok a) = IsValid (boxes a)
Survives boxes (err e) = Unit {0}
Survives boxes panic = ⊥

abbrev pub boxes_of : Processed → MessageBoxes
boxes_of x = x.1

pub Survives-bind :
    {A B : Type 0} (of_a : A → MessageBoxes) (of_b : B → MessageBoxes) (m : Outcome Gap A)
    (f : A → Outcome Gap B)
    → Survives of_a m
    → ((a : A) → IsValid (of_a a) → Survives of_b (f a))
    → Survives of_b (m >>= f)
Survives-bind of_a of_b (ok a) f h k = k a h
Survives-bind of_a of_b (err e) f h k = tt
Survives-bind of_a of_b panic f h k = absurd h

pub set_position-IsValid :
    (key : Key) (pts : ℤ) (now : ℕ) (b : MessageBoxes)
    → IsValid b
    → IsValid (set_position key pts now b)
unfolding set_pts
set_position-IsValid key pts now b v = elim (Option-cases (entry key b.entries)) [
  | inl absent ↦
      set-IsValid (quiet key pts (next_updates_deadline now)) b (set_position key pts now b) v
        (ground (arith, v.queued key)) refl refl tt (rw (absent, set_pts) refl) refl refl
        v.held_bound
  | inr (e, found) ↦
      let f : LiveEntry → LiveEntry = λ e. record e { pts = pts } in
      keep-IsValid key f b (set_position key pts now b) (λ x h. h) (λ o. ground arith)
        (λ h. ground arith) (λ o h. map-GapOk f o (λ x. refl) h) v (rw (found, set_pts) refl) refl
        refl v.held_bound
]

renumbered-IsValid :
    (date seq : ℤ) (b : MessageBoxes) → IsValid b → IsValid (record b { date = date; seq = seq })
renumbered-IsValid date seq b v = record {
  sorted = v.sorted;
  queued = v.queued;
  recovery = v.recovery;
  ready_count = v.ready_count;
  gaps = v.gaps;
  held_bound = v.held_bound;
}

apply_difference_type-Survives :
    (d : FullDifference) (now : ℕ) (b : MessageBoxes)
    → IsValid b
    → Survives boxes_of (apply_difference_type d now b)
unfolding apply_difference_type
apply_difference_type-Survives d now b v =
    let s = d.state in
    let b0 : MessageBoxes = record b { date = s.date; seq = s.seq } in
    let b1 = with_state s now b in
    let v1 : IsValid b1 =
      set_position-IsValid secondary s.qts now (set_position common s.pts now b0)
        (set_position-IsValid common s.pts now b0 (renumbered-IsValid s.date s.seq b v)) in
    let us = retain_wanted b1.entries (retain_valid_updates d.other_updates) in
    let (x, accepted, v2) = process_unnumbered-ok us d.peers (common ∷ secondary ∷ []) now b1 v1 (
      retain_wanted-All b1.entries (retain_valid_updates d.other_updates)
        (retain_valid_updates-All d.other_updates)) in
    rw accepted v2

abbrev of_part : Bool × Processed → MessageBoxes
of_part x = x.1.1

apply_part-Survives :
    (d : Difference) (now : ℕ) (b : MessageBoxes)
    → IsValid b
    → Survives of_part (apply_part d now b)
unfolding apply_part
apply_part-Survives (empty date seq) now b v = renumbered-IsValid date seq b v
apply_part-Survives (too_long pts) now b v = set_position-IsValid common pts now b v
apply_part-Survives (full d) now b v =
    Survives-bind boxes_of of_part (apply_difference_type d now b) (λ r. ok (true, r))
      (apply_difference_type-Survives d now b v) (λ r h. h)
apply_part-Survives (slice d) now b v =
    Survives-bind boxes_of of_part (apply_difference_type d now b) (λ r. ok (false, r))
      (apply_difference_type-Survives d now b v) (λ r h. h)

end_account-ok :
    (now : ℕ) (b : MessageBoxes)
    → IsValid b
    → (b' : MessageBoxes) × (end_account now b ≡ ok b') × IsValid b'
unfolding end_account
end_account-ok now b v =
    let (b1, first, v1, idle1, off1) =
      try_end_get_diff-ok common now b v (account-is_clear common b v refl) in
    let (b2, second, v2, idle2, off2) =
      try_end_get_diff-ok secondary now b1 v1 (account-is_clear secondary b1 v1 refl) in
    (b2, rw first second, v2)

finish_part-Survives :
    (last : Bool) (result : List (Update × State) × ℕ) (now : ℕ) (b : MessageBoxes)
    → IsValid b
    → Survives boxes_of
        (if last then (end_account now b >>= λ b2. ok (result, b2)) else ok (result, b))
finish_part-Survives true result now b v =
    let (b1, ended, v1) = end_account-ok now b v in rw ended v1
finish_part-Survives false result now b v = v

-- Applying any difference while the account is in recovery.
pub apply_difference-Survives :
    (d : Difference) (now : ℕ) (b : MessageBoxes)
    → IsValid b
    → account_recovering b ≡ true
    → Survives boxes_of (apply_difference d now b)
unfolding apply_difference
apply_difference-Survives d now b v here = rw here (
    Survives-bind of_part boxes_of (apply_part d now b)
      (λ part.
        let (last, (result, b1)) = part in
        if last then (end_account now b1 >>= λ b2. ok (result, b2)) else ok (result, b1))
      (apply_part-Survives d now b v)
      (λ part h. finish_part-Survives part.0 part.1.0 now part.1.1 h))

-- On a valid message box, the checked application of any difference of the account does not panic,
-- and where it returns updates it leaves a valid message box.
pub try_apply_difference-Survives :
    (d : Difference) (now : ℕ) (b : MessageBoxes)
    → IsValid b
    → Survives boxes_of (try_apply_difference d now b)
unfolding try_apply_difference
try_apply_difference-Survives d now b v = elim (Bool-cases (account_recovering b)) [
  | inr idle ↦ rw idle tt
  | inl here ↦ rw here (elim (Bool-cases (valid_difference d)) [
    | inl good ↦ rw good (apply_difference-Survives d now b v here)
    | inr bad ↦ rw bad tt
  ])
]
