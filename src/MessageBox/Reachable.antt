-- ===== src/MessageBox/Reachable.antt =====
-- The message box as a state machine (mod.rs): the calls of its public functions, and the states
-- that they lead to.
use grammers.Common.{
  ℕ, ◌≡◌, refl, sym, subst, Bool, Option, none, some, arith, inl, inr, Bool-cases, ◌∙◌, [],
}
use grammers.Common.Int.{ℤ}
use grammers.Common.Outcome.{Outcome, ok, err}
use grammers.MessageBox.Defs.{
  common, secondary, channel, MessageBoxes, LiveEntry, UpdatesState, Gap,
}
use grammers.MessageBox.Entries.{entry, update_entry}
use grammers.MessageBox.Recovery.{new, check_deadlines}
use grammers.MessageBox.Channels.{
  channel_in_diff, defer_channel_difference, end_channel_difference, PrematureEndReason,
  discard_account_state, set_state, try_set_channel_state, retry_channel_without_delay,
  try_exhaust_channel_grace, channel_difference_accessible, is_exhausted, remove_channel,
}
use grammers.MessageBox.Load.{load}
use grammers.MessageBox.Load.Valid.{load-IsValid}
use grammers.MessageBox.Process.{Combined, Processed, process_updates}
use grammers.MessageBox.Process.Safety.{IsSafe, process_updates_inner-IsSafe}
use grammers.MessageBox.Difference.{
  Difference, ChannelDifference, UpdateAndPeers, account_recovering, apply_difference,
  try_apply_difference,
}
use grammers.MessageBox.Difference.Safe.{
  Survives, boxes_of, apply_difference-Survives, try_apply_difference-Survives,
}
use grammers.MessageBox.Released.{
  take_released_updates, apply_channel_difference, try_apply_channel_difference,
}
use grammers.MessageBox.Released.Safe.{of_taken, take_released_updates-Survives}
use grammers.MessageBox.Released.Page.{
  apply_channel_difference-IsValid, try_apply_channel_difference-Survives,
}
use grammers.MessageBox.Invariant.{IsValid, map-GapOk, keep-IsValid}
use grammers.MessageBox.Invariant.Recovery.{new-IsValid}
use grammers.MessageBox.Invariant.Channels.{
  Keeps, defer_channel_difference-Keeps, end_channel_difference-Keeps,
}
use grammers.MessageBox.Invariant.Account.{
  discard_account_state-Keeps, set_state-Keeps, try_set_channel_state-IsValid,
  retry_channel_without_delay-IsValid,
}
use grammers.MessageBox.Invariant.Deadlines.{check_deadlines-IsValid}

-- A call that returns. Calls for a channel need one to be queued, and the account's state is set
-- while neither of its positions is known, as the functions document.
pub data Step (b : MessageBoxes) : MessageBoxes → Type 0 where
  process :
      (m : Option Combined) (now : ℕ) (r : UpdateAndPeers) (b' : MessageBoxes)
      → process_updates m now b ≡ ok (r, b')
      → Step b b'
  refuse :
      (m : Option Combined) (now : ℕ) (b' : MessageBoxes)
      → process_updates m now b ≡ err b'
      → Step b b'
  take_released :
      (now : ℕ) (r : Option UpdateAndPeers) (b' : MessageBoxes)
      → take_released_updates now b ≡ ok (r, b')
      → Step b b'
  apply_account :
      (d : Difference) (now : ℕ) (r : UpdateAndPeers) (b' : MessageBoxes)
      → try_apply_difference d now b ≡ ok (r, b')
      → Step b b'
  apply_channel :
      (d : ChannelDifference) (now : ℕ) (r : UpdateAndPeers) (b' : MessageBoxes)
      → try_apply_channel_difference d now b ≡ ok (r, b')
      → Step b b'
  apply_account_unchecked :
      (d : Difference) (now : ℕ) (r : UpdateAndPeers) (b' : MessageBoxes)
      → apply_difference d now b ≡ ok (r, b')
      → Step b b'
  apply_channel_unchecked :
      (d : ChannelDifference) (now : ℕ) (r : UpdateAndPeers) (b' : MessageBoxes)
      → apply_channel_difference d now b ≡ ok (r, b')
      → Step b b'
  defer_channel :
      (retry_after now : ℕ) (id : ℤ) (b' : MessageBoxes)
      → channel_in_diff b.getting_diff_for ≡ some id
      → defer_channel_difference retry_after now b ≡ ok b'
      → Step b b'
  end_channel :
      (reason : PrematureEndReason) (now : ℕ) (id : ℤ) (b' : MessageBoxes)
      → channel_in_diff b.getting_diff_for ≡ some id
      → end_channel_difference reason now b ≡ ok b'
      → Step b b'
  discard_account : (now : ℕ) (b' : MessageBoxes) → discard_account_state now b ≡ ok b' → Step b b'
  set_account :
      (pts qts date seq : ℤ) (now : ℕ) (b' : MessageBoxes)
      → entry common b.entries ≡ none
      → entry secondary b.entries ≡ none
      → set_state pts qts date seq now b ≡ ok b'
      → Step b b'
  exhaust_channel :
      (id : ℤ) (t : Bool) (b' : MessageBoxes)
      → channel_in_diff b.getting_diff_for ≡ some id
      → try_exhaust_channel_grace b ≡ ok (t, b')
      → Step b b'
  access_channel :
      (id : ℤ) (b' : MessageBoxes)
      → channel_in_diff b.getting_diff_for ≡ some id
      → channel_difference_accessible b ≡ ok b'
      → Step b b'
  check : (now : ℕ) → Step b (check_deadlines now b).1
  set_channel : (id pts : ℤ) (now : ℕ) → Step b (try_set_channel_state id pts now b)
  resume_channel : (id : ℤ) (now : ℕ) → Step b (retry_channel_without_delay id now b)

pub data Reaches : MessageBoxes → Type 0 where
  create : (now : ℕ) → Reaches (new now)
  restore : (s : UpdatesState) (now : ℕ) → Reaches (load s now)
  step : {b b' : MessageBoxes} → Reaches b → Step b b' → Reaches b'

Survives-ok :
    {A : Type 0} (of_a : A → MessageBoxes) (m : Outcome Gap A) (a : A)
    → Survives of_a m
    → m ≡ ok a
    → IsValid (of_a a)
Survives-ok of_a m a h e = subst (Survives of_a) e h

Keeps-ok : (m : Outcome Gap MessageBoxes) (b : MessageBoxes) → Keeps m → m ≡ ok b → IsValid b
Keeps-ok m b (b1, e1, v1) e = subst (Survives (λ (x : MessageBoxes). x)) (sym e1 ∙ e) v1

abbrev of_grace : Bool × MessageBoxes → MessageBoxes
of_grace x = x.1

try_exhaust_channel_grace-Survives :
    (id : ℤ) (b : MessageBoxes)
    → IsValid b
    → channel_in_diff b.getting_diff_for ≡ some id
    → Survives of_grace (try_exhaust_channel_grace b)
unfolding try_exhaust_channel_grace
try_exhaust_channel_grace-Survives id b v here = elim (Bool-cases (is_exhausted id b)) [
  | inr grace ↦ rw (here, try_exhaust_channel_grace) (rw grace v)
  | inl spent ↦
      rw (here, try_exhaust_channel_grace)
        (rw spent record {
          sorted = v.sorted;
          queued = v.queued;
          recovery = v.recovery;
          ready_count = v.ready_count;
          gaps = v.gaps;
          held_bound = v.held_bound;
        })
]

channel_difference_accessible-Keeps :
    (id : ℤ) (b : MessageBoxes)
    → IsValid b
    → channel_in_diff b.getting_diff_for ≡ some id
    → Keeps (channel_difference_accessible b)
unfolding channel_difference_accessible
channel_difference_accessible-Keeps id b v here =
    let f : LiveEntry → LiveEntry = λ e. record e { recovery_deferrals = 0 } in
    let b' : MessageBoxes = record b {
      exhausted_channels = remove_channel id b.exhausted_channels;
      entries = update_entry (channel id) f b.entries;
    } in
    (
      b',
      rw (here, channel_difference_accessible) refl,
      keep-IsValid (channel id) f b b' (λ x h. h) (λ o. ground arith) (λ h. ground arith)
          (λ o h. map-GapOk f o (λ x. refl) h) v refl refl refl v.held_bound,
    )

-- Every call keeps a message box valid.
pub Step-IsValid : {b b' : MessageBoxes} → Step b b' → IsValid b → IsValid b'
unfolding process_updates apply_difference
Step-IsValid {b} (process m now r b' e) v =
    subst (IsSafe (λ (x : Processed). x.1)) e (process_updates_inner-IsSafe m [] now b v)
Step-IsValid {b} (refuse m now b' e) v =
    subst (IsSafe (λ (x : Processed). x.1)) e (process_updates_inner-IsSafe m [] now b v)
Step-IsValid {b} (take_released now r b' e) v =
    Survives-ok of_taken _ _ (take_released_updates-Survives now b v) e
Step-IsValid {b} (apply_account d now r b' e) v =
    Survives-ok boxes_of _ _ (try_apply_difference-Survives d now b v) e
Step-IsValid {b} (apply_channel d now r b' e) v =
    Survives-ok boxes_of _ _ (try_apply_channel_difference-Survives d now b v) e
Step-IsValid {b} (apply_account_unchecked d now r b' e) v =
    elim (Bool-cases (account_recovering b)) [
      | inl recovering ↦ Survives-ok boxes_of _ _ (apply_difference-Survives d now b v recovering) e
      | inr idle ↦ absurd (ground (arith, idle))
    ]
Step-IsValid {b} (apply_channel_unchecked d now r b' e) v =
    apply_channel_difference-IsValid d now b (r, b') v e
Step-IsValid {b} (defer_channel retry_after now id b' here e) v =
    elim (defer_channel_difference-Keeps retry_after now b id v here) [
      | inl keeps ↦ Keeps-ok _ _ keeps e
      | inr panics ↦ absurd (ground (arith, panics.2))
    ]
Step-IsValid {b} (end_channel reason now id b' here e) v =
    Keeps-ok _ _ (end_channel_difference-Keeps reason now b id v here) e
Step-IsValid {b} (discard_account now b' e) v = Keeps-ok _ _ (discard_account_state-Keeps now b v) e
Step-IsValid {b} (set_account pts qts date seq now b' c s e) v =
    Keeps-ok _ _ (set_state-Keeps pts qts date seq now b v c s) e
Step-IsValid {b} (exhaust_channel id t b' here e) v =
    Survives-ok of_grace _ _ (try_exhaust_channel_grace-Survives id b v here) e
Step-IsValid {b} (access_channel id b' here e) v =
    Keeps-ok _ _ (channel_difference_accessible-Keeps id b v here) e
Step-IsValid {b} (check now) v = check_deadlines-IsValid now b v
Step-IsValid {b} (set_channel id pts now) v = try_set_channel_state-IsValid id pts now b v
Step-IsValid {b} (resume_channel id now) v = retry_channel_without_delay-IsValid id now b v

-- Every message box that is reachable from a new or a loaded one by calls of the public functions
-- that return, the unchecked application of differences included, is valid; calls for a channel are
-- made while one is queued, and the account's state is set while neither of its positions is known.
pub Reaches-IsValid : {b : MessageBoxes} → Reaches b → IsValid b
Reaches-IsValid (create now) = new-IsValid now
Reaches-IsValid (restore s now) = load-IsValid s now
Reaches-IsValid (step r s) = Step-IsValid s (Reaches-IsValid r)
