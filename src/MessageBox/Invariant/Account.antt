-- ===== src/MessageBox/Invariant/Account.antt =====
-- Discarding and setting positions, resuming a channel at once, and the invariant (mod.rs).
use grammers.Common.{
  ℕ, ◌≡◌, refl, sym, ap, subst, ◌∙◌, true, false, Option, none, some, if◌then◌else◌, length, arith,
  inl, inr, Bool-cases, Option-cases,
}
use mathlib.Core.Option
use grammers.Common.Int.{ℤ}
use grammers.Common.Outcome.{ok}
use grammers.MessageBox.Defs.{
  Key, common, secondary, channel, eqb_key, LiveEntry, MessageBoxes, PossibleGap, eqb_key→eq,
}
use grammers.MessageBox.Entries.{
  entry, pop_entry, set_entry, quiet, next_updates_deadline, has_primary_state,
}
use grammers.MessageBox.Entries.Lookup.{entry-set, entry-key}
use grammers.MessageBox.Entries.Sorted.{IsSorted, set_entry-IsSorted}
use grammers.MessageBox.Channels.{
  retry_channel_without_delay, hasten_entry, discard_key, discard_account_state, set_state,
  with_account, try_set_channel_state,
}
use grammers.MessageBox.Recovery.{is_channel_key}
use grammers.MessageBox.Invariant.{
  IsValid, is_clear, GapOk, GapIsSequenced, HeldOk, if-GapOk, count, keep-IsValid,
}
use grammers.MessageBox.Invariant.Channels.{pop-IsValid, Keeps}
use grammers.MessageBox.Invariant.Recovery.{try_end_get_diff-ok}

-- An account entry in recovery has no gap.
pub account-is_clear :
    (key : Key) (b : MessageBoxes)
    → IsValid b
    → is_channel_key key ≡ false
    → is_clear (entry key b.entries) ≡ true
account-is_clear key b v account = elim (Option-cases (entry key b.entries)) [
  | inl absent ↦ rw absent refl
  | inr (e, found) ↦ ground (arith, v.recovery key, entry-key key b.entries e found)
]

discard_key-Keeps :
    (key : Key) (now : ℕ) (b : MessageBoxes)
    → IsValid b
    → is_channel_key key ≡ false
    → (b' : MessageBoxes) × (discard_key key now b ≡ ok b') × IsValid b'
discard_key-Keeps key now b v account =
    let (b1, ended, v1, idle, off) =
      try_end_get_diff-ok key now b v (account-is_clear key b v account) in
    (
      record b1 { entries = pop_entry key b1.entries },
      rw ended refl,
      pop-IsValid key b1 _ v1 idle refl refl refl v1.held_bound,
    )

-- Discarding the account state of a valid message box does not panic and keeps it valid.
pub discard_account_state-Keeps :
    (now : ℕ) (b : MessageBoxes) → IsValid b → Keeps (discard_account_state now b)
unfolding discard_account_state
discard_account_state-Keeps now b v =
    let (b1, first, v1) = discard_key-Keeps common now b v refl in
    let (b2, second, v2) = discard_key-Keeps secondary now b1 v1 refl in
    (b2, rw (first, discard_account_state) second, v2)

-- A new entry outside of recovery, for a key that is not in the queue.
pub set-IsValid :
    (new : LiveEntry) (b b' : MessageBoxes)
    → IsValid b
    → count new.key b.getting_diff_for ≡ 0
    → new.recovery_pending ≡ false
    → new.recovery_deferred ≡ false
    → GapIsSequenced new.possible_gap
    → b'.entries ≡ set_entry new b.entries
    → b'.getting_diff_for ≡ b.getting_diff_for
    → b'.ready_diff_count ≡ b.ready_diff_count
    → HeldOk b'.held_updates
    → IsValid b'
set-IsValid new b b' v idle p d g es q n held =
    let looked : (k : Key)
        → entry k b'.entries ≡ (if eqb_key new.key k then some new else entry k b.entries) =
      λ k. ap (entry k) es ∙ entry-set k new b.entries in
    record {
      sorted = subst IsSorted (sym es) (set_entry-IsSorted new b.entries v.sorted);
      queued = λ k. ap (count k) q ∙ (elim (Bool-cases (eqb_key new.key k)) [
        | inl hit ↦
            ap (λ t. count t b.getting_diff_for) (sym (eqb_key→eq new.key k hit))
            ∙ ground (arith, looked k)
        | inr miss ↦ ground (arith, looked k, v.queued k)
      ]);
      recovery = λ k. ground (arith, looked k, v.recovery k);
      ready_count = n ∙ (v.ready_count ∙ sym (ap length q));
      gaps = λ k.
          subst GapOk (sym (looked k))
            (if-GapOk (eqb_key new.key k) (some new) (entry k b.entries) g (v.gaps k));
      held_bound = held;
    }

-- Setting the account's state when neither of its keys is queued keeps the invariant.
pub with_account-IsValid :
    (pts qts date seq : ℤ) (now : ℕ) (b : MessageBoxes)
    → IsValid b
    → count common b.getting_diff_for ≡ 0
    → count secondary b.getting_diff_for ≡ 0
    → IsValid (with_account pts qts date seq now b)
unfolding with_account
with_account-IsValid pts qts date seq now b v c s =
    let first : LiveEntry = quiet common pts (next_updates_deadline now) in
    let second : LiveEntry = quiet secondary qts (next_updates_deadline now) in
    let b1 : MessageBoxes = record b { entries = set_entry first b.entries } in
    let v1 : IsValid b1 = set-IsValid first b b1 v c refl refl tt refl refl refl v.held_bound in
    set-IsValid second b1 (with_account pts qts date seq now b) v1 s refl refl tt refl refl refl
      v.held_bound

-- Setting the account's state while neither of its positions is known does not panic and keeps a
-- message box valid.
pub set_state-Keeps :
    (pts qts date seq : ℤ) (now : ℕ) (b : MessageBoxes)
    → IsValid b
    → entry common b.entries ≡ none
    → entry secondary b.entries ≡ none
    → Keeps (set_state pts qts date seq now b)
unfolding set_state has_primary_state
set_state-Keeps pts qts date seq now b v c s = (
  with_account pts qts date seq now b,
  rw (c, has_primary_state) refl,
  with_account-IsValid pts qts date seq now b v (ground (arith, v.queued common))
      (ground (arith, v.queued secondary)),
)

pub try_set_channel_state-IsValid :
    (id pts : ℤ) (now : ℕ) (b : MessageBoxes)
    → IsValid b
    → IsValid (try_set_channel_state id pts now b)
unfolding try_set_channel_state
try_set_channel_state-IsValid id pts now b v = elim (Option-cases (entry (channel id) b.entries)) [
  | inr (e, found) ↦ rw (found, try_set_channel_state) v
  | inl absent ↦
      rw (absent, try_set_channel_state)
        (set-IsValid (quiet (channel id) pts (next_updates_deadline now)) b _ v
          (ground (arith, v.queued (channel id))) refl refl tt refl refl refl v.held_bound)
]

hasten_gap-sequenced :
    (now : ℕ) (gap : Option PossibleGap)
    → GapIsSequenced gap
    → GapIsSequenced (Option.map (λ (g : PossibleGap). record g { deadline = now }) gap)
hasten_gap-sequenced now none h = tt
hasten_gap-sequenced now (some g) h = h

hasten_entry-GapOk :
    (now : ℕ) (o : Option LiveEntry) → GapOk o → GapOk (Option.map (hasten_entry now) o)
hasten_entry-GapOk now none h = tt
hasten_entry-GapOk now (some e) h = hasten_gap-sequenced now e.possible_gap h

pub retry_channel_without_delay-IsValid :
    (id : ℤ) (now : ℕ) (b : MessageBoxes)
    → IsValid b
    → IsValid (retry_channel_without_delay id now b)
unfolding retry_channel_without_delay
retry_channel_without_delay-IsValid id now b v =
    keep-IsValid (channel id) (hasten_entry now) b _ (λ x h. h) (λ o. ground arith)
      (λ h. ground arith) (λ o. hasten_entry-GapOk now o) v refl refl refl v.held_bound
