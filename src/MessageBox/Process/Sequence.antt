-- ===== src/MessageBox/Process/Sequence.antt =====
-- The order in which updates are delivered (mod.rs).
use grammers.Common.{
  ℕ, ◌≡◌, refl, ap, ◌∙◌, List, ◌++◌, false, not, ◌||◌, Option, some, if◌then◌else◌, arith, inl, inr,
  Bool-cases, Option-cases,
}
use mathlib.Core.Option
use Prim.Native.Nat.{Ordering}
use grammers.Common.Int.{pos, ltb_ℤ, eqb_ℤ, cmp_ℤ, ◌-ℤ◌, ◌+ℤ◌}
use grammers.Common.Outcome.{ok, err}
use grammers.MessageBox.Defs.{
  Key, common, secondary, eqb_key_refl, Update, LiveEntry, MessageBoxes, PtsInfo, no_seq,
}
use grammers.MessageBox.Updates.{from_update}
use grammers.MessageBox.Entries.{
  entry, quiet, next_updates_deadline, is_getting_diff, has_primary_state, pending_of, update_entry,
}
use grammers.MessageBox.Entries.Lookup.{or_new, entry-force, entry-update}
use grammers.MessageBox.Recovery.{try_begin_get_diff, begin_found, begin_entry, still_waiting}
use grammers.MessageBox.Invariant.{IsValid}
use grammers.MessageBox.Process.{
  Combined, Delivered, Pass, Round, with_entry, sequence_update, yields, is_none, has_gap_left,
  process_updates_inner, process_updates,
}
use grammers.MessageBox.Process.Gaps.{settle-Settles, IsChain}
use grammers.MessageBox.Process.Safety.{or_new-key, or_new-GapOk}

-- The entry that an update of a key is applied to: the key's own, or a new one just before it.
abbrev pub entry_before : Round → PtsInfo → MessageBoxes → LiveEntry
entry_before r info b =
    or_new (quiet info.key (info.pts -ℤ info.count) (next_updates_deadline r.now))
      (entry info.key b.entries)

-- On a valid message box, an update whose order is checked adds to the result a chain of updates,
-- with the deliveries from its gap, that leads without a gap from its key's position to the key's
-- new position.
pub sequence_update_contiguous :
    (r : Round) (info : PtsInfo) (u : Update) (p : Pass)
    → from_update u ≡ some info
    → IsValid p.boxes
    → (q : Pass) × (e : LiveEntry) × (ds : List Delivered) × (sequence_update r info u p ≡ ok q)
      × (q.result ≡ p.result ++ yields r ds)
      × (entry info.key q.boxes.entries ≡ some e)
      × IsChain (entry_before r info p.boxes).pts ds e.pts
unfolding sequence_update
sequence_update_contiguous r info u p known v =
    let b : MessageBoxes = p.boxes in
    let new : LiveEntry = quiet info.key (info.pts -ℤ info.count) (next_updates_deadline r.now) in
    let old : Option LiveEntry = entry info.key b.entries in
    let (s, settled, chain, same, gap) =
      settle-Settles r.now info u (or_new new old) known
        (or_new-GapOk new old refl (v.gaps info.key)) in
    let keep : s.live.key ≡ info.key = same.0 ∙ or_new-key new b.entries in
    (
      record {
        boxes = with_entry r.now info s b;
        result = p.result ++ yields r s.delivered;
        unresolved = p.unresolved || has_gap_left s.gap_deadline;
      },
      s.live,
      s.delivered,
      rw (settled, sequence_update) refl,
      refl,
      entry-force info.key new (λ x. s.live) b.entries (λ x h. keep)
          ∙ ap (λ t. if t then some s.live else entry info.key b.entries) (eqb_key_refl info.key),
      chain,
    )

begin_found-pending :
    (key : Key) (now : ℕ) (e : LiveEntry) (b : MessageBoxes)
    → (begin_found key now e b).entries ≡ update_entry key (begin_entry now) b.entries
unfolding begin_found
begin_found-pending key now e b = elim (Option-cases (still_waiting now e.retry_not_before)) [
  | inl free ↦ rw (free, begin_found) refl
  | inr (t, waiting) ↦ rw (waiting, begin_found) refl
]

-- Beginning recovery leaves every key that has an entry in recovery.
pub is_getting_diff-try_begin_get_diff :
    (key : Key) (now : ℕ) (b : MessageBoxes)
    → is_getting_diff key (try_begin_get_diff key now b).entries
      ≡ not (is_none (entry key b.entries))
unfolding try_begin_get_diff is_getting_diff begin_entry
is_getting_diff-try_begin_get_diff key now b = elim (Option-cases (entry key b.entries)) [
  | inl absent ↦ rw (absent, try_begin_get_diff) (rw absent refl)
  | inr (e, found) ↦ elim (Bool-cases e.recovery_pending) [
    | inl pending ↦ rw (found, try_begin_get_diff) (ground (arith, found, pending))
    | inr idle ↦
        rw (found, try_begin_get_diff)
          (rw idle (
            ap (λ es. pending_of (entry key es)) (begin_found-pending key now e b)
            ∙ (ap pending_of (
                  entry-update key key (begin_entry now) b.entries (λ x h. h)
                  ∙ ap
                      (λ t.
                        if t
                        then Option.map (begin_entry now) (entry key b.entries)
                        else entry key b.entries)
                      (eqb_key_refl key))
                ∙ rw found refl)))
  ]
]

-- A well-formed message whose first sequence number is ahead of the next one, while the account is
-- not in recovery, is answered by Gap, and the account is then in recovery exactly if it has a
-- primary state.
pub process_updates_ahead :
    (c : Combined) (now : ℕ) (b : MessageBoxes)
    → (ltb_ℤ c.date (pos 0) || (ltb_ℤ c.seq (pos 0) || ltb_ℤ c.seq_start (pos 0))) ≡ false
    → eqb_ℤ c.seq_start no_seq ≡ false
    → is_getting_diff common b.entries ≡ false
    → is_getting_diff secondary b.entries ≡ false
    → cmp_ℤ (b.seq +ℤ pos 1) c.seq_start ≡ Ordering.lt
    → (b' : MessageBoxes) × (process_updates (some c) now b ≡ err b')
      × (is_getting_diff common b'.entries ≡ has_primary_state b)
unfolding process_updates process_updates_inner has_primary_state
process_updates_ahead c now b fields start idle idle2 ahead = (
  try_begin_get_diff common now b,
  rw fields (rw (start, idle, idle2) (rw ahead refl)),
  is_getting_diff-try_begin_get_diff common now b ∙ (elim (Option-cases (entry common b.entries)) [
    | inl absent ↦ rw (absent, has_primary_state) refl
    | inr (e, found) ↦ rw (found, has_primary_state) refl
  ]),
)
