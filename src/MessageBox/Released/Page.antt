-- ===== src/MessageBox/Released/Page.antt =====
-- The invariant and the panics of applying a difference of a channel (mod.rs).
use grammers.Common.{
  subst, ℕ, ◌+◌, ◌*◌, ◌≤◌, ◌≡◌, refl, sym, ap, ◌∙◌, List, [], ◌∷◌, Bool, true, false, Option, none,
  some, if◌then◌else◌, length-append, All, arith, inl, inr, Bool-cases, Option-cases,
}
use mathlib.Core.Option
use grammers.Common.Int.{ℤ, pos, negsuc}
use grammers.Common.Outcome.{ok}
use grammers.MessageBox.Defs.{
  Key, channel, eqb_key, eqb_key→eq, eqb_key_refl, Update, LiveEntry, MessageBoxes,
}
use grammers.MessageBox.Entries.{entry, next_updates_deadline}
use grammers.MessageBox.Recovery.{try_end_get_diff, reset_timeout, remove_key}
use grammers.MessageBox.Channels.{
  channel_in_diff, retain_contiguous_held_updates, schedule_channel_retry, next_failures,
  retry_entry, channel_retry_delay,
}
use grammers.MessageBox.Invariant.{
  IsValid, IsSequenced, count, count-append, ready_of, recovery_ok, is_clear, map-GapOk-none,
  change-IsValid, keep-IsValid, remove_key_lem,
}
use grammers.MessageBox.Entries.Lookup.{entry-update}
use grammers.MessageBox.Invariant.Recovery.{try_end_get_diff-ok, reset_deadline-IsValid}
use grammers.MessageBox.Invariant.Retained.{
  retain_contiguous_held_updates-HeldOk, retain_contiguous_held_updates-beyond,
}
use grammers.MessageBox.Invariant.Channels.{
  channel_in_diff-count, ready-of-queued, retry_entry-GapOk, retry_entry-recovery,
}
use grammers.MessageBox.Difference.{
  ChannelDifference, ChannelPage, dialog, folder, community, page, retain_valid_updates,
  set_position, adapt_channel_difference,
}
use grammers.MessageBox.Process.{Processed}
use grammers.MessageBox.Difference.Accepted.{process_unnumbered-ok, retain_valid_updates-All}
use grammers.MessageBox.Difference.Safe.{Survives, boxes_of, set_position-IsValid}
use grammers.MessageBox.Released.{
  clear_entry, previous_failures, cleared, wait_beyond, to_back, end_page, apply_page,
  apply_channel_difference, valid_dialog, valid_channel_difference, try_apply_channel_difference,
}

clear-ready : (o : Option LiveEntry) → ready_of o ≡ 1 → ready_of (Option.map clear_entry o) ≡ 1
unfolding clear_entry
clear-ready o h = ground arith

clear-deferred : (o : Option LiveEntry) → recovery_ok (Option.map clear_entry o) ≡ true
unfolding clear_entry
clear-deferred o = ground arith

cleared-IsValid :
    (id : ℤ) (b : MessageBoxes)
    → IsValid b
    → channel_in_diff b.getting_diff_for ≡ some id
    → IsValid (cleared id b)
unfolding clear_entry
cleared-IsValid id b v here =
    let key : Key = channel id in
    let ready = ready-of-queued key b v (channel_in_diff-count b.getting_diff_for id here) in
    change-IsValid key clear_entry b (cleared id b) (λ x h. h) v refl
      (λ k. elim (Bool-cases (eqb_key key k)) [
        | inl hit ↦ rw hit (
            ap (λ t. count t b.getting_diff_for) (sym (eqb_key→eq key k hit))
            ∙ ground (arith, v.queued key, ready, clear-ready (entry key b.entries)))
        | inr miss ↦ rw miss refl
      ])
      (clear-deferred (entry key b.entries)) v.ready_count
      (map-GapOk-none clear_entry (entry key b.entries) (λ x. refl)) v.held_bound

-- The difference of a channel begins without a gap.
cleared-clear :
    (id : ℤ) (b : MessageBoxes) → is_clear (entry (channel id) (cleared id b).entries) ≡ true
unfolding clear_entry
cleared-clear id b = ground (
  arith,
  eqb_key_refl (channel id),
  entry-update (channel id) (channel id) clear_entry b.entries (λ e h. h),
)

reset_timeout-IsValid :
    (key : Key) (timeout : Option ℤ) (now : ℕ) (b : MessageBoxes)
    → IsValid b
    → IsValid (reset_timeout key timeout now b)
unfolding reset_timeout
reset_timeout-IsValid key none now b v = reset_deadline-IsValid key (next_updates_deadline now) b v
reset_timeout-IsValid key (some (pos t)) now b v = reset_deadline-IsValid key (now + t * 1000) b v
reset_timeout-IsValid key (some (negsuc t)) now b v =
    reset_deadline-IsValid key (next_updates_deadline now) b v

retained-IsValid :
    (id pts : ℤ) (b : MessageBoxes)
    → IsValid b
    → IsValid (retain_contiguous_held_updates id pts b).1
unfolding retain_contiguous_held_updates
retained-IsValid id pts b v = record {
  sorted = v.sorted;
  queued = v.queued;
  recovery = v.recovery;
  ready_count = v.ready_count;
  gaps = v.gaps;
  held_bound = retain_contiguous_held_updates-HeldOk id pts b v.held_bound;
}

schedule_channel_retry-IsValid :
    (id : ℤ) (failures : ℕ) (beyond : List Update) (now : ℕ) (b : MessageBoxes)
    → IsValid b
    → All IsSequenced beyond
    → IsValid (schedule_channel_retry (channel id) failures beyond now b)
unfolding schedule_channel_retry
schedule_channel_retry-IsValid id failures beyond now b v h =
    let at_time : ℕ = now + channel_retry_delay failures in
    keep-IsValid (channel id) (retry_entry failures at_time beyond) b
      (schedule_channel_retry (channel id) failures beyond now b) (λ x h. h) (λ o. ground arith)
      (retry_entry-recovery failures at_time beyond id b.entries)
      (λ o. retry_entry-GapOk failures at_time beyond o h) v refl refl refl v.held_bound

wait-Survives :
    (id : ℤ) (failures now : ℕ) (beyond : List Update) (b : MessageBoxes)
    → IsValid b
    → All IsSequenced beyond
    → IsValid (elim beyond [
      | [] ↦ b
      | u ∷ us ↦ schedule_channel_retry (channel id) (next_failures failures) (u ∷ us) now b
    ])
wait-Survives id failures now [] b v h = v
wait-Survives id failures now (u ∷ us) b v h =
    schedule_channel_retry-IsValid id (next_failures failures) (u ∷ us) now b v h

wait_beyond-IsValid :
    (id pts : ℤ) (failures now : ℕ) (b : MessageBoxes)
    → IsValid b
    → IsValid (wait_beyond id pts failures now b)
unfolding wait_beyond
wait_beyond-IsValid id pts failures now b v =
    wait-Survives id failures now (retain_contiguous_held_updates id pts b).0
      (retain_contiguous_held_updates id pts b).1 (retained-IsValid id pts b v)
      (retain_contiguous_held_updates-beyond id pts b)

remove_key-count : (key : Key) (q q' : List Key) → remove_key key q ≡ some q' → 1 ≤ count key q
unfolding remove_key count
remove_key-count key [] q' h = cc
remove_key-count key (x ∷ q) q' h = elim (Option-cases (remove_key key q)) [
  | inl absent ↦ ground arith
  | inr (rest, found) ↦ omega (arith, remove_key-count key q rest found)
]

-- Moving a key to the back keeps how often each key is queued.
to_back-IsValid : (key : Key) (b : MessageBoxes) → IsValid b → IsValid (to_back key b)
unfolding to_back count
to_back-IsValid key b v = elim (Option-cases (remove_key key b.getting_diff_for)) [
  | inl absent ↦ rw (absent, to_back) v
  | inr (q, present) ↦
      let (rest, removed, shorter, counts) =
        remove_key_lem key b.getting_diff_for (remove_key-count key b.getting_diff_for q present) in
      rw (removed, to_back)
        record {
          sorted = v.sorted;
          queued = λ k. ground (arith, count-append k rest (key ∷ []), counts k, v.queued k);
          recovery = v.recovery;
          ready_count = omega (arith, v.ready_count, shorter, length-append rest (key ∷ []));
          gaps = v.gaps;
          held_bound = v.held_bound;
        }
]

end_page-IsValid :
    (id : ℤ) (p : ChannelPage) (failures now : ℕ) (b : MessageBoxes)
    → IsValid b
    → IsValid (end_page id p failures now b)
unfolding end_page
end_page-IsValid id p failures now b v =
    let v1 = reset_timeout-IsValid (channel id) p.timeout now b v in
    let reset = reset_timeout (channel id) p.timeout now b in
    elim (Bool-cases p.final) [
      | inl final ↦ rw (final, end_page) (wait_beyond-IsValid id p.pts failures now reset v1)
      | inr more ↦ rw (more, end_page) (to_back-IsValid (channel id) reset v1)
    ]

-- A page that is the last ends the recovery, any other keeps it.
page_started :
    (final : Bool) (id : ℤ) (now : ℕ) (b : MessageBoxes)
    → IsValid b
    → is_clear (entry (channel id) b.entries) ≡ true
    → (b' : MessageBoxes) × ((if final then try_end_get_diff (channel id) now b else ok b) ≡ ok b')
      × IsValid b'
page_started true id now b v clear =
    let (b1, ended, v1, idle, off) = try_end_get_diff-ok (channel id) now b v clear in
    (b1, ended, v1)
page_started false id now b v clear = (b, refl, v)

apply_page-Survives :
    (id : ℤ) (p : ChannelPage) (now : ℕ) (b : MessageBoxes)
    → IsValid b
    → channel_in_diff b.getting_diff_for ≡ some id
    → Survives boxes_of (apply_page id p now b)
unfolding apply_page
apply_page-Survives id p now b v here =
    let key : Key = channel id in
    let failures : ℕ = previous_failures (entry key b.entries) in
    let (b1, started, v1) =
      page_started p.final id now (cleared id b) (cleared-IsValid id b v here)
        (cleared-clear id b) in
    let (x, accepted, v2) =
      process_unnumbered-ok (retain_valid_updates p.other_updates) p.peers (key ∷ []) now
        (set_position key p.pts now b1) (set_position-IsValid key p.pts now b1 v1)
        (retain_valid_updates-All p.other_updates) in
    rw (started, apply_page) (rw accepted (end_page-IsValid id p failures now x.1 v2))

-- A checked difference of a channel has a position.
valid-adapts :
    (id : ℤ) (d : ChannelDifference)
    → valid_channel_difference id d ≡ true
    → (p : ChannelPage) × (adapt_channel_difference d ≡ some p)
unfolding valid_channel_difference valid_dialog adapt_channel_difference
valid-adapts id (ChannelDifference.empty final pts timeout) h = (_, refl)
valid-adapts id (page p) h = (p, refl)
valid-adapts id (ChannelDifference.too_long final (dialog peer (some pts)) timeout peers) h =
    (_, refl)
valid-adapts id (ChannelDifference.too_long final (dialog peer none) timeout peers) h = cc
valid-adapts id (ChannelDifference.too_long final folder timeout peers) h = cc
valid-adapts id (ChannelDifference.too_long final community timeout peers) h = cc

apply_channel_difference-Survives :
    (d : ChannelDifference) (p : ChannelPage) (id : ℤ) (now : ℕ) (b : MessageBoxes)
    → IsValid b
    → channel_in_diff b.getting_diff_for ≡ some id
    → adapt_channel_difference d ≡ some p
    → Survives boxes_of (apply_channel_difference d now b)
unfolding apply_channel_difference
apply_channel_difference-Survives d p id now b v here adapted =
    rw (here, apply_channel_difference)
      (rw (adapted, apply_channel_difference) (apply_page-Survives id p now b v here))

-- The unchecked application, where it returns.
pub apply_channel_difference-IsValid :
    (d : ChannelDifference) (now : ℕ) (b : MessageBoxes) (r : Processed)
    → IsValid b
    → apply_channel_difference d now b ≡ ok r
    → IsValid r.1
unfolding apply_channel_difference
apply_channel_difference-IsValid d now b r v e =
    elim (Option-cases (channel_in_diff b.getting_diff_for)) [
      | inl none_queued ↦ absurd (ground (arith, none_queued))
      | inr (id, here) ↦ elim (Option-cases (adapt_channel_difference d)) [
        | inl no_page ↦ absurd (ground (arith, here, no_page))
        | inr (p, adapted) ↦
            subst (Survives boxes_of) e
              (apply_channel_difference-Survives d p id now b v here adapted)
      ]
    ]

-- On a valid message box, the checked application of any difference of a channel does not panic,
-- and where it returns updates it leaves a valid message box.
pub try_apply_channel_difference-Survives :
    (d : ChannelDifference) (now : ℕ) (b : MessageBoxes)
    → IsValid b
    → Survives boxes_of (try_apply_channel_difference d now b)
unfolding try_apply_channel_difference
try_apply_channel_difference-Survives d now b v =
    elim (Option-cases (channel_in_diff b.getting_diff_for)) [
      | inl none_queued ↦ rw (none_queued, try_apply_channel_difference) tt
      | inr (id, here) ↦ elim (Bool-cases (valid_channel_difference id d)) [
        | inr bad ↦ rw (here, try_apply_channel_difference) (rw bad tt)
        | inl good ↦
            let (p, adapted) = valid-adapts id d good in
            rw (here, try_apply_channel_difference)
              (rw good (apply_channel_difference-Survives d p id now b v here adapted))
      ]
    ]
