-- ===== src/MessageBox/Invariant/Channels.antt =====
-- The entry points for the difference of a channel, and the invariant (mod.rs).
use grammers.Common.{
  ℕ, ◌+◌, ◌-◌, ◌≤◌, ◌≡◌, refl, sym, ap, subst, ◌∙◌, ◌⊎◌, List, [], ◌∷◌, true, false, Option, none,
  some, if◌then◌else◌, length, All, min, arith, inl, inr, Bool-cases, Option-cases, ◌==◌,
}
use mathlib.Core.Option
use grammers.Common.Int.{ℤ}
use grammers.Common.Outcome.{Outcome, ok, panic}
use grammers.MessageBox.Defs.{
  Key, common, secondary, channel, eqb_key, LiveEntry, MessageBoxes, Gap, Update, eqb_key→eq,
  eqb_key_refl, no_updates_timeout,
}
use grammers.MessageBox.Entries.{entry, update_entry, pop_entry}
use grammers.MessageBox.Entries.Lookup.{entry-pop_ne, entry-key, entry-update}
use grammers.MessageBox.Entries.Sorted.{IsSorted, pop_entry-IsSorted, entry-pop_self}
use grammers.MessageBox.Channels.{
  channel_in_diff, insert_channel, is_exhausted, postpone, give_up, defer_entry,
  defer_channel_difference, end_channel_difference, PrematureEndReason, temporary_server_issues,
  banned, without_gap, retry_later, failures_of, retry_entry, schedule_channel_retry,
  retain_contiguous_held_updates, channel_retry_delay,
}
use grammers.MessageBox.Invariant.{
  IsValid, IsSequenced, GapOk, HeldOk, if-GapOk, map-GapOk, map-GapOk-none, count, ready_of,
  recovery_ok, is_clear, remove_key_lem, change-IsValid, keep-IsValid,
}
use grammers.MessageBox.Invariant.Retained.{
  retain_contiguous_held_updates-HeldOk, retain_contiguous_held_updates-beyond,
}
use grammers.MessageBox.Invariant.Recovery.{try_end_get_diff-ok, try_end_get_diff-panic}

-- The channel that is first in the queue is in the queue.
pub channel_in_diff-count :
    (q : List Key) (id : ℤ) → channel_in_diff q ≡ some id → 1 ≤ count (channel id) q
unfolding channel_in_diff count
channel_in_diff-count [] id h = cc
channel_in_diff-count (channel i ∷ q) id h = ground (arith, eqb_key_refl (channel i))
channel_in_diff-count (common ∷ q) id h = omega (arith, channel_in_diff-count q id h)
channel_in_diff-count (secondary ∷ q) id h = omega (arith, channel_in_diff-count q id h)

deferred-ready :
    (deadline : ℕ) (o : Option LiveEntry) → ready_of (Option.map (defer_entry deadline) o) ≡ 0
deferred-ready deadline o = ground arith

deferred-pending :
    (deadline : ℕ) (o : Option LiveEntry)
    → ready_of o ≡ 1
    → recovery_ok o ≡ true
    → recovery_ok (Option.map (defer_entry deadline) o) ≡ true
deferred-pending deadline o h ok_before = ground arith

-- The result of a call on a valid message box, valid too.
abbrev pub Keeps : Outcome Gap MessageBoxes → Type 0
Keeps r = (b : MessageBoxes) × (r ≡ ok b) × IsValid b

pub ready-of-queued :
    (k : Key) (b : MessageBoxes)
    → IsValid b
    → 1 ≤ count k b.getting_diff_for
    → ready_of (entry k b.entries) ≡ 1
ready-of-queued k b v h = ground (arith, v.queued k)

postpone-Keeps :
    (id : ℤ) (deadline : ℕ) (b : MessageBoxes)
    → IsValid b
    → channel_in_diff b.getting_diff_for ≡ some id
    → Keeps (postpone id deadline b)
unfolding postpone
postpone-Keeps id deadline b v here =
    let key : Key = channel id in
    let f : LiveEntry → LiveEntry = defer_entry deadline in
    let queued = channel_in_diff-count b.getting_diff_for id here in
    let ready = ready-of-queued key b v queued in
    let (q', removed, shorter, counts) = remove_key_lem key b.getting_diff_for queued in
    let some_ready : (b.ready_diff_count == 0) ≡ false = ground (arith, v.ready_count) in
    let b' : MessageBoxes = record b {
      entries = update_entry key f b.entries;
      ready_diff_count = b.ready_diff_count - 1;
      getting_diff_for = q';
      next_deadline = min b.next_deadline deadline;
    } in
    (
      b',
      rw (some_ready, removed, postpone) refl,
      change-IsValid key f b b' (λ x h. h) v refl
          (λ k. elim (Bool-cases (eqb_key key k)) [
            | inl hit ↦ rw hit (
                ap (λ t. count t q') (sym (eqb_key→eq key k hit))
                ∙ ground (
                  arith,
                  counts key,
                  eqb_key_refl key,
                  v.queued key,
                  deferred-ready deadline (entry key b.entries),
                ))
            | inr miss ↦ ground (arith, counts k)
          ])
          (deferred-pending deadline (entry key b.entries) ready (v.recovery key))
          (omega (arith, v.ready_count))
          (map-GapOk f (entry key b.entries) (λ x. refl) (v.gaps key)) v.held_bound,
    )

-- An entry that is not in the queue can be removed.
pub pop-IsValid :
    (key : Key) (b b' : MessageBoxes)
    → IsValid b
    → count key b.getting_diff_for ≡ 0
    → b'.entries ≡ pop_entry key b.entries
    → b'.getting_diff_for ≡ b.getting_diff_for
    → b'.ready_diff_count ≡ b.ready_diff_count
    → HeldOk b'.held_updates
    → IsValid b'
pop-IsValid key b b' v idle es q n held =
    let looked : (k : Key)
        → entry k b'.entries ≡ (if eqb_key key k then none else entry k b.entries) =
      λ k. ap (entry k) es ∙ (elim (Bool-cases (eqb_key key k)) [
        | inl hit ↦ rw hit (
            ap (λ t. entry t (pop_entry key b.entries)) (sym (eqb_key→eq key k hit))
            ∙ entry-pop_self key b.entries v.sorted)
        | inr miss ↦ rw miss (entry-pop_ne key k b.entries miss)
      ]) in
    record {
      sorted = subst IsSorted (sym es) (pop_entry-IsSorted key b.entries v.sorted);
      queued = λ k. ap (count k) q ∙ (elim (Bool-cases (eqb_key key k)) [
        | inl hit ↦
            ap (λ t. count t b.getting_diff_for) (sym (eqb_key→eq key k hit))
            ∙ ground (arith, looked k)
        | inr miss ↦ ground (arith, looked k, v.queued k)
      ]);
      recovery = λ k. ground (arith, looked k, v.recovery k);
      ready_count = n ∙ (v.ready_count ∙ sym (ap length q));
      gaps = λ k.
          subst GapOk (sym (looked k))
            (if-GapOk (eqb_key key k) none (entry k b.entries) tt (v.gaps k));
      held_bound = held;
    }

give_up-Keeps :
    (id : ℤ) (now : ℕ) (b : MessageBoxes)
    → IsValid b
    → is_clear (entry (channel id) b.entries) ≡ true
    → Keeps (give_up id now b)
unfolding give_up
give_up-Keeps id now b v clear =
    let b0 : MessageBoxes = record b {
      exhausted_channels = insert_channel id b.exhausted_channels;
    } in
    let v0 : IsValid b0 = record {
      sorted = v.sorted;
      queued = v.queued;
      recovery = v.recovery;
      ready_count = v.ready_count;
      gaps = v.gaps;
      held_bound = v.held_bound;
    } in
    let (b1, ended, v1, idle, off) = try_end_get_diff-ok (channel id) now b0 v0 clear in
    (
      record b1 { entries = pop_entry (channel id) b1.entries },
      rw ended refl,
      pop-IsValid (channel id) b1 _ v1 idle refl refl refl v1.held_bound,
    )

give_up-panic :
    (id : ℤ) (now : ℕ) (b : MessageBoxes)
    → IsValid b
    → is_clear (entry (channel id) b.entries) ≡ false
    → give_up id now b ≡ panic
unfolding give_up
give_up-panic id now b v stuck =
    let b0 : MessageBoxes = record b {
      exhausted_channels = insert_channel id b.exhausted_channels;
    } in
    let v0 : IsValid b0 = record {
      sorted = v.sorted;
      queued = v.queued;
      recovery = v.recovery;
      ready_count = v.ready_count;
      gaps = v.gaps;
      held_bound = v.held_bound;
    } in
    rw (try_end_get_diff-panic (channel id) now b0 v0 stuck) refl

-- With a channel queued in a valid message box, deferring its difference does not panic and keeps
-- the message box valid, whether the grace lasts or not, but for one case, in which it panics: the
-- grace is spent and the channel is in recovery with a gap.
pub defer_channel_difference-Keeps :
    (retry_after now : ℕ) (b : MessageBoxes) (id : ℤ)
    → IsValid b
    → channel_in_diff b.getting_diff_for ≡ some id
    → Keeps (defer_channel_difference retry_after now b)
      ⊎ ((is_exhausted id b ≡ true)
          × (is_clear (entry (channel id) b.entries) ≡ false)
          × (defer_channel_difference retry_after now b ≡ panic))
unfolding defer_channel_difference
defer_channel_difference-Keeps retry_after now b id v here = elim (Bool-cases (is_exhausted id b)) [
  | inl spent ↦
      let gives_up : defer_channel_difference retry_after now b ≡ give_up id now b =
        rw (here, defer_channel_difference) (rw spent refl) in
      elim (Bool-cases (is_clear (entry (channel id) b.entries))) [
        | inl clear ↦ inl (subst Keeps (sym gives_up) (give_up-Keeps id now b v clear))
        | inr stuck ↦ inr (spent, stuck, gives_up ∙ give_up-panic id now b v stuck)
      ]
  | inr grace ↦ inl (
      rw (here, defer_channel_difference)
        (rw grace (postpone-Keeps id (now + min retry_after no_updates_timeout) b v here)))
]

pub retry_entry-GapOk :
    (failures retry_at : ℕ) (beyond : List Update) (o : Option LiveEntry)
    → All IsSequenced beyond
    → GapOk o
    → GapOk (Option.map (retry_entry failures retry_at beyond) o)
retry_entry-GapOk failures retry_at beyond none hb h = tt
retry_entry-GapOk failures retry_at [] (some e) hb h = h
retry_entry-GapOk failures retry_at (u ∷ us) (some e) hb h = hb

-- A gap that waits for a retry is a channel's.
pub retry_entry-recovery :
    (failures retry_at : ℕ) (beyond : List Update) (id : ℤ) (es : List LiveEntry)
    → recovery_ok (entry (channel id) es) ≡ true
    → recovery_ok (Option.map (retry_entry failures retry_at beyond) (entry (channel id) es)) ≡ true
retry_entry-recovery failures retry_at beyond id es h =
    elim (Option-cases (entry (channel id) es)) [
      | inl absent ↦ rw absent refl
      | inr (e, found) ↦ rw found (ground (arith, entry-key (channel id) es e found))
    ]

retry_later-IsValid :
    (id : ℤ) (failures now : ℕ) (b : MessageBoxes)
    → IsValid b
    → IsValid (retry_later id failures now b)
unfolding retry_later schedule_channel_retry retain_contiguous_held_updates
retry_later-IsValid id failures now b v = elim (Option-cases (entry (channel id) b.entries)) [
  | inl absent ↦ rw (absent, retry_later) v
  | inr (e, found) ↦
      let (beyond, b1) = retain_contiguous_held_updates id e.pts b in
      rw (found, retry_later)
        (keep-IsValid (channel id)
          (retry_entry failures (now + channel_retry_delay failures) beyond) b _ (λ x h. h)
          (λ o. ground arith)
          (retry_entry-recovery failures (now + channel_retry_delay failures) beyond id b.entries)
          (λ o.
            retry_entry-GapOk failures (now + channel_retry_delay failures) beyond o
              (retain_contiguous_held_updates-beyond id e.pts b))
          v refl refl refl (retain_contiguous_held_updates-HeldOk id e.pts b v.held_bound))
]

without_gap-IsValid : (id : ℤ) (b : MessageBoxes) → IsValid b → IsValid (without_gap id b)
without_gap-IsValid id b v =
    keep-IsValid (channel id) (λ e. record e { possible_gap = none }) b (without_gap id b)
      (λ x h. h) (λ o. ground arith) (λ h. ground arith)
      (λ o h. map-GapOk-none (λ e. record e { possible_gap = none }) o (λ e. refl)) v refl refl refl
      v.held_bound

without_gap-clear :
    (id : ℤ) (b : MessageBoxes) → is_clear (entry (channel id) (without_gap id b).entries) ≡ true
without_gap-clear id b =
    let f : LiveEntry → LiveEntry = λ e. record e { possible_gap = none } in
    ground (
      arith,
      eqb_key_refl (channel id),
      entry-update (channel id) (channel id) f b.entries (λ e h. h),
    )

-- With a channel queued in a valid message box, ending its difference early does not panic, since
-- the gap is dropped first, and keeps the message box valid, for both reasons.
pub end_channel_difference-Keeps :
    (reason : PrematureEndReason) (now : ℕ) (b : MessageBoxes) (id : ℤ)
    → IsValid b
    → channel_in_diff b.getting_diff_for ≡ some id
    → Keeps (end_channel_difference reason now b)
unfolding end_channel_difference
end_channel_difference-Keeps temporary_server_issues now b id v here =
    let (b1, ended, v1, idle, off) =
      try_end_get_diff-ok (channel id) now (without_gap id b) (without_gap-IsValid id b v)
        (without_gap-clear id b) in
    let failures : ℕ = failures_of (entry (channel id) b.entries) in
    rw (here, end_channel_difference)
      (rw ended (retry_later id failures now b1, refl, retry_later-IsValid id failures now b1 v1))
end_channel_difference-Keeps banned now b id v here =
    let (b1, ended, v1, idle, off) =
      try_end_get_diff-ok (channel id) now (without_gap id b) (without_gap-IsValid id b v)
        (without_gap-clear id b) in
    rw (here, end_channel_difference)
      (rw ended (
        record b1 { entries = pop_entry (channel id) b1.entries },
        refl,
        pop-IsValid (channel id) b1 _ v1 idle refl refl refl v1.held_bound,
      ))
