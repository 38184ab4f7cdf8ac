-- ===== src/MessageBox/Invariant/Recovery.antt =====
-- Beginning and ending recovery, and the invariant (mod.rs).
use grammers.Common.{
  ℕ, ◌-◌, ◌≡◌, refl, sym, ap, subst, ◌∙◌, List, [], ◌∷◌, true, false, ◌||◌, Option, none, some,
  if◌then◌else◌, length, length-append, arith, inl, inr, Bool-cases, Option-cases, ◌==◌,
}
use mathlib.Core.Option
use grammers.Common.Outcome.{ok, panic}
use grammers.MessageBox.Defs.{Key, eqb_key, LiveEntry, MessageBoxes, eqb_key→eq, eqb_key_refl}
use grammers.MessageBox.Entries.Lookup.{entry-update}
use grammers.MessageBox.Entries.{is_getting_diff, entry, update_entry, next_updates_deadline}
use grammers.MessageBox.Recovery.{
  reset_deadline, try_begin_get_diff, try_end_get_diff, begin_found, begin_entry, end_entry,
  unqueue, new, has_gap, still_waiting, is_channel_key, held_of,
}
use grammers.MessageBox.Invariant.{
  IsValid, HeldOk, map-GapOk, map-GapOk-none, hold_gap-HeldOk, count, ready_of, recovery_ok,
  is_clear, count-append, remove_key_lem, change-IsValid, keep-IsValid,
}

-- A new message box satisfies the invariant.
pub new-IsValid : (now : ℕ) → IsValid (new now)
unfolding new entry count
new-IsValid now = record {
  sorted = tt;
  queued = λ k. refl;
  recovery = λ k. refl;
  ready_count = refl;
  gaps = λ k. tt;
  held_bound = omega arith;
}

pub reset_deadline-IsValid :
    (key : Key) (deadline : ℕ) (b : MessageBoxes)
    → IsValid b
    → IsValid (reset_deadline key deadline b)
unfolding reset_deadline
reset_deadline-IsValid key deadline b v =
    keep-IsValid key (λ e. record e { deadline = deadline }) b (reset_deadline key deadline b)
      (λ e h. h) (λ o. ground arith) (λ h. ground arith)
      (λ o h. map-GapOk (λ e. record e { deadline = deadline }) o (λ e. refl) h) v refl refl refl
      v.held_bound

ready_of-end : (o : Option LiveEntry) → ready_of (Option.map end_entry o) ≡ 0
ready_of-end o = ground arith

recovery_ok-end : (o : Option LiveEntry) → recovery_ok (Option.map end_entry o) ≡ true
recovery_ok-end o = ground arith

-- What `try_end_get_diff` takes off the queue.
unqueue_lem :
    (key : Key) (e : LiveEntry) (b : MessageBoxes)
    → IsValid b
    → entry key b.entries ≡ some e
    → e.recovery_pending ≡ true
    → (b' : MessageBoxes) × (unqueue key e b ≡ ok b')
      × (b'.entries ≡ b.entries)
      × (b'.held_updates ≡ b.held_updates)
      × ((k : Key)
          → count k b'.getting_diff_for ≡ (if eqb_key key k then 0 else count k b.getting_diff_for))
      × (b'.ready_diff_count ≡ length b'.getting_diff_for)
unfolding unqueue
unqueue_lem key e b v found pending = elim (Bool-cases e.recovery_deferred) [
  | inl later ↦ (
    b,
    rw later refl,
    refl,
    refl,
    (λ k. elim (Bool-cases (eqb_key key k)) [
      | inl hit ↦ rw hit (
          ap (λ t. count t b.getting_diff_for) (sym (eqb_key→eq key k hit))
          ∙ ground (arith, v.queued key))
      | inr miss ↦ rw miss refl
    ]),
    v.ready_count,
  )
  | inr now ↦
      let one : count key b.getting_diff_for ≡ 1 = ground (arith, v.queued key) in
      let (q', removed, shorter, counts) = remove_key_lem key b.getting_diff_for (omega arith) in
      let some_ready : (b.ready_diff_count == 0) ≡ false = ground (arith, v.ready_count) in
      (
        record b { getting_diff_for = q'; ready_diff_count = b.ready_diff_count - 1 },
        rw (now, removed, unqueue) (rw some_ready refl),
        refl,
        refl,
        (λ k. elim (Bool-cases (eqb_key key k)) [
          | inl hit ↦ rw hit (
              ap (λ t. count t q') (sym (eqb_key→eq key k hit))
              ∙ ground (arith, counts key, eqb_key_refl key))
          | inr miss ↦ ground (arith, counts k)
        ]),
        omega (arith, v.ready_count),
      )
]

-- What remains after a pending entry has been taken off the queue.
abbrev after_end : Key → ℕ → MessageBoxes → MessageBoxes
after_end key now b =
    record (reset_deadline key (next_updates_deadline now)
      (record b { entries = update_entry key end_entry b.entries })) {
        held_release_ready = b.held_release_ready || is_channel_key key;
      }

try_end_get_diff-pending :
    (key : Key) (now : ℕ) (e : LiveEntry) (b b1 : MessageBoxes)
    → entry key b.entries ≡ some e
    → e.recovery_pending ≡ true
    → unqueue key e b ≡ ok b1
    → has_gap (entry key (after_end key now b1).entries) ≡ false
    → try_end_get_diff key now b ≡ ok (after_end key now b1)
unfolding try_end_get_diff
try_end_get_diff-pending key now e b b1 found pending unqueued clear =
    rw (found, try_end_get_diff) (rw pending (rw unqueued (rw clear refl)))

abbrev ended_entry : ℕ → LiveEntry → LiveEntry
ended_entry now e = record (end_entry e) { deadline = next_updates_deadline now }

twice_mapped :
    (now : ℕ) (o : Option LiveEntry)
    → Option.map {A = LiveEntry}
        (λ e. record e { deadline = next_updates_deadline now })
        (Option.map end_entry o)
      ≡ Option.map (ended_entry now) o
twice_mapped now none = refl
twice_mapped now (some e) = refl

-- The entry after its recovery has ended and its deadline is reset.
entry-after_end :
    (key : Key) (now : ℕ) (b : MessageBoxes)
    → entry key (after_end key now b).entries ≡ Option.map (ended_entry now) (entry key b.entries)
unfolding reset_deadline
entry-after_end key now b =
    let ended : List LiveEntry = update_entry key end_entry b.entries in
    let f : LiveEntry → LiveEntry = λ e. record e { deadline = next_updates_deadline now } in
    let outer : entry key (update_entry key f ended) ≡ Option.map f (entry key ended) =
      rw (eqb_key_refl key) at (entry-update key key f ended (λ e h. h)) in
    let inner : entry key ended ≡ Option.map end_entry (entry key b.entries) =
      rw (eqb_key_refl key) at (entry-update key key end_entry b.entries (λ e h. h)) in
    outer ∙ (ap (Option.map f) inner ∙ twice_mapped now (entry key b.entries))

-- On a valid message box, ending the recovery of a key that is not in recovery with a gap does not
-- panic; the result is valid, and the key is neither queued nor in recovery.
pub try_end_get_diff-ok :
    (key : Key) (now : ℕ) (b : MessageBoxes)
    → IsValid b
    → is_clear (entry key b.entries) ≡ true
    → (b' : MessageBoxes) × (try_end_get_diff key now b ≡ ok b')
      × IsValid b'
      × (count key b'.getting_diff_for ≡ 0)
      × (is_getting_diff key b'.entries ≡ false)
unfolding try_end_get_diff reset_deadline is_getting_diff
try_end_get_diff-ok key now b v clear = elim (Option-cases (entry key b.entries)) [
  | inl absent ↦
      (b, rw (absent, try_end_get_diff) refl, v, ground (arith, v.queued key), ground arith)
  | inr (e, found) ↦ elim (Bool-cases e.recovery_pending) [
    | inr idle ↦ (
      b,
      rw (found, try_end_get_diff) (rw idle refl),
      v,
      ground (arith, v.queued key),
      ground arith,
    )
    | inl pending ↦
        let (b1, unqueued, same, kept, counts, n) = unqueue_lem key e b v found pending in
        let ended : MessageBoxes = record b1 { entries = update_entry key end_entry b1.entries } in
        let v1 : IsValid ended =
          change-IsValid key end_entry b ended (λ x h. h) v (ap (update_entry key end_entry) same)
            (λ k.
              counts k
              ∙ ap (λ t. if eqb_key key k then t else count k b.getting_diff_for)
                  (sym (ready_of-end (entry key b.entries))))
            (recovery_ok-end (entry key b.entries)) n
            (map-GapOk end_entry (entry key b.entries) (λ e. refl) (v.gaps key))
            (subst HeldOk (sym kept) v.held_bound) in
        let after =
          entry-after_end key now b1
          ∙ ap (λ es. Option.map (ended_entry now) (entry key es)) same in
        let v2 = reset_deadline-IsValid key (next_updates_deadline now) ended v1 in
        (
          after_end key now b1,
          try_end_get_diff-pending key now e b b1 found pending unqueued (ground (arith, after)),
          record {
            sorted = v2.sorted;
            queued = v2.queued;
            recovery = v2.recovery;
            ready_count = v2.ready_count;
            gaps = v2.gaps;
            held_bound = v2.held_bound;
          },
          ground (arith, counts key, eqb_key_refl key),
          ground (arith, after),
        )
  ]
]

-- A pending entry that still has a gap fails the assertion.
pub try_end_get_diff-panic :
    (key : Key) (now : ℕ) (b : MessageBoxes)
    → IsValid b
    → is_clear (entry key b.entries) ≡ false
    → try_end_get_diff key now b ≡ panic
unfolding try_end_get_diff
try_end_get_diff-panic key now b v stuck = elim (Option-cases (entry key b.entries)) [
  | inl absent ↦ absurd (ground (arith, absent))
  | inr (e, found) ↦
      let pending : e.recovery_pending ≡ true = ground (arith, found) in
      let (b1, unqueued, same, kept, counts, n) = unqueue_lem key e b v found pending in
      let after =
        entry-after_end key now b1 ∙ ap (λ es. Option.map (ended_entry now) (entry key es)) same in
      let gap : has_gap (entry key (after_end key now b1).entries) ≡ true =
        ground (arith, after, found) in
      rw (found, try_end_get_diff) (rw pending (rw unqueued (rw gap refl)))
]

begin_found-IsValid :
    (key : Key) (now : ℕ) (e : LiveEntry) (b : MessageBoxes)
    → IsValid b
    → entry key b.entries ≡ some e
    → e.recovery_pending ≡ false
    → IsValid (begin_found key now e b)
unfolding begin_found begin_entry count
begin_found-IsValid key now e b v found idle =
    let f : LiveEntry → LiveEntry = begin_entry now in
    let none_queued : count key b.getting_diff_for ≡ 0 = ground (arith, v.queued key) in
    elim (Option-cases (still_waiting now e.retry_not_before)) [
      | inr (t, waiting) ↦
          change-IsValid key f b (begin_found key now e b) (λ x h. h) v
            (rw (waiting, begin_found) refl)
            (λ k. elim (Bool-cases (eqb_key key k)) [
              | inl hit ↦
                  rw (waiting, hit, found, begin_found)
                    (rw waiting (
                      ap (λ t. count t b.getting_diff_for) (sym (eqb_key→eq key k hit))
                      ∙ none_queued))
              | inr miss ↦ rw (waiting, miss, begin_found) refl
            ])
            (rw found (ground arith)) (rw (waiting, begin_found) v.ready_count)
            (map-GapOk-none f (entry key b.entries) (λ x. refl))
            (rw (waiting, begin_found)
              (hold_gap-HeldOk key e.possible_gap (held_of b) v.held_bound))
      | inl free ↦
          change-IsValid key f b (begin_found key now e b) (λ x h. h) v
            (rw (free, begin_found) refl)
            (λ k. elim (Bool-cases (eqb_key key k)) [
              | inl hit ↦
                  rw (free, hit, found, begin_found)
                    (rw free (
                      ground (
                        arith,
                        count-append k b.getting_diff_for (key ∷ []),
                        ap (λ t. count t b.getting_diff_for) (eqb_key→eq key k hit),
                      )))
              | inr miss ↦
                  rw (free, miss, begin_found)
                    (ground (arith, count-append k b.getting_diff_for (key ∷ [])))
            ])
            (rw found (ground arith))
            (rw (free, begin_found)
              (ground (arith, v.ready_count, length-append b.getting_diff_for (key ∷ []))))
            (map-GapOk-none f (entry key b.entries) (λ x. refl))
            (rw (free, begin_found) (hold_gap-HeldOk key e.possible_gap (held_of b) v.held_bound))
    ]

-- Beginning the recovery of any key keeps a message box valid.
pub try_begin_get_diff-IsValid :
    (key : Key) (now : ℕ) (b : MessageBoxes) → IsValid b → IsValid (try_begin_get_diff key now b)
unfolding try_begin_get_diff
try_begin_get_diff-IsValid key now b v = elim (Option-cases (entry key b.entries)) [
  | inl absent ↦ rw (absent, try_begin_get_diff) v
  | inr (e, found) ↦ elim (Bool-cases e.recovery_pending) [
    | inl pending ↦ rw (found, try_begin_get_diff) (rw pending v)
    | inr idle ↦
        rw (found, try_begin_get_diff) (rw idle (begin_found-IsValid key now e b v found idle))
  ]
]
