-- ===== src/MessageBox/Process/Safety.antt =====
-- The invariant and the panics of processing updates (mod.rs, `process_updates_inner`).
use grammers.Common.{
  ℕ, ◌≡◌, refl, sym, ap, subst, ◌∙◌, List, [], ◌∷◌, true, false, ◌&&◌, ◌||◌, Option, none, some,
  if◌then◌else◌, arith, inl, inr, Bool-cases, Option-cases,
}
use grammers.Common.Int.{ℤ, pos, ltb_ℤ, eqb_ℤ, cmp_ℤ, ◌-ℤ◌, ◌+ℤ◌, Ordering-cases}
use grammers.Common.Outcome.{Outcome, ok, err, panic, ◌>>=◌}
use grammers.MessageBox.Defs.{
  Key, common, secondary, channel, eqb_key, eqb_key→eq, Update, LiveEntry, MessageBoxes, PtsInfo,
  no_pts, no_seq,
}
use grammers.MessageBox.Updates.{from_update, sort_updates_by_key}
use grammers.MessageBox.Entries.{
  entry, quiet, next_updates_deadline, set_entry, is_getting_diff, pending_of,
}
use grammers.MessageBox.Entries.Lookup.{or_new, entry-key, entry-force}
use grammers.MessageBox.Entries.Sorted.{force_update_entry-IsSorted}
use grammers.MessageBox.Recovery.{held_of}
use grammers.MessageBox.Invariant.{
  IsValid, GapOk, GapIsSequenced, if-GapOk, count, ready_of, recovery_ok,
  hold_channel_update-HeldOk,
}
use grammers.MessageBox.Invariant.Recovery.{try_begin_get_diff-IsValid, reset_deadline-IsValid}
use grammers.MessageBox.Invariant.Account.{set-IsValid}
use grammers.MessageBox.Process.{
  Combined, Settled, Pass, Round, Processed, with_entry, process_channel_too_long, postpone_update,
  sequence_update, process_info, process_ordered, process_update, process_all, process_checked,
  process_updates_inner, finish, round_of, account_pending, all_valid, contains_key, before_login,
  is_none, as_channel_too_long, below_by_key,
}
use grammers.MessageBox.Process.Gaps.{SameRecovery, settle-Settles}

-- A call that does not panic and leaves a valid message box, whatever it returns.
abbrev pub IsSafe : {A : Type 0} → (A → MessageBoxes) → Outcome MessageBoxes A → Type 0
IsSafe boxes (ok a) = IsValid (boxes a)
IsSafe boxes (err b) = IsValid b
IsSafe boxes panic = ⊥

IsSafe-bind :
    {A B : Type 0} (of_a : A → MessageBoxes) (of_b : B → MessageBoxes) (m : Outcome MessageBoxes A)
    (f : A → Outcome MessageBoxes B)
    → IsSafe of_a m
    → ((a : A) → IsValid (of_a a) → IsSafe of_b (f a))
    → IsSafe of_b (m >>= f)
IsSafe-bind of_a of_b (ok a) f h k = k a h
IsSafe-bind of_a of_b (err b) f h k = h
IsSafe-bind of_a of_b panic f h k = absurd h

abbrev boxes_of : Pass → MessageBoxes
boxes_of p = p.boxes

learned-IsValid :
    (now : ℕ) (id : ℤ) (pts : ℤ) (b : MessageBoxes)
    → IsValid b
    → IsValid (
        if ltb_ℤ no_pts pts && is_none (entry (channel id) b.entries)
        then record b {
          entries = set_entry (quiet (channel id) pts (next_updates_deadline now)) b.entries;
        }
        else b)
learned-IsValid now id pts b v =
    elim (Bool-cases (ltb_ℤ no_pts pts && is_none (entry (channel id) b.entries))) [
      | inl fresh ↦ rw fresh (
          set-IsValid (quiet (channel id) pts (next_updates_deadline now)) b _ v
            (ground (arith, v.queued (channel id))) refl refl tt refl refl refl v.held_bound)
      | inr known ↦ rw known v
    ]

process_channel_too_long-IsValid :
    (now : ℕ) (id : ℤ) (pts : Option ℤ) (b : MessageBoxes)
    → IsValid b
    → IsValid (process_channel_too_long now id pts b)
unfolding process_channel_too_long
process_channel_too_long-IsValid now id pts b v =
    elim (Bool-cases (is_getting_diff (channel id) b.entries)) [
      | inl pending ↦ rw pending v
      | inr idle ↦ rw idle (
          try_begin_get_diff-IsValid (channel id) now _
            (elim pts
              as (λ o. IsValid (elim o [
                | none ↦ b
                | some pts ↦
                    if ltb_ℤ no_pts pts && is_none (entry (channel id) b.entries)
                    then record b {
                      entries =
                          set_entry (quiet (channel id) pts (next_updates_deadline now)) b.entries;
                    }
                    else b
              ])) [ none ↦ v | some t ↦ learned-IsValid now id t b v ]))
    ]

postpone_update-IsValid :
    (key : Key) (u : Update) (p : Pass) → IsValid p.boxes → IsValid (postpone_update key u p).boxes
unfolding postpone_update
postpone_update-IsValid (channel id) u p v = record {
  sorted = v.sorted;
  queued = v.queued;
  recovery = v.recovery;
  ready_count = v.ready_count;
  gaps = v.gaps;
  held_bound = hold_channel_update-HeldOk id (held_of p.boxes) u v.held_bound;
}
postpone_update-IsValid common u p v = v
postpone_update-IsValid secondary u p v = v

pub or_new-key :
    (new : LiveEntry) (es : List LiveEntry) → (or_new new (entry new.key es)).key ≡ new.key
or_new-key new es = elim (Option-cases (entry new.key es)) [
  | inl absent ↦ rw absent refl
  | inr (e, found) ↦ rw found (entry-key new.key es e found)
]

or_new-ready :
    (new : LiveEntry) (o : Option LiveEntry)
    → new.recovery_pending ≡ false
    → ready_of (some (or_new new o)) ≡ ready_of o
or_new-ready new o h = ground arith

-- The entry that an update is sequenced by is outside of recovery.
or_new-idle :
    (new : LiveEntry) (o : Option LiveEntry)
    → new.recovery_pending ≡ false
    → new.recovery_deferred ≡ false
    → pending_of o ≡ false
    → recovery_ok o ≡ true
    → ((or_new new o).recovery_pending ≡ false) × ((or_new new o).recovery_deferred ≡ false)
or_new-idle new none p d idle h = (p, d)
or_new-idle new (some e) p d idle h = (idle, ground arith)

pub or_new-GapOk :
    (new : LiveEntry) (o : Option LiveEntry)
    → new.possible_gap ≡ none
    → GapOk o
    → GapIsSequenced (or_new new o).possible_gap
or_new-GapOk new none h g = subst GapIsSequenced (sym h) tt
or_new-GapOk new (some e) h g = g

SameRecovery-ready : (e e' : LiveEntry) → SameRecovery e e' → ready_of (some e') ≡ ready_of (some e)
SameRecovery-ready e e' s = ground (arith, s.1, s.2)

SameRecovery-recovery_ok :
    (e e' : LiveEntry)
    → SameRecovery e e'
    → (e.recovery_pending ≡ false) × (e.recovery_deferred ≡ false)
    → recovery_ok (some e') ≡ true
SameRecovery-recovery_ok e e' s idle = ground (arith, s.1, s.2, idle.0, idle.1)

-- The table after an update that was settled.
with_entry-IsValid :
    (now : ℕ) (info : PtsInfo) (s : Settled) (b : MessageBoxes)
    → IsValid b
    → is_getting_diff info.key b.entries ≡ false
    → SameRecovery
        (or_new
          (quiet info.key (info.pts -ℤ info.count) (next_updates_deadline now))
          (entry info.key b.entries))
        s.live
    → GapIsSequenced s.live.possible_gap
    → IsValid (with_entry now info s b)
unfolding is_getting_diff
with_entry-IsValid now info s b v idle same gap =
    let key : Key = info.key in
    let new : LiveEntry = quiet key (info.pts -ℤ info.count) (next_updates_deadline now) in
    let old : Option LiveEntry = entry key b.entries in
    let keep : s.live.key ≡ key = same.0 ∙ or_new-key new b.entries in
    let looked : (k : Key)
        → entry k (with_entry now info s b).entries
          ≡ (if eqb_key key k then some s.live else entry k b.entries) =
      λ k. entry-force k new (λ x. s.live) b.entries (λ x h. keep) in
    let ready : ready_of (some s.live) ≡ ready_of old =
      SameRecovery-ready (or_new new old) s.live same ∙ or_new-ready new old refl in
    let def : recovery_ok (some s.live) ≡ true =
      SameRecovery-recovery_ok (or_new new old) s.live same
        (or_new-idle new old refl refl idle (v.recovery key)) in
    record {
      sorted = force_update_entry-IsSorted new (λ x. s.live) b.entries (λ x h. keep) v.sorted;
      queued = λ k. elim (Bool-cases (eqb_key key k)) [
        | inl hit ↦
            ap (λ t. count t b.getting_diff_for) (sym (eqb_key→eq key k hit))
            ∙ ground (arith, looked k, v.queued key, ready, hit)
        | inr miss ↦ ground (arith, looked k, v.queued k, miss)
      ];
      recovery = λ k. ground (arith, looked k, v.recovery k, def);
      ready_count = v.ready_count;
      gaps = λ k.
          subst GapOk (sym (looked k))
            (if-GapOk (eqb_key key k) (some s.live) (entry k b.entries) gap (v.gaps k));
      held_bound = v.held_bound;
    }

sequence_update-IsSafe :
    (r : Round) (info : PtsInfo) (u : Update) (p : Pass)
    → from_update u ≡ some info
    → IsValid p.boxes
    → is_getting_diff info.key p.boxes.entries ≡ false
    → IsSafe boxes_of (sequence_update r info u p)
unfolding sequence_update
sequence_update-IsSafe r info u p known v idle =
    let b : MessageBoxes = p.boxes in
    let new : LiveEntry = quiet info.key (info.pts -ℤ info.count) (next_updates_deadline r.now) in
    let old : Option LiveEntry = entry info.key b.entries in
    let (s, settled, chain, same, gap) =
      settle-Settles r.now info u (or_new new old) known
        (or_new-GapOk new old refl (v.gaps info.key)) in
    rw (settled, sequence_update) (with_entry-IsValid r.now info s b v idle same gap)

process_info-IsSafe :
    (r : Round) (info : PtsInfo) (u : Update) (p : Pass)
    → from_update u ≡ some info
    → IsValid p.boxes
    → IsSafe boxes_of (process_info r info u p)
unfolding process_info
process_info-IsSafe r info u p known v =
    let b : MessageBoxes = p.boxes in
    elim (Bool-cases (ltb_ℤ info.count (pos 0) || ltb_ℤ info.pts info.count)) [
      | inl bad ↦ rw bad (try_begin_get_diff-IsValid info.key r.now b v)
      | inr good ↦ rw good (elim (Bool-cases (contains_key info.key r.force)) [
        | inl forced ↦ rw forced (reset_deadline-IsValid info.key (next_updates_deadline r.now) b v)
        | inr free ↦ rw free (elim (Bool-cases (is_getting_diff info.key b.entries)) [
          | inl pending ↦ rw pending (postpone_update-IsValid info.key u p v)
          | inr idle ↦ rw idle (elim (Bool-cases (before_login info b)) [
            | inl early ↦ rw early v
            | inr ready ↦ rw ready (sequence_update-IsSafe r info u p known v idle)
          ])
        ])
      ])
    ]

process_ordered-IsSafe :
    (r : Round) (u : Update) (p : Pass) → IsValid p.boxes → IsSafe boxes_of (process_ordered r u p)
process_ordered-IsSafe r u p v = elim (Option-cases (from_update u)) [
  | inl unknown ↦ rw (unknown, process_ordered) v
  | inr (info, known) ↦ rw (known, process_ordered) (process_info-IsSafe r info u p known v)
]

pub process_update-IsSafe :
    (r : Round) (u : Update) (p : Pass) → IsValid p.boxes → IsSafe boxes_of (process_update r u p)
unfolding process_update
process_update-IsSafe r u p v = elim (Option-cases (as_channel_too_long u.kind)) [
  | inl other ↦ rw (other, process_update) (process_ordered-IsSafe r u p v)
  | inr ((id, pts), too_long) ↦
      rw (too_long, process_update) (process_channel_too_long-IsValid r.now id pts p.boxes v)
]

process_all-IsSafe :
    (r : Round) (us : List Update) (p : Pass)
    → IsValid p.boxes
    → IsSafe boxes_of (process_all r us p)
unfolding process_all
process_all-IsSafe r [] p v = v
process_all-IsSafe r (u ∷ us) p v =
    IsSafe-bind boxes_of boxes_of (process_update r u p) (process_all r us)
      (process_update-IsSafe r u p v) (λ p1 v1. process_all-IsSafe r us p1 v1)

finish-IsValid : (r : Round) (p : Pass) → IsValid p.boxes → IsValid (finish r p)
unfolding finish
finish-IsValid r p v =
    elim p.result
      as (λ xs. IsValid (elim xs [
        | [] ↦ p.boxes
        | x ∷ xs ↦ if p.unresolved then p.boxes else record p.boxes { date = r.date; seq = r.seq }
      ])) [
        | [] ↦ v
        | x ∷ xs ↦ elim (Bool-cases p.unresolved) [
          | inl gap ↦ rw gap v
          | inr whole ↦ rw whole record {
            sorted = v.sorted;
            queued = v.queued;
            recovery = v.recovery;
            ready_count = v.ready_count;
            gaps = v.gaps;
            held_bound = v.held_bound;
          }
        ]
      ]

process_checked-IsSafe :
    (r : Round) (c : Combined) (b : MessageBoxes)
    → IsValid b
    → IsSafe (λ (x : Processed). x.1) (process_checked r c b)
unfolding process_checked
process_checked-IsSafe r c b v = elim (Bool-cases (all_valid c.updates)) [
  | inr bad ↦ rw bad (try_begin_get_diff-IsValid common r.now b v)
  | inl good ↦ rw good (
      IsSafe-bind boxes_of (λ (x : Processed). x.1)
        (process_all r (sort_updates_by_key below_by_key c.updates)
          (record { boxes = b; result = []; unresolved = false }))
        (λ p. ok ((p.result, c.peers), finish r p))
        (process_all-IsSafe r (sort_updates_by_key below_by_key c.updates) _ v)
        (λ p v1. finish-IsValid r p v1))
]

-- On a valid message box, processing any message with any forced keys does not panic, and leaves a
-- valid message box, both where it returns updates and where it returns Gap.
pub process_updates_inner-IsSafe :
    (adapted : Option Combined) (force : List Key) (now : ℕ) (b : MessageBoxes)
    → IsValid b
    → IsSafe (λ (x : Processed). x.1) (process_updates_inner adapted force now b)
unfolding process_updates_inner
process_updates_inner-IsSafe none force now b v = try_begin_get_diff-IsValid common now b v
process_updates_inner-IsSafe (some c) force now b v =
    let pending = account_pending force b in
    let r = round_of force now pending c b in
    let gap = try_begin_get_diff-IsValid common now b v in
    elim (Bool-cases (ltb_ℤ c.date (pos 0) || (ltb_ℤ c.seq (pos 0) || ltb_ℤ c.seq_start (pos 0)))) [
      | inl bad ↦ rw bad gap
      | inr good ↦ rw good (elim (Bool-cases (eqb_ℤ c.seq_start no_seq || pending)) [
        | inl unchecked ↦ rw unchecked (process_checked-IsSafe r c b v)
        | inr checked ↦ rw checked (elim (Ordering-cases (cmp_ℤ (b.seq +ℤ pos 1) c.seq_start)) [
          | inl next ↦ rw (next, IsSafe) (process_checked-IsSafe r c b v)
          | inr (inl old) ↦ rw (old, IsSafe) v
          | inr (inr ahead) ↦ rw (ahead, IsSafe) gap
        ])
      ])
    ]
