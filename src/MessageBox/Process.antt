-- ===== src/MessageBox/Process.antt =====
-- Processing the updates of one message (mod.rs, `process_updates_inner`), after the adaptor.
pub mod Gaps
pub mod Safety
pub mod Sequence
use grammers.Common.{
  ℕ, suc, ◌+◌, ◌-◌, ◌*◌, min, max, List, [], ◌∷◌, ◌++◌, Bool, true, false, not, ◌&&◌, ◌||◌, Option,
  none, some, if◌then◌else◌, ltb, leb, ◌==◌, length,
}
use mathlib.Core.Option
use Prim.Native.Nat.{Ordering}
use grammers.Common.Int.{ℤ, pos, negsuc, ltb_ℤ, eqb_ℤ, cmp_ℤ, ◌+ℤ◌, ◌-ℤ◌}
use grammers.Common.Outcome.{Outcome, ok, err, panic, ◌>>=◌}
use grammers.MessageBox.Defs.{
  Key, common, secondary, channel, eqb_key, Update, UpdateKind, PossibleGap, LiveEntry,
  MessageBoxes, MessageBox, State, PtsInfo, no_pts, no_seq, no_date, possible_gap_timeout,
}
use grammers.MessageBox.Updates.{
  from_update, valid_update, update_sort_key, sort_updates_by_key, message_box_of,
}
use grammers.MessageBox.Entries.{
  entry, force_update_entry, set_entry, is_getting_diff, next_updates_deadline, quiet,
}
use grammers.MessageBox.Entries.Lookup.{or_new}
use grammers.MessageBox.Recovery.{
  Held, held_of, hold_channel_update, max_held_updates, try_begin_get_diff, reset_deadline, or_else,
}

-- The fields of `UpdatesCombined`; `peers` stands for its users and chats.
pub record Combined : Type 0 where
  pub date : ℤ
  pub seq_start : ℤ
  pub seq : ℤ
  pub updates : List Update
  pub peers : ℕ

abbrev pub Delivered : Type 0
Delivered = Update × PtsInfo

-- Sorting by `Reverse(update_sort_key)`.
abbrev pub above_by_key : Update → Update → Bool
above_by_key x y = ltb_ℤ (update_sort_key y) (update_sort_key x)

abbrev pub below_by_key : Update → Update → Bool
below_by_key x y = ltb_ℤ (update_sort_key x) (update_sort_key y)

abbrev pub reverse {ℓ} : {A : Type ℓ} → List A → List A
reverse [] = []
reverse (x ∷ xs) = reverse xs ++ (x ∷ [])

-- What draining a gap leaves: the position, what is delivered and what stays.
pub record Drained : Type 0 where
  pub pts : ℤ
  pub delivered : List Delivered
  pub rest : List Update

abbrev deliver : Update → PtsInfo → Drained → Drained
deliver u info d = record d { delivered = (u, info) ∷ d.delivered }

-- The loop over the updates of a gap, in the order in which they are popped. An update without
-- sequence information is a panic.
pub drain : ℤ → List Update → Option Drained
unfolding from_update ◌+ℤ◌
drain pts [] = some (record { pts = pts; delivered = []; rest = [] })
drain pts (u ∷ us) = elim (from_update u) [
  | none ↦ none
  | some info ↦ elim (cmp_ℤ (pts +ℤ info.count) info.pts) [
    | Ordering.eq ↦ Option.map (deliver u info) (drain info.pts us)
    | Ordering.gt ↦ drain pts us
    | Ordering.lt ↦ some (record { pts = pts; delivered = []; rest = u ∷ us })
  ]
]

-- An entry after an update, what is delivered, and the deadline of the gap that is left.
pub record Settled : Type 0 where
  pub live : LiveEntry
  pub delivered : List Delivered
  pub gap_deadline : Option ℕ

pub widen_gap : ℕ → Update → Option PossibleGap → PossibleGap
widen_gap now u gap =
    let g : PossibleGap = elim gap [
      | none ↦ record { deadline = now + possible_gap_timeout; updates = [] }
      | some g ↦ g
    ] in
    if ltb (length g.updates) max_held_updates
    then record g { updates = g.updates ++ (u ∷ []) }
    else g

-- The match on the order of the entry's and the update's positions.
pub apply_update : ℕ → PtsInfo → Update → LiveEntry → LiveEntry × List Delivered
unfolding widen_gap ◌+ℤ◌
apply_update now info u e = elim (cmp_ℤ (e.pts +ℤ info.count) info.pts) [
  | Ordering.eq ↦
      (record e { pts = info.pts; deadline = next_updates_deadline now }, (u, info) ∷ [])
  | Ordering.gt ↦ (e, [])
  | Ordering.lt ↦ (record e { possible_gap = some (widen_gap now u e.possible_gap) }, [])
]

abbrev pub leave_gap : LiveEntry → PossibleGap → Drained → Settled
leave_gap e g d = elim d.rest [
  | [] ↦ record {
    live = record e { pts = d.pts; possible_gap = none };
    delivered = d.delivered;
    gap_deadline = none;
  }
  | u ∷ us ↦ record {
    live = record e { pts = d.pts; possible_gap = some (record g { updates = reverse (u ∷ us) }) };
    delivered = d.delivered;
    gap_deadline = some g.deadline;
  }
]

-- With the entry's gap as the last argument.
pub settle_gap : LiveEntry → Option PossibleGap → Option Settled
unfolding drain
settle_gap e none = some (record { live = e; delivered = []; gap_deadline = none })
settle_gap e (some g) =
    Option.map (leave_gap e g) (drain e.pts (reverse (sort_updates_by_key above_by_key g.updates)))

-- The closure of `force_update_entry`.
pub settle : ℕ → PtsInfo → Update → LiveEntry → Option Settled
unfolding apply_update settle_gap
settle now info u e =
    let (e', first) = apply_update now info u e in
    Option.map (λ (s : Settled). record s { delivered = first ++ s.delivered })
      (settle_gap e' e'.possible_gap)

-- The state of the loop over the updates.
pub record Pass : Type 0 where
  pub boxes : MessageBoxes
  pub result : List (Update × State)
  pub unresolved : Bool

-- The arguments that all rounds share: the forced keys, the clock, the new date and sequence number.
pub record Round : Type 0 where
  pub force : List Key
  pub now : ℕ
  pub date : ℤ
  pub seq : ℤ

abbrev pub mk_state : Round → Option MessageBox → State
mk_state r box = record { date = r.date; seq = r.seq; message_box = box }

abbrev pub contains_key : Key → List Key → Bool
contains_key key [] = false
contains_key key (k ∷ ks) = eqb_key k key || contains_key key ks

abbrev pub is_none : Option LiveEntry → Bool
is_none none = true
is_none (some e) = false

abbrev pub yields : Round → List Delivered → List (Update × State)
yields r [] = []
yields r ((u, info) ∷ ds) = (u, mk_state r (some (message_box_of info))) ∷ yields r ds

abbrev pub push_result : Update × State → Pass → Pass
push_result x p = record p { result = p.result ++ (x ∷ []) }

-- `updateChannelTooLong`: a channel without an entry gets one, and recovery begins.
pub process_channel_too_long : ℕ → ℤ → Option ℤ → MessageBoxes → MessageBoxes
process_channel_too_long now id pts b =
    let key : Key = channel id in
    if is_getting_diff key b.entries
    then b
    else try_begin_get_diff key now (elim pts [
      | none ↦ b
      | some pts ↦
          if ltb_ℤ no_pts pts && is_none (entry key b.entries)
          then record b {
            entries = set_entry (quiet key pts (next_updates_deadline now)) b.entries;
          }
          else b
    ])

-- An update of a sequence that is in recovery: held for a channel, dropped for the account.
pub postpone_update : Key → Update → Pass → Pass
unfolding hold_channel_update
postpone_update key u p = elim key [
  | channel id ↦
      let h = hold_channel_update id (held_of p.boxes) u in
      record p {
        boxes = record p.boxes { held_updates = h.updates; held_overflowed = h.overflowed };
        unresolved = true;
      }
  | common ↦ record p { unresolved = true }
  | secondary ↦ record p { unresolved = true }
]

abbrev pub with_entry : ℕ → PtsInfo → Settled → MessageBoxes → MessageBoxes
with_entry now info s b = record b {
  entries =
      force_update_entry (quiet info.key (info.pts -ℤ info.count) (next_updates_deadline now))
        (λ _. s.live) b.entries;
  next_deadline = min b.next_deadline (or_else s.gap_deadline (next_updates_deadline now));
}

abbrev pub has_gap_left : Option ℕ → Bool
has_gap_left none = false
has_gap_left (some d) = true

-- An update whose order is checked.
unfoldable pub sequence_update : Round → PtsInfo → Update → Pass → Outcome MessageBoxes Pass
unfolding settle entry force_update_entry ◌-ℤ◌
sequence_update r info u p =
    let b = p.boxes in
    let new : LiveEntry = quiet info.key (info.pts -ℤ info.count) (next_updates_deadline r.now) in
    elim (settle r.now info u (or_new new (entry info.key b.entries))) [
      | none ↦ panic
      | some s ↦ ok (record {
        boxes = with_entry r.now info s b;
        result = p.result ++ yields r s.delivered;
        unresolved = p.unresolved || has_gap_left s.gap_deadline;
      })
    ]

-- A secondary update before there is a common position.
abbrev pub before_login : PtsInfo → MessageBoxes → Bool
before_login info b = eqb_key info.key secondary && is_none (entry common b.entries)

-- An update with sequence information; the error carries the state at the return of `Gap`.
unfoldable pub process_info : Round → PtsInfo → Update → Pass → Outcome MessageBoxes Pass
unfolding postpone_update sequence_update is_getting_diff entry
process_info r info u p =
    let b = p.boxes in
    if ltb_ℤ info.count (pos 0) || ltb_ℤ info.pts info.count
    then err (try_begin_get_diff info.key r.now b)
    else (if contains_key info.key r.force
        then ok (
            push_result (u, mk_state r (some (message_box_of info)))
              (record p { boxes = reset_deadline info.key (next_updates_deadline r.now) b }))
        else (if is_getting_diff info.key b.entries
            then ok (postpone_update info.key u p)
            else (if before_login info b
                then ok (push_result (u, mk_state r none) p)
                else sequence_update r info u p)))

abbrev pub process_ordered : Round → Update → Pass → Outcome MessageBoxes Pass
process_ordered r u p = elim (from_update u) [
  | none ↦ ok (push_result (u, mk_state r none) p)
  | some info ↦ process_info r info u p
]

-- `if let Update::ChannelTooLong(u)`
abbrev pub as_channel_too_long : UpdateKind → Option (ℤ × Option ℤ)
as_channel_too_long (UpdateKind.channel_too_long id pts) = some (id, pts)
as_channel_too_long _ = none

-- One round of the loop.
unfoldable pub process_update : Round → Update → Pass → Outcome MessageBoxes Pass
unfolding process_channel_too_long process_info from_update update_sort_key
process_update r u p = elim (as_channel_too_long u.kind) [
  | some (id, pts) ↦ ok (record p { boxes = process_channel_too_long r.now id pts p.boxes })
  | none ↦ process_ordered r u p
]

unfoldable pub process_all : Round → List Update → Pass → Outcome MessageBoxes Pass
process_all r [] p = ok p
process_all r (u ∷ us) p = process_update r u p >>= process_all r us

unfoldable pub all_valid : List Update → Bool
unfolding valid_update
all_valid [] = true
all_valid (u ∷ us) = valid_update u && all_valid us

-- The date and the sequence number advance when something was delivered and no gap is left.
pub finish : Round → Pass → MessageBoxes
finish r p = elim p.result [
  | [] ↦ p.boxes
  | x ∷ xs ↦ if p.unresolved then p.boxes else record p.boxes { date = r.date; seq = r.seq }
]

abbrev pub Processed : Type 0
Processed = (List (Update × State) × ℕ) × MessageBoxes

abbrev pub round_of : List Key → ℕ → Bool → Combined → MessageBoxes → Round
round_of force now account_pending c b = record {
  force = force;
  now = now;
  date = if eqb_ℤ c.date no_date || account_pending then b.date else c.date;
  seq = if eqb_ℤ c.seq no_seq || account_pending then b.seq else c.seq;
}

-- The part after the check of the sequence number.
unfoldable pub process_checked : Round → Combined → MessageBoxes → Outcome MessageBoxes Processed
unfolding process_update finish all_valid process_all sort_updates_by_key
process_checked r c b =
    if all_valid c.updates
    then (process_all r (sort_updates_by_key below_by_key c.updates)
          (record { boxes = b; result = []; unresolved = false })
        >>= λ p. ok ((p.result, c.peers), finish r p))
    else err (try_begin_get_diff common r.now b)

abbrev pub is_empty_keys : List Key → Bool
is_empty_keys [] = true
is_empty_keys (k ∷ ks) = false

abbrev pub account_pending : List Key → MessageBoxes → Bool
account_pending force b =
    is_empty_keys force && (is_getting_diff common b.entries || is_getting_diff secondary b.entries)

-- `adapted` is what the adaptor returns, `none` for its `Gap`.
unfoldable pub process_updates_inner :
    Option Combined → List Key → ℕ → MessageBoxes → Outcome MessageBoxes Processed
unfolding process_checked ◌+ℤ◌ is_getting_diff
process_updates_inner adapted force now b =
    let give_up = err (try_begin_get_diff common now b) in
    elim adapted [
      | none ↦ give_up
      | some c ↦
          let pending = account_pending force b in
          let r = round_of force now pending c b in
          if ltb_ℤ c.date (pos 0) || (ltb_ℤ c.seq (pos 0) || ltb_ℤ c.seq_start (pos 0))
          then give_up
          else (if eqb_ℤ c.seq_start no_seq || pending
              then process_checked r c b
              else elim (cmp_ℤ (b.seq +ℤ pos 1) c.seq_start) [
                | Ordering.eq ↦ process_checked r c b
                | Ordering.gt ↦ ok (([], c.peers), b)
                | Ordering.lt ↦ give_up
              ])
    ]

unfoldable pub process_updates : Option Combined → ℕ → MessageBoxes → Outcome MessageBoxes Processed
unfolding process_updates_inner
process_updates adapted now b = process_updates_inner adapted [] now b
