-- ===== src/MessageBox/Recovery.antt =====
-- Beginning and ending recovery, and the deadlines (mod.rs).
use grammers.Common.{
  ℕ, ◌+◌, ◌-◌, ◌*◌, min, max, List, [], ◌∷◌, ◌++◌, Bool, true, false, not, ◌&&◌, ◌||◌, Option, none,
  some, if◌then◌else◌, ltb, leb, ◌==◌, length,
}
use mathlib.Core.Option
use grammers.Common.Int.{ℤ, pos, negsuc}
use grammers.Common.Outcome.{Outcome, ok, panic, ◌>>=◌}
use grammers.MessageBox.Defs.{
  Key, common, secondary, channel, eqb_key, Update, PossibleGap, LiveEntry, MessageBoxes, Gap,
  no_date, no_seq,
}
use grammers.MessageBox.Entries.{entry, update_entry, next_updates_deadline}

abbrev pub max_held_updates : ℕ
max_held_updates = 512

pub record Held : Type 0 where
  pub updates : List (ℤ × Update)
  pub overflowed : Bool

abbrev pub drop_front : List (ℤ × Update) → List (ℤ × Update)
drop_front [] = []
drop_front (h ∷ hs) = hs

unfoldable pub hold_channel_update : ℤ → Held → Update → Held
hold_channel_update id h u =
    if length h.updates == max_held_updates
    then record { updates = drop_front h.updates ++ ((id, u) ∷ []); overflowed = true }
    else record h { updates = h.updates ++ ((id, u) ∷ []) }

unfoldable pub hold_updates : ℤ → Held → List Update → Held
hold_updates id h [] = h
hold_updates id h (u ∷ us) = hold_updates id (hold_channel_update id h u) us

-- A channel's gap moves to the held updates; an account gap is dropped.
unfoldable pub hold_gap : Key → Option PossibleGap → Held → Held
hold_gap (channel id) (some gap) h = hold_updates id h gap.updates
hold_gap (channel id) none h = h
hold_gap common gap h = h
hold_gap secondary gap h = h

abbrev pub held_of : MessageBoxes → Held
held_of b = record { updates = b.held_updates; overflowed = b.held_overflowed }

-- `LiveEntry::effective_deadline`
pub effective_deadline : LiveEntry → ℕ
effective_deadline e =
    let due : ℕ = elim e.possible_gap [
      | some gap ↦ min gap.deadline e.deadline
      | none ↦ e.deadline
    ] in
    elim e.retry_not_before [ none ↦ due | some not_before ↦ max due not_before ]

unfoldable pub new : ℕ → MessageBoxes
new now = record {
  entries = [];
  date = no_date;
  seq = no_seq;
  getting_diff_for = [];
  ready_diff_count = 0;
  exhausted_channels = [];
  held_updates = [];
  held_release_ready = false;
  held_overflowed = false;
  next_deadline = next_updates_deadline now;
}

-- `filter(|not_before| *not_before > now)`
abbrev pub still_waiting : ℕ → Option ℕ → Option ℕ
still_waiting now none = none
still_waiting now (some t) = if ltb now t then some t else none

abbrev pub is_some : Option ℕ → Bool
is_some none = false
is_some (some t) = true

abbrev pub or_else : Option ℕ → ℕ → ℕ
or_else none d = d
or_else (some t) d = t

unfoldable pub begin_entry : ℕ → LiveEntry → LiveEntry
begin_entry now e =
    let not_before = still_waiting now e.retry_not_before in
    record e {
      possible_gap = none;
      recovery_pending = true;
      recovery_deferred = is_some not_before;
      recovery_deferrals = 0;
      deadline = or_else not_before e.deadline;
    }

-- What remains once an entry that is not pending has been found.
unfoldable pub begin_found : Key → ℕ → LiveEntry → MessageBoxes → MessageBoxes
unfolding begin_entry
begin_found key now e b =
    let h = hold_gap key e.possible_gap (held_of b) in
    let begun : MessageBoxes = record b {
      entries = update_entry key (begin_entry now) b.entries;
      held_updates = h.updates;
      held_overflowed = h.overflowed;
    } in
    elim (still_waiting now e.retry_not_before) [
      | some not_before ↦ record begun { next_deadline = min b.next_deadline not_before }
      | none ↦ record begun {
        getting_diff_for = b.getting_diff_for ++ (key ∷ []);
        ready_diff_count = b.ready_diff_count + 1;
      }
    ]

unfoldable pub try_begin_get_diff : Key → ℕ → MessageBoxes → MessageBoxes
unfolding begin_found
try_begin_get_diff key now b = elim (entry key b.entries) [
  | none ↦ b
  | some e ↦ if e.recovery_pending then b else begin_found key now e b
]

-- `position` and `VecDeque::remove`
unfoldable pub remove_key : Key → List Key → Option (List Key)
remove_key key [] = none
remove_key key (k ∷ ks) = if eqb_key k key then some ks else Option.map (◌∷◌ k) (remove_key key ks)

-- The earliest of `d` and the deadlines of the entries.
pub earliest : ℕ → List LiveEntry → ℕ
earliest d [] = d
earliest d (e ∷ es) = earliest (min d (effective_deadline e)) es

unfoldable pub reset_deadline : Key → ℕ → MessageBoxes → MessageBoxes
reset_deadline key deadline b =
    let es = update_entry key (λ e. record e { deadline = deadline }) b.entries in
    let old : ℕ = elim (entry key b.entries) [ some e ↦ e.deadline | none ↦ b.next_deadline ] in
    record b {
      entries = es;
      next_deadline =
          if b.next_deadline == old then earliest deadline es else min b.next_deadline deadline;
    }

-- `timeout` in seconds; a negative one counts as absent.
unfoldable pub reset_timeout : Key → Option ℤ → ℕ → MessageBoxes → MessageBoxes
unfolding reset_deadline
reset_timeout key timeout now b =
    reset_deadline key
      (elim timeout [
        | some (pos t) ↦ now + t * 1000
        | some (negsuc t) ↦ next_updates_deadline now
        | none ↦ next_updates_deadline now
      ])
      b

abbrev pub is_channel_key : Key → Bool
is_channel_key (channel id) = true
is_channel_key common = false
is_channel_key secondary = false

abbrev pub end_entry : LiveEntry → LiveEntry
end_entry e = record e {
  recovery_pending = false;
  recovery_deferred = false;
  recovery_deferrals = 0;
}

-- Takes the key off the queue, unless its retry is deferred. A key that is not queued, or a count
-- of 0, is a panic.
unfoldable pub unqueue : Key → LiveEntry → MessageBoxes → Outcome Gap MessageBoxes
unqueue key e b = if e.recovery_deferred then ok b else (elim (remove_key key b.getting_diff_for) [
  | none ↦ panic
  | some queue ↦
      if b.ready_diff_count == 0
      then panic
      else ok (record b { getting_diff_for = queue; ready_diff_count = b.ready_diff_count - 1 })
])

abbrev pub has_gap : Option LiveEntry → Bool
has_gap none = false
has_gap (some e) = elim e.possible_gap [ none ↦ false | some gap ↦ true ]

-- The `debug_assert` is a panic.
unfoldable pub try_end_get_diff : Key → ℕ → MessageBoxes → Outcome Gap MessageBoxes
unfolding unqueue reset_deadline
try_end_get_diff key now b = elim (entry key b.entries) [
  | none ↦ ok b
  | some e ↦
      if e.recovery_pending
      then (unqueue key e b >>= λ b.
          let ended : MessageBoxes = record b { entries = update_entry key end_entry b.entries } in
          let reset = reset_deadline key (next_updates_deadline now) ended in
          if has_gap (entry key reset.entries)
          then panic
          else ok
              (record reset { held_release_ready = b.held_release_ready || is_channel_key key }))
      else ok b
]

-- What the loop over the entries in `check_deadlines` adds to.
pub record Expired : Type 0 where
  pub queue : List Key
  pub ready : ℕ
  pub held : Held

-- A deferred retry that is due becomes ready.
unfoldable pub expire_deferral : ℕ → LiveEntry → Expired → LiveEntry × Expired
expire_deferral now e x =
    if e.recovery_deferred && leb e.deadline now
    then (
      record e { recovery_deferred = false },
      record x { queue = x.queue ++ (e.key ∷ []); ready = x.ready + 1 },
    )
    else (e, x)

-- An entry whose deadline has passed begins recovery.
unfoldable pub expire_deadline : ℕ → LiveEntry → Expired → LiveEntry × Expired
expire_deadline now e x =
    if leb (effective_deadline e) now && not e.recovery_pending
    then (
      record e {
        possible_gap = none;
        recovery_deferred = false;
        recovery_pending = true;
        recovery_deferrals = 0;
      },
      record {
        queue = x.queue ++ (e.key ∷ []);
        ready = x.ready + 1;
        held = hold_gap e.key e.possible_gap x.held;
      },
    )
    else (e, x)

unfoldable pub expire_entry : ℕ → LiveEntry → Expired → LiveEntry × Expired
unfolding expire_deferral expire_deadline
expire_entry now e x = let (e', x') = expire_deferral now e x in expire_deadline now e' x'

unfoldable pub expire_entries : ℕ → List LiveEntry → Expired → List LiveEntry × Expired
expire_entries now [] x = ([], x)
expire_entries now (e ∷ es) x =
    let (e', x') = expire_entry now e x in
    let (es', x'') = expire_entries now es x' in (e' ∷ es', x'')

-- The earliest deadline of the entries that are not in immediate recovery, if there are any.
pub next_wake : List LiveEntry → Option ℕ
next_wake [] = none
next_wake (e ∷ es) =
    let rest = next_wake es in
    if not e.recovery_pending || e.recovery_deferred
    then some (elim rest [ none ↦ effective_deadline e | some d ↦ min (effective_deadline e) d ])
    else rest

unfoldable pub check_deadlines : ℕ → MessageBoxes → ℕ × MessageBoxes
check_deadlines now b =
    let ready_deadline = min b.next_deadline now in
    if ltb now b.next_deadline
    then (if b.ready_diff_count == 0 then b.next_deadline else ready_deadline, b)
    else (let (es, x) =
          expire_entries now b.entries
            (record { queue = b.getting_diff_for; ready = b.ready_diff_count; held = held_of b }) in
        let wake = or_else (next_wake es) (next_updates_deadline now) in
        (
          if x.ready == 0 then wake else ready_deadline,
          record b {
            entries = es;
            getting_diff_for = x.queue;
            ready_diff_count = x.ready;
            held_updates = x.held.updates;
            held_overflowed = x.held.overflowed;
            next_deadline = wake;
          },
        ))
