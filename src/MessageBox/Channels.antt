-- ===== src/MessageBox/Channels.antt =====
-- Getting, postponing and ending the difference of a channel, and the rest of the entry points that
-- change the table (mod.rs).
use grammers.Common.{
  ℕ, ◌+◌, ◌-◌, ◌*◌, ◌^◌, min, List, [], ◌∷◌, ◌++◌, Bool, true, false, ◌||◌, Option, none, some,
  if◌then◌else◌, leb, ◌==◌,
}
use mathlib.Core.Option
use Prim.Native.Nat.{Ordering}
use grammers.Common.Int.{ℤ, ltb_ℤ, eqb_ℤ, cmp_ℤ, ◌+ℤ◌}
use grammers.Common.Outcome.{Outcome, ok, panic, ◌>>=◌}
use grammers.MessageBox.Defs.{
  Key, common, secondary, channel, Update, PossibleGap, LiveEntry, MessageBoxes, Gap,
  no_updates_timeout,
}
use grammers.MessageBox.Updates.{from_update, update_sort_key, stable_sort}
use grammers.MessageBox.Entries.{
  entry, update_entry, pop_entry, set_entry, next_updates_deadline, quiet, has_primary_state,
}
use grammers.MessageBox.Recovery.{try_end_get_diff, remove_key, has_gap}

abbrev pub max_channel_deferrals : ℕ
max_channel_deferrals = 30

-- 2 ^ (failures - 1) seconds, from one second to a minute.
unfoldable pub channel_retry_delay : ℕ → ℕ
channel_retry_delay failures = min (2 ^ min (failures - 1) 6 * 1000) 60_000

-- `u8::saturating_add(1)` and `u8::saturating_sub(1)`.
abbrev pub next_failures : ℕ → ℕ
next_failures n = min (n + 1) 255

-- The first channel in the queue.
unfoldable pub channel_in_diff : List Key → Option ℤ
channel_in_diff [] = none
channel_in_diff (channel id ∷ ks) = some id
channel_in_diff (common ∷ ks) = channel_in_diff ks
channel_in_diff (secondary ∷ ks) = channel_in_diff ks

abbrev pub contains : List ℤ → ℤ → Bool
contains [] a = false
contains (x ∷ xs) a = eqb_ℤ x a || contains xs a

pub insert_channel : ℤ → List ℤ → List ℤ
insert_channel id xs = if contains xs id then xs else id ∷ xs

pub remove_channel : ℤ → List ℤ → List ℤ
remove_channel id [] = []
remove_channel id (x ∷ xs) = if eqb_ℤ x id then xs else x ∷ remove_channel id xs

abbrev pub grace_spent : Option LiveEntry → Bool
grace_spent none = false
grace_spent (some e) = leb max_channel_deferrals e.recovery_deferrals

abbrev pub is_exhausted : ℤ → MessageBoxes → Bool
is_exhausted id b = contains b.exhausted_channels id || grace_spent (entry (channel id) b.entries)

abbrev pub defer_entry : ℕ → LiveEntry → LiveEntry
defer_entry deadline e = record e {
  recovery_deferred = true;
  recovery_deferrals = e.recovery_deferrals + 1;
  deadline = deadline;
}

-- `expect("ready channel must be queued")` and the count's underflow are panics.
unfoldable pub postpone : ℤ → ℕ → MessageBoxes → Outcome Gap MessageBoxes
postpone id deadline b =
    if b.ready_diff_count == 0 then panic else (elim (remove_key (channel id) b.getting_diff_for) [
      | none ↦ panic
      | some queue ↦ ok (record b {
        entries = update_entry (channel id) (defer_entry deadline) b.entries;
        ready_diff_count = b.ready_diff_count - 1;
        getting_diff_for = queue;
        next_deadline = min b.next_deadline deadline;
      })
    ])

unfoldable pub give_up : ℤ → ℕ → MessageBoxes → Outcome Gap MessageBoxes
give_up id now b =
    try_end_get_diff (channel id) now
      (record b { exhausted_channels = insert_channel id b.exhausted_channels })
    >>= λ b. ok (record b { entries = pop_entry (channel id) b.entries })

unfoldable pub defer_channel_difference : ℕ → ℕ → MessageBoxes → Outcome Gap MessageBoxes
unfolding postpone give_up
defer_channel_difference retry_after now b = elim (channel_in_diff b.getting_diff_for) [
  | none ↦ panic
  | some id ↦
      if is_exhausted id b
      then give_up id now b
      else postpone id (now + min retry_after no_updates_timeout) b
]

unfoldable pub try_exhaust_channel_grace : MessageBoxes → Outcome Gap (Bool × MessageBoxes)
try_exhaust_channel_grace b = elim (channel_in_diff b.getting_diff_for) [
  | none ↦ panic
  | some id ↦
      if is_exhausted id b
      then ok (true, record b { exhausted_channels = insert_channel id b.exhausted_channels })
      else ok (false, b)
]

unfoldable pub channel_difference_accessible : MessageBoxes → Outcome Gap MessageBoxes
channel_difference_accessible b = elim (channel_in_diff b.getting_diff_for) [
  | none ↦ panic
  | some id ↦ ok (record b {
    exhausted_channels = remove_channel id b.exhausted_channels;
    entries = update_entry (channel id) (λ e. record e { recovery_deferrals = 0 }) b.entries;
  })
]

abbrev pub hasten_entry : ℕ → LiveEntry → LiveEntry
hasten_entry now e = record e {
  recovery_failures = e.recovery_failures - 1;
  retry_not_before = none;
  possible_gap = Option.map (λ (g : PossibleGap). record g { deadline = now }) e.possible_gap;
}

unfoldable pub retry_channel_without_delay : ℤ → ℕ → MessageBoxes → MessageBoxes
retry_channel_without_delay id now b = record b {
  entries = update_entry (channel id) (hasten_entry now) b.entries;
  next_deadline = if has_gap (entry (channel id) b.entries) then now else b.next_deadline;
}

-- The held updates of the channel, and those of others, each in order.
unfoldable pub held_for : ℤ → List (ℤ × Update) → List Update
held_for id [] = []
held_for id ((i, u) ∷ hs) = if eqb_ℤ i id then u ∷ held_for id hs else held_for id hs

unfoldable pub held_for_others : ℤ → List (ℤ × Update) → List (ℤ × Update)
held_for_others id [] = []
held_for_others id ((i, u) ∷ hs) =
    if eqb_ℤ i id then held_for_others id hs else (i, u) ∷ held_for_others id hs

abbrev pub before_by_key : Update → Update → Bool
before_by_key x y = ltb_ℤ (update_sort_key x) (update_sort_key y)

-- The loop over the channel's sorted updates: what stays held, and what lies beyond.
unfoldable pub split_contiguous :
    ℤ → List Update → List Update → List Update → List Update × List Update
split_contiguous pts kept beyond [] = (kept, beyond)
split_contiguous pts kept beyond (u ∷ us) = elim (from_update u) [
  | none ↦ split_contiguous pts kept beyond us
  | some info ↦ elim beyond [
    | b ∷ bs ↦ split_contiguous pts kept ((b ∷ bs) ++ (u ∷ [])) us
    | [] ↦ elim (cmp_ℤ (pts +ℤ info.count) info.pts) [
      | Ordering.eq ↦ split_contiguous info.pts (kept ++ (u ∷ [])) [] us
      | Ordering.gt ↦ split_contiguous pts kept [] us
      | Ordering.lt ↦ split_contiguous pts kept (u ∷ []) us
    ]
  ]
]

abbrev pub hold_all : ℤ → List Update → List (ℤ × Update)
hold_all id [] = []
hold_all id (u ∷ us) = (id, u) ∷ hold_all id us

unfoldable pub retain_contiguous_held_updates : ℤ → ℤ → MessageBoxes → List Update × MessageBoxes
unfolding held_for held_for_others split_contiguous
retain_contiguous_held_updates id pts b =
    let sorted = stable_sort before_by_key (held_for id b.held_updates) in
    let (kept, beyond) = split_contiguous pts [] [] sorted in
    (beyond, record b { held_updates = held_for_others id b.held_updates ++ hold_all id kept })

abbrev pub retry_entry : ℕ → ℕ → List Update → LiveEntry → LiveEntry
retry_entry failures retry_at beyond e = record e {
  recovery_failures = failures;
  retry_not_before = some retry_at;
  possible_gap = elim beyond [
    | [] ↦ e.possible_gap
    | u ∷ us ↦ some (record { deadline = retry_at; updates = u ∷ us })
  ];
}

unfoldable pub schedule_channel_retry : Key → ℕ → List Update → ℕ → MessageBoxes → MessageBoxes
schedule_channel_retry key failures beyond now b =
    let retry_at : ℕ = now + channel_retry_delay failures in
    record b {
      next_deadline = elim beyond [ [] ↦ b.next_deadline | u ∷ us ↦ min b.next_deadline retry_at ];
      entries = update_entry key (retry_entry failures retry_at beyond) b.entries;
    }

pub data PrematureEndReason : Type 0 where
  temporary_server_issues banned : PrematureEndReason

abbrev pub failures_of : Option LiveEntry → ℕ
failures_of none = 0
failures_of (some e) = next_failures e.recovery_failures

abbrev pub without_gap : ℤ → MessageBoxes → MessageBoxes
without_gap id b = record b {
  entries = update_entry (channel id) (λ e. record e { possible_gap = none }) b.entries;
}

unfoldable pub retry_later : ℤ → ℕ → ℕ → MessageBoxes → MessageBoxes
unfolding schedule_channel_retry retain_contiguous_held_updates
retry_later id failures now b = elim (entry (channel id) b.entries) [
  | none ↦ b
  | some e ↦
      let (beyond, b') = retain_contiguous_held_updates id e.pts b in
      schedule_channel_retry (channel id) failures beyond now b'
]

unfoldable pub end_channel_difference :
    PrematureEndReason → ℕ → MessageBoxes → Outcome Gap MessageBoxes
unfolding retry_later
end_channel_difference reason now b = elim (channel_in_diff b.getting_diff_for) [
  | none ↦ panic
  | some id ↦ try_end_get_diff (channel id) now (without_gap id b) >>= λ ended. elim reason [
    | temporary_server_issues ↦
        ok (retry_later id (failures_of (entry (channel id) b.entries)) now ended)
    | banned ↦ ok (record ended { entries = pop_entry (channel id) ended.entries })
  ]
]

abbrev pub discard_key : Key → ℕ → MessageBoxes → Outcome Gap MessageBoxes
discard_key key now b =
    try_end_get_diff key now b >>= λ b. ok (record b { entries = pop_entry key b.entries })

unfoldable pub discard_account_state : ℕ → MessageBoxes → Outcome Gap MessageBoxes
discard_account_state now b = discard_key common now b >>= λ b. discard_key secondary now b

-- The `State` of the server is given by its four numbers.
unfoldable pub with_account : ℤ → ℤ → ℤ → ℤ → ℕ → MessageBoxes → MessageBoxes
unfolding set_entry
with_account pts qts date seq now b =
    let deadline = next_updates_deadline now in
    record b {
      entries =
          set_entry (quiet secondary qts deadline)
            (set_entry (quiet common pts deadline) b.entries);
      date = date;
      seq = seq;
      next_deadline = min b.next_deadline deadline;
    }

-- The `debug_assert` is a panic.
unfoldable pub set_state : ℤ → ℤ → ℤ → ℤ → ℕ → MessageBoxes → Outcome Gap MessageBoxes
unfolding with_account
set_state pts qts date seq now b =
    if has_primary_state b then panic else ok (with_account pts qts date seq now b)

unfoldable pub try_set_channel_state : ℤ → ℤ → ℕ → MessageBoxes → MessageBoxes
try_set_channel_state id pts now b = elim (entry (channel id) b.entries) [
  | some e ↦ b
  | none ↦ record b {
    entries = set_entry (quiet (channel id) pts (next_updates_deadline now)) b.entries;
  }
]
