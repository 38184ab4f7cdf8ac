-- ===== src/MessageBox/Entries.antt =====
-- The table of live entries (mod.rs), sorted by key. `binary_search_by_key` finds an entry of the
-- key or the place where it belongs; here the search goes through the list from its front.
pub mod Lookup
pub mod Sorted
use grammers.Common.{ℕ, ◌+◌, List, [], ◌∷◌, Bool, true, false, Option, none, some, if◌then◌else◌}
use grammers.Common.Int.{ℤ, pos}
use grammers.MessageBox.Defs.{
  Key, common, secondary, channel, eqb_key, ltb_key, LiveEntry, MessageBoxes, ChannelState,
  UpdatesState, no_pts, no_updates_timeout,
}

abbrev pub next_updates_deadline : ℕ → ℕ
next_updates_deadline now = now + no_updates_timeout

-- An entry outside of recovery and without a gap.
abbrev pub quiet : Key → ℤ → ℕ → LiveEntry
quiet key pts deadline = record {
  key = key;
  pts = pts;
  deadline = deadline;
  recovery_deferred = false;
  recovery_pending = false;
  recovery_deferrals = 0;
  recovery_failures = 0;
  retry_not_before = none;
  possible_gap = none;
}

unfoldable pub entry : Key → List LiveEntry → Option LiveEntry
entry key [] = none
entry key (e ∷ es) = if eqb_key e.key key then some e else entry key es

abbrev pub pending_of : Option LiveEntry → Bool
pending_of none = false
pending_of (some e) = e.recovery_pending

unfoldable pub is_getting_diff : Key → List LiveEntry → Bool
unfolding entry
is_getting_diff key es = pending_of (entry key es)

-- `update_entry`, whose result is whether there is an entry.
unfoldable pub update_entry : Key → (LiveEntry → LiveEntry) → List LiveEntry → List LiveEntry
update_entry key f [] = []
update_entry key f (e ∷ es) = if eqb_key e.key key then f e ∷ es else e ∷ update_entry key f es

-- `Vec::insert` at the place that the search returns.
pub insert_entry : LiveEntry → List LiveEntry → List LiveEntry
insert_entry new [] = new ∷ []
insert_entry new (e ∷ es) =
    if ltb_key new.key e.key then new ∷ (e ∷ es) else e ∷ insert_entry new es

unfoldable pub set_entry : LiveEntry → List LiveEntry → List LiveEntry
unfolding entry update_entry insert_entry
set_entry new es = elim (entry new.key es) [
  | some _ ↦ update_entry new.key (λ _. new) es
  | none ↦ insert_entry new es
]

unfoldable pub force_update_entry :
    LiveEntry → (LiveEntry → LiveEntry) → List LiveEntry → List LiveEntry
unfolding entry update_entry insert_entry
force_update_entry new f es = elim (entry new.key es) [
  | some _ ↦ update_entry new.key f es
  | none ↦ insert_entry (f new) es
]

unfoldable pub set_pts : ℕ → Key → ℤ → List LiveEntry → List LiveEntry
unfolding entry update_entry set_entry
set_pts now key pts es = elim (entry key es) [
  | some _ ↦ update_entry key (λ e. record e { pts = pts }) es
  | none ↦ set_entry (quiet key pts (next_updates_deadline now)) es
]

pub pop_entry : Key → List LiveEntry → List LiveEntry
pop_entry key [] = []
pop_entry key (e ∷ es) = if eqb_key e.key key then es else e ∷ pop_entry key es

abbrev pub pts_or_none : Option LiveEntry → ℤ
pts_or_none none = no_pts
pts_or_none (some e) = e.pts

pub channel_states : List LiveEntry → List ChannelState
channel_states [] = []
channel_states (e ∷ es) =
    let rest = channel_states es in
    elim e.key [
      | channel id ↦ record { id = id; pts = e.pts } ∷ rest
      | common ↦ rest
      | secondary ↦ rest
    ]

unfoldable pub session_state : MessageBoxes → UpdatesState
unfolding entry channel_states
session_state b = record {
  pts = pts_or_none (entry common b.entries);
  qts = pts_or_none (entry secondary b.entries);
  date = b.date;
  seq = b.seq;
  channels = channel_states b.entries;
}

unfoldable pub has_primary_state : MessageBoxes → Bool
unfolding entry
has_primary_state b = elim (entry common b.entries) [ none ↦ false | some _ ↦ true ]
