-- ===== src/MessageBox/Load.antt =====
-- Loading a saved state (mod.rs, `load` and `try_load`).
pub mod Valid
use grammers.Common.{
  ℕ, suc, ◌+◌, List, [], ◌∷◌, ◌++◌, Bool, true, false, not, ◌&&◌, ◌||◌, Option, none, some,
  if◌then◌else◌, length,
}
use grammers.Common.Int.{ℤ, pos, ltb_ℤ, eqb_ℤ}
use grammers.Common.Outcome.{Outcome, ok, err, panic}
use grammers.MessageBox.Defs.{
  Key, common, secondary, channel, eqb_key, ltb_key, LiveEntry, MessageBoxes, Gap, gap, no_pts,
  no_seq, no_date, UpdatesState, ChannelState,
}
use grammers.MessageBox.Updates.{is_channel_id}
use grammers.MessageBox.Entries.{quiet, next_updates_deadline}

abbrev pub max_ℤ : ℤ → ℤ → ℤ
max_ℤ a b = if ltb_ℤ a b then b else a

abbrev pub min_ℤ : ℤ → ℤ → ℤ
min_ℤ a b = if ltb_ℤ b a then b else a

abbrev pub is_negative : ℤ → Bool
is_negative a = ltb_ℤ a (pos 0)

abbrev pub valid_channel : ChannelState → Bool
valid_channel c = is_channel_id c.id && not (is_negative c.pts)

pub retain_valid_channels : List ChannelState → List ChannelState
unfolding is_channel_id
retain_valid_channels [] = []
retain_valid_channels (c ∷ cs) =
    let rest = retain_valid_channels cs in if valid_channel c then c ∷ rest else rest

-- The repairs at the head of `load`.
pub repair : UpdatesState → UpdatesState
unfolding retain_valid_channels
repair s =
    let pts = max_ℤ s.pts no_pts in
    let qts = max_ℤ s.qts no_pts in
    let channels = retain_valid_channels s.channels in
    if eqb_ℤ pts no_pts && ltb_ℤ no_pts qts
    then record { pts = pts; qts = no_pts; date = no_date; seq = no_seq; channels = channels }
    else record {
      pts = pts;
      qts = qts;
      date = max_ℤ s.date no_date;
      seq = max_ℤ s.seq no_seq;
      channels = channels;
    }

-- An entry whose recovery is pending.
abbrev pub recovering : Key → ℤ → ℕ → LiveEntry
recovering key pts deadline = record (quiet key pts deadline) { recovery_pending = true }

pub channel_entries : ℕ → List ChannelState → List LiveEntry
channel_entries deadline [] = []
channel_entries deadline (c ∷ cs) =
    let rest = channel_entries deadline cs in
    if ltb_ℤ (pos 0) c.id && ltb_ℤ no_pts c.pts
    then recovering (channel c.id) c.pts deadline ∷ rest
    else rest

abbrev pub account_entry : Key → ℤ → ℕ → List LiveEntry
account_entry key pts deadline = if ltb_ℤ no_pts pts then recovering key pts deadline ∷ [] else []

pub saved_entries : ℕ → UpdatesState → List LiveEntry
unfolding channel_entries
saved_entries deadline s =
    account_entry common s.pts deadline
    ++ (account_entry secondary s.qts deadline ++ channel_entries deadline s.channels)

-- The standard library's stable sort, as a stable insertion sort.
pub insert_by_key : LiveEntry → List LiveEntry → List LiveEntry
insert_by_key e [] = e ∷ []
insert_by_key e (x ∷ xs) = if ltb_key e.key x.key then e ∷ (x ∷ xs) else x ∷ insert_by_key e xs

pub sort_by_key : List LiveEntry → List LiveEntry → List LiveEntry
unfolding insert_by_key
sort_by_key sorted [] = sorted
sort_by_key sorted (e ∷ es) = sort_by_key (insert_by_key e sorted) es

-- `dedup_by`, from an entry that is kept on: the older position of a repeated key stays.
pub dedup_from : LiveEntry → List LiveEntry → List LiveEntry
dedup_from e [] = e ∷ []
dedup_from e (x ∷ xs) =
    let merged = dedup_from (record e { pts = min_ℤ e.pts x.pts }) xs in
    let apart = dedup_from x xs in if eqb_key x.key e.key then merged else e ∷ apart

pub dedup : List LiveEntry → List LiveEntry
unfolding dedup_from
dedup [] = []
dedup (e ∷ es) = dedup_from e es

abbrev pub keys : List LiveEntry → List Key
keys [] = []
keys (e ∷ es) = e.key ∷ keys es

abbrev pub loaded_boxes : ℕ → UpdatesState → List LiveEntry → MessageBoxes
loaded_boxes deadline s entries = record {
  entries = entries;
  date = s.date;
  seq = s.seq;
  getting_diff_for = keys entries;
  ready_diff_count = length (keys entries);
  exhausted_channels = [];
  held_updates = [];
  held_release_ready = false;
  held_overflowed = false;
  next_deadline = deadline;
}

unfoldable pub load : UpdatesState → ℕ → MessageBoxes
unfolding repair saved_entries sort_by_key dedup
load s now =
    let deadline : ℕ = next_updates_deadline now in
    let state = repair s in
    loaded_boxes deadline state (dedup (sort_by_key [] (saved_entries deadline state)))

pub all_channels_valid : List ChannelState → Bool
unfolding is_channel_id
all_channels_valid [] = true
all_channels_valid (c ∷ cs) = valid_channel c && all_channels_valid cs

pub try_load : UpdatesState → ℕ → Outcome Gap MessageBoxes
unfolding load all_channels_valid
try_load s now =
    if (is_negative s.pts || is_negative s.qts)
      || ((is_negative s.seq || is_negative s.date) || not (all_channels_valid s.channels))
    then err gap
    else ok (load s now)
