-- ===== src/MessageBox/Runs.antt =====
-- Runs of the message box on small states: the theorems at concrete inputs.
use grammers.Common.{
  ◌⊎◌, ℕ, ◌≡◌, refl, List, [], ◌∷◌, ◌++◌, Bool, true, false, none, some, arith, map, ltb,
}
use grammers.Common.Int.{ℤ, pos, cmp_ℤ, ◌+ℤ◌}
use Prim.Native.Nat.{Ordering}
use grammers.MessageBox.Process.Gaps.{IsChain}
use grammers.Common.Outcome.{Outcome, ok, err, panic}
use grammers.MessageBox.Defs.{
  common, secondary, channel, Update, UpdateKind, Message, Peer, Gap, MessageBoxes, State,
  UpdatesState, PtsInfo, LiveEntry,
}
use grammers.MessageBox.Updates.{from_update, sort_updates_by_key, insertion_rounds, stable_sort}
use grammers.MessageBox.Updates.Sorting.{IsKeyOrder, InOrder, sort_updates_by_key_lem}
use grammers.MessageBox.Entries.{
  entry, is_getting_diff, has_primary_state, session_state, set_pts, update_entry,
}
use grammers.MessageBox.Recovery.{
  reset_timeout, try_begin_get_diff, hold_gap, new, try_end_get_diff, check_deadlines, remove_key,
}
use grammers.MessageBox.Invariant.{is_clear}
use grammers.MessageBox.Invariant.Account.{account-is_clear}
use mathlib.Core.List.{Perm}
use grammers.MessageBox.Channels.{
  retain_contiguous_held_updates, schedule_channel_retry, is_exhausted, channel_in_diff,
  defer_channel_difference, end_channel_difference, temporary_server_issues, with_account,
}
use grammers.MessageBox.Load.{load}
use grammers.MessageBox.Load.Valid.{load-IsValid}
use grammers.MessageBox.Invariant.{IsValid, count}
use grammers.MessageBox.Invariant.Recovery.{new-IsValid, try_end_get_diff-ok}
use grammers.MessageBox.Invariant.Channels.{
  Keeps, defer_channel_difference-Keeps, end_channel_difference-Keeps,
}
use grammers.MessageBox.Invariant.Account.{with_account-IsValid}
use grammers.MessageBox.Process.{
  Combined, Pass, Round, Processed, process_updates, process_updates_inner, sequence_update, yields,
  Delivered,
}
use grammers.MessageBox.Difference.{
  Difference, ChannelDifference, full, page, adapt_channel_difference, retain_valid_updates,
  try_apply_difference, apply_difference,
}
use grammers.MessageBox.Difference.Safe.{Survives, boxes_of, try_apply_difference-Survives}
use grammers.MessageBox.Released.{
  clear_entry, take_released_updates, try_apply_channel_difference, apply_channel_difference,
}
use grammers.MessageBox.Released.Safe.{of_taken, take_released_updates-Survives}
use grammers.MessageBox.Released.Page.{try_apply_channel_difference-Survives}
use grammers.MessageBox.Reachable.{restore, step, check, Reaches-IsValid}
use grammers.MessageBox.Process.Safety.{IsSafe, process_updates_inner-IsSafe}
use grammers.MessageBox.Process.Sequence.{
  sequence_update_contiguous, process_updates_ahead, entry_before,
}

-- An account and a channel saved twice.
abbrev saved : UpdatesState
saved = record {
  pts = pos 10;
  qts = pos 0;
  date = pos 5;
  seq = pos 3;
  channels = record { id = pos 7; pts = pos 20 } ∷ record { id = pos 7; pts = pos 18 } ∷ [];
}

abbrev catching_up : MessageBoxes
catching_up = load saved 0

load-IsValid_example : IsValid (load saved 0)
load-IsValid_example = load-IsValid saved 0

queued_test : catching_up.getting_diff_for ≡ common ∷ channel (pos 7) ∷ []
unfolding load
queued_test = refl

-- Of the two saved positions, the older one is kept.
older_test :
    session_state catching_up ≡ record saved { channels = record { id = pos 7; pts = pos 18 } ∷ [] }
unfolding load session_state
older_test = refl

channel_first : channel_in_diff catching_up.getting_diff_for ≡ some (pos 7)
unfolding load channel_in_diff
channel_first = refl

try_end_get_diff-ok_example :
    (b' : MessageBoxes) × (try_end_get_diff common 1 catching_up ≡ ok b')
    × IsValid b'
    × (count common b'.getting_diff_for ≡ 0)
    × (is_getting_diff common b'.entries ≡ false)
try_end_get_diff-ok_example =
    try_end_get_diff-ok common 1 catching_up (load-IsValid saved 0)
      (account-is_clear common catching_up (load-IsValid saved 0) refl)

defer_channel_difference-Keeps_example :
    Keeps (defer_channel_difference 2000 1 catching_up)
    ⊎ ((is_exhausted (pos 7) catching_up ≡ true)
        × (is_clear (entry (channel (pos 7)) catching_up.entries) ≡ false)
        × (defer_channel_difference 2000 1 catching_up ≡ panic))
defer_channel_difference-Keeps_example =
    defer_channel_difference-Keeps 2000 1 catching_up (pos 7) (load-IsValid saved 0) channel_first

end_channel_difference-Keeps_example :
    Keeps (end_channel_difference temporary_server_issues 1 catching_up)
end_channel_difference-Keeps_example =
    end_channel_difference-Keeps temporary_server_issues 1 catching_up (pos 7)
      (load-IsValid saved 0) channel_first

-- A fresh account that has learned its position and one channel's.
abbrev known : MessageBoxes
known = with_account (pos 10) (pos 0) (pos 5) (pos 3) 0 (new 0)

none_common : count common (new 0).getting_diff_for ≡ 0
unfolding new count
none_common = refl

none_secondary : count secondary (new 0).getting_diff_for ≡ 0
unfolding new count
none_secondary = refl

absent_common : entry common (new 0).entries ≡ none
unfolding new entry
absent_common = refl

absent_secondary : entry secondary (new 0).entries ≡ none
unfolding new entry
absent_secondary = refl

known-IsValid : IsValid known
known-IsValid =
    with_account-IsValid (pos 10) (pos 0) (pos 5) (pos 3) 0 (new 0) (new-IsValid 0) none_common
      none_secondary

-- Updates that bring the account from 10 to 12, the later one first.
abbrev first_update : Update
first_update = record { kind = UpdateKind.delete_messages (pos 11) (pos 1); content = 1 }

abbrev second_update : Update
second_update = record { kind = UpdateKind.delete_messages (pos 12) (pos 1); content = 2 }

abbrev in_message : ℤ → Combined
in_message seq_start = record {
  date = pos 6;
  seq_start = seq_start;
  seq = seq_start;
  updates = second_update ∷ first_update ∷ [];
  peers = 9;
}

abbrev contents : Outcome MessageBoxes Processed → List ℕ
contents (ok ((us, peers), b)) = map (λ (u : Update × State). u.0.content) us
contents (err b) = []
contents panic = []

in_order_test : contents (process_updates (some (in_message (pos 4))) 1 known) ≡ 1 ∷ 2 ∷ []
unfolding process_updates with_account new
in_order_test = refl

process_updates_inner-IsSafe_example :
    IsSafe (λ (x : Processed). x.1) (process_updates_inner (some (in_message (pos 4))) [] 1 known)
process_updates_inner-IsSafe_example =
    process_updates_inner-IsSafe (some (in_message (pos 4))) [] 1 known known-IsValid

idle_common : is_getting_diff common known.entries ≡ false
unfolding with_account new is_getting_diff
idle_common = refl

idle_secondary : is_getting_diff secondary known.entries ≡ false
unfolding with_account new is_getting_diff
idle_secondary = refl

seq_ahead : cmp_ℤ (known.seq +ℤ pos 1) (pos 9) ≡ Ordering.lt
unfolding with_account ◌+ℤ◌
seq_ahead = refl

process_updates_ahead_example :
    (b' : MessageBoxes) × (process_updates (some (in_message (pos 9))) 1 known ≡ err b')
    × (is_getting_diff common b'.entries ≡ has_primary_state known)
process_updates_ahead_example =
    process_updates_ahead (in_message (pos 9)) 1 known refl refl idle_common idle_secondary
      seq_ahead

abbrev round : Round
round = record { force = []; now = 1; date = pos 6; seq = pos 4 }

abbrev start : Pass
start = record { boxes = known; result = []; unresolved = false }

abbrev first_info : PtsInfo
first_info = record { key = common; pts = pos 11; count = pos 1 }

first_sequenced : from_update first_update ≡ some first_info
unfolding from_update
first_sequenced = refl

sequence_update_contiguous_example :
    (q : Pass) × (e : LiveEntry) × (ds : List Delivered) × (sequence_update round first_info
        first_update start
      ≡ ok q)
    × (q.result ≡ [] ++ yields round ds)
    × (entry common q.boxes.entries ≡ some e)
    × IsChain (entry_before round first_info known).pts ds e.pts
sequence_update_contiguous_example =
    sequence_update_contiguous round first_info first_update start first_sequenced known-IsValid

abbrev by_content : Update → Update → Bool
by_content x y = ltb x.content y.content

by_content-IsKeyOrder : IsKeyOrder by_content
by_content-IsKeyOrder = (λ x y h. ground arith, λ x y z h k. ground arith)

sort_updates_by_key_lem_example :
    (sort_updates_by_key by_content (second_update ∷ first_update ∷ [])
      ≡ stable_sort by_content (second_update ∷ first_update ∷ []))
    × (sort_updates_by_key by_content (second_update ∷ first_update ∷ [])
        ≡ insertion_rounds by_content [] (second_update ∷ first_update ∷ []))
    × InOrder by_content (sort_updates_by_key by_content (second_update ∷ first_update ∷ []))
    × Perm
        (sort_updates_by_key by_content (second_update ∷ first_update ∷ []))
        (second_update ∷ first_update ∷ [])
sort_updates_by_key_lem_example =
    sort_updates_by_key_lem by_content by_content-IsKeyOrder (second_update ∷ first_update ∷ [])

-- A channel's last page, and the account's whole difference.
abbrev last_page : ChannelDifference
last_page = page (record {
  final = true;
  pts = pos 21;
  timeout = none;
  new_messages = (Message.message (Peer.channel (pos 7)), 3) ∷ [];
  other_updates = [];
  peers = 4;
})

abbrev whole : Difference
whole = full (record {
  new_messages = (Message.message (Peer.user (pos 5)), 8) ∷ [];
  new_encrypted_messages = [];
  other_updates = first_update ∷ [];
  peers = 6;
  state = record { pts = pos 12; qts = pos 1; date = pos 6; seq = pos 4 };
})

abbrev delivered : Outcome Gap Processed → List ℕ
delivered (ok ((us, peers), b)) = map (λ (u : Update × State). u.0.content) us
delivered (err e) = []
delivered panic = []

whole_test : delivered (try_apply_difference whole 1 catching_up) ≡ 1 ∷ 8 ∷ []
unfolding try_apply_difference apply_difference load is_getting_diff process_updates_inner
    try_end_get_diff set_pts remove_key
whole_test = refl

last_page_test : delivered (try_apply_channel_difference last_page 1 catching_up) ≡ 3 ∷ []
unfolding try_apply_channel_difference apply_channel_difference adapt_channel_difference clear_entry
    retain_valid_updates load channel_in_diff entry update_entry process_updates_inner
    try_end_get_diff set_pts remove_key
last_page_test = refl

try_apply_difference-Survives_example : Survives boxes_of (try_apply_difference whole 1 catching_up)
try_apply_difference-Survives_example =
    try_apply_difference-Survives whole 1 catching_up (load-IsValid saved 0)

try_apply_channel_difference-Survives_example :
    Survives boxes_of (try_apply_channel_difference last_page 1 catching_up)
try_apply_channel_difference-Survives_example =
    try_apply_channel_difference-Survives last_page 1 catching_up (load-IsValid saved 0)

take_released_updates-Survives_example : Survives of_taken (take_released_updates 1 catching_up)
take_released_updates-Survives_example =
    take_released_updates-Survives 1 catching_up (load-IsValid saved 0)

Reaches-IsValid_example : IsValid (check_deadlines 1_000_000 catching_up).1
Reaches-IsValid_example = Reaches-IsValid (step (restore saved 0) (check 1_000_000))

-- An update of the channel that is ahead of its position, and one that asks for its difference.
abbrev far_update : Update
far_update = record {
  kind = UpdateKind.new_channel_message (Message.message (Peer.channel (pos 7))) (pos 25) (pos 1);
  content = 7;
}

abbrev asking_update : Update
asking_update = record { kind = UpdateKind.channel_too_long (pos 7) none; content = 0 }

abbrev far_message : Combined
far_message = record {
  date = pos 6;
  seq_start = pos 0;
  seq = pos 0;
  updates = far_update ∷ [];
  peers = 0;
}

abbrev waiting : MessageBoxes
waiting = record catching_up { held_updates = (pos 7, far_update) ∷ [] }

abbrev boxes_after : Outcome MessageBoxes Processed → MessageBoxes
boxes_after (ok (r, b)) = b
boxes_after (err b) = b
boxes_after panic = new 0

-- The update is held while the channel is in recovery.
waiting_test :
    (boxes_after (process_updates (some far_message) 1 catching_up)).held_updates
    ≡ waiting.held_updates
unfolding process_updates process_updates_inner load entry update_entry is_getting_diff
waiting_test = refl

abbrev asking_page : ChannelDifference
asking_page = page (record {
  final = true;
  pts = pos 21;
  timeout = none;
  new_messages = [];
  other_updates = asking_update ∷ [];
  peers = 4;
})

abbrev clear_after : Outcome Gap Processed → Bool
clear_after (ok (r, b)) = is_clear (entry (channel (pos 7)) b.entries)
clear_after (err e) = true
clear_after panic = true

-- While the last page of a channel asks for its difference again, updates beyond the page become a
-- gap of an entry that is in recovery.
asking_page_test : clear_after (try_apply_channel_difference asking_page 1 waiting) ≡ false
unfolding try_apply_channel_difference apply_channel_difference adapt_channel_difference clear_entry
    retain_valid_updates load channel_in_diff entry update_entry process_updates_inner
    try_end_get_diff set_pts remove_key retain_contiguous_held_updates reset_timeout
    try_begin_get_diff hold_gap schedule_channel_retry
asking_page_test = refl
