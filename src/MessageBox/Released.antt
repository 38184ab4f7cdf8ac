-- ===== src/MessageBox/Released.antt =====
-- Releasing the held updates, and applying the difference of a channel (mod.rs).
pub mod Safe
pub mod Page
use grammers.Common.{
  ℕ, suc, ◌+◌, min, List, [], ◌∷◌, ◌++◌, Bool, true, false, not, ◌&&◌, ◌||◌, Option, none, some,
  if◌then◌else◌,
}
use mathlib.Core.Option
use grammers.Common.Int.{ℤ, pos, ltb_ℤ, eqb_ℤ, ◌+ℤ◌}
use grammers.Common.Outcome.{Outcome, ok, err, panic, ◌>>=◌}
use grammers.MessageBox.Defs.{
  Key, channel, Peer, Message, Update, UpdateKind, LiveEntry, MessageBoxes, MessageBox, State,
  PtsInfo, Gap, gap, no_pts,
}
use grammers.MessageBox.Updates.{from_update}
use grammers.MessageBox.Entries.{entry, is_getting_diff, update_entry}
use grammers.MessageBox.Recovery.{try_end_get_diff, reset_timeout, remove_key}
use grammers.MessageBox.Channels.{
  channel_in_diff, remove_channel, retain_contiguous_held_updates, schedule_channel_retry,
  next_failures,
}
use grammers.MessageBox.Load.{is_negative}
use grammers.MessageBox.Process.{Processed, process_updates_inner}
use grammers.MessageBox.Difference.{
  UpdateAndPeers, ChannelDifference, ChannelPage, Dialog, dialog, folder, community, page,
  unnumbered, expect, retain_valid_updates, set_position, adapt_channel_difference,
}

-- The position of an entry already covers the update.
abbrev pub covers_info : LiveEntry → Option PtsInfo → Bool
covers_info e none = false
covers_info e (some info) = ltb_ℤ info.pts (e.pts +ℤ info.count)

abbrev pub covers : Option LiveEntry → Update → Bool
covers none u = false
covers (some e) u = covers_info e (from_update u)

-- The held updates of channels in recovery stay held; of the others, those that are not covered are
-- released.
pub still_held : List LiveEntry → List (ℤ × Update) → List (ℤ × Update)
still_held es [] = []
still_held es ((id, u) ∷ hs) =
    let rest = still_held es hs in if is_getting_diff (channel id) es then (id, u) ∷ rest else rest

pub released : List LiveEntry → List (ℤ × Update) → List Update
released es [] = []
released es ((id, u) ∷ hs) =
    let rest = released es hs in
    if is_getting_diff (channel id) es || covers (entry (channel id) es) u then rest else u ∷ rest

abbrev pub taken : MessageBoxes → MessageBoxes
taken b = record b {
  held_release_ready = false;
  held_overflowed = false;
  held_updates = still_held b.entries b.held_updates;
}

-- `Result::ok`, with the state that either outcome leaves.
abbrev pub ok_or_none :
    Outcome MessageBoxes Processed → Outcome Gap (Option UpdateAndPeers × MessageBoxes)
ok_or_none (ok (result, b)) = ok (some result, b)
ok_or_none (err b) = ok (none, b)
ok_or_none panic = panic

pub take_released_updates : ℕ → MessageBoxes → Outcome Gap (Option UpdateAndPeers × MessageBoxes)
unfolding still_held released
take_released_updates now b =
    if b.held_release_ready
    then (elim (released b.entries b.held_updates) [
      | [] ↦ ok (none, taken b)
      | u ∷ us ↦ ok_or_none (process_updates_inner (some (unnumbered (u ∷ us) 0)) [] now (taken b))
    ])
    else ok (none, b)

unfoldable pub clear_entry : LiveEntry → LiveEntry
clear_entry e = record e {
  possible_gap = none;
  recovery_deferred = false;
  recovery_deferrals = 0;
  recovery_failures = 0;
  retry_not_before = none;
}

abbrev pub previous_failures : Option LiveEntry → ℕ
previous_failures none = 0
previous_failures (some e) = e.recovery_failures

abbrev pub cleared : ℤ → MessageBoxes → MessageBoxes
cleared id b = record b {
  exhausted_channels = remove_channel id b.exhausted_channels;
  entries = update_entry (channel id) clear_entry b.entries;
}

pub new_channel_messages_of : ℤ → ℤ → MessageBoxes → List (Message × ℕ) → List (Update × State)
new_channel_messages_of id pts b [] = []
new_channel_messages_of id pts b ((m, content) ∷ ms) =
    (
      record { kind = UpdateKind.new_channel_message m no_pts (pos 0); content = content },
      record { date = b.date; seq = b.seq; message_box = some (MessageBox.channel id pts) },
    )
    ∷ new_channel_messages_of id pts b ms

-- What a final page leaves beyond the channel's position waits for the next attempt.
pub wait_beyond : ℤ → ℤ → ℕ → ℕ → MessageBoxes → MessageBoxes
wait_beyond id pts failures now b =
    let (beyond, b1) = retain_contiguous_held_updates id pts b in
    elim beyond [
      | [] ↦ b1
      | u ∷ us ↦ schedule_channel_retry (channel id) (next_failures failures) (u ∷ us) now b1
    ]

-- A channel with more pages goes to the back of the queue.
pub to_back : Key → MessageBoxes → MessageBoxes
to_back key b = elim (remove_key key b.getting_diff_for) [
  | none ↦ b
  | some queue ↦ record b { getting_diff_for = queue ++ (key ∷ []) }
]

pub end_page : ℤ → ChannelPage → ℕ → ℕ → MessageBoxes → MessageBoxes
unfolding wait_beyond to_back
end_page id p failures now b =
    let reset = reset_timeout (channel id) p.timeout now b in
    if p.final then wait_beyond id p.pts failures now reset else to_back (channel id) reset

pub apply_page : ℤ → ChannelPage → ℕ → MessageBoxes → Outcome Gap Processed
unfolding new_channel_messages_of end_page
apply_page id p now b =
    let failures : ℕ = previous_failures (entry (channel id) b.entries) in
    let key : Key = channel id in
    (if p.final then try_end_get_diff key now (cleared id b) else ok (cleared id b)) >>= λ b1.
    expect (
      process_updates_inner (some (unnumbered (retain_valid_updates p.other_updates) p.peers))
        (key ∷ []) now (set_position key p.pts now b1))
    >>= λ processed.
        let ((result, peers), b2) = processed in
        ok (
          (result ++ new_channel_messages_of id p.pts b2 p.new_messages, peers),
          end_page id p failures now b2,
        )

unfoldable pub apply_channel_difference :
    ChannelDifference → ℕ → MessageBoxes → Outcome Gap Processed
unfolding apply_page
apply_channel_difference d now b = elim (channel_in_diff b.getting_diff_for) [
  | none ↦ panic
  | some id ↦ elim (adapt_channel_difference d) [ none ↦ panic | some p ↦ apply_page id p now b ]
]

abbrev pub is_peer_channel : ℤ → Peer → Bool
is_peer_channel id (Peer.channel i) = eqb_ℤ i id
is_peer_channel id (Peer.user i) = false
is_peer_channel id (Peer.chat i) = false

pub valid_dialog : ℤ → Dialog → Bool
valid_dialog id folder = false
valid_dialog id community = false
valid_dialog id (dialog peer none) = false
valid_dialog id (dialog peer (some pts)) = not (is_negative pts) && is_peer_channel id peer

pub valid_channel_difference : ℤ → ChannelDifference → Bool
unfolding valid_dialog
valid_channel_difference id (ChannelDifference.empty final pts timeout) = not (is_negative pts)
valid_channel_difference id (page p) = not (is_negative p.pts)
valid_channel_difference id (ChannelDifference.too_long final d timeout peers) = valid_dialog id d

-- An error leaves the state unchanged.
unfoldable pub try_apply_channel_difference :
    ChannelDifference → ℕ → MessageBoxes → Outcome Gap Processed
unfolding valid_channel_difference
try_apply_channel_difference d now b = elim (channel_in_diff b.getting_diff_for) [
  | none ↦ err gap
  | some id ↦ if valid_channel_difference id d then apply_channel_difference d now b else err gap
]
