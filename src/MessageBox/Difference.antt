-- ===== src/MessageBox/Difference.antt =====
-- Applying the differences of the account, and what those of channels consist of (mod.rs,
-- adaptor.rs).
pub mod Accepted
pub mod Safe
use grammers.Common.{
  ℕ, suc, ◌+◌, ◌-◌, min, max, List, [], ◌∷◌, ◌++◌, Bool, true, false, not, ◌&&◌, ◌||◌, Option, none,
  some, if◌then◌else◌,
}
use mathlib.Core.Option
use grammers.Common.Int.{ℤ, pos, ltb_ℤ, eqb_ℤ, ◌+ℤ◌}
use grammers.Common.Outcome.{Outcome, ok, err, panic, ◌>>=◌}
use grammers.MessageBox.Defs.{
  Key, common, secondary, channel, Peer, Message, Update, UpdateKind, LiveEntry, MessageBoxes,
  MessageBox, State, PtsInfo, Gap, gap, no_pts, no_seq, no_date,
}
use grammers.MessageBox.Updates.{from_update, valid_update}
use grammers.MessageBox.Entries.{entry, is_getting_diff, set_pts, update_entry}
use grammers.MessageBox.Recovery.{try_end_get_diff, reset_timeout, remove_key}
use grammers.MessageBox.Channels.{
  channel_in_diff, remove_channel, retain_contiguous_held_updates, schedule_channel_retry,
  next_failures,
}
use grammers.MessageBox.Load.{is_negative}
use grammers.MessageBox.Process.{Combined, Processed, process_updates_inner}

-- Updates with their states, and the users and chats.
abbrev pub UpdateAndPeers : Type 0
UpdateAndPeers = List (Update × State) × ℕ

-- The message that a list of updates is processed as, with neither date nor sequence number.
abbrev pub unnumbered : List Update → ℕ → Combined
unnumbered us peers = record {
  date = no_date;
  seq_start = no_seq;
  seq = no_seq;
  updates = us;
  peers = peers;
}

-- `Result::expect`
abbrev pub expect : {E F A : Type 0} → Outcome E A → Outcome F A
expect (ok a) = ok a
expect (err e) = panic
expect panic = panic

unfoldable pub retain_valid_updates : List Update → List Update
retain_valid_updates [] = []
retain_valid_updates (u ∷ us) =
    let rest = retain_valid_updates us in if valid_update u then u ∷ rest else rest

-- The account's updates, and those of channels that are not in recovery.
abbrev pub wanted : List LiveEntry → Option PtsInfo → Bool
wanted es none = true
wanted es (some info) = elim info.key [
  | channel id ↦ not (is_getting_diff info.key es)
  | common ↦ true
  | secondary ↦ true
]

pub retain_wanted : List LiveEntry → List Update → List Update
retain_wanted es [] = []
retain_wanted es (u ∷ us) =
    let rest = retain_wanted es us in if wanted es (from_update u) then u ∷ rest else rest

-- The `State` of the server.
pub record ServerState : Type 0 where
  pub pts : ℤ
  pub qts : ℤ
  pub date : ℤ
  pub seq : ℤ

-- Messages come with the content that an update carries along.
pub record FullDifference : Type 0 where
  pub new_messages : List (Message × ℕ)
  pub new_encrypted_messages : List ℕ
  pub other_updates : List Update
  pub peers : ℕ
  pub state : ServerState

pub data Difference : Type 0 where
  empty : ℤ → ℤ → Difference
  full slice : FullDifference → Difference
  too_long : ℤ → Difference

abbrev pub state_of : ServerState → MessageBox → State
state_of s box = record { date = s.date; seq = s.seq; message_box = some box }

pub new_messages_of : ServerState → List (Message × ℕ) → List (Update × State)
new_messages_of s [] = []
new_messages_of s ((m, content) ∷ ms) =
    (
      record { kind = UpdateKind.new_message m no_pts (pos 0); content = content },
      state_of s (MessageBox.common s.pts),
    )
    ∷ new_messages_of s ms

pub new_encrypted_of : ServerState → List ℕ → List (Update × State)
new_encrypted_of s [] = []
new_encrypted_of s (content ∷ ms) =
    (
      record { kind = UpdateKind.new_encrypted_message no_pts; content = content },
      state_of s (MessageBox.secondary s.qts),
    )
    ∷ new_encrypted_of s ms

abbrev pub set_position : Key → ℤ → ℕ → MessageBoxes → MessageBoxes
set_position key pts now b = record b { entries = set_pts now key pts b.entries }

abbrev pub with_state : ServerState → ℕ → MessageBoxes → MessageBoxes
with_state s now b =
    set_position secondary s.qts now
      (set_position common s.pts now (record b { date = s.date; seq = s.seq }))

pub apply_difference_type : FullDifference → ℕ → MessageBoxes → Outcome Gap Processed
unfolding retain_valid_updates retain_wanted new_messages_of new_encrypted_of
apply_difference_type d now b =
    let b1 = with_state d.state now b in
    let us = retain_wanted b1.entries (retain_valid_updates d.other_updates) in
    expect (process_updates_inner (some (unnumbered us d.peers)) (common ∷ secondary ∷ []) now b1)
    >>= λ processed.
        let ((result, peers), b2) = processed in
        ok (
          (
            result
                ++ (new_messages_of d.state d.new_messages
                    ++ new_encrypted_of d.state d.new_encrypted_messages),
            peers,
          ),
          b2,
        )

-- The difference's state and updates, and whether it is the last one.
pub apply_part : Difference → ℕ → MessageBoxes → Outcome Gap (Bool × Processed)
unfolding apply_difference_type
apply_part (empty date seq) now b = ok (true, (([], 0), record b { date = date; seq = seq }))
apply_part (full d) now b = apply_difference_type d now b >>= λ r. ok (true, r)
apply_part (slice d) now b = apply_difference_type d now b >>= λ r. ok (false, r)
apply_part (too_long pts) now b = ok (true, (([], 0), set_position common pts now b))

pub end_account : ℕ → MessageBoxes → Outcome Gap MessageBoxes
end_account now b = try_end_get_diff common now b >>= λ b. try_end_get_diff secondary now b

abbrev pub account_recovering : MessageBoxes → Bool
account_recovering b = is_getting_diff common b.entries || is_getting_diff secondary b.entries

-- The `debug_assert` is a panic.
unfoldable pub apply_difference : Difference → ℕ → MessageBoxes → Outcome Gap Processed
unfolding apply_part end_account
apply_difference d now b =
    if account_recovering b
    then (apply_part d now b >>= λ part.
        let (last, (result, b1)) = part in
        if last then (end_account now b1 >>= λ b2. ok (result, b2)) else ok (result, b1))
    else panic

abbrev pub valid_state : ServerState → Bool
valid_state s =
    (not (is_negative s.pts) && not (is_negative s.qts))
    && (not (is_negative s.date) && not (is_negative s.seq))

pub valid_difference : Difference → Bool
valid_difference (empty date seq) = not (is_negative date) && not (is_negative seq)
valid_difference (too_long pts) = not (is_negative pts)
valid_difference (full d) = valid_state d.state
valid_difference (slice d) = valid_state d.state

-- An error leaves the state unchanged.
unfoldable pub try_apply_difference : Difference → ℕ → MessageBoxes → Outcome Gap Processed
unfolding valid_difference
try_apply_difference d now b =
    if not (account_recovering b)
    then err gap
    else (if valid_difference d then apply_difference d now b else err gap)

pub data Dialog : Type 0 where
  dialog : Peer → Option ℤ → Dialog
  folder community : Dialog

-- What `adapt_channel_difference` makes of a difference.
pub record ChannelPage : Type 0 where
  pub final : Bool
  pub pts : ℤ
  pub timeout : Option ℤ
  pub new_messages : List (Message × ℕ)
  pub other_updates : List Update
  pub peers : ℕ

pub data ChannelDifference : Type 0 where
  empty : Bool → ℤ → Option ℤ → ChannelDifference
  page : ChannelPage → ChannelDifference
  too_long : Bool → Dialog → Option ℤ → ℕ → ChannelDifference

-- `none` is a panic.
abbrev pub dialog_pts : Dialog → Option ℤ
dialog_pts (dialog peer pts) = pts
dialog_pts folder = none
dialog_pts community = none

unfoldable pub adapt_channel_difference : ChannelDifference → Option ChannelPage
adapt_channel_difference (ChannelDifference.empty final pts timeout) = some (record {
  final = final;
  pts = pts;
  timeout = timeout;
  new_messages = [];
  other_updates = [];
  peers = 0;
})
adapt_channel_difference (page p) = some p
adapt_channel_difference (ChannelDifference.too_long final d timeout peers) =
    Option.map
      (λ pts. record {
        final = final;
        pts = pts;
        timeout = timeout;
        new_messages = [];
        other_updates = [];
        peers = peers;
      })
      (dialog_pts d)
