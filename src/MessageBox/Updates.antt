-- ===== src/MessageBox/Updates.antt =====
-- The sequence information of an update (adaptor.rs) and the order in which updates are processed
-- (mod.rs).
pub mod Sorting
use grammers.Common.{
  ℕ, suc, zero, ◌+◌, ◌-◌, ◌%◌, ◌^◌, ◌≤◌, ◌≡◌, refl, ap, List, [], ◌∷◌, ◌++◌, Bool, true, false, not,
  ◌&&◌, ◌||◌, Option, none, some, ltb, leb, if◌then◌else◌, length, arith, inl, inr, Bool-cases,
}
use mathlib.Core.Option
use grammers.Common.Int.{ℤ, pos, negsuc, ltb_ℤ, eqb_ℤ, ◌-ℤ◌, as_signed}
use grammers.MessageBox.Defs.{
  Key, Peer, Message, UpdateKind, Update, PtsInfo, MessageBox, State, no_pts,
}

pub message_peer : Message → Option Peer
message_peer (Message.empty p) = p
message_peer (Message.message p) = some p
message_peer (Message.service p) = some p

abbrev pub channel_of : Option Peer → Option ℤ
channel_of (some (Peer.channel id)) = some id
channel_of (some (Peer.user id)) = none
channel_of (some (Peer.chat id)) = none
channel_of none = none

pub message_channel_id : Message → Option ℤ
message_channel_id (Message.empty p) = channel_of p
message_channel_id (Message.message p) = channel_of (some p)
message_channel_id (Message.service p) = channel_of (some p)

abbrev in_key : Key → ℤ → ℤ → PtsInfo
in_key key pts count = record { key = key; pts = pts; count = count }

abbrev in_channel : Option ℤ → ℤ → ℤ → Option PtsInfo
in_channel none pts count = none
in_channel (some id) pts count = some (in_key (Key.channel id) pts count)

-- `Self::raw_from_update`, in the order of the source's kinds.
pub raw_from_update : UpdateKind → Option PtsInfo
unfolding message_channel_id
raw_from_update (UpdateKind.new_message m pts count) = some (in_key Key.common pts count)
raw_from_update (UpdateKind.edit_message m pts count) = some (in_key Key.common pts count)
raw_from_update (UpdateKind.new_channel_message m pts count) =
    in_channel (message_channel_id m) pts count
raw_from_update (UpdateKind.edit_channel_message m pts count) =
    in_channel (message_channel_id m) pts count
raw_from_update (UpdateKind.delete_messages pts count) = some (in_key Key.common pts count)
raw_from_update (UpdateKind.web_page pts count) = some (in_key Key.common pts count)
raw_from_update (UpdateKind.read_messages_contents pts count) = some (in_key Key.common pts count)
raw_from_update (UpdateKind.folder_peers pts count) = some (in_key Key.common pts count)
raw_from_update (UpdateKind.read_history_inbox p pts count) = some (in_key Key.common pts count)
raw_from_update (UpdateKind.read_history_outbox p pts count) = some (in_key Key.common pts count)
raw_from_update (UpdateKind.pinned_messages p pts count) = some (in_key Key.common pts count)
raw_from_update (UpdateKind.channel_too_long id pts) =
    Option.map (λ pts. in_key (Key.channel id) pts (pos 0)) pts
raw_from_update (UpdateKind.read_channel_inbox id pts) = some (in_key (Key.channel id) pts (pos 0))
raw_from_update (UpdateKind.delete_channel_messages id pts count) =
    some (in_key (Key.channel id) pts count)
raw_from_update (UpdateKind.channel_web_page id pts count) =
    some (in_key (Key.channel id) pts count)
raw_from_update (UpdateKind.pinned_channel_messages id pts count) =
    some (in_key (Key.channel id) pts count)
raw_from_update (UpdateKind.new_encrypted_message qts) = some (in_key Key.secondary qts (pos 1))
raw_from_update (UpdateKind.chat_participant qts) = some (in_key Key.secondary qts (pos 1))
raw_from_update (UpdateKind.channel_participant qts) = some (in_key Key.secondary qts (pos 1))
raw_from_update (UpdateKind.bot_stopped qts) = some (in_key Key.secondary qts (pos 1))
raw_from_update (UpdateKind.bot_chat_invite_requester qts) = some (in_key Key.secondary qts (pos 1))
raw_from_update (UpdateKind.bot_chat_boost qts) = some (in_key Key.secondary qts (pos 1))
raw_from_update (UpdateKind.bot_message_reaction qts) = some (in_key Key.secondary qts (pos 1))
raw_from_update (UpdateKind.bot_message_reactions qts) = some (in_key Key.secondary qts (pos 1))
raw_from_update (UpdateKind.bot_new_business_message qts) = some (in_key Key.secondary qts (pos 1))
raw_from_update (UpdateKind.bot_edit_business_message qts) = some (in_key Key.secondary qts (pos 1))
raw_from_update (UpdateKind.bot_purchased_paid_media qts) = some (in_key Key.secondary qts (pos 1))
raw_from_update (UpdateKind.bot_delete_business_message qts messages) =
    some (in_key Key.secondary qts (as_signed (2 ^ 31) (messages % 2 ^ 32)))
raw_from_update UpdateKind.other = none

-- A sequence number of 0 means that the order is to be ignored.
unfoldable pub from_update : Update → Option PtsInfo
unfolding raw_from_update
from_update u = elim (raw_from_update u.kind) [
  | some info ↦ if eqb_ℤ info.pts no_pts then none else some info
  | none ↦ none
]

-- `PeerId::channel(id).is_some()`: the two ranges of channel identifiers.
unfoldable pub is_channel_id : ℤ → Bool
is_channel_id id =
    (ltb_ℤ (pos 0) id && not (ltb_ℤ (pos 997_852_516_352) id))
    || (not (ltb_ℤ id (pos 1_002_147_483_649)) && not (ltb_ℤ (pos 3_000_000_000_000) id))

abbrev pub is_channel : Option Peer → Bool
is_channel (some (Peer.channel id)) = true
is_channel (some (Peer.user id)) = false
is_channel (some (Peer.chat id)) = false
is_channel none = false

-- The peer of a message fits the kind of the update.
pub valid_peer : UpdateKind → Bool
unfolding message_peer
valid_peer (UpdateKind.new_message m pts count) = not (is_channel (message_peer m))
valid_peer (UpdateKind.edit_message m pts count) = not (is_channel (message_peer m))
valid_peer (UpdateKind.read_history_inbox p pts count) = not (is_channel (some p))
valid_peer (UpdateKind.read_history_outbox p pts count) = not (is_channel (some p))
valid_peer (UpdateKind.pinned_messages p pts count) = not (is_channel (some p))
valid_peer (UpdateKind.new_channel_message m pts count) = elim (message_peer m) [
  | none ↦ true
  | some p ↦ is_channel (some p)
]
valid_peer (UpdateKind.edit_channel_message m pts count) = elim (message_peer m) [
  | none ↦ true
  | some p ↦ is_channel (some p)
]
valid_peer _ = true

abbrev pub valid_key : Key → Bool
valid_key (Key.channel id) = is_channel_id id
valid_key Key.common = true
valid_key Key.secondary = true

unfoldable pub valid_info : PtsInfo → Bool
unfolding is_channel_id
valid_info info =
    not (ltb_ℤ info.count (pos 0))
    && ((eqb_ℤ info.pts no_pts || not (ltb_ℤ info.pts info.count)) && valid_key info.key)

unfoldable pub valid_update : Update → Bool
unfolding valid_peer valid_info raw_from_update
valid_update u =
    valid_peer u.kind
    && (elim (raw_from_update u.kind) [ none ↦ true | some info ↦ valid_info info ])

-- `i32::saturating_sub`
abbrev pub saturating_sub_i32 : ℤ → ℤ → ℤ
saturating_sub_i32 a b =
    let d = a -ℤ b in
    if ltb_ℤ d (negsuc (2 ^ 31 - 1))
    then negsuc (2 ^ 31 - 1)
    else if ltb_ℤ (pos (2 ^ 31 - 1)) d
    then pos (2 ^ 31 - 1)
    else d

unfoldable pub update_sort_key : Update → ℤ
unfolding ◌-ℤ◌
update_sort_key u = elim (from_update u) [
  | some info ↦ saturating_sub_i32 info.pts info.count
  | none ↦ no_pts
]

-- `MessageBox::from`
pub message_box_of : PtsInfo → MessageBox
message_box_of info = elim info.key [
  | Key.common ↦ MessageBox.common info.pts
  | Key.secondary ↦ MessageBox.secondary info.pts
  | Key.channel id ↦ MessageBox.channel id info.pts
]

abbrev pub max_insertion_sort_updates : ℕ
max_insertion_sort_updates = 32

-- Of the sorting, `before x y` says that the key of `x` is below that of `y`.
module _ (before : Update → Update → Bool) where
  -- `is_sorted_by_key`
  pub is_sorted : List Update → Bool
  is_sorted [] = true
  is_sorted (x ∷ xs) = elim xs [ [] ↦ true | y ∷ ys ↦ not (before y x) && is_sorted xs ]

  -- At the partition point of a sorted prefix: behind all that are not above it.
  unfoldable pub insert_after : Update → List Update → List Update
  insert_after x [] = x ∷ []
  insert_after x (y ∷ ys) = if before x y then x ∷ (y ∷ ys) else y ∷ insert_after x ys

  -- The rounds of the insertion sort, which have sorted the prefix.
  unfoldable pub insertion_rounds : List Update → List Update → List Update
  unfolding insert_after
  insertion_rounds prefix [] = prefix
  insertion_rounds prefix (x ∷ xs) = insertion_rounds (insert_after x prefix) xs

  -- In front of all that are not below it.
  unfoldable pub insert_before : Update → List Update → List Update
  insert_before x [] = x ∷ []
  insert_before x (y ∷ ys) = if before y x then y ∷ insert_before x ys else x ∷ y ∷ ys

  -- `slice::sort_by_key`, the stable sort of the standard library, which keeps equal elements in
  -- their order.
  unfoldable pub stable_sort : List Update → List Update
  unfolding insert_before
  stable_sort [] = []
  stable_sort (x ∷ xs) = insert_before x (stable_sort xs)

  unfoldable pub sort_updates_by_key : List Update → List Update
  unfolding is_sorted insertion_rounds stable_sort
  sort_updates_by_key xs =
      if is_sorted xs
      then xs
      else if ltb max_insertion_sort_updates (length xs)
      then stable_sort xs
      else insertion_rounds [] xs
