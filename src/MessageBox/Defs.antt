-- ===== src/MessageBox/Defs.antt =====
-- grammers-session/src/message_box/defs.rs, and the sorted keys.
use grammers.Common.{ℕ, ◌*◌, ◌≡◌, refl, List, Bool, true, false, Option, arith}
use grammers.Common.Int.{ℤ, pos, ltb_ℤ, eqb_ℤ}

-- `NO_SEQ`, `NO_PTS` and `NO_DATE`.
abbrev pub no_seq : ℤ
no_seq = pos 0

abbrev pub no_pts : ℤ
no_pts = pos 0

abbrev pub no_date : ℤ
no_date = pos 0

abbrev pub possible_gap_timeout : ℕ
possible_gap_timeout = 500

abbrev pub no_updates_timeout : ℕ
no_updates_timeout = 15 * 60 * 1000

pub data Key : Type 0 where
  common secondary : Key
  channel : ℤ → Key

abbrev pub eqb_key : Key → Key → Bool
eqb_key common common = true
eqb_key secondary secondary = true
eqb_key (channel a) (channel b) = eqb_ℤ a b
eqb_key _ _ = false

abbrev pub ltb_key : Key → Key → Bool
ltb_key common common = false
ltb_key common secondary = true
ltb_key common (channel b) = true
ltb_key secondary (channel b) = true
ltb_key (channel a) (channel b) = ltb_ℤ a b
ltb_key _ _ = false

-- A message's peer, and the fields of an update that the code reads.
pub data Peer : Type 0 where
  user chat channel : ℤ → Peer

pub data Message : Type 0 where
  empty : Option Peer → Message
  message service : Peer → Message

-- One constructor for each kind of update with a sequence number; `other` stands for all kinds
-- without one.
pub data UpdateKind : Type 0 where
  new_message edit_message new_channel_message edit_channel_message : Message → ℤ → ℤ → UpdateKind
  delete_messages web_page read_messages_contents folder_peers : ℤ → ℤ → UpdateKind
  read_history_inbox read_history_outbox pinned_messages : Peer → ℤ → ℤ → UpdateKind
  channel_too_long : ℤ → Option ℤ → UpdateKind
  read_channel_inbox : ℤ → ℤ → UpdateKind
  delete_channel_messages channel_web_page pinned_channel_messages : ℤ → ℤ → ℤ → UpdateKind
  new_encrypted_message chat_participant channel_participant bot_stopped : ℤ → UpdateKind
  bot_chat_invite_requester bot_chat_boost bot_message_reaction : ℤ → UpdateKind
  bot_message_reactions bot_new_business_message bot_edit_business_message : ℤ → UpdateKind
  bot_purchased_paid_media : ℤ → UpdateKind
  bot_delete_business_message : ℤ → ℕ → UpdateKind
  other : UpdateKind

-- An update; `content` stands for all that the message box only carries along.
pub record Update : Type 0 where
  pub kind : UpdateKind
  pub content : ℕ

pub record PossibleGap : Type 0 where
  pub deadline : ℕ
  pub updates : List Update

pub record LiveEntry : Type 0 where
  pub key : Key
  pub pts : ℤ
  pub deadline : ℕ
  pub recovery_deferred : Bool
  pub recovery_pending : Bool
  pub recovery_deferrals : ℕ
  pub recovery_failures : ℕ
  pub retry_not_before : Option ℕ
  pub possible_gap : Option PossibleGap

-- Lists stand for the vector, the two queues (front first) and the set of channels.
pub record MessageBoxes : Type 0 where
  pub entries : List LiveEntry
  pub date : ℤ
  pub seq : ℤ
  pub getting_diff_for : List Key
  pub ready_diff_count : ℕ
  pub exhausted_channels : List ℤ
  pub held_updates : List (ℤ × Update)
  pub held_release_ready : Bool
  pub held_overflowed : Bool
  pub next_deadline : ℕ

pub record PtsInfo : Type 0 where
  pub key : Key
  pub pts : ℤ
  pub count : ℤ

pub data Gap : Type 0 where
  gap : Gap

pub data MessageBox : Type 0 where
  common : ℤ → MessageBox
  secondary : ℤ → MessageBox
  channel : ℤ → ℤ → MessageBox

pub record State : Type 0 where
  pub date : ℤ
  pub seq : ℤ
  pub message_box : Option MessageBox

-- Of crate::types.
pub record ChannelState : Type 0 where
  pub id : ℤ
  pub pts : ℤ

pub record UpdatesState : Type 0 where
  pub pts : ℤ
  pub qts : ℤ
  pub date : ℤ
  pub seq : ℤ
  pub channels : List ChannelState

pub eqb_ℤ→eq : (a b : ℤ) → eqb_ℤ a b ≡ true → a ≡ b
eqb_ℤ→eq a b h = ground arith

pub eqb_key→eq : (a b : Key) → eqb_key a b ≡ true → a ≡ b
eqb_key→eq common common h = refl
eqb_key→eq secondary secondary h = refl
eqb_key→eq (channel a) (channel b) h = ground (arith, eqb_ℤ→eq a b)
eqb_key→eq common secondary h = cc
eqb_key→eq common (channel b) h = cc
eqb_key→eq secondary common h = cc
eqb_key→eq secondary (channel b) h = cc
eqb_key→eq (channel a) common h = cc
eqb_key→eq (channel a) secondary h = cc

pub eqb_key_refl : (a : Key) → eqb_key a a ≡ true
eqb_key_refl common = refl
eqb_key_refl secondary = refl
eqb_key_refl (channel a) = ground arith

pub eqb_key_comm : (a b : Key) → eqb_key a b ≡ eqb_key b a
eqb_key_comm a b = ground arith

-- The derived order is strict and total.
pub ltb_key_trans : (a b c : Key) → ltb_key a b ≡ true → ltb_key b c ≡ true → ltb_key a c ≡ true
ltb_key_trans a b c p q = ground arith

pub ltb_key-total : (a b : Key) → ltb_key a b ≡ false → eqb_key a b ≡ false → ltb_key b a ≡ true
ltb_key-total a b p q = ground arith

pub ltb_key-ne : (a b : Key) → ltb_key a b ≡ true → eqb_key a b ≡ false
ltb_key-ne a b p = ground arith
