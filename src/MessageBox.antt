-- ===== src/MessageBox.antt =====
-- grammers-session/src/message_box: the update sequences of an account and of its channels.
-- An instant or duration is a number of milliseconds; the clock is read once in a call, and its
-- value is the argument `now`.
pub mod Defs
pub mod Updates
pub mod Entries
pub mod Recovery
pub mod Channels
pub mod Load
pub mod Delay
pub mod Invariant
pub mod Process
pub mod Difference
pub mod Released
pub mod Reachable
mod Runs
