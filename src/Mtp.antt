-- ===== src/Mtp.antt =====
-- MTProto sessions (grammers-mtproto/src/mtp).
pub mod Replay
pub mod Session
mod Samples
pub mod Outgoing
pub mod Incoming
