-- ===== src/Lib.antt =====
-- Verification of the grammers workspace: a client library for Telegram's MTProto.
--
-- The program. A client turns requests into TL-encoded bytes (grammers-tl-types), puts them into
-- the messages of an encrypted MTProto session and frames its packets for a socket with one of
-- several transports (grammers-mtproto), on top of a byte buffer that grows at both ends
-- (grammers-crypto). A session numbers what it sends, acknowledges what it receives, and tells a
-- replayed packet from a new one. What the server pushes is put in order by the message box
-- (grammers-session), which detects gaps in the update sequences of the account and of each channel,
-- and says when the missing part must be fetched. Requests and updates travel between tasks through
-- an unbounded queue (grammers-mtsender).
--
-- The files.
--   Common.antt and Common/: numbers, bytes, bit operations, lists and outcomes that all models
--     share. An outcome is a value, an error value or a panic.
--   Buffer.antt: grammers-crypto/src/deque_buffer.rs. The record has the vector, its first used
--     index and the default capacity at the front; as_ref is the used part. Buffer/Contents.antt has
--     the refinement to plain lists.
--   Transport.antt and Transport/: grammers-mtproto/src/transport/mod.rs, abridged.rs,
--     intermediate.rs and full.rs. pack and unpack of each, with the state of the transport passed
--     along. Framing.antt of each has its bounds and framing, Full/RoundTrip.antt the round trip of
--     the full transport, Runs.antt the tests.
--   Tl.antt and Tl/: grammers-tl-types/src/serialize.rs and deserialize.rs. Serialize.antt and
--     Deserialize.antt are the hand-written encoders and decoders, RoundTrip.antt, Truncation.antt
--     and Safety.antt their theorems.
--   Mtp.antt and Mtp/: grammers-mtproto/src/mtp/. Replay.antt is replay.rs, with remember as one
--     function of the identifier and the history, its steps as functions; Replay/Ids.antt is the same
--     on plain identifiers, Replay/Shape.antt what a valid history is. Session.antt has the state
--     (struct Encrypted), its builder and the results of mod.rs. Outgoing.antt and
--     Outgoing/Requests.antt are the sending half of encrypted.rs, from get_new_msg_id to push and
--     finalize; Outgoing/Frames.antt says which messages a buffer holds. Incoming.antt has the decode
--     budget and the envelopes of manual_tl.rs, Incoming/Handlers.antt one function per handle_
--     method, and Incoming/Process.antt process_bounded, the containers and process_plaintext. The
--     other files of these folders hold the theorems.
--   Queue.antt and Queue/: grammers-mtsender/src/queue.rs. The state is what the lock guards, an
--     operation returns the waker that it takes. Queue/System.antt has the steps of a receiving task,
--     of senders and of the wake-ups on their way, in any order.
--   MessageBox.antt and MessageBox/: grammers-session/src/message_box/mod.rs, defs.rs and
--     adaptor.rs. Defs.antt has the state; Updates.antt the sequence information of updates, their
--     validation and their sorting; Entries.antt the sorted table of positions; Recovery.antt the
--     beginning and ending of recovery and the deadlines; Channels.antt the entry points for channel
--     differences; Load.antt the loading of saved state; Process.antt process_updates_inner;
--     Difference.antt the differences of the account; Released.antt the release of held updates and
--     the differences of a channel; Reachable.antt the state machine of all these calls. Delay.antt is
--     about the delay of retries. Invariant.antt states what a valid message box is: the table is
--     strictly sorted, the queue has exactly the keys whose recovery is to go on now, once each, its
--     count is its length, updates in gaps have sequence numbers, an account entry in recovery has no
--     gap, and held updates stay within their limit. Invariant/, Load/, Process/, Difference/ and Released/ are about how operations treat it.
--
-- How they interact. A transport extends the front of the buffer by a header and the back by a
-- trailer, so that its round trip rests on the buffer's refinement. The message box calls no other
-- part; processing calls the table, recovery and the held updates, and loading builds the state that
-- all its operations start from. An encrypted session keeps its replay history beside a floor: what
-- leaves the history raises the floor. A container's messages are decoded with the same budget, and
-- their identifiers are recorded at the end of the packet. The session writes its messages with the
-- encoders of TL.
--
-- Conventions and bounds.
--   A byte is a natural number; where a value must be below 256 a theorem says so. Machine integers
--   keep their wrap-around or their panic: an overflow is a panic, as in a build with overflow
--   checks. usize has 64 bits. Signed integers are those of Common/Int.antt.
--   An instant or a duration is a number of milliseconds, and the clock is read once in a call of
--   the message box; the value is an argument. Instants do not overflow.
--   A binary search in the table is a search from its front, which finds the same entry in a sorted
--   table; that the table stays sorted is part of the invariant. Deques, vectors and sets are lists.
--   The stable sort of the standard library is written as an insertion sort that keeps equal elements
--   in their order.
--   A session's clocks, the system's and the monotonic one, are arguments of the operations that read
--   them; get_new_msg_id reads its own. Overflow of an identifier or a sequence number is a panic.
--   An error's text is a number. A queue's waker is the number of its task.
--   Loops are structural recursions on a list or a count, but for the two that take off gzip
--   wrappers: they are given the work of the decode budget as their rounds, which is enough, since
--   each round spends some of it.
--   The checksum of the full transport (crc32fast) is a parameter, assumed to fit 32 bits where a
--   theorem says so. A float is the number of its bits. Logging is left out.
--   Encryption of a finished packet, gzip and the decoders that the build generates for service
--   messages are parameters; a decoder returns a value or an error, and decompression keeps
--   its limit, where a theorem says so.
--   The types that the build generates from TL schemas are not source. Of an update, the model keeps
--   the kind and the fields that the message box reads; the remainder is one number. The users and
--   chats of a message are carried along as one number.
--
-- Not modelled: the adaptor's conversion of short messages, the obfuscated transport, decryption of
-- packets, the plain session and the key exchange, the ciphers, the session storages, the sender
-- pool, the client and the TL parser and generator. Sockets, tasks and databases are input and
-- output.
pub mod Common
pub mod Buffer
pub mod Queue
pub mod Transport
pub mod Tl
pub mod MessageBox
pub mod Mtp
