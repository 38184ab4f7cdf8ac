-- ===== src/Transport/Runs.antt =====
-- Packets of each framing, and the framing theorems at them.
use grammers.Common.{ℕ, ◌≤◌, ◌^◌, ◌%◌, ◌≡◌, refl, List, [], ◌∷◌, ◌++◌, true, false, arith, length}
use grammers.Common.Bytes.{from_le}
use grammers.Common.Int.{pos, ◌+ℤ◌}
use grammers.Common.Outcome.{ok, err, slice}
use grammers.Buffer
use grammers.Buffer.{DequeBuffer}
use grammers.Buffer.Contents
use grammers.Buffer.Contents.{IsValid}
use grammers.Transport.{Error, missing_bytes, bad_seq, UnpackedOffset}
use grammers.Transport.Abridged
use grammers.Transport.Abridged.{Abridged}
use grammers.Transport.Intermediate
use grammers.Transport.Intermediate.{Intermediate}
use grammers.Transport.Full
use grammers.Transport.Full.{Full}

abbrev payload : List ℕ
payload = 1 ∷ 2 ∷ 3 ∷ 4 ∷ 5 ∷ 6 ∷ 7 ∷ 8 ∷ []

-- Two free places in front, then the payload.
abbrev loaded : DequeBuffer ℕ
loaded = record { buffer = 0 ∷ 0 ∷ payload; head = 2; default_head = 2 }

loaded-IsValid : IsValid loaded
loaded-IsValid = omega arith

abbrev status : DequeBuffer ℕ
status = record { buffer = 0x6c ∷ 0xfe ∷ 0xff ∷ 0xff ∷ []; head = 0; default_head = 0 }

abbrev fresh : Abridged
fresh = record { init = false }

abbrev begun : Intermediate
begun = record { init = true }

abbrev counters : Full
counters = record { send_seq = pos 5; recv_seq = pos 5 }

-- A stand-in for the checksum: the number of bytes.
abbrev count_bytes : List ℕ → ℕ
count_bytes bytes = length bytes % 2 ^ 32

abbrev numbered : List ℕ
numbered = 20 ∷ 0 ∷ 0 ∷ 0 ∷ 5 ∷ 0 ∷ 0 ∷ 0 ∷ (payload ++ (16 ∷ 0 ∷ 0 ∷ 0 ∷ 99 ∷ []))

abbrev counted : Full
counted = record { send_seq = pos 5; recv_seq = pos 6 }

abbrev numbered_offset : UnpackedOffset
numbered_offset = record { data_start = 8; data_end = 16; next_offset = 20 }

accepts_numbered : Full.unpack count_bytes counters numbered ≡ ok (counted, numbered_offset)
unfolding Full.unpack Full.read_header Full.check_crc Full.add_i32 from_le ◌+ℤ◌
accepts_numbered = refl

abbrev short_offset : UnpackedOffset
short_offset = record { data_start = 1; data_end = 9; next_offset = 9 }

accepts_short : Abridged.unpack fresh (2 ∷ (payload ++ (7 ∷ []))) ≡ ok short_offset
unfolding Abridged.unpack Abridged.read_header Abridged.check_status
accepts_short = refl

abbrev sized_offset : UnpackedOffset
sized_offset = record { data_start = 4; data_end = 12; next_offset = 12 }

accepts_sized : Intermediate.unpack begun (8 ∷ 0 ∷ 0 ∷ 0 ∷ payload) ≡ ok sized_offset
unfolding Intermediate.unpack Intermediate.check_status from_le
accepts_sized = refl

abridged_unpack-pack_example :
    (d' : DequeBuffer ℕ) × (frame : List ℕ) × (o : UnpackedOffset) × (Abridged.pack fresh loaded
      ≡ ok (record { init = true }, d'))
    × (Buffer.as_ref d' ≡ 0xef ∷ frame)
    × (Abridged.unpack (record { init = true }) (frame ++ (9 ∷ [])) ≡ ok o)
    × (o.next_offset ≡ length frame)
    × (slice {E = Error} (frame ++ (9 ∷ [])) o.data_start o.data_end ≡ ok (Buffer.as_ref loaded))
unfolding Buffer.as_ref
abridged_unpack-pack_example =
    Abridged.Framing.abridged_unpack-pack fresh loaded (9 ∷ []) 2 loaded-IsValid refl (omega arith)
      (omega arith)

intermediate_unpack-pack_example :
    (d' : DequeBuffer ℕ) × (bytes : List ℕ) × (o : UnpackedOffset) × (Intermediate.pack begun loaded
      ≡ ok (record { init = true }, d'))
    × (Buffer.as_ref d' ≡ bytes)
    × (Intermediate.unpack (record { init = true }) (bytes ++ (9 ∷ [])) ≡ ok o)
    × (o.next_offset ≡ length bytes)
    × (slice {E = Error} (bytes ++ (9 ∷ [])) o.data_start o.data_end ≡ ok (Buffer.as_ref loaded))
unfolding Buffer.as_ref
intermediate_unpack-pack_example =
    Intermediate.Framing.intermediate_unpack-pack begun loaded (9 ∷ []) loaded-IsValid refl
      (omega arith) (omega arith)

full_unpack-pack_example :
    (d' : DequeBuffer ℕ) × (o : UnpackedOffset) × (Full.pack count_bytes counters loaded
      ≡ ok (record { send_seq = pos 6; recv_seq = pos 5 }, d'))
    × (Full.unpack count_bytes counters (Buffer.as_ref d' ++ (9 ∷ [])) ≡ ok (counted, o))
    × (o.next_offset ≡ length (Buffer.as_ref d'))
    × (slice {E = Error} (Buffer.as_ref d' ++ (9 ∷ [])) o.data_start o.data_end
        ≡ ok (Buffer.as_ref loaded))
unfolding Buffer.as_ref
full_unpack-pack_example =
    Full.RoundTrip.full_unpack-pack count_bytes counters counters loaded 5 (9 ∷ [])
      (λ bytes. omega arith) loaded-IsValid refl refl refl (omega arith) (omega arith)

full_unpack_bounds_example :
    (8 ≤ 16)
    × (16 ≤ 20)
    × (20 ≤ 21)
    × (counted.recv_seq ≡ pos 5 +ℤ pos 1)
    × (counted.send_seq ≡ pos 5)
full_unpack_bounds_example =
    Full.Framing.full_unpack_bounds count_bytes counters numbered counted numbered_offset
      accepts_numbered

full_unpack_waits_example :
    Full.unpack count_bytes counters (20 ∷ 0 ∷ 0 ∷ 0 ∷ 5 ∷ []) ≡ err missing_bytes
full_unpack_waits_example =
    Full.Framing.full_unpack_waits count_bytes counters numbered 5 counted numbered_offset
      accepts_numbered (omega arith)

full_unpack_twice_example : Full.unpack count_bytes counted numbered ≡ err (bad_seq (pos 6) (pos 5))
full_unpack_twice_example =
    Full.Framing.full_unpack_twice count_bytes counters numbered counted numbered_offset
      accepts_numbered

as_ref-extend_front_example :
    Buffer.as_ref (Buffer.extend_front 0 (7 ∷ 7 ∷ 7 ∷ []) loaded) ≡ 7 ∷ 7 ∷ 7 ∷ payload
unfolding Buffer.as_ref
as_ref-extend_front_example = Contents.as_ref-extend_front 0 (7 ∷ 7 ∷ 7 ∷ []) loaded loaded-IsValid
