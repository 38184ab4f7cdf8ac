-- ===== src/Tl/Runs.antt =====
-- Encodings from the source's documentation and tests, and the theorems on TL values at them.
use grammers.Common.{ℕ, ◌<◌, ◌^◌, ◌≡◌, refl, List, [], ◌∷◌, ◌++◌, true, arith, length}
use grammers.Common.Bytes.{to_le}
use grammers.Common.Int.{negsuc}
use grammers.Common.Outcome.{ok, err}
use grammers.Tl.{Cursor, unexpected_eof}
use grammers.Tl.Serialize.{
  serialize_i32, serialize_bool, serialize_vec, serialize_raw_vec, serialize_bytes,
}
use grammers.Tl.Deserialize.{read_bytes, deserialize_vec, deserialize_vector}
use grammers.Tl.Safety.{Steps, read_bytes-IsSafe, deserialize_vec-IsSafe}
use grammers.Tl.RoundTrip.{at, Reads, vectors-Reads, read_bytes-serialize_bytes}
use grammers.Tl.Truncation.{read_bytes-Waits}

bool_true : serialize_bool true ≡ 0xb5 ∷ 0x75 ∷ 0x72 ∷ 0x99 ∷ []
unfolding serialize_bool to_le
bool_true = refl

minus_one : serialize_i32 (negsuc 0) ≡ 0xff ∷ 0xff ∷ 0xff ∷ 0xff ∷ []
unfolding serialize_i32 to_le
minus_one = refl

abbrev three_bytes : List ℕ
three_bytes = 7 ∷ 8 ∷ 9 ∷ []

padded : serialize_bytes (7 ∷ 8 ∷ []) ≡ 2 ∷ 7 ∷ 8 ∷ 0 ∷ []
unfolding serialize_bytes
padded = refl

abbrev cut_short : Cursor
cut_short = record { buf = 254 ∷ 1 ∷ []; pos = 0; depth = 3 }

deserialize_vec-IsSafe_example : Steps cut_short (deserialize_vec read_bytes cut_short)
deserialize_vec-IsSafe_example =
    deserialize_vec-IsSafe read_bytes read_bytes-IsSafe cut_short (omega arith)

read_bytes-serialize_bytes_example :
    read_bytes (at (1 ∷ (serialize_bytes three_bytes ++ (5 ∷ []))) 0 1)
    ≡ (ok three_bytes, at (1 ∷ (serialize_bytes three_bytes ++ (5 ∷ []))) 0 5)
unfolding serialize_bytes
read_bytes-serialize_bytes_example =
    read_bytes-serialize_bytes three_bytes (omega arith) (1 ∷ []) (5 ∷ []) 0 (omega arith)

read_bytes-Waits_example : (read_bytes (at (3 ∷ 7 ∷ 8 ∷ []) 0 0)).0 ≡ err unexpected_eof
unfolding serialize_bytes
read_bytes-Waits_example =
    read_bytes-Waits three_bytes (omega arith) [] 0 3 (omega arith) (omega arith)

vectors-Reads_example :
    Reads
      (deserialize_vector read_bytes)
      (serialize_raw_vec serialize_bytes (three_bytes ∷ []))
      (three_bytes ∷ [])
    × Reads
        (deserialize_vec read_bytes)
        (serialize_vec serialize_bytes (three_bytes ∷ []))
        (three_bytes ∷ [])
vectors-Reads_example =
    vectors-Reads serialize_bytes read_bytes (λ bytes. length bytes < 2 ^ 24)
      read_bytes-serialize_bytes (three_bytes ∷ []) (omega arith) (omega arith)
