-- ===== src/Mtp/Incoming.antt =====
-- The receiving half of an encrypted session (grammers-mtproto/src/mtp/encrypted.rs), from an
-- authenticated plaintext on, and the envelopes of manual_tl.rs. Decompression and the generated
-- TL types are parameters (`Parsers`); logging is left out.
pub mod Handlers
pub mod Process
pub mod Untouched
pub mod Total
pub mod Returned
pub mod Wrappers
pub mod Once
pub mod Quiet
pub mod Failed
pub mod Packet
mod Runs
use grammers.Common.{
  ℕ, zero, suc, ◌+◌, ◌-◌, ◌*◌, ◌/◌, ◌%◌, ◌^◌, min, Bool, true, false, not, ◌&&◌, ◌||◌, Option, none,
  some, List, [], ◌∷◌, ◌++◌, if◌then◌else◌, ◌==◌, ltb, leb, length, take, drop,
}
use grammers.Common.Int.{ℤ, pos, negsuc, as_signed, ltb_ℤ, eqb_ℤ}
use grammers.Common.Bytes.{from_le}
use grammers.Common.Outcome.{Outcome, ok, err, panic}
use grammers.Mtp.Session.{
  Encrypted, Clock, DecodeLimits, DeserializeError, invalid_envelope, resource_limit,
  message_buffer_too_small, unexpected_constructor, FutureSalt, Deserialization,
}
use grammers.Mtp.Outgoing.{queue_ack}

pub record View : Type 0 where
  pub msg_id : ℤ
  pub seq_no : ℤ
  pub body : List ℕ

-- `DecodeBudget` of an authenticated packet.
pub record DecodeBudget : Type 0 where
  pub replay_floor : ℤ
  pub pending_received : Option (List ℤ)
  pub limits : DecodeLimits
  pub remaining : ℕ
  pub work : ℕ

pub record Env : Type 0 where
  pub session : Encrypted
  pub budget : DecodeBudget

abbrev pub M : Type 0 → Type 0
M A = Env → Outcome DeserializeError A × Env

abbrev pub bind :
    {A B : Type 0} → Outcome DeserializeError A × Env → (A → M B) → Outcome DeserializeError B × Env
bind (ok a, env) f = f a env
bind (err e, env) f = (err e, env)
bind (panic, env) f = (panic, env)

infixl 5 ◌>>=◌ ◌>>◌
abbrev pub ◌>>=◌ : {A B : Type 0} → M A → (A → M B) → M B
◌>>=◌ m f env = bind (m env) f

abbrev pub ◌>>◌ : {B : Type 0} → M (Unit {0}) → M B → M B
m >> k = m >>= λ _. k

abbrev pub lift : {A : Type 0} → Outcome DeserializeError A → M A
lift o env = (o, env)

abbrev pub fails : {A : Type 0} → DeserializeError → M A
fails e env = (err e, env)

abbrev pub done : M (Unit {0})
done env = (ok tt, env)

-- An error as a value, where the code matches on it.
abbrev pub caught :
    {A : Type 0}
    → Outcome DeserializeError A × Env
    → Outcome DeserializeError (Outcome DeserializeError A) × Env
caught (ok a, env) = (ok (ok a), env)
caught (err e, env) = (ok (err e), env)
caught (panic, env) = (panic, env)

abbrev pub attempt : {A : Type 0} → M A → M (Outcome DeserializeError A)
attempt m env = caught (m env)

abbrev pub modify : (Encrypted → Encrypted) → M (Unit {0})
modify f env = (ok tt, record env { session = f env.session })

abbrev pub push_result : Deserialization → M (Unit {0})
push_result d = modify (λ s. record s { deserialization = s.deserialization ++ (d ∷ []) })

unfoldable pub new_budget : ℤ → DecodeLimits → DecodeBudget
new_budget floor limits = record {
  replay_floor = floor;
  pending_received = none;
  limits = limits;
  remaining = limits.expanded_bytes;
  work = limits.work;
}

unfoldable pub visit : ℕ → M (Unit {0})
visit depth env =
    let b = env.budget in
    if ltb b.limits.depth depth || (b.work == 0)
    then (err (resource_limit 1), env)
    else (ok tt, record env { budget = record b { work = b.work - 1 } })

-- The inner decoder is `decompress`, which is given a limit for its output. Output beyond the bytes
-- that remain would overflow `remaining`, which is a panic.
module _ (decompress : ℕ → List ℕ → Outcome DeserializeError (List ℕ)) where
  unfoldable pub charged : ℕ → Outcome DeserializeError (List ℕ) → ℕ
  charged limit (ok bytes) = length bytes
  charged limit (err e) = limit
  charged limit panic = 0

  unfoldable pub decompress_body : List ℕ → ℕ → M (List ℕ)
  decompress_body bytes depth env =
      let b = env.budget in
      let limit = min b.limits.gzip_output b.remaining in
      let result = decompress limit bytes in
      if ltb b.limits.depth depth
      then (err (resource_limit 2), env)
      else if ltb b.remaining (charged limit result)
      then (panic, env)
      else (
        result,
        record env { budget = record b { remaining = b.remaining - charged limit result } },
      )

-- `u32::from_bytes(&body)`
unfoldable pub constructor_id : List ℕ → Outcome DeserializeError ℕ
constructor_id body =
    if ltb (length body) 4 then err message_buffer_too_small else ok (from_le (take 4 body))

-- `n % 2 == 1`, which holds of no negative number.
unfoldable pub is_odd : ℤ → Bool
is_odd (pos n) = n % 2 == 1
is_odd (negsuc n) = false

unfoldable pub requires_ack : View → Bool
requires_ack v = is_odd v.seq_no

unfoldable pub is_negative : ℤ → Bool
is_negative (pos n) = false
is_negative (negsuc n) = true

-- A server's identifier: positive and odd.
unfoldable pub is_server_id : ℤ → Bool
is_server_id (pos n) = n % 2 == 1
is_server_id (negsuc n) = false

unfoldable pub validate_header : View → Outcome DeserializeError (Unit {0})
validate_header v =
    if not (is_server_id v.msg_id) || is_negative v.seq_no then err (invalid_envelope 0) else ok tt

unfoldable pub signed_word : ℕ → List ℕ → ℤ
signed_word n bytes = as_signed (2 ^ (8 * n - 1)) (from_le (take n bytes))

-- `MessageView::deserialize`, with the bytes behind the message.
unfoldable pub view_of : List ℕ → Outcome DeserializeError (View × List ℕ)
view_of bytes = elim (signed_word 4 (drop 12 bytes)) [
  | negsuc n ↦ err message_buffer_too_small
  | pos len ↦
      if ltb (length bytes) 16
        || (ltb len 4 || (not (len % 4 == 0) || ltb (length bytes) (16 + len)))
      then err message_buffer_too_small
      else ok (
        record {
          msg_id = signed_word 8 bytes;
          seq_no = signed_word 4 (drop 8 bytes);
          body = take len (drop 16 bytes);
        },
        drop (16 + len) bytes,
      )
]

-- An inner envelope of a container with the identifier `parent`.
unfoldable pub is_inner : ℤ → View → Bool
is_inner parent v = is_server_id v.msg_id && (ltb_ℤ v.msg_id parent && not (is_negative v.seq_no))

-- The `count` messages of a container, which end with its bytes.
unfoldable pub views_of : ℕ → ℤ → List ℕ → Outcome DeserializeError (List View)
views_of zero parent bytes = if length bytes == 0 then ok [] else err (invalid_envelope 1)
views_of (suc count) parent bytes = elim (view_of bytes) [
  | err e ↦ err e
  | panic ↦ panic
  | ok (v, rest) ↦
      let more = views_of count parent rest in
      if is_inner parent v
      then elim more [ err e ↦ err e | panic ↦ panic | ok vs ↦ ok (v ∷ vs) ]
      else err (invalid_envelope 1)
]

-- `borrowed_messages_validated`, with the parent of an authenticated packet.
unfoldable pub borrowed_messages_validated : ℤ → List ℕ → Outcome DeserializeError (List View)
borrowed_messages_validated parent bytes = elim (constructor_id bytes) [
  | err e ↦ err e
  | panic ↦ panic
  | ok id ↦
      if not (id == 0x73f1_f8dc)
      then err (unexpected_constructor id)
      else if ltb (length bytes) 8
      then err message_buffer_too_small
      else elim (signed_word 4 (drop 4 bytes)) [
        | negsuc n ↦ err (invalid_envelope 1)
        | pos count ↦
            if ltb 1024 count || ltb (length (drop 8 bytes) / 16) count
            then err (invalid_envelope 1)
            else views_of count parent (drop 8 bytes)
      ]
]

unfoldable pub ack : Clock → ℤ → M (Unit {0})
ack c id env = elim (queue_ack c id env.session) [
  | ok s ↦ (ok tt, record env { session = s })
  | err e ↦ (err e, env)
  | panic ↦ (panic, env)
]
