-- ===== src/Mtp/Incoming/Quiet.antt =====
-- Calls that give no result (grammers-mtproto/src/mtp/encrypted.rs): what precedes the handling of a
-- message.
use grammers.Common.{
  ℕ, zero, suc, ◌+◌, ◌≡◌, refl, ◌∙◌, inl, inr, Bool, true, false, List, if◌then◌else◌, Bool-cases,
  length, leb, ltb, ◌||◌, ◌==◌,
}
use grammers.Common.Int.{ℤ}
use grammers.Common.Outcome.{Outcome, ok, err, panic}
use grammers.Mtp.Session.{Clock, DeserializeError}
use grammers.Mtp.Outgoing.{queue_ack}
use grammers.Mtp.Incoming.{
  Env, M, bind, ◌>>=◌, lift, done, visit, decompress_body, constructor_id, ack,
}
use grammers.Mtp.Incoming.Handlers.{Parsers, is_gzip}
use grammers.Mtp.Incoming.Process.{unwrap}

abbrev pub SameResults : Env → Env → Type 0
SameResults env env' = env'.session.deserialization ≡ env.session.deserialization

abbrev pub IsQuiet : {A : Type 0} → M A → Type 0
IsQuiet m = (env : Env) → SameResults env (m env).1

bind_quiet :
    {A B : Type 0} (env : Env) (r : Outcome DeserializeError A × Env) (f : A → M B)
    → SameResults env r.1
    → ((a : A) → IsQuiet (f a))
    → SameResults env (bind r f).1
bind_quiet env (ok a, mid) f h k = k a mid ∙ h
bind_quiet env (err e, mid) f h k = h
bind_quiet env (panic, mid) f h k = h

IsQuiet-bind :
    {A B : Type 0} (m : M A) (f : A → M B)
    → IsQuiet m
    → ((a : A) → IsQuiet (f a))
    → IsQuiet (m >>= f)
IsQuiet-bind m f h k env = bind_quiet env (m env) f (h env) k

if_quiet :
    {A : Type 0} (b : Bool) (m n : M A)
    → IsQuiet m
    → IsQuiet n
    → (env : Env) → SameResults env ((if b then m else n) env).1
if_quiet true m n h k env = h env
if_quiet false m n h k env = k env

visit-IsQuiet : (depth : ℕ) → IsQuiet (visit depth)
unfolding visit
visit-IsQuiet depth env =
    elim (Bool-cases (ltb env.budget.limits.depth depth || (env.budget.work == 0))) [
      | inl over ↦ rw (visit, over) refl
      | inr within ↦ rw (visit, within) refl
    ]

IsQuiet-if :
    {A : Type 0} (t : Bool) (r r' : Outcome DeserializeError A × Env) (env : Env)
    → SameResults env r.1
    → SameResults env r'.1
    → SameResults env (if t then r else r').1
IsQuiet-if true r r' env h k = h
IsQuiet-if false r r' env h k = k

decompress_body-IsQuiet :
    (d : ℕ → List ℕ → Outcome DeserializeError (List ℕ)) (bytes : List ℕ) (depth : ℕ)
    → IsQuiet (decompress_body d bytes depth)
unfolding decompress_body
decompress_body-IsQuiet d bytes depth env = elim (Bool-cases (ltb env.budget.limits.depth depth)) [
  | inl over ↦ rw (decompress_body, over) refl
  | inr within ↦ rw (decompress_body, within) (IsQuiet-if _ (panic, env) _ env refl refl)
]

ack-IsQuiet : (c : Clock) (id : ℤ) → IsQuiet (ack c id)
unfolding ack queue_ack
ack-IsQuiet c id env = elim (Bool-cases (leb 65536 (length env.session.pending_ack))) [
  | inl full ↦ rw (ack, queue_ack, full) refl
  | inr room ↦ rw (ack, queue_ack, room) refl
]

pub ack_if-IsQuiet : (c : Clock) (b : Bool) (id : ℤ) → IsQuiet (if b then ack c id else done)
ack_if-IsQuiet c b id = if_quiet b _ _ (ack-IsQuiet c id) (λ env. refl)

pub unwrap-IsQuiet :
    (p : Parsers) (c : Clock) (work : ℕ) (body : List ℕ) (depth : ℕ)
    → IsQuiet (unwrap p c work body depth)
unfolding unwrap
unwrap-IsQuiet p c zero body depth =
    IsQuiet-bind (visit depth) _ (visit-IsQuiet depth)
      λ _. IsQuiet-bind (lift (constructor_id body)) _ (λ env. refl) λ _ env. refl
unwrap-IsQuiet p c (suc left) body depth = IsQuiet-bind (visit depth) _ (visit-IsQuiet depth) λ _.
    IsQuiet-bind (lift (constructor_id body)) _ (λ env. refl)
      λ _.
        if_quiet (is_gzip body) _ _
          (IsQuiet-bind (decompress_body p.decompress body (depth + 1)) _
            (decompress_body-IsQuiet p.decompress body (depth + 1))
            λ inner. unwrap-IsQuiet p c left inner (depth + 1))
          (λ env. refl)
