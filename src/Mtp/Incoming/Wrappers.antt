-- ===== src/Mtp/Incoming/Wrappers.antt =====
-- The loop that takes wrappers off a message (grammers-mtproto/src/mtp/encrypted.rs,
-- `process_bounded`).
use grammers.Common.{
  ℕ, zero, suc, ◌+◌, ◌-◌, ◌≤◌, ◌≡◌, ◌≢◌, refl, ◌⊎◌, inl, inr, Bool, true, false, List,
  if◌then◌else◌, Bool-cases, ltb, ◌||◌, ◌==◌, arith, min, length,
}
use grammers.Common.Outcome.{Outcome, ok, err, panic, Outcome-cases}
use grammers.Mtp.Session.{Clock, DeserializeError, resource_limit}
use grammers.Mtp.Incoming.{
  Env, M, bind, ◌>>=◌, lift, visit, charged, decompress_body, constructor_id,
}
use grammers.Mtp.Incoming.Handlers.{Parsers, is_gzip}
use grammers.Mtp.Incoming.Process.{unwrap}

-- The call returns, and leaves at most `n` rounds of work and `bytes` of decompressed output.
pub record IsBounded {A : Type 0} (n bytes : ℕ) (r : Outcome DeserializeError A × Env)
    : Type 0 where
  pub returned : r.0 ≢ panic
  pub work : r.1.budget.work ≤ n
  pub remaining : r.1.budget.remaining ≤ bytes

bind-IsBounded :
    {A B : Type 0} (n bytes : ℕ) (r : Outcome DeserializeError A × Env) (f : A → M B)
    → IsBounded n bytes r
    → ((a : A) (mid : Env)
        → mid.budget.work ≤ n
        → mid.budget.remaining ≤ bytes
        → IsBounded n bytes (f a mid))
    → IsBounded n bytes (bind r f)
bind-IsBounded n bytes (ok a, mid) f h k = k a mid h.work h.remaining
bind-IsBounded n bytes (err e, mid) f h k = record {
  returned = λ q. cc;
  work = h.work;
  remaining = h.remaining;
}
bind-IsBounded n bytes (panic, mid) f h k = absurd (h.returned refl)

weaken :
    {A : Type 0} (n n' b b' : ℕ) (r : Outcome DeserializeError A × Env)
    → n ≤ n'
    → b ≤ b'
    → IsBounded n b r
    → IsBounded n' b' r
weaken n n' b b' r hn hb h = record {
  returned = h.returned;
  work = omega (arith, h.work);
  remaining = omega (arith, h.remaining);
}

-- A visit costs a round of work, or fails.
visit_lem :
    (depth : ℕ) (env : Env)
    → (visit depth env ≡ (err (resource_limit 1), env))
      ⊎ ((mid : Env) × (visit depth env ≡ (ok tt, mid))
          × (mid.budget.work + 1 ≡ env.budget.work)
          × (mid.budget.remaining ≡ env.budget.remaining))
unfolding visit
visit_lem depth env =
    elim (Bool-cases (ltb env.budget.limits.depth depth || (env.budget.work == 0))) [
      | inl over ↦ inl (rw (visit, over) refl)
      | inr within ↦ inr (
        record env { budget = record env.budget { work = env.budget.work - 1 } },
        rw (visit, within) refl,
        ground (arith, within),
        refl,
      )
    ]

constructor_id_returns : (body : List ℕ) → constructor_id body ≢ panic
unfolding constructor_id
constructor_id_returns body = ground arith

-- A decoder that returns a value or an error, and no more bytes than the limit.
pub record IsLimited (decompress : ℕ → List ℕ → Outcome DeserializeError (List ℕ)) : Type 0 where
  pub returns : (limit : ℕ) (bytes : List ℕ) → decompress limit bytes ≢ panic
  pub within :
      (limit : ℕ) (bytes out : List ℕ) → decompress limit bytes ≡ ok out → length out ≤ limit

-- What is charged is at most the bytes that remain.
pub charged-fits :
    (decompress : ℕ → List ℕ → Outcome DeserializeError (List ℕ)) (most remaining : ℕ)
    (bytes : List ℕ)
    → IsLimited decompress
    → ltb remaining
        (charged decompress (min most remaining) (decompress (min most remaining) bytes))
      ≡ false
unfolding charged
charged-fits decompress most remaining bytes h =
    elim (Outcome-cases (decompress (min most remaining) bytes)) [
      | inl (out, e) ↦ rw e (ground (arith, h.within (min most remaining) bytes out e))
      | inr (inl (x, e)) ↦ rw e (ground arith)
      | inr (inr e) ↦ absurd (h.returns (min most remaining) bytes e)
    ]

module _ (p : Parsers) (c : Clock) (limited : IsLimited p.decompress) where
  decompress-IsBounded :
      (n : ℕ) (body : List ℕ) (depth : ℕ) (env : Env)
      → env.budget.work ≤ n
      → IsBounded n env.budget.remaining (decompress_body p.decompress body depth env)
  unfolding decompress_body
  decompress-IsBounded n body depth env h = elim (Bool-cases (ltb env.budget.limits.depth depth)) [
    | inl over ↦
        rw (decompress_body, over)
          (record { returned = λ q. cc; work = h; remaining = omega arith })
    | inr within ↦
        let b = env.budget in
        rw (decompress_body, within)
          (rw (charged-fits p.decompress b.limits.gzip_output b.remaining body limited)
            (record { returned = limited.returns _ body; work = h; remaining = omega arith }))
  ]

  unwrap_next :
      (left : ℕ) (body : List ℕ) (depth : ℕ) (packed : Bool) (bytes : ℕ) (m : Env)
      → m.budget.work ≤ left
      → m.budget.remaining ≤ bytes
      → ((inner : List ℕ) (here : Env)
          → here.budget.work ≤ left
          → IsBounded left here.budget.remaining (unwrap p c left inner (depth + 1) here))
      → IsBounded left bytes (
          (if packed
              then (decompress_body p.decompress body (depth + 1) >>= λ inner.
                  unwrap p c left inner (depth + 1))
              else lift (ok (body, depth)))
            m)
  unwrap_next left body depth false bytes m w b next = record {
    returned = λ q. cc;
    work = w;
    remaining = b;
  }
  unwrap_next left body depth true bytes m w b next =
      bind-IsBounded left bytes (decompress_body p.decompress body (depth + 1) m) _
        (weaken left left m.budget.remaining bytes _ (omega arith) b
          (decompress-IsBounded left body (depth + 1) m w))
        (λ inner here hw hb.
          weaken left left here.budget.remaining bytes _ (omega arith) hb (next inner here hw))

  -- Where the budget's work is at most the rounds given, and decompression never panics and gives
  -- no more bytes than its limit, taking off the wrappers of a body returns a body or an error, and
  -- neither the work nor the bytes that remain grow.
  pub unwrap_returns :
      (n : ℕ) (body : List ℕ) (depth : ℕ) (env : Env)
      → env.budget.work ≤ n
      → IsBounded n env.budget.remaining (unwrap p c n body depth env)
  unfolding unwrap
  unwrap_returns zero body depth env h = elim (visit_lem depth env) [
    | inl failed ↦
        rw (unwrap, failed) (record { returned = λ q. cc; work = h; remaining = omega arith })
    | inr (mid, passed, spent, same) ↦ absurd (omega arith)
  ]
  unwrap_returns (suc left) body depth env h = elim (visit_lem depth env) [
    | inl failed ↦
        rw (unwrap, failed) (record { returned = λ q. cc; work = h; remaining = omega arith })
    | inr (mid, passed, spent, same) ↦
        rw (unwrap, passed)
          (weaken left (suc left) env.budget.remaining env.budget.remaining _ (omega arith)
            (omega arith)
            (bind-IsBounded left env.budget.remaining (constructor_id body, mid) _
              (record {
                returned = constructor_id_returns body;
                work = omega arith;
                remaining = omega arith;
              })
              (λ id m w b.
                unwrap_next left body depth (is_gzip body) env.budget.remaining m w b
                  (λ inner here h'. unwrap_returns left inner (depth + 1) here h'))))
  ]
