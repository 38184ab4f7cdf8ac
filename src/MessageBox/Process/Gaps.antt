-- ===== src/MessageBox/Process/Gaps.antt =====
-- Applying an update to an entry and draining its gap: what is delivered, and the `expect` on the
-- updates of a gap (mod.rs).
use grammers.Common.{
  ℕ, ◌≡◌, refl, sym, ap, subst, ◌∙◌, List, [], ◌∷◌, ◌++◌, Bool, Option, none, some, length, ltb,
  All, All-append, arith, inl, inr, Bool-cases, Option-cases,
}
use grammers.Common.Int.{ℤ, ◌+ℤ◌, cmp_ℤ, Ordering-cases, cmp-eq}
use grammers.MessageBox.Defs.{Update, PossibleGap, LiveEntry, PtsInfo}
use grammers.MessageBox.Updates.{
  from_update, is_sorted, insert_after, insertion_rounds, insert_before, stable_sort,
  sort_updates_by_key, max_insertion_sort_updates,
}
use grammers.MessageBox.Recovery.{max_held_updates}
use grammers.MessageBox.Invariant.{sequenced, IsSequenced, GapIsSequenced}
use grammers.MessageBox.Process.{
  Delivered, Drained, Settled, reverse, drain, widen_gap, apply_update, leave_gap, settle_gap,
  settle, above_by_key,
}

-- Deliveries that take a sequence from position `p` to position `q` without a gap.
abbrev pub IsChain : ℤ → List Delivered → ℤ → Type 0
IsChain p [] q = p ≡ q
IsChain p ((u, info) ∷ ds) q =
    (from_update u ≡ some info) × (p +ℤ info.count ≡ info.pts) × IsChain info.pts ds q

pub IsChain-append :
    (p q r : ℤ) (xs ys : List Delivered) → IsChain p xs q → IsChain q ys r → IsChain p (xs ++ ys) r
IsChain-append p q r [] ys hx hy = subst (λ t. IsChain t ys r) (sym hx) hy
IsChain-append p q r ((u, info) ∷ xs) ys hx hy =
    (hx.0, hx.1, IsChain-append info.pts q r xs ys hx.2 hy)

module _ (P : Update → Type 0) where
  insert_after-All :
      (before : Update → Update → Bool) (x : Update) (ys : List Update)
      → P x
      → All P ys
      → All P (insert_after before x ys)
  unfolding insert_after
  insert_after-All before x [] h hs = (h, tt)
  insert_after-All before x (y ∷ ys) h hs = elim (Bool-cases (before x y)) [
    | inl front ↦ rw front (h, hs)
    | inr behind ↦ rw behind (hs.0, insert_after-All before x ys h hs.1)
  ]

  insertion_rounds-All :
      (before : Update → Update → Bool) (prefix xs : List Update)
      → All P prefix
      → All P xs
      → All P (insertion_rounds before prefix xs)
  unfolding insertion_rounds
  insertion_rounds-All before prefix [] hp hx = hp
  insertion_rounds-All before prefix (x ∷ xs) hp hx =
      insertion_rounds-All before (insert_after before x prefix) xs
        (insert_after-All before x prefix hx.0 hp) hx.1

  insert_before-All :
      (before : Update → Update → Bool) (x : Update) (ys : List Update)
      → P x
      → All P ys
      → All P (insert_before before x ys)
  unfolding insert_before
  insert_before-All before x [] h hs = (h, tt)
  insert_before-All before x (y ∷ ys) h hs = elim (Bool-cases (before y x)) [
    | inl below ↦ rw below (hs.0, insert_before-All before x ys h hs.1)
    | inr found ↦ rw found (h, hs)
  ]

  stable_sort-All :
      (before : Update → Update → Bool) (xs : List Update)
      → All P xs
      → All P (stable_sort before xs)
  unfolding stable_sort
  stable_sort-All before [] h = tt
  stable_sort-All before (x ∷ xs) h =
      insert_before-All before x (stable_sort before xs) h.0 (stable_sort-All before xs h.1)

  -- Sorting keeps what holds of every update.
  pub sort_updates_by_key-All :
      (before : Update → Update → Bool) (xs : List Update)
      → All P xs
      → All P (sort_updates_by_key before xs)
  unfolding sort_updates_by_key
  sort_updates_by_key-All before xs h = elim (Bool-cases (is_sorted before xs)) [
    | inl already ↦ rw already h
    | inr unsorted ↦ elim (Bool-cases (ltb max_insertion_sort_updates (length xs))) [
      | inl many ↦ rw (unsorted, many) (stable_sort-All before xs h)
      | inr few ↦ rw (unsorted, few) (insertion_rounds-All before [] xs tt h)
    ]
  ]

  pub reverse-All : (xs : List Update) → All P xs → All P (reverse xs)
  reverse-All [] h = tt
  reverse-All (x ∷ xs) h = All-append P (reverse xs) (x ∷ []) (reverse-All xs h.1) (h.0, tt)

-- Draining sequenced updates ends, delivers a chain and leaves sequenced updates.
pub drain_lem :
    (p : ℤ) (us : List Update)
    → All IsSequenced us
    → (d : Drained) × (drain p us ≡ some d) × IsChain p d.delivered d.pts × All IsSequenced d.rest
unfolding drain
drain_lem p [] h = (_, refl, refl, tt)
drain_lem p (u ∷ us) h = elim (Option-cases (from_update u)) [
  | inl unknown ↦ absurd (ground (arith, h.0))
  | inr (info, known) ↦ elim (Ordering-cases (cmp_ℤ (p +ℤ info.count) info.pts)) [
    | inl next ↦
        let (d, drained, chain, rest) = drain_lem info.pts us h.1 in
        (
          record { pts = d.pts; delivered = (u, info) ∷ d.delivered; rest = d.rest },
          rw (known, drain) (rw next (rw drained refl)),
          (known, cmp-eq (p +ℤ info.count) info.pts next, chain),
          rest,
        )
    | inr (inl old) ↦
        let (d, drained, chain, rest) = drain_lem p us h.1 in
        (d, rw (known, drain) (rw old drained), chain, rest)
    | inr (inr ahead) ↦ (
      record { pts = p; delivered = []; rest = u ∷ us },
      rw (known, drain) (rw ahead refl),
      refl,
      h,
    )
  ]
]

-- The entry keeps what belongs to recovery.
abbrev pub SameRecovery : LiveEntry → LiveEntry → Type 0
SameRecovery e e' =
    (e'.key ≡ e.key)
    × (e'.recovery_pending ≡ e.recovery_pending)
    × (e'.recovery_deferred ≡ e.recovery_deferred)

-- What `settle` promises of its result.
abbrev pub Settles : LiveEntry → Option Settled → Type 0
Settles e r =
    (s : Settled) × (r ≡ some s)
    × IsChain e.pts s.delivered s.live.pts
    × SameRecovery e s.live
    × GapIsSequenced s.live.possible_gap

leave_gap_lem :
    (e : LiveEntry) (g : PossibleGap) (pts : ℤ) (delivered : List Delivered) (rest : List Update)
    → IsChain e.pts delivered pts
    → All IsSequenced rest
    → Settles e (some (leave_gap e g (record { pts = pts; delivered = delivered; rest = rest })))
leave_gap_lem e g pts delivered [] chain known = (_, refl, chain, (refl, refl, refl), tt)
leave_gap_lem e g pts delivered (u ∷ us) chain known =
    (_, refl, chain, (refl, refl, refl), reverse-All IsSequenced (u ∷ us) known)

settle_gap-Settles :
    (e : LiveEntry) (gap : Option PossibleGap)
    → e.possible_gap ≡ gap
    → GapIsSequenced gap
    → Settles e (settle_gap e gap)
unfolding settle_gap
settle_gap-Settles e none same h =
    (_, refl, refl, (refl, refl, refl), subst GapIsSequenced (sym same) h)
settle_gap-Settles e (some g) same h =
    let order = reverse (sort_updates_by_key above_by_key g.updates) in
    let (d, drained, chain, rest) = drain_lem e.pts order (
      reverse-All IsSequenced (sort_updates_by_key above_by_key g.updates)
        (sort_updates_by_key-All IsSequenced above_by_key g.updates h)) in
    rw drained (leave_gap_lem e g d.pts d.delivered d.rest chain rest)

widen_gap-All :
    (now : ℕ) (u : Update) (gap : Option PossibleGap)
    → IsSequenced u
    → GapIsSequenced gap
    → All IsSequenced (widen_gap now u gap).updates
unfolding widen_gap
widen_gap-All now u none h hs = (h, tt)
widen_gap-All now u (some g) h hs = elim (Bool-cases (ltb (length g.updates) max_held_updates)) [
  | inl room ↦ rw room (All-append IsSequenced g.updates (u ∷ []) hs (h, tt))
  | inr full ↦ rw full hs
]

apply_update_lem :
    (now : ℕ) (info : PtsInfo) (u : Update) (e : LiveEntry)
    → from_update u ≡ some info
    → GapIsSequenced e.possible_gap
    → IsChain e.pts (apply_update now info u e).1 (apply_update now info u e).0.pts
      × SameRecovery e (apply_update now info u e).0
      × GapIsSequenced (apply_update now info u e).0.possible_gap
unfolding apply_update widen_gap
apply_update_lem now info u e known h =
    elim (Ordering-cases (cmp_ℤ (e.pts +ℤ info.count) info.pts)) [
      | inl next ↦
          rw (next, apply_update)
            ((known, cmp-eq (e.pts +ℤ info.count) info.pts next, refl), (refl, refl, refl), h)
      | inr (inl old) ↦ rw (old, apply_update) (refl, (refl, refl, refl), h)
      | inr (inr ahead) ↦
          rw (ahead, apply_update)
            (refl, (refl, refl, refl), widen_gap-All now u e.possible_gap (ap sequenced known) h)
    ]

-- Settling an update never fails, and delivers a chain from the entry's position before to the one
-- after.
pub settle-Settles :
    (now : ℕ) (info : PtsInfo) (u : Update) (e : LiveEntry)
    → from_update u ≡ some info
    → GapIsSequenced e.possible_gap
    → Settles e (settle now info u e)
unfolding settle
settle-Settles now info u e known h =
    let e1 = (apply_update now info u e).0 in
    let (first, same, gap) = apply_update_lem now info u e known h in
    let (s, settled, chain, same1, gap1) = settle_gap-Settles e1 e1.possible_gap refl gap in
    (
      record s { delivered = (apply_update now info u e).1 ++ s.delivered },
      rw settled refl,
      IsChain-append e.pts e1.pts s.live.pts (apply_update now info u e).1 s.delivered first chain,
      (same1.0 ∙ same.0, same1.1 ∙ same.1, same1.2 ∙ same.2),
      gap1,
    )
