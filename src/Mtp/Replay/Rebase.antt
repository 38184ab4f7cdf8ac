-- ===== src/Mtp/Replay/Rebase.antt =====
-- Moving the offsets to a new base (grammers-mtproto/src/mtp/replay.rs, `remember`).
use grammers.Common.{
  ℕ, ◌+◌, ◌-◌, ◌^◌, ◌%◌, ◌≤◌, ◌<◌, ◌≡◌, refl, ap, ◌∙◌, ◌⊎◌, inl, inr, false, some, List, [], ◌∷◌,
  map, length, All, arith, Bool-cases, Option-cases,
}
use grammers.Common.Int.{ℤ}
use grammers.Common.I64.{IsI64, rank, rank-lt, wrapping_sub_u64, wrapping_sub_rank}
use grammers.Mtp.Replay.{ReplayIds, max_age, pack, id_of, offset_of, is_empty, moved, rebase}
use grammers.Mtp.Replay.Lists.{Ascending, length-map}
use grammers.Mtp.Replay.Shape.{
  Fits, ids_of, id_of-IsI64, rank-id_of, id_of-difference, offset_of-some,
}

-- A place that is at most the maximum age above the oldest allowed one.
abbrev pub Near : ℤ → ℕ → Type 0
Near oldest k = (rank oldest ≤ k) × (k ≤ rank oldest + max_age)

moved_id :
    (id oldest : ℤ)
    → IsI64 id
    → IsI64 oldest
    → Near oldest (rank id)
    → (pack (wrapping_sub_u64 id oldest) ≡ rank id - rank oldest)
      × (id_of oldest (pack (wrapping_sub_u64 id oldest)) ≡ id)
      × Fits oldest (pack (wrapping_sub_u64 id oldest))
unfolding pack
moved_id id oldest hid ho near =
    let e : wrapping_sub_u64 id oldest % 2 ^ 48 ≡ rank id - rank oldest =
      omega (arith, wrapping_sub_rank id oldest hid ho near.0) in
    (
      e,
      rw e (id_of-difference oldest id ho hid near.0),
      rw e (omega arith, omega (arith, rank-lt id hid)),
    )

-- What a history and a new identifier need for the move.
pub record CanMove (id oldest : ℤ) (r : ReplayIds) : Type 0 where
  pub base_in_range : IsI64 r.base
  pub id_in_range : IsI64 id
  pub oldest_in_range : IsI64 oldest
  pub fits : All (Fits r.base) r.offsets
  pub ascending : Ascending r.offsets
  pub near : All (λ o. Near oldest (rank r.base + o)) r.offsets
  pub id_near : Near oldest (rank id)
  pub anchored : (r.offsets ≡ []) ⊎ (rank r.base ≤ rank oldest)

-- The offset stands for the identifier, and the history holds the same identifiers.
pub record IsMoved (id oldest : ℤ) (r : ReplayIds) (o : ℕ) (r' : ReplayIds) : Type 0 where
  pub base_in_range : IsI64 r'.base
  pub fits : All (Fits r'.base) r'.offsets
  pub offset_fits : Fits r'.base o
  pub ascending : Ascending r'.offsets
  pub same_ids : ids_of r' ≡ ids_of r
  pub same_id : id_of r'.base o ≡ id
  pub low_base : rank r'.base ≤ rank oldest
  pub near : All (λ p. Near oldest (rank r'.base + p)) r'.offsets
  pub same_length : length r'.offsets ≡ length r.offsets

module _ (b oldest : ℤ) (hb : IsI64 b) (ho : IsI64 oldest) where
  slot : ℕ → ℕ
  slot o = pack (wrapping_sub_u64 (id_of b o) oldest)

  slot_moved :
      (o : ℕ)
      → Fits b o
      → Near oldest (rank b + o)
      → (slot o ≡ rank b + o - rank oldest)
        × (id_of oldest (slot o) ≡ id_of b o)
        × Fits oldest (slot o)
  unfolding slot
  slot_moved o f near =
      let e = rank-id_of b o hb f.1 in
      let m = moved_id (id_of b o) oldest (id_of-IsI64 b o hb) ho (rw e near) in
      (m.0 ∙ ap (λ k. k - rank oldest) e, m.1, m.2)

  slots_ids :
      (os : List ℕ)
      → All (Fits b) os
      → All (λ o. Near oldest (rank b + o)) os
      → map (id_of oldest) (map slot os) ≡ map (id_of b) os
  slots_ids [] f near = refl
  slots_ids (o ∷ os) f near = rw ((slot_moved o f.0 near.0).1, slots_ids os f.1 near.1) refl

  slots_fit :
      (os : List ℕ)
      → All (Fits b) os
      → All (λ o. Near oldest (rank b + o)) os
      → All (Fits oldest) (map slot os)
  slots_fit [] f near = tt
  slots_fit (o ∷ os) f near = ((slot_moved o f.0 near.0).2, slots_fit os f.1 near.1)

  slots-Near :
      (os : List ℕ)
      → All (Fits b) os
      → All (λ o. Near oldest (rank b + o)) os
      → All (λ p. Near oldest (rank oldest + p)) (map slot os)
  slots-Near [] f near = tt
  slots-Near (o ∷ os) f near =
      let e = (slot_moved o f.0 near.0).0 in
      ((omega arith, omega (arith, e, near.0.0, near.0.1)), slots-Near os f.1 near.1)

  slots_above :
      (o : ℕ) (os : List ℕ)
      → Fits b o
      → Near oldest (rank b + o)
      → All (Fits b) os
      → All (λ o. Near oldest (rank b + o)) os
      → All (λ p. o < p) os
      → All (λ p. slot o < p) (map slot os)
  slots_above o [] fo near_o f near h = tt
  slots_above o (p ∷ ps) fo near_o f near h = (
    omega (arith, (slot_moved o fo near_o).0, (slot_moved p f.0 near.0).0, h.0, near_o.0),
    slots_above o ps fo near_o f.1 near.1 h.1,
  )

  slots-Ascending :
      (os : List ℕ)
      → All (Fits b) os
      → All (λ o. Near oldest (rank b + o)) os
      → Ascending os
      → Ascending (map slot os)
  slots-Ascending [] f near h = tt
  slots-Ascending (o ∷ os) f near h =
      (slots_above o os f.0 near.0 f.1 near.1 h.0, slots-Ascending os f.1 near.1 h.1)

moved-IsMoved :
    (id oldest : ℤ) (r : ReplayIds)
    → CanMove id oldest r
    → IsMoved id oldest r (moved id oldest r).0 (moved id oldest r).1
unfolding moved ids_of slot
moved-IsMoved id oldest r h =
    let m = moved_id id oldest h.id_in_range h.oldest_in_range h.id_near in
    record {
      base_in_range = h.oldest_in_range;
      fits = slots_fit r.base oldest h.base_in_range h.oldest_in_range r.offsets h.fits h.near;
      offset_fits = m.2;
      ascending =
          slots-Ascending r.base oldest h.base_in_range h.oldest_in_range r.offsets h.fits h.near
            h.ascending;
      same_ids = slots_ids r.base oldest h.base_in_range h.oldest_in_range r.offsets h.fits h.near;
      same_id = m.1;
      low_base = omega arith;
      near = slots-Near r.base oldest h.base_in_range h.oldest_in_range r.offsets h.fits h.near;
      same_length = length-map _ r.offsets;
    }

stays-IsMoved :
    (id oldest : ℤ) (r : ReplayIds) (o : ℕ)
    → CanMove id oldest r
    → rank r.base ≤ rank oldest
    → offset_of r.base id ≡ some o
    → IsMoved id oldest r o r
stays-IsMoved id oldest r o h low e =
    let near = h.id_near in
    let le : rank r.base ≤ rank id = omega (arith, near.0) in
    let s = offset_of-some r.base id o h.base_in_range h.id_in_range le e in
    record {
      base_in_range = h.base_in_range;
      fits = h.fits;
      offset_fits = (s.1, omega (arith, s.0, rank-lt id h.id_in_range));
      ascending = h.ascending;
      same_ids = refl;
      same_id = rw s.0 (id_of-difference r.base id h.base_in_range h.id_in_range le);
      low_base = low;
      near = h.near;
      same_length = refl;
    }

low_base_of :
    (r : ReplayIds) (oldest : ℤ)
    → is_empty r.offsets ≡ false
    → (r.offsets ≡ []) ⊎ (rank r.base ≤ rank oldest)
    → rank r.base ≤ rank oldest
unfolding is_empty
low_base_of r oldest kept (inl nothing) = ground arith
low_base_of r oldest kept (inr le) = le

-- An identifier and a history survive the change of base.
pub rebase-IsMoved :
    (id oldest : ℤ) (r : ReplayIds)
    → CanMove id oldest r
    → IsMoved id oldest r (rebase id oldest r).0 (rebase id oldest r).1
unfolding rebase
rebase-IsMoved id oldest r h = elim (Option-cases (offset_of r.base id)) [
  | inl far ↦ rw (rebase, far) (moved-IsMoved id oldest r h)
  | inr (o, close) ↦
      rw (rebase, close)
        (elim (Bool-cases (is_empty r.offsets)) [
          | inl nothing ↦ rw nothing (moved-IsMoved id oldest r h)
          | inr kept ↦
              rw kept (stays-IsMoved id oldest r o h (low_base_of r oldest kept h.anchored) close)
        ])
]
