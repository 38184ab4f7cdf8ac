-- ===== src/MessageBox/Invariant/Retained.antt =====
-- The held updates that stay held after a temporary failure (mod.rs, `retain_contiguous_held_updates`).
use grammers.Common.{
  suc, ◌+◌, ◌≤◌, ◌≡◌, refl, ap, List, [], ◌∷◌, ◌++◌, Bool, length, length-append, All, All-append,
  arith, inl, inr, Option-cases,
}
use grammers.Common.Int.{ℤ, ◌+ℤ◌, cmp_ℤ, Ordering-cases}
use grammers.MessageBox.Defs.{MessageBoxes, Update}
use grammers.MessageBox.Updates.{from_update, stable_sort, insert_before}
use grammers.MessageBox.Channels.{
  split_contiguous, held_for, held_for_others, hold_all, before_by_key,
  retain_contiguous_held_updates,
}
use grammers.MessageBox.Invariant.{IsSequenced, sequenced, HeldOk}

-- What lies beyond the retained updates has sequence information.
split_contiguous-beyond :
    (pts : ℤ) (kept beyond us : List Update)
    → All IsSequenced beyond
    → All IsSequenced (split_contiguous pts kept beyond us).1
unfolding split_contiguous
split_contiguous-beyond pts kept beyond [] h = h
split_contiguous-beyond pts kept [] (u ∷ us) h = elim (Option-cases (from_update u)) [
  | inl unknown ↦ rw (unknown, split_contiguous) (split_contiguous-beyond pts kept [] us h)
  | inr (info, known) ↦
      rw (known, split_contiguous)
        (elim (Ordering-cases (cmp_ℤ (pts +ℤ info.count) info.pts)) [
          | inl next ↦ rw next (split_contiguous-beyond info.pts (kept ++ (u ∷ [])) [] us tt)
          | inr (inl old) ↦ rw old (split_contiguous-beyond pts kept [] us tt)
          | inr (inr ahead) ↦
              rw ahead (split_contiguous-beyond pts kept (u ∷ []) us (ap sequenced known, tt))
        ])
]
split_contiguous-beyond pts kept (b ∷ bs) (u ∷ us) h = elim (Option-cases (from_update u)) [
  | inl unknown ↦ rw (unknown, split_contiguous) (split_contiguous-beyond pts kept (b ∷ bs) us h)
  | inr (info, known) ↦
      rw (known, split_contiguous)
        (split_contiguous-beyond pts kept ((b ∷ bs) ++ (u ∷ [])) us
          (All-append IsSequenced (b ∷ bs) (u ∷ []) h (ap sequenced known, tt)))
]

split_contiguous-length :
    (pts : ℤ) (kept beyond us : List Update)
    → length (split_contiguous pts kept beyond us).0 ≤ length kept + length us
unfolding split_contiguous
split_contiguous-length pts kept beyond [] = omega arith
split_contiguous-length pts kept [] (u ∷ us) = elim (Option-cases (from_update u)) [
  | inl unknown ↦
      rw (unknown, split_contiguous) (omega (arith, split_contiguous-length pts kept [] us))
  | inr (info, known) ↦
      rw (known, split_contiguous)
        (elim (Ordering-cases (cmp_ℤ (pts +ℤ info.count) info.pts)) [
          | inl next ↦ rw next (
              omega (
                arith,
                split_contiguous-length info.pts (kept ++ (u ∷ [])) [] us,
                length-append kept (u ∷ []),
              ))
          | inr (inl old) ↦ rw old (omega (arith, split_contiguous-length pts kept [] us))
          | inr (inr ahead) ↦ rw ahead (omega (arith, split_contiguous-length pts kept (u ∷ []) us))
        ])
]
split_contiguous-length pts kept (b ∷ bs) (u ∷ us) = elim (Option-cases (from_update u)) [
  | inl unknown ↦
      rw (unknown, split_contiguous) (omega (arith, split_contiguous-length pts kept (b ∷ bs) us))
  | inr (info, known) ↦
      rw (known, split_contiguous)
        (omega (arith, split_contiguous-length pts kept ((b ∷ bs) ++ (u ∷ [])) us))
]

insert_before-length :
    (before : Update → Update → Bool) (x : Update) (ys : List Update)
    → length (insert_before before x ys) ≡ suc (length ys)
unfolding insert_before
insert_before-length before x [] = refl
insert_before-length before x (y ∷ ys) = ground (arith, insert_before-length before x ys)

stable_sort-length :
    (before : Update → Update → Bool) (xs : List Update)
    → length (stable_sort before xs) ≡ length xs
unfolding stable_sort
stable_sort-length before [] = refl
stable_sort-length before (x ∷ xs) =
    omega
      (arith, insert_before-length before x (stable_sort before xs), stable_sort-length before xs)

held_for-length :
    (id : ℤ) (hs : List (ℤ × Update))
    → length (held_for id hs) + length (held_for_others id hs) ≡ length hs
unfolding held_for held_for_others
held_for-length id [] = refl
held_for-length id ((i, u) ∷ hs) = ground (arith, held_for-length id hs)

hold_all-length : (id : ℤ) (us : List Update) → length (hold_all id us) ≡ length us
hold_all-length id [] = refl
hold_all-length id (u ∷ us) = ap suc (hold_all-length id us)

module _ (id pts : ℤ) (b : MessageBoxes) where
  pub retain_contiguous_held_updates-beyond :
      All IsSequenced (retain_contiguous_held_updates id pts b).0
  unfolding retain_contiguous_held_updates
  retain_contiguous_held_updates-beyond =
      split_contiguous-beyond pts [] [] (stable_sort before_by_key (held_for id b.held_updates)) tt

  pub retain_contiguous_held_updates-HeldOk :
      HeldOk b.held_updates → HeldOk (retain_contiguous_held_updates id pts b).1.held_updates
  unfolding retain_contiguous_held_updates
  retain_contiguous_held_updates-HeldOk h =
      let mine = held_for id b.held_updates in
      let others = held_for_others id b.held_updates in
      let sorted = stable_sort before_by_key mine in
      let kept = (split_contiguous pts [] [] sorted).0 in
      omega (
        arith,
        h,
        length-append others (hold_all id kept),
        hold_all-length id kept,
        split_contiguous-length pts [] [] sorted,
        stable_sort-length before_by_key mine,
        held_for-length id b.held_updates,
      )
