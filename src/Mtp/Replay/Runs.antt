-- ===== src/Mtp/Replay/Runs.antt =====
-- Runs of the history of server message identifiers (grammers-mtproto/src/mtp/replay.rs).
use grammers.Common.{◌≡◌, refl, ◌⊎◌, subst, true, none, some, [], ◌∷◌, arith}
use grammers.Common.Int.{ℤ, pos}
use grammers.Common.I64.{saturating_sub, of_rank, rank, wrapping_add_i64, wrapping_sub_u64}
use grammers.Mtp.Replay.{
  ReplayIds, contains, found, remember, has_no_place, newest_of, previous_newest, max_ℤ, back,
  front, is_some_and, new, remember_in_place, pop_full, pop_old, rebase, moved, push_offset,
  offset_of, is_none_or, is_empty, id_of, pack, insert_missing,
}
use grammers.Mtp.Replay.Ids.{remember_id}
use grammers.Mtp.Replay.Shape.{IsValid, ids_of, new-IsValid}
use grammers.Mtp.Replay.Refines.{remember-IsValid, remember-remember_id}
use grammers.Mtp.Replay.History.{Covers, remember-Covers}

abbrev first_id : ℤ
first_id = pos 7_000_000_000_000_000_001

-- More than the maximum age later.
abbrev later_id : ℤ
later_id = pos 7_000_009_000_000_000_001

abbrev one_id : ReplayIds
one_id = record { base = pos 6_999_998_711_509_811_201; offsets = 1_288_490_188_800 ∷ [] }

first_remembered : remember first_id new ≡ (none, one_id)
unfolding remember has_no_place saturating_sub of_rank rank newest_of previous_newest max_ℤ back
    front is_some_and new remember_in_place pop_full pop_old rebase moved push_offset offset_of
    is_none_or is_empty id_of wrapping_add_i64 wrapping_sub_u64 pack insert_missing
first_remembered = refl

one_id-IsValid : IsValid one_id
one_id-IsValid =
    subst (λ p. IsValid p.1) first_remembered
      (remember-IsValid first_id new (omega arith) new-IsValid)

one_id_contained : contains first_id one_id ≡ true
unfolding contains offset_of wrapping_sub_u64 pack is_some_and back found
one_id_contained = refl

-- The first identifier is too old once the later one is recorded.
later_remembered : remember later_id one_id ≡ (
  some first_id,
  record { base = pos 7_000_007_711_509_811_201; offsets = 1_288_490_188_800 ∷ [] },
)
unfolding remember has_no_place saturating_sub of_rank rank newest_of previous_newest max_ℤ back
    front is_some_and new remember_in_place pop_full pop_old rebase moved push_offset offset_of
    is_none_or is_empty id_of wrapping_add_i64 wrapping_sub_u64 pack insert_missing
later_remembered = refl

remember-IsValid_example : IsValid (remember later_id one_id).1
remember-IsValid_example = remember-IsValid later_id one_id (omega arith) one_id-IsValid

remember-remember_id_example :
    remember_id later_id (ids_of one_id)
    ≡ ((remember later_id one_id).0, ids_of (remember later_id one_id).1)
remember-remember_id_example = remember-remember_id later_id one_id (omega arith) one_id-IsValid

remember-Covers_example :
    (contains first_id (remember later_id one_id).1 ≡ true)
    ⊎ Covers (remember later_id one_id).0 first_id
remember-Covers_example =
    remember-Covers later_id one_id (omega arith) one_id-IsValid first_id (omega arith)
      one_id_contained
