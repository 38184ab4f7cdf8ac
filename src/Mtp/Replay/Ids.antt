-- ===== src/Mtp/Replay/Ids.antt =====
-- What the history of server message identifiers promises (grammers-mtproto/src/mtp/replay.rs): an
-- ascending list of whole identifiers, with neither a base nor offsets.
use grammers.Common.{
  Bool, false, ◌&&◌, ◌||◌, Option, none, some, List, [], ◌∷◌, if◌then◌else◌, ◌==◌, length,
}
use grammers.Common.Int.{ℤ, ltb_ℤ, eqb_ℤ}
use grammers.Common.I64.{saturating_sub}
use grammers.Mtp.Replay.{capacity, max_age, front, back, is_some_and, newest_of}

unfoldable pub member : ℤ → List ℤ → Bool
member id [] = false
member id (x ∷ xs) = eqb_ℤ x id || member id xs

unfoldable pub insert_id : ℤ → List ℤ → List ℤ
insert_id id [] = id ∷ []
insert_id id (x ∷ xs) =
    let rest = insert_id id xs in
    if ltb_ℤ id x then id ∷ x ∷ xs else if eqb_ℤ x id then x ∷ xs else x ∷ rest

-- The identifiers below `oldest` leave, the highest of them last.
unfoldable pub leave_old : ℤ → Option ℤ → List ℤ → Option ℤ × List ℤ
leave_old oldest evicted [] = (evicted, [])
leave_old oldest evicted (x ∷ xs) =
    let rest = leave_old oldest (some x) xs in if ltb_ℤ x oldest then rest else (evicted, x ∷ xs)

-- The lowest identifier leaves a full history.
unfoldable pub leave_full : Option ℤ × List ℤ → Option ℤ × List ℤ
leave_full (evicted, []) = (evicted, [])
leave_full (evicted, x ∷ xs) =
    if length (x ∷ xs) == capacity then (some x, xs) else (evicted, x ∷ xs)

unfoldable pub is_refused : ℤ → ℤ → List ℤ → Bool
is_refused id oldest ids =
    ltb_ℤ id oldest
    || ((length ids == capacity) && is_some_and (front ids) (λ first. ltb_ℤ id first))

unfoldable pub remember_id : ℤ → List ℤ → Option ℤ × List ℤ
remember_id id ids =
    let oldest = saturating_sub (newest_of (back ids) id) max_age in
    let (evicted, kept) = leave_full (leave_old oldest none ids) in
    if is_refused id oldest ids then (some id, ids) else (evicted, insert_id id kept)
