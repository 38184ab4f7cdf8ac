-- ===== src/Mtp/Replay/Refines.antt =====
-- Recording a server message identifier, on offsets and on whole identifiers
-- (grammers-mtproto/src/mtp/replay.rs, `remember`).
use grammers.Common.{
  ℕ, ◌+◌, ◌-◌, ◌≤◌, ◌<◌, ◌≡◌, ◌≢◌, refl, sym, ap, ◌∙◌, ◌⊎◌, inl, inr, false, none, some, List, [],
  ◌∷◌, map, length, drop, drop-all, All, arith, Bool-cases,
}
use grammers.Common.Int.{ℤ, ltb_ℤ}
use grammers.Common.I64.{
  IsI64, rank, ltb-rank, saturating_sub, saturating_sub-IsI64, rank-saturating_sub,
}
use grammers.Mtp.Replay.{
  ReplayIds, capacity, max_age, id_of, back, insert_missing, pop_old, push_offset, max_ℤ, newest_of,
  previous_newest, has_no_place, remember_in_place, remember,
}
use grammers.Mtp.Replay.Lists.{
  Ascending, top, All-imp, All-both, back-top, top_highest, back-map, push_offset-insert_missing,
  insert_missing-All, insert_missing-Ascending, All-top, All-top_or, top-insert_missing,
}
use grammers.Mtp.Replay.Ids.{insert_id, leave_old, leave_full, remember_id}
use grammers.Mtp.Replay.Rebase.{Near, CanMove, IsMoved, rebase-IsMoved}
use grammers.Mtp.Replay.Shape.{Fits, IsValid, ids_of, id_of-IsI64, rank-id_of}
use grammers.Mtp.Replay.Pops.{
  pop_old-leave_old, pop_full-leave_full, has_no_place-is_refused, previous_newest-back,
  insert_missing-insert_id, All-drop, Ascending-drop, length-insert_missing, pops, pops-drop,
  pops-kept, pops-few, pops-top,
}

-- The newest identifier after the call, and the offsets that the pops leave.
module _ (id : ℤ) (r : ReplayIds) where
  abbrev newest : ℤ
  newest = newest_of (previous_newest r) id

  abbrev oldest_allowed : ℤ
  oldest_allowed = saturating_sub newest max_age

  abbrev kept : List ℕ
  kept = (pops r.base oldest_allowed r.offsets).1

max_rank :
    (a b : ℤ)
    → IsI64 a
    → IsI64 b
    → IsI64 (max_ℤ a b)
      × (((rank (max_ℤ a b) ≡ rank a) × (rank b ≤ rank a))
          ⊎ ((rank (max_ℤ a b) ≡ rank b) × (rank a ≤ rank b)))
unfolding max_ℤ
max_rank a b ha hb = elim (Bool-cases (ltb_ℤ b a)) [
  | inl lt ↦ rw lt (ha, inl (refl, ground (arith, ltb-rank b a hb ha)))
  | inr ge ↦ rw ge (hb, inr (refl, ground (arith, ltb-rank b a hb ha)))
]

-- The newest of the retained identifiers and the new one.
record IsNewest (id b : ℤ) (os : List ℕ) (n : ℤ) : Type 0 where
  pub in_range : IsI64 n
  pub above_id : rank id ≤ rank n
  pub above_top : (os ≡ []) ⊎ (rank b + top os ≤ rank n)
  pub one_of : (rank n ≡ rank id) ⊎ ((os ≢ []) × (rank n ≡ rank b + top os))

newest_at :
    (id b : ℤ) (os : List ℕ)
    → IsI64 id
    → IsI64 b
    → All (Fits b) os
    → IsNewest id b os (newest id (record { base = b; offsets = os }))
unfolding newest_of previous_newest back
newest_at id b [] hid hb f = record {
  in_range = hid;
  above_id = omega arith;
  above_top = inl refl;
  one_of = inl refl;
}
newest_at id b (o ∷ os) hid hb f =
    let t = All-top (Fits b) o os f in
    let e = rank-id_of b (top (o ∷ os)) hb t.1 in
    let m = max_rank (id_of b (top (o ∷ os))) id (id_of-IsI64 b (top (o ∷ os)) hb) hid in
    rw (newest_of, previous_newest, back-top o os)
      (record {
        in_range = m.0;
        above_id = ground (arith, m.1);
        above_top = inr (ground (arith, m.1, e));
        one_of = elim m.1 [ inl p ↦ inr ((λ h. cc), p.0 ∙ e) | inr p ↦ inl p.0 ];
      })

-- What the pops leave can move, and the newest identifier stays.
record IsPopped (id n oldest : ℤ) (r : ReplayIds) (os : List ℕ) : Type 0 where
  pub can_move : CanMove id oldest (record r { offsets = os })
  pub room : length os < capacity
  pub newest_stays : (rank n ≡ rank id) ⊎ ((os ≢ []) × (rank n ≡ rank r.base + top os))

not_above :
    (id n oldest b : ℤ) (os : List ℕ)
    → IsNewest id b os n
    → rank oldest ≡ rank n - max_age
    → Ascending os
    → All (λ o. rank b + o ≤ rank oldest + max_age) os
not_above id n oldest b os newest age asc = elim newest.above_top [
  | inl none_left ↦ rw none_left tt
  | inr le ↦ All-imp _ _ os (λ o below. omega arith) (top_highest os asc)
]

base_below :
    (id n oldest b : ℤ) (os : List ℕ) (k : ℕ)
    → IsNewest id b os n
    → rank oldest ≡ rank n - max_age
    → (os ≡ []) ⊎ (rank b ≤ rank b + top os - max_age)
    → (rest : List ℕ) → rest ≡ drop k os
    → (rest ≡ []) ⊎ (rank b ≤ rank oldest)
base_below id n oldest b os k newest age (inl none_left) rest e =
    inl (e ∙ rw none_left (drop-all k [] (omega arith)))
base_below id n oldest b os k newest age (inr low) rest e = elim newest.above_top [
  | inl none_left ↦ inl (e ∙ rw none_left (drop-all k [] (omega arith)))
  | inr le ↦ inr (omega arith)
]

pops-IsPopped :
    (id n oldest : ℤ) (r : ReplayIds)
    → IsI64 id
    → IsValid r
    → IsNewest id r.base r.offsets n
    → IsI64 oldest
    → rank oldest ≡ rank n - max_age
    → rank oldest ≤ rank id
    → IsPopped id n oldest r (pops r.base oldest r.offsets).1
pops-IsPopped id n oldest r hid h newest ho age place =
    let b = r.base in
    let os = r.offsets in
    let (k, e) = pops-drop b oldest os in
    record {
      can_move = record {
        base_in_range = h.in_range;
        id_in_range = hid;
        oldest_in_range = ho;
        fits = rw e (All-drop _ k os h.fits);
        ascending = rw e (Ascending-drop k os h.ascending);
        near =
            All-both _ _ _ (pops-kept b oldest os h.in_range ho h.fits h.ascending)
              (rw e (All-drop _ k os (not_above id n oldest b os newest age h.ascending)));
        id_near = (place, omega (arith, age, newest.above_id));
        anchored = base_below id n oldest b os k newest age h.anchored (pops b oldest os).1 e;
      };
      room = pops-few b oldest os h.few;
      newest_stays = elim newest.one_of [
        | inl new ↦ inl new
        | inr old ↦
            let t = pops-top b oldest os h.in_range ho h.fits old.0 (omega (arith, age, old.1)) in
            inr (t.0, omega (arith, old.1, t.1))
      ];
    }

-- The highest identifier survives the change of base.
back_rank :
    (b : ℤ) (o : ℕ) (os : List ℕ)
    → IsI64 b
    → All (Fits b) (o ∷ os)
    → back (map (id_of b) (o ∷ os)) ≡ some (id_of b (top (o ∷ os)))
back_rank b o os hb f = back-map (id_of b) (o ∷ os) ∙ rw (back-top o os) refl

same_top :
    (b b' : ℤ) (os ps : List ℕ)
    → IsI64 b
    → IsI64 b'
    → All (Fits b) os
    → All (Fits b') ps
    → map (id_of b') ps ≡ map (id_of b) os
    → os ≢ []
    → rank b' + top ps ≡ rank b + top os
same_top b b' [] ps hb hb' f f' e ne = absurd (ne refl)
same_top b b' (o ∷ os) [] hb hb' f f' e ne = cc
same_top b b' (o ∷ os) (p ∷ ps) hb hb' f f' e ne =
    let t = All-top (Fits b) o os f in
    let t' = All-top (Fits b') p ps f' in
    let same : some (id_of b' (top (p ∷ ps))) ≡ some (id_of b (top (o ∷ os))) =
      sym (back_rank b' p ps hb' f') ∙ ap back e ∙ back_rank b o os hb f in
    let g : id_of b' (top (p ∷ ps)) ≡ id_of b (top (o ∷ os)) = cc in
    sym (rank-id_of b' (top (p ∷ ps)) hb' t'.1) ∙ ap rank g ∙ rank-id_of b (top (o ∷ os)) hb t.1

ids_at :
    (r r' : ReplayIds)
    → ids_of r' ≡ ids_of r
    → map (id_of r'.base) r'.offsets ≡ map (id_of r.base) r.offsets
unfolding ids_of
ids_at r r' e = e

recent_of :
    (b oldest : ℤ) (os : List ℕ)
    → All (λ q. Near oldest (rank b + q)) os
    → All (λ o. top os ≤ o + max_age) os
recent_of b oldest os near = elim (All-top_or (λ q. Near oldest (rank b + q)) os near) [
  | inl none_left ↦ rw none_left tt
  | inr highest ↦
      All-imp _ (λ o. top os ≤ o + max_age) os (λ o n. omega (arith, n.0, highest.1)) near
]

-- The history after the insertion.
insert-IsValid :
    (id n oldest : ℤ) (r r' : ReplayIds) (o : ℕ)
    → IsPopped id n oldest r r.offsets
    → rank oldest ≡ rank n - max_age
    → IsMoved id oldest r o r'
    → IsValid (record r' { offsets = push_offset o r'.offsets })
insert-IsValid id n oldest r r' o p age m =
    let new = insert_missing o r'.offsets in
    let e = push_offset-insert_missing o r'.offsets m.ascending in
    let t = top-insert_missing o r'.offsets m.ascending in
    let id_rank : rank r'.base + o ≡ rank id =
      sym (rank-id_of r'.base o m.base_in_range m.offset_fits.1) ∙ ap rank m.same_id in
    let near =
      insert_missing-All (λ q. Near oldest (rank r'.base + q)) o r'.offsets
        (rw id_rank p.can_move.id_near) m.near in
    rw e (record {
      in_range = m.base_in_range;
      fits = insert_missing-All (Fits r'.base) o r'.offsets m.offset_fits m.fits;
      ascending = insert_missing-Ascending o r'.offsets m.ascending;
      few = omega (arith, length-insert_missing o r'.offsets, m.same_length, p.room);
      recent = recent_of r'.base oldest new near;
      anchored = inr (elim p.newest_stays [
        | inl new_id ↦ omega (arith, t.0, m.low_base, age, id_rank, new_id)
        | inr old ↦
            let s =
              same_top r.base r'.base r.offsets r'.offsets p.can_move.base_in_range m.base_in_range
                p.can_move.fits m.fits (ids_at r r' m.same_ids) old.0 in
            omega (arith, t.1, m.low_base, age, old.1, s)
      ]);
    })

insert-ids_of :
    (id n oldest : ℤ) (r r' : ReplayIds) (o : ℕ)
    → IsMoved id oldest r o r'
    → ids_of (record r' { offsets = push_offset o r'.offsets }) ≡ insert_id id (ids_of r)
unfolding ids_of
insert-ids_of id n oldest r r' o m =
    rw
      (
        push_offset-insert_missing o r'.offsets m.ascending,
        insert_missing-insert_id r'.base o r'.offsets m.base_in_range m.offset_fits.1 m.fits,
        m.same_id,
      )
      (ap (insert_id id) m.same_ids)

in_place-IsValid :
    (id n oldest : ℤ) (r : ReplayIds)
    → IsPopped id n oldest r (pops r.base oldest r.offsets).1
    → rank oldest ≡ rank n - max_age
    → IsValid (remember_in_place id oldest r).1
      × (insert_id id (ids_of (record r { offsets = (pops r.base oldest r.offsets).1 }))
          ≡ ids_of (remember_in_place id oldest r).1)
unfolding remember_in_place
in_place-IsValid id n oldest r p age =
    let popped : ReplayIds = record r { offsets = (pops r.base oldest r.offsets).1 } in
    let m = rebase-IsMoved id oldest popped p.can_move in
    (
      insert-IsValid id n oldest popped _ _
          (record { can_move = p.can_move; room = p.room; newest_stays = p.newest_stays }) age m,
      sym (insert-ids_of id n oldest popped _ _ m),
    )

in_place-leaves :
    (id oldest : ℤ) (r : ReplayIds)
    → leave_full (leave_old oldest none (ids_of r)) ≡ (
      (remember_in_place id oldest r).0,
      ids_of (record r { offsets = (pops r.base oldest r.offsets).1 }),
    )
unfolding remember_in_place ids_of
in_place-leaves id oldest r =
    let p = pop_old r.base oldest none r.offsets in
    ap leave_full (pop_old-leave_old r.base oldest none r.offsets)
    ∙ pop_full-leave_full r.base p.0 p.1

place_of :
    (id oldest : ℤ) (r : ReplayIds)
    → IsI64 id
    → IsI64 oldest
    → has_no_place id oldest r ≡ false
    → rank oldest ≤ rank id
unfolding has_no_place
place_of id oldest r hid ho place = ground (arith, ltb-rank id oldest hid ho)

IsPopped-at :
    (id : ℤ) (r : ReplayIds)
    → IsI64 id
    → IsValid r
    → has_no_place id (oldest_allowed id r) r ≡ false
    → IsPopped id
        (newest id r)
        (oldest_allowed id r)
        r
        (pops r.base (oldest_allowed id r) r.offsets).1
IsPopped-at id r hid h place =
    let n = newest_at id r.base r.offsets hid h.in_range h.fits in
    let ho = saturating_sub-IsI64 (newest id r) max_age n.in_range in
    pops-IsPopped id (newest id r) (oldest_allowed id r) r hid h n ho
      (rank-saturating_sub (newest id r) max_age) (place_of id (oldest_allowed id r) r hid ho place)

-- Recording any 64-bit identifier keeps a replay history valid: ascending offsets that fit, at most
-- as many as its capacity, and none older than the maximal age before the newest.
pub remember-IsValid : (id : ℤ) (r : ReplayIds) → IsI64 id → IsValid r → IsValid (remember id r).1
unfolding remember
remember-IsValid id r hid h = elim (Bool-cases (has_no_place id (oldest_allowed id r) r)) [
  | inl refused ↦ rw refused h
  | inr place ↦
      rw place
        (in_place-IsValid id (newest id r) (oldest_allowed id r) r (IsPopped-at id r hid h place)
          (rank-saturating_sub (newest id r) max_age)).0
]

-- On a valid replay history and a 64-bit identifier, recording the identifier in offsets does what
-- it does on the ascending list of the identifiers that they stand for, with the same identifier
-- leaving.
pub remember-remember_id :
    (id : ℤ) (r : ReplayIds)
    → IsI64 id
    → IsValid r
    → remember_id id (ids_of r) ≡ ((remember id r).0, ids_of (remember id r).1)
unfolding remember remember_id
remember-remember_id id r hid h =
    rw (previous_newest-back r, has_no_place-is_refused id (oldest_allowed id r) r)
      (elim (Bool-cases (has_no_place id (oldest_allowed id r) r)) [
        | inl refused ↦ rw refused refl
        | inr place ↦
            rw
              (
                place,
                in_place-leaves id (oldest_allowed id r) r,
                (in_place-IsValid id (newest id r) (oldest_allowed id r) r
                    (IsPopped-at id r hid h place) (rank-saturating_sub (newest id r) max_age)).1,
              )
              refl
      ])
