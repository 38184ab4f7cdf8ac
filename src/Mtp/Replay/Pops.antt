-- ===== src/Mtp/Replay/Pops.antt =====
-- What leaves the history when an identifier is recorded (grammers-mtproto/src/mtp/replay.rs,
-- `remember`).
use grammers.Common.{
  ℕ, zero, suc, ◌+◌, ◌^◌, ◌≤◌, ◌<◌, ◌≡◌, refl, ap, ◌∙◌, ◌⊎◌, inl, inr, false, Option, none, some,
  List, [], ◌∷◌, map, length, drop, drop-drop, length-drop, ◌≢◌, All, arith, Bool-cases, ltb, ◌==◌,
}
use grammers.Common.Int.{ℤ, ltb_ℤ}
use grammers.Common.I64.{IsI64, rank, ltb-rank}
use grammers.Mtp.Replay.{
  ReplayIds, capacity, id_of, front, back, is_some_and, insert_missing, pop_old, pop_full,
  previous_newest, has_no_place,
}
use grammers.Mtp.Replay.Lists.{Ascending, top, All-imp, length-map, back-map}
use grammers.Mtp.Replay.Ids.{insert_id, leave_old, leave_full, is_refused}
use grammers.Mtp.Replay.Shape.{Fits, ids_of, id_of-IsI64, rank-id_of, id_of-ltb, id_of-eqb_id_of}

-- Both pops take offsets off the front only.
IsRest : List ℕ → List ℕ → Type 0
IsRest rest os = (n : ℕ) × (rest ≡ drop n os)

pub pop_old-drop :
    (b oldest : ℤ) (e : Option ℤ) (os : List ℕ) → (n : ℕ) × ((pop_old b oldest e os).1 ≡ drop n os)
unfolding pop_old
pop_old-drop b oldest e [] = (0, refl)
pop_old-drop b oldest e (o ∷ os) = elim (Bool-cases (ltb_ℤ (id_of b o) oldest)) [
  | inl old ↦ let (n, same) = pop_old-drop b oldest (some (id_of b o)) os in (suc n, rw old same)
  | inr kept ↦ (0, rw kept refl)
]

pub pop_full-drop :
    (b : ℤ) (e : Option ℤ) (os : List ℕ) → (n : ℕ) × ((pop_full b (e, os)).1 ≡ drop n os)
unfolding pop_full
pop_full-drop b e [] = (0, refl)
pop_full-drop b e (o ∷ os) = elim (Bool-cases (length (o ∷ os) == capacity)) [
  | inl full ↦ (1, rw full refl)
  | inr room ↦ (0, rw room refl)
]

pub pop_old-leave_old :
    (b oldest : ℤ) (e : Option ℤ) (os : List ℕ)
    → leave_old oldest e (map (id_of b) os)
      ≡ ((pop_old b oldest e os).0, map (id_of b) (pop_old b oldest e os).1)
unfolding pop_old leave_old
pop_old-leave_old b oldest e [] = refl
pop_old-leave_old b oldest e (o ∷ os) = elim (Bool-cases (ltb_ℤ (id_of b o) oldest)) [
  | inl old ↦ rw old (pop_old-leave_old b oldest (some (id_of b o)) os)
  | inr kept ↦ rw kept refl
]

pub pop_full-leave_full :
    (b : ℤ) (e : Option ℤ) (os : List ℕ)
    → leave_full (e, map (id_of b) os)
      ≡ ((pop_full b (e, os)).0, map (id_of b) (pop_full b (e, os)).1)
unfolding pop_full leave_full
pop_full-leave_full b e [] = refl
pop_full-leave_full b e (o ∷ os) =
    rw (length-map (id_of b) os) (elim (Bool-cases (length (o ∷ os) == capacity)) [
      | inl full ↦ rw full refl
      | inr room ↦ rw room refl
    ])

pub refused_at :
    (id oldest b : ℤ) (os : List ℕ)
    → is_refused id oldest (map (id_of b) os)
      ≡ has_no_place id oldest (record { base = b; offsets = os })
unfolding has_no_place is_refused is_some_and front
refused_at id oldest b [] = refl
refused_at id oldest b (o ∷ os) = rw (length-map (id_of b) os) refl

pub has_no_place-is_refused :
    (id oldest : ℤ) (r : ReplayIds) → is_refused id oldest (ids_of r) ≡ has_no_place id oldest r
unfolding ids_of
has_no_place-is_refused id oldest r = refused_at id oldest r.base r.offsets

pub previous_newest-back : (r : ReplayIds) → back (ids_of r) ≡ previous_newest r
unfolding previous_newest ids_of
previous_newest-back r = back-map (id_of r.base) r.offsets

-- The insertion of an offset is the insertion of its identifier.
pub insert_missing-insert_id :
    (b : ℤ) (o : ℕ) (os : List ℕ)
    → IsI64 b
    → rank b + o < 2 ^ 64
    → All (Fits b) os
    → map (id_of b) (insert_missing o os) ≡ insert_id (id_of b o) (map (id_of b) os)
unfolding insert_missing insert_id
insert_missing-insert_id b o [] hb ho h = refl
insert_missing-insert_id b o (x ∷ xs) hb ho h =
    rw (id_of-ltb b o x hb ho h.0.1, id_of-eqb_id_of b x o hb h.0.1 ho)
      (elim (Bool-cases (ltb o x)) [
        | inl lo ↦ rw lo refl
        | inr above ↦ rw above (elim (Bool-cases (x == o)) [
          | inl same ↦ rw same refl
          | inr other ↦ rw other (ap (◌∷◌ (id_of b x)) (insert_missing-insert_id b o xs hb ho h.1))
        ])
      ])

pub All-drop {κ} : (P : ℕ → Type κ) (n : ℕ) (os : List ℕ) → All P os → All P (drop n os)
All-drop P zero os h = h
All-drop P (suc n) [] h = h
All-drop P (suc n) (o ∷ os) h = All-drop P n os h.1

pub Ascending-drop : (n : ℕ) (os : List ℕ) → Ascending os → Ascending (drop n os)
Ascending-drop zero os h = h
Ascending-drop (suc n) [] h = h
Ascending-drop (suc n) (o ∷ os) h = Ascending-drop n os h.1

pub top-drop : (n : ℕ) (os : List ℕ) → (drop n os ≡ []) ⊎ (top (drop n os) ≡ top os)
top-drop zero os = inr refl
top-drop (suc n) [] = inr refl
top-drop (suc zero) (o ∷ []) = inl refl
top-drop (suc (suc n)) (o ∷ []) = inl refl
top-drop (suc n) (o ∷ p ∷ ps) = top-drop n (p ∷ ps)

-- What stays is not older than the oldest allowed identifier.
pub pop_old-kept :
    (b oldest : ℤ) (e : Option ℤ) (os : List ℕ)
    → IsI64 b
    → IsI64 oldest
    → All (Fits b) os
    → Ascending os
    → All (λ o. rank oldest ≤ rank b + o) (pop_old b oldest e os).1
unfolding pop_old
pop_old-kept b oldest e [] hb ho f h = tt
pop_old-kept b oldest e (o ∷ os) hb ho f h = elim (Bool-cases (ltb_ℤ (id_of b o) oldest)) [
  | inl old ↦ rw old (pop_old-kept b oldest (some (id_of b o)) os hb ho f.1 h.1)
  | inr kept ↦
      let le : rank oldest ≤ rank b + o =
        ground
          (arith, ltb-rank (id_of b o) oldest (id_of-IsI64 b o hb) ho, rank-id_of b o hb f.0.1) in
      rw kept (le, All-imp (λ p. o < p) _ os (λ p lt. omega arith) h.0)
]

pub pop_full-few :
    (b : ℤ) (e : Option ℤ) (os : List ℕ)
    → length os ≤ capacity
    → length (pop_full b (e, os)).1 < capacity
unfolding pop_full
pop_full-few b e [] h = omega arith
pop_full-few b e (o ∷ os) h = elim (Bool-cases (length (o ∷ os) == capacity)) [
  | inl full ↦ rw full (ground arith)
  | inr room ↦ rw room (ground arith)
]

pub length-insert_missing : (o : ℕ) (os : List ℕ) → length (insert_missing o os) ≤ suc (length os)
unfolding insert_missing
length-insert_missing o [] = omega arith
length-insert_missing o (x ∷ xs) = ground (arith, length-insert_missing o xs)

-- The pops keep the highest offset when it is not too old.
pub pop_old-top :
    (b oldest : ℤ) (e : Option ℤ) (o : ℕ) (os : List ℕ)
    → IsI64 b
    → IsI64 oldest
    → All (Fits b) (o ∷ os)
    → rank oldest ≤ rank b + top (o ∷ os)
    → ((pop_old b oldest e (o ∷ os)).1 ≢ []) × (top (pop_old b oldest e (o ∷ os)).1 ≡ top (o ∷ os))
unfolding pop_old
pop_old-top b oldest e o [] hb ho f le =
    let kept : ltb_ℤ (id_of b o) oldest ≡ false =
      ground
        (arith, ltb-rank (id_of b o) oldest (id_of-IsI64 b o hb) ho, rank-id_of b o hb f.0.1) in
    rw kept ((λ h. cc), refl)
pop_old-top b oldest e o (p ∷ ps) hb ho f le = elim (Bool-cases (ltb_ℤ (id_of b o) oldest)) [
  | inl old ↦ rw old (pop_old-top b oldest (some (id_of b o)) p ps hb ho f.1 le)
  | inr kept ↦ rw kept ((λ h. cc), refl)
]

pub pop_full-top :
    (b : ℤ) (e : Option ℤ) (os : List ℕ)
    → os ≢ []
    → ((pop_full b (e, os)).1 ≢ []) × (top (pop_full b (e, os)).1 ≡ top os)
unfolding pop_full
pop_full-top b e [] h = absurd (h refl)
pop_full-top b e (o ∷ []) h = ((λ h. cc), refl)
pop_full-top b e (o ∷ p ∷ ps) h = elim (Bool-cases (length (o ∷ p ∷ ps) == capacity)) [
  | inl full ↦ rw full ((λ h. cc), refl)
  | inr room ↦ rw room ((λ h. cc), refl)
]

-- Both pops.
abbrev pub pops : ℤ → ℤ → List ℕ → Option ℤ × List ℕ
pops b oldest os = pop_full b (pop_old b oldest none os)

pub pops-drop : (b oldest : ℤ) (os : List ℕ) → (n : ℕ) × ((pops b oldest os).1 ≡ drop n os)
pops-drop b oldest os =
    let p = pop_old b oldest none os in
    let (n, e) = pop_old-drop b oldest none os in
    let (m, g) = pop_full-drop b p.0 p.1 in (n + m, g ∙ ap (drop m) e ∙ drop-drop m n os)

pub pops-kept :
    (b oldest : ℤ) (os : List ℕ)
    → IsI64 b
    → IsI64 oldest
    → All (Fits b) os
    → Ascending os
    → All (λ o. rank oldest ≤ rank b + o) (pops b oldest os).1
pops-kept b oldest os hb ho f asc =
    let p = pop_old b oldest none os in
    let (m, g) = pop_full-drop b p.0 p.1 in
    rw g (All-drop _ m p.1 (pop_old-kept b oldest none os hb ho f asc))

pub pops-few :
    (b oldest : ℤ) (os : List ℕ) → length os ≤ capacity → length (pops b oldest os).1 < capacity
pops-few b oldest os few =
    let p = pop_old b oldest none os in
    let (n, e) = pop_old-drop b oldest none os in
    pop_full-few b p.0 p.1 (rw e (omega (arith, length-drop n os)))

pub pops-top :
    (b oldest : ℤ) (os : List ℕ)
    → IsI64 b
    → IsI64 oldest
    → All (Fits b) os
    → os ≢ []
    → rank oldest ≤ rank b + top os
    → ((pops b oldest os).1 ≢ []) × (top (pops b oldest os).1 ≡ top os)
pops-top b oldest [] hb ho f some_left le = absurd (some_left refl)
pops-top b oldest (o ∷ os) hb ho f some_left le =
    let p = pop_old b oldest none (o ∷ os) in
    let t = pop_old-top b oldest none o os hb ho f le in
    let u = pop_full-top b p.0 p.1 t.0 in (u.0, u.1 ∙ t.1)
