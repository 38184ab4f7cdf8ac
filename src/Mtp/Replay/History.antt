-- ===== src/Mtp/Replay/History.antt =====
-- What the history of server message identifiers forgets (grammers-mtproto/src/mtp/replay.rs).
use grammers.Common.{
  ℕ, ◌≤◌, ◌<◌, ◌≡◌, ◌≢◌, refl, sym, ap, ◌∙◌, ◌⊎◌, inl, inr, true, false, subst, Option, none, some,
  List, [], ◌∷◌, map, length, All, arith, Bool-cases, ◌==◌, lt→ltb,
}
use grammers.Common.Int.{ℤ, ltb_ℤ, eqb_ℤ, eqb_ℤ_refl}
use grammers.Common.I64.{IsI64, saturating_sub}
use grammers.Mtp.Replay.{ReplayIds, capacity, max_age, newest_of, back, id_of, contains, remember}
use grammers.Mtp.Replay.Lists.{Ascending, length-map}
use grammers.Mtp.Replay.Ids.{member, insert_id, leave_old, leave_full, is_refused, remember_id}
use grammers.Mtp.Replay.Shape.{Fits, IsValid, ids_of, id_of-ltb, contains-member}
use grammers.Mtp.Replay.Refines.{remember-IsValid, remember-remember_id}

-- The highest identifier that left is some identifier at or above `y`.
abbrev pub Covers : Option ℤ → ℤ → Type 0
Covers evicted y = (e : ℤ) × (evicted ≡ some e) × (ltb_ℤ e y ≡ false)

AscendingIds : List ℤ → Type 0
AscendingIds [] = Unit
AscendingIds (x ∷ xs) = All (λ y. ltb_ℤ x y ≡ true) xs × AscendingIds xs

ids_above :
    (b : ℤ) (o : ℕ) (os : List ℕ)
    → IsI64 b
    → Fits b o
    → All (Fits b) os
    → All (λ p. o < p) os
    → All (λ y. ltb_ℤ (id_of b o) y ≡ true) (map (id_of b) os)
ids_above b o [] hb fo f h = tt
ids_above b o (p ∷ ps) hb fo f h =
    (id_of-ltb b o p hb fo.1 f.0.1 ∙ lt→ltb o p h.0, ids_above b o ps hb fo f.1 h.1)

map-AscendingIds :
    (b : ℤ) (os : List ℕ)
    → IsI64 b
    → All (Fits b) os
    → Ascending os
    → AscendingIds (map (id_of b) os)
unfolding AscendingIds
map-AscendingIds b [] hb f h = tt
map-AscendingIds b (o ∷ os) hb f h =
    (ids_above b o os hb f.0 f.1 h.0, map-AscendingIds b os hb f.1 h.1)

-- Whatever left is covered by the last that left, of an ascending list.
leave_old-Covers :
    (oldest x : ℤ) (xs : List ℤ)
    → All (λ y. ltb_ℤ x y ≡ true) xs
    → AscendingIds xs
    → Covers (leave_old oldest (some x) xs).0 x
unfolding leave_old AscendingIds
leave_old-Covers oldest x [] above asc = (x, refl, ground arith)
leave_old-Covers oldest x (z ∷ zs) above asc = elim (Bool-cases (ltb_ℤ z oldest)) [
  | inl old ↦
      let (e, same, le) = leave_old-Covers oldest z zs asc.0 asc.1 in
      rw old (e, same, ground (arith, above.0))
  | inr kept ↦ rw kept (x, refl, ground arith)
]

leave_old-member :
    (oldest y : ℤ) (evicted : Option ℤ) (xs : List ℤ)
    → AscendingIds xs
    → member y xs ≡ true
    → (member y (leave_old oldest evicted xs).1 ≡ true) ⊎ Covers (leave_old oldest evicted xs).0 y
unfolding leave_old AscendingIds member
leave_old-member oldest y evicted [] asc h = cc
leave_old-member oldest y evicted (x ∷ xs) asc h = elim (Bool-cases (ltb_ℤ x oldest)) [
  | inr kept ↦ rw kept (inl h)
  | inl old ↦ rw old (elim (Bool-cases (eqb_ℤ x y)) [
    | inl same ↦
        let (e, ev, le) = leave_old-Covers oldest x xs asc.0 asc.1 in inr (e, ev, ground arith)
    | inr other ↦ leave_old-member oldest y (some x) xs asc.1 (ground arith)
  ])
]

-- When all stay, nothing left.
length-leave_old :
    (oldest : ℤ) (evicted : Option ℤ) (xs : List ℤ)
    → length (leave_old oldest evicted xs).1 ≤ length xs
unfolding leave_old
length-leave_old oldest evicted [] = omega arith
length-leave_old oldest evicted (x ∷ xs) = ground (arith, length-leave_old oldest (some x) xs)

leave_old_all :
    (oldest : ℤ) (evicted : Option ℤ) (xs : List ℤ)
    → length (leave_old oldest evicted xs).1 ≡ length xs
    → leave_old oldest evicted xs ≡ (evicted, xs)
unfolding leave_old
leave_old_all oldest evicted [] h = refl
leave_old_all oldest evicted (x ∷ xs) h = ground (arith, length-leave_old oldest (some x) xs)

leave_full-member :
    (y : ℤ) (evicted : Option ℤ) (xs : List ℤ)
    → member y xs ≡ true
    → ((length xs ≢ capacity) × (leave_full (evicted, xs) ≡ (evicted, xs)))
      ⊎ (member y (leave_full (evicted, xs)).1 ≡ true)
      ⊎ Covers (leave_full (evicted, xs)).0 y
unfolding leave_full member
leave_full-member y evicted [] h = cc
leave_full-member y evicted (x ∷ xs) h = elim (Bool-cases (length (x ∷ xs) == capacity)) [
  | inr room ↦ inl (ground arith, rw room refl)
  | inl full ↦ inr (
      rw full (elim (Bool-cases (eqb_ℤ x y)) [
        | inl same ↦ inr (x, refl, ground arith)
        | inr other ↦ inl (ground arith)
      ]))
]

leave_full_room :
    (evicted : Option ℤ) (xs : List ℤ)
    → (length xs == capacity) ≡ false
    → leave_full (evicted, xs) ≡ (evicted, xs)
unfolding leave_full
leave_full_room evicted [] h = refl
leave_full_room evicted (x ∷ xs) h = rw h refl

-- An identifier stays, or the highest that left is at or above it.
leaves_member :
    (oldest y : ℤ) (ids : List ℤ)
    → AscendingIds ids
    → length ids ≤ capacity
    → member y ids ≡ true
    → (member y (leave_full (leave_old oldest none ids)).1 ≡ true)
      ⊎ Covers (leave_full (leave_old oldest none ids)).0 y
leaves_member oldest y ids asc few h =
    let p = leave_old oldest none ids in
    elim (Bool-cases (length p.1 == capacity)) [
      | inl full ↦
          let all =
            leave_old_all oldest none ids (ground (arith, length-leave_old oldest none ids)) in
          rw all (elim (leave_full-member y none ids h) [
            | inl room ↦ absurd (room.0 (ground (arith, length-leave_old oldest none ids)))
            | inr r ↦ r
          ])
      | inr room ↦ rw (leave_full_room p.0 p.1 room) (leave_old-member oldest y none ids asc h)
    ]

insert_id-member :
    (id y : ℤ) (ids : List ℤ) → member y ids ≡ true → member y (insert_id id ids) ≡ true
unfolding insert_id member
insert_id-member id y [] h = cc
insert_id-member id y (x ∷ xs) h = ground (arith, insert_id-member id y xs)

insert_id_self : (id : ℤ) (ids : List ℤ) → member id (insert_id id ids) ≡ true
unfolding insert_id member
insert_id_self id [] = ground (arith, eqb_ℤ_refl id)
insert_id_self id (x ∷ xs) = ground (arith, insert_id_self id xs)

insert_id_only :
    (id y : ℤ) (ids : List ℤ)
    → member y (insert_id id ids) ≡ true
    → (eqb_ℤ id y ≡ true) ⊎ (member y ids ≡ true)
unfolding insert_id member
insert_id_only id y [] h = ground arith
insert_id_only id y (x ∷ xs) h = ground (arith, insert_id_only id y xs)

leave_old_only :
    (oldest y : ℤ) (evicted : Option ℤ) (ids : List ℤ)
    → member y (leave_old oldest evicted ids).1 ≡ true
    → member y ids ≡ true
unfolding leave_old member
leave_old_only oldest y evicted [] h = h
leave_old_only oldest y evicted (x ∷ xs) h = ground (arith, leave_old_only oldest y (some x) xs)

leave_full_only :
    (y : ℤ) (evicted : Option ℤ) (ids : List ℤ)
    → member y (leave_full (evicted, ids)).1 ≡ true
    → member y ids ≡ true
unfolding leave_full member
leave_full_only y evicted [] h = h
leave_full_only y evicted (x ∷ xs) h = ground arith

remember_id-member :
    (id y : ℤ) (ids : List ℤ)
    → AscendingIds ids
    → length ids ≤ capacity
    → member y ids ≡ true
    → (member y (remember_id id ids).1 ≡ true) ⊎ Covers (remember_id id ids).0 y
unfolding remember_id
remember_id-member id y ids asc few h =
    let oldest = saturating_sub (newest_of (back ids) id) max_age in
    elim (Bool-cases (is_refused id oldest ids)) [
      | inl refused ↦ rw refused (inl h)
      | inr place ↦ rw place (elim (leaves_member oldest y ids asc few h) [
        | inl stays ↦ inl (insert_id-member id y _ stays)
        | inr left ↦ inr left
      ])
    ]

remember_id_self :
    (id : ℤ) (ids : List ℤ)
    → (member id (remember_id id ids).1 ≡ true) ⊎ ((remember_id id ids).0 ≡ some id)
unfolding remember_id
remember_id_self id ids =
    let oldest = saturating_sub (newest_of (back ids) id) max_age in
    elim (Bool-cases (is_refused id oldest ids)) [
      | inl refused ↦ rw refused (inr refl)
      | inr place ↦ rw place (inl (insert_id_self id _))
    ]

remember_id_cases :
    (id : ℤ) (ids : List ℤ)
    → ((remember_id id ids).1 ≡ ids)
      ⊎ ((remember_id id ids).1
          ≡ insert_id id
              (leave_full
                (leave_old (saturating_sub (newest_of (back ids) id) max_age) none ids)).1)
unfolding remember_id
remember_id_cases id ids = ground arith

remember_id_only :
    (id y : ℤ) (ids : List ℤ)
    → member y (remember_id id ids).1 ≡ true
    → (id ≡ y) ⊎ (member y ids ≡ true)
remember_id_only id y ids h =
    let oldest = saturating_sub (newest_of (back ids) id) max_age in
    let p = leave_old oldest none ids in
    elim (remember_id_cases id ids) [
      | inl same ↦ inr (subst (λ xs. member y xs ≡ true) same h)
      | inr new ↦
          elim (insert_id_only id y (leave_full p).1 (subst (λ xs. member y xs ≡ true) new h)) [
            | inl same ↦ inl (ground arith)
            | inr old ↦ inr (leave_old_only oldest y none ids (leave_full_only y p.0 p.1 old))
          ]
    ]

ids_of-Ascending : (r : ReplayIds) → IsValid r → AscendingIds (ids_of r)
unfolding ids_of
ids_of-Ascending r h = map-AscendingIds r.base r.offsets h.in_range h.fits h.ascending

length-ids_of : (r : ReplayIds) → IsValid r → length (ids_of r) ≤ capacity
unfolding ids_of
length-ids_of r h = rw (length-map (id_of r.base) r.offsets) h.few

module _ (id : ℤ) (r : ReplayIds) (hid : IsI64 id) (h : IsValid r) where
  contains_after :
      (y : ℤ) → IsI64 y → contains y (remember id r).1 ≡ member y (remember_id id (ids_of r)).1
  contains_after y hy =
      contains-member y (remember id r).1 hy (remember-IsValid id r hid h)
      ∙ ap (λ p. member y p.1) (sym (remember-remember_id id r hid h))

  same_evicted : (remember_id id (ids_of r)).0 ≡ (remember id r).0
  same_evicted = ap (λ p. p.0) (remember-remember_id id r hid h)

  -- On a valid replay history, an identifier that it contains is still contained after another is
  -- recorded, or the call returns an identifier that is not below it.
  pub remember-Covers :
      (y : ℤ)
      → IsI64 y
      → contains y r ≡ true
      → (contains y (remember id r).1 ≡ true) ⊎ Covers (remember id r).0 y
  remember-Covers y hy c =
      rw (contains_after y hy, ← same_evicted)
        (remember_id-member id y (ids_of r) (ids_of-Ascending r h) (length-ids_of r h)
          (sym (contains-member y r hy h) ∙ c))

  -- On a valid replay history, a recorded identifier is contained afterwards or is the one that the
  -- call returns.
  pub remember-contains : (contains id (remember id r).1 ≡ true) ⊎ ((remember id r).0 ≡ some id)
  remember-contains = rw (contains_after id hid, ← same_evicted) (remember_id_self id (ids_of r))

  -- Nothing but the recorded identifier becomes contained.
  contains-remember :
      (y : ℤ) → IsI64 y → contains y (remember id r).1 ≡ true → (id ≡ y) ⊎ (contains y r ≡ true)
  contains-remember y hy c =
      rw (contains-member y r hy h)
        (remember_id_only id y (ids_of r) (sym (contains_after y hy) ∙ c))
