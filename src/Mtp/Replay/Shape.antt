-- ===== src/Mtp/Replay/Shape.antt =====
-- Which histories of server message identifiers occur (grammers-mtproto/src/mtp/replay.rs), and the
-- identifiers that their offsets stand for.
use grammers.Common.{
  ℕ, ◌+◌, ◌-◌, ◌^◌, ◌%◌, ◌≤◌, ◌<◌, ◌≡◌, refl, sym, ◌∙◌, ◌⊎◌, inl, inr, false, ◌&&◌, none, some,
  List, [], ◌∷◌, map, length, All, arith, Bool-cases, ltb, leb, ltb→lt, ◌==◌, if◌then◌else◌,
}
use grammers.Common.Int.{ℤ, ltb_ℤ, eqb_ℤ}
use grammers.Common.I64.{
  IsI64, rank, rank-lt, rank-of_rank, of_rank-rank, wrapping_add_rank, wrapping_add_IsI64,
  wrapping_sub_u64, wrapping_sub_rank, wrapping_sub_hits, eqb_rank, ltb-rank,
}
use grammers.Mtp.Replay.{
  ReplayIds, new, capacity, max_age, offset_limit, pack, id_of, offset_of, back, is_some_and, found,
  contains,
}
use grammers.Mtp.Replay.Lists.{Ascending, top, All-imp, back-top, top_highest}
use grammers.Mtp.Replay.Ids.{member}

-- An offset of six bytes whose sum with the base does not wrap.
abbrev pub Fits : ℤ → ℕ → Type 0
Fits base o = (o < 2 ^ 48) × (rank base + o < 2 ^ 64)

pub record IsValid (r : ReplayIds) : Type 0 where
  pub in_range : IsI64 r.base
  pub fits : All (Fits r.base) r.offsets
  pub ascending : Ascending r.offsets
  pub few : length r.offsets ≤ capacity
  pub recent : All (λ o. top r.offsets ≤ o + max_age) r.offsets
  pub anchored : (r.offsets ≡ []) ⊎ (rank r.base ≤ rank r.base + top r.offsets - max_age)

pub new-IsValid : IsValid new
unfolding new
new-IsValid = record {
  in_range = omega arith;
  fits = tt;
  ascending = tt;
  few = omega arith;
  recent = tt;
  anchored = inl refl;
}

-- The identifiers of a history, lowest first.
unfoldable pub ids_of : ReplayIds → List ℤ
ids_of r = map (id_of r.base) r.offsets

pub id_of-IsI64 : (b : ℤ) (o : ℕ) → IsI64 b → IsI64 (id_of b o)
unfolding id_of
id_of-IsI64 b o h = wrapping_add_IsI64 b o h

pub rank-id_of : (b : ℤ) (o : ℕ) → IsI64 b → rank b + o < 2 ^ 64 → rank (id_of b o) ≡ rank b + o
unfolding id_of
rank-id_of b o h fits = rw (wrapping_add_rank b o h fits) (rank-of_rank (rank b + o))

-- The offset of an identifier at or above the base.
pub id_of-difference :
    (b id : ℤ) → IsI64 b → IsI64 id → rank b ≤ rank id → id_of b (rank id - rank b) ≡ id
unfolding id_of
id_of-difference b id hb hid le =
    let e : rank b + (rank id - rank b) ≡ rank id = omega arith in
    wrapping_add_rank b (rank id - rank b) hb (omega (arith, rank-lt id hid))
    ∙ rw e (of_rank-rank id hid)

pub offset_of-some :
    (b id : ℤ) (o : ℕ)
    → IsI64 b
    → IsI64 id
    → rank b ≤ rank id
    → offset_of b id ≡ some o
    → (o ≡ rank id - rank b) × (o < 2 ^ 48)
unfolding offset_of pack
offset_of-some b id o hb hid le e = ground (arith, wrapping_sub_rank id b hid hb le)

-- Offsets compare as the identifiers that they stand for.
pub id_of-ltb :
    (b : ℤ) (o p : ℕ)
    → IsI64 b
    → rank b + o < 2 ^ 64
    → rank b + p < 2 ^ 64
    → ltb_ℤ (id_of b o) (id_of b p) ≡ ltb o p
id_of-ltb b o p hb ho hp =
    rw
      (
        ltb-rank (id_of b o) (id_of b p) (id_of-IsI64 b o hb) (id_of-IsI64 b p hb),
        rank-id_of b o hb ho,
        rank-id_of b p hb hp,
      )
      (ground arith)

pub id_of-eqb_id_of :
    (b : ℤ) (o p : ℕ)
    → IsI64 b
    → rank b + o < 2 ^ 64
    → rank b + p < 2 ^ 64
    → eqb_ℤ (id_of b o) (id_of b p) ≡ (o == p)
id_of-eqb_id_of b o p hb ho hp =
    rw
      (
        eqb_rank (id_of b o) (id_of b p) (id_of-IsI64 b o hb) (id_of-IsI64 b p hb),
        rank-id_of b o hb ho,
        rank-id_of b p hb hp,
      )
      (ground arith)

pub id_of-eqb :
    (b : ℤ) (o : ℕ) (id : ℤ)
    → IsI64 b
    → IsI64 id
    → rank b + o < 2 ^ 64
    → eqb_ℤ (id_of b o) id ≡ (o == wrapping_sub_u64 id b)
id_of-eqb b o id hb hid ho =
    rw (eqb_rank (id_of b o) id (id_of-IsI64 b o hb) hid, rank-id_of b o hb ho)
      (sym (wrapping_sub_hits id b o hid hb ho))

found-member :
    (b id : ℤ) (os : List ℕ)
    → IsI64 b
    → IsI64 id
    → All (Fits b) os
    → found (wrapping_sub_u64 id b) os ≡ member id (map (id_of b) os)
unfolding found member
found-member b id [] hb hid h = refl
found-member b id (o ∷ os) hb hid h =
    rw (id_of-eqb b o id hb hid h.0.1, found-member b id os hb hid h.1) refl

found_above : (t : ℕ) (os : List ℕ) → All (λ o. o < t) os → found t os ≡ false
unfolding found
found_above t [] h = refl
found_above t (o ∷ os) h = ground (arith, found_above t os h.1)

-- The last offset only spares a search.
found_up_to_last :
    (t : ℕ) (os : List ℕ)
    → Ascending os
    → is_some_and (back os) (λ last. leb t last) && found t os ≡ found t os
unfolding found is_some_and back
found_up_to_last t [] h = refl
found_up_to_last t (o ∷ os) h = rw (back-top o os) (elim (Bool-cases (leb t (top (o ∷ os)))) [
  | inl within ↦ rw within refl
  | inr past ↦ rw past (
      sym (
        found_above t (o ∷ os)
          (All-imp _ (λ p. p < t) (o ∷ os) (λ p le. ground arith) (top_highest (o ∷ os) h))))
])

found_offset :
    (u : ℕ) (b : ℤ) (os : List ℕ)
    → Ascending os
    → All (Fits b) os
    → is_some_and
        (if ltb u offset_limit then some (pack u) else none)
        (λ o. is_some_and (back os) (λ last. leb o last) && found o os)
      ≡ found u os
unfolding is_some_and pack
found_offset u b os asc fits = elim (Bool-cases (ltb u offset_limit)) [
  | inl small ↦
      let same : u % 2 ^ 48 ≡ u = omega (arith, ltb→lt u offset_limit small) in
      rw (small, same) (found_up_to_last u os asc)
  | inr large ↦
      rw large (
        sym (found_above u os (All-imp (Fits b) (λ o. o < u) os (λ o f. ground (arith, f.0)) fits)))
]

-- `contains` finds the identifiers themselves, whatever the base.
pub contains-member :
    (id : ℤ) (r : ReplayIds) → IsI64 id → IsValid r → contains id r ≡ member id (ids_of r)
unfolding contains ids_of offset_of is_some_and
contains-member id r hid h =
    found_offset (wrapping_sub_u64 id r.base) r.base r.offsets h.ascending h.fits
    ∙ found-member r.base id r.offsets h.in_range hid h.fits
