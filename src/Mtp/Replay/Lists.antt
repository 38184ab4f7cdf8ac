-- ===== src/Mtp/Replay/Lists.antt =====
-- Ascending lists of offsets (grammers-mtproto/src/mtp/replay.rs).
use grammers.Common.{
  ℕ, subst, suc, ◌≤◌, ◌<◌, ◌≡◌, refl, ap, ◌⊎◌, inl, inr, none, some, List, [], ◌∷◌, ◌++◌, map,
  length, All, arith, Bool-cases, Option-cases, ltb, ltb→lt, ◌==◌,
}
use grammers.Mtp.Replay.{back, is_none_or, insert_missing, push_offset}

abbrev pub Ascending : List ℕ → Type 0
Ascending [] = Unit
Ascending (x ∷ xs) = All (λ y. x < y) xs × Ascending xs

-- The last item, which is the highest of an ascending list.
abbrev pub top : List ℕ → ℕ
top [] = 0
top (x ∷ []) = x
top (x ∷ y ∷ ys) = top (y ∷ ys)

pub All-imp {ℓ κ μ} :
    {A : Type ℓ} (P : A → Type κ) (Q : A → Type μ) (xs : List A)
    → ((x : A) → P x → Q x)
    → All P xs
    → All Q xs
All-imp P Q [] f h = tt
All-imp P Q (x ∷ xs) f h = (f x h.0, All-imp P Q xs f h.1)

pub All-both {ℓ κ μ} :
    {A : Type ℓ} (P : A → Type κ) (Q : A → Type μ) (xs : List A)
    → All P xs
    → All Q xs
    → All (λ x. P x × Q x) xs
All-both P Q [] f g = tt
All-both P Q (x ∷ xs) f g = ((f.0, g.0), All-both P Q xs f.1 g.1)

pub back-top : (x : ℕ) (xs : List ℕ) → back (x ∷ xs) ≡ some (top (x ∷ xs))
unfolding back
back-top x [] = refl
back-top x (y ∷ ys) = rw (back, back-top y ys) refl

pub top_highest : (xs : List ℕ) → Ascending xs → All (λ x. x ≤ top xs) xs
top_highest [] h = tt
top_highest (x ∷ []) h = (omega arith, tt)
top_highest (x ∷ y ∷ ys) h =
    let rest = top_highest (y ∷ ys) h.1 in (omega (arith, h.0.0, rest.0), rest)

pub length-map {ℓ κ} :
    {A : Type ℓ} {B : Type κ} (f : A → B) (xs : List A) → length (map f xs) ≡ length xs
length-map f [] = refl
length-map f (x ∷ xs) = ap suc (length-map f xs)

pub back-map {ℓ κ} :
    {A : Type ℓ} {B : Type κ} (f : A → B) (xs : List A)
    → back (map f xs) ≡ (elim (back xs) [ none ↦ none | some a ↦ some (f a) ])
unfolding back
back-map f [] = refl
back-map f (x ∷ xs) =
    rw (back-map f xs)
      (elim (Option-cases (back xs)) [ inl e ↦ rw e refl | inr (a, e) ↦ rw e refl ])

-- Past the last item of an ascending list, a new one goes to the end.
insert_missing_last :
    (o : ℕ) (xs : List ℕ) → All (λ x. x < o) xs → insert_missing o xs ≡ xs ++ (o ∷ [])
unfolding insert_missing
insert_missing_last o [] h = refl
insert_missing_last o (x ∷ xs) h = ground (arith, insert_missing_last o xs h.1)

pub push_offset-insert_missing :
    (o : ℕ) (xs : List ℕ) → Ascending xs → push_offset o xs ≡ insert_missing o xs
unfolding push_offset is_none_or insert_missing back
push_offset-insert_missing o [] h = refl
push_offset-insert_missing o (x ∷ xs) h =
    rw (back-top x xs) (elim (Bool-cases (ltb (top (x ∷ xs)) o)) [
      | inl above ↦
          rw
            (insert_missing_last o (x ∷ xs) (
              All-imp _ (λ y. y < o) (x ∷ xs) (λ y h. omega (arith, ltb→lt _ _ above))
                (top_highest (x ∷ xs) h)))
            (rw above refl)
      | inr within ↦ rw within refl
    ])

pub insert_missing-All {κ} :
    (P : ℕ → Type κ) (o : ℕ) (xs : List ℕ) → P o → All P xs → All P (insert_missing o xs)
unfolding insert_missing
insert_missing-All P o [] ho h = (ho, tt)
insert_missing-All P o (x ∷ xs) ho h = elim (Bool-cases (ltb o x)) [
  | inl lo ↦ rw lo (ho, h)
  | inr above ↦ rw above (elim (Bool-cases (x == o)) [
    | inl same ↦ rw same h
    | inr other ↦ rw other (h.0, insert_missing-All P o xs ho h.1)
  ])
]

pub insert_missing-Ascending :
    (o : ℕ) (xs : List ℕ) → Ascending xs → Ascending (insert_missing o xs)
unfolding insert_missing
insert_missing-Ascending o [] h = (tt, tt)
insert_missing-Ascending o (x ∷ xs) h = elim (Bool-cases (ltb o x)) [
  | inl lo ↦ let less = ltb→lt o x lo in rw lo ((less, All-imp _ _ xs (λ y lt. omega arith) h.0), h)
  | inr above ↦ rw above (elim (Bool-cases (x == o)) [
    | inl same ↦ rw same h
    | inr other ↦
        rw other (
          insert_missing-All (λ y. x < y) o xs (ground arith) h.0,
          insert_missing-Ascending o xs h.1,
        )
  ])
]

insert_missing-cases :
    (o x : ℕ) (xs : List ℕ)
    → (insert_missing o (x ∷ xs) ≡ o ∷ x ∷ xs)
      ⊎ ((x ≡ o) × (insert_missing o (x ∷ xs) ≡ x ∷ xs))
      ⊎ (insert_missing o (x ∷ xs) ≡ x ∷ insert_missing o xs)
unfolding insert_missing
insert_missing-cases o x xs = ground arith

pub All-insert_missing {κ} :
    (P : ℕ → Type κ) (o : ℕ) (xs : List ℕ) → All P (insert_missing o xs) → P o × All P xs
unfolding insert_missing
All-insert_missing P o [] h = (h.0, tt)
All-insert_missing P o (x ∷ xs) h = elim (insert_missing-cases o x xs) [
  | inl lo ↦ let g = subst (All P) lo h in (g.0, g.1)
  | inr (inl (same, e)) ↦ let g = subst (All P) e h in (subst P same g.0, g)
  | inr (inr e) ↦
      let g = subst (All P) e h in
      let rest = All-insert_missing P o xs g.1 in (rest.0, (g.0, rest.1))
]

pub All-top {κ} : (P : ℕ → Type κ) (x : ℕ) (xs : List ℕ) → All P (x ∷ xs) → P (top (x ∷ xs))
All-top P x [] h = h.0
All-top P x (y ∷ ys) h = All-top P y ys h.1

pub All-top_or {κ} : (P : ℕ → Type κ) (xs : List ℕ) → All P xs → (xs ≡ []) ⊎ P (top xs)
All-top_or P [] h = inl refl
All-top_or P (x ∷ xs) h = inr (All-top P x xs h)

pub top-insert_missing :
    (o : ℕ) (xs : List ℕ)
    → Ascending xs
    → (o ≤ top (insert_missing o xs)) × (top xs ≤ top (insert_missing o xs))
top-insert_missing o [] h =
    ((All-insert_missing _ o [] (top_highest _ (insert_missing-Ascending o [] h))).0, omega arith)
top-insert_missing o (x ∷ xs) h =
    let all =
      All-insert_missing _ o (x ∷ xs) (top_highest _ (insert_missing-Ascending o (x ∷ xs) h)) in
    (all.0, All-top _ x xs all.1)
