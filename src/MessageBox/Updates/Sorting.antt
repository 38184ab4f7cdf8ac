-- ===== src/MessageBox/Updates/Sorting.antt =====
-- The sorting of updates (mod.rs, `sort_updates_by_key`).
use grammers.Common.{
  ◌≡◌, refl, sym, ap, ◌∙◌, List, [], ◌∷◌, ◌++◌, append_assoc, append-nil, subst, Bool, true, false,
  All, arith, inl, inr, Bool-cases, ltb, length,
}
use mathlib.Core.List.{Perm, perm_middle}
use mathlib.Core.List.Perm
use grammers.MessageBox.Defs.{Update}
use grammers.MessageBox.Updates.{
  is_sorted, insert_after, insertion_rounds, insert_before, stable_sort, sort_updates_by_key,
  max_insertion_sort_updates,
}

module _ (before : Update → Update → Bool) where
  -- `before` compares keys of a total order.
  abbrev pub IsKeyOrder : Type 0
  IsKeyOrder =
      ((x y : Update) → before x y ≡ true → before y x ≡ false)
      × ((x y z : Update) → before y x ≡ false → before z y ≡ false → before z x ≡ false)

  -- No update comes before one that precedes it.
  abbrev pub NoneBefore : Update → List Update → Type 0
  NoneBefore x ys = All (λ y. before y x ≡ false) ys

  abbrev pub InOrder : List Update → Type 0
  InOrder [] = Unit {0}
  InOrder (x ∷ xs) = NoneBefore x xs × InOrder xs

  -- An insertion adds the update and loses none.
  insert_after-Perm : (x : Update) (ys : List Update) → Perm (insert_after before x ys) (x ∷ ys)
  unfolding insert_after
  insert_after-Perm x [] = Perm.rfl
  insert_after-Perm x (y ∷ ys) = elim (Bool-cases (before x y)) [
    | inl front ↦ rw front Perm.rfl
    | inr behind ↦ rw behind (Perm.trans (Perm.cons y (insert_after-Perm x ys)) (Perm.swap x y ys))
  ]

  insertion_rounds-Perm : (ps xs : List Update) → Perm (insertion_rounds before ps xs) (ps ++ xs)
  unfolding insertion_rounds
  insertion_rounds-Perm ps [] = rw (append-nil ps) Perm.rfl
  insertion_rounds-Perm ps (x ∷ xs) =
      Perm.trans (insertion_rounds-Perm (insert_after before x ps) xs)
        (Perm.trans (Perm.append (insert_after-Perm x ps) Perm.rfl) (Perm.symm (perm_middle ps xs)))

  module _ (order : IsKeyOrder) where
    NoneBefore-trans :
        (x y : Update) (zs : List Update) → before y x ≡ false → NoneBefore y zs → NoneBefore x zs
    NoneBefore-trans x y [] h hs = tt
    NoneBefore-trans x y (z ∷ zs) h hs = (order.1 x y z h hs.0, NoneBefore-trans x y zs h hs.1)

    insert_after-NoneBefore :
        (x y : Update) (zs : List Update)
        → before y x ≡ false
        → NoneBefore x zs
        → NoneBefore x (insert_after before y zs)
    unfolding insert_after
    insert_after-NoneBefore x y [] h hs = (h, tt)
    insert_after-NoneBefore x y (z ∷ zs) h hs = elim (Bool-cases (before y z)) [
      | inl front ↦ rw front (h, hs)
      | inr behind ↦ rw behind (hs.0, insert_after-NoneBefore x y zs h hs.1)
    ]

    insert_after-InOrder :
        (x : Update) (ys : List Update) → InOrder ys → InOrder (insert_after before x ys)
    unfolding insert_after
    insert_after-InOrder x [] h = (tt, tt)
    insert_after-InOrder x (y ∷ ys) h = elim (Bool-cases (before x y)) [
      | inl front ↦
          rw front ((order.0 x y front, NoneBefore-trans x y ys (order.0 x y front) h.0), h)
      | inr behind ↦
          rw behind (insert_after-NoneBefore y x ys behind h.0, insert_after-InOrder x ys h.1)
    ]

    insertion_rounds-InOrder :
        (ps xs : List Update) → InOrder ps → InOrder (insertion_rounds before ps xs)
    unfolding insertion_rounds
    insertion_rounds-InOrder ps [] h = h
    insertion_rounds-InOrder ps (x ∷ xs) h =
        insertion_rounds-InOrder (insert_after before x ps) xs (insert_after-InOrder x ps h)

    is_sorted-InOrder : (xs : List Update) → is_sorted before xs ≡ true → InOrder xs
    unfolding is_sorted
    is_sorted-InOrder [] h = tt
    is_sorted-InOrder (x ∷ []) h = (tt, tt)
    is_sorted-InOrder (x ∷ y ∷ ys) h =
        let rest = is_sorted-InOrder (y ∷ ys) (ground arith) in
        let first : before y x ≡ false = ground arith in
        ((first, NoneBefore-trans x y ys first rest.0), rest)

    insert_after_last :
        (x : Update) (ps : List Update)
        → All (λ p. before x p ≡ false) ps
        → insert_after before x ps ≡ ps ++ (x ∷ [])
    unfolding insert_after
    insert_after_last x [] h = refl
    insert_after_last x (p ∷ ps) h = rw h.0 (ap (◌∷◌ p) (insert_after_last x ps h.1))

    NoneBefore-middle :
        (p x : Update) (ps xs : List Update) → NoneBefore p (ps ++ (x ∷ xs)) → before x p ≡ false
    NoneBefore-middle p x [] xs h = h.0
    NoneBefore-middle p x (q ∷ ps) xs h = NoneBefore-middle p x ps xs h.1

    InOrder-prefix :
        (x : Update) (ps xs : List Update)
        → InOrder (ps ++ (x ∷ xs))
        → All (λ p. before x p ≡ false) ps
    InOrder-prefix x [] xs h = tt
    InOrder-prefix x (p ∷ ps) xs h = (NoneBefore-middle p x ps xs h.0, InOrder-prefix x ps xs h.1)

    -- The rounds leave a list that is in order behind the prefix.
    insertion_rounds_sorted :
        (ps xs : List Update) → InOrder (ps ++ xs) → insertion_rounds before ps xs ≡ ps ++ xs
    unfolding insertion_rounds
    insertion_rounds_sorted ps [] h = sym (append-nil ps)
    insertion_rounds_sorted ps (x ∷ xs) h =
        ap (λ qs. insertion_rounds before qs xs) (insert_after_last x ps (InOrder-prefix x ps xs h))
        ∙ (insertion_rounds_sorted (ps ++ (x ∷ [])) xs
              (subst InOrder (sym (append_assoc ps (x ∷ []) xs)) h)
            ∙ append_assoc ps (x ∷ []) xs)

    -- Inserting behind the equal ones and in front of them commute.
    insert_after-insert_before :
        (x y : Update) (zs : List Update)
        → insert_after before x (insert_before before y zs)
          ≡ insert_before before y (insert_after before x zs)
    unfolding insert_after insert_before
    insert_after-insert_before x y [] = elim (Bool-cases (before x y)) [
      | inl front ↦ rw front refl
      | inr behind ↦ rw behind refl
    ]
    insert_after-insert_before x y (z ∷ zs) = elim (Bool-cases (before x z)) [
      | inl xz ↦ elim (Bool-cases (before z y)) [
        | inl zy ↦
            let xy : before x y ≡ true = ground (arith, order.1 z y x (order.0 z y zy)) in
            simp (zy, xz, xy)
        | inr yz ↦ elim (Bool-cases (before x y)) [
          | inl xy ↦ simp (yz, xz, xy)
          | inr yx ↦ simp (yz, xz, yx)
        ]
      ]
      | inr zx ↦ elim (Bool-cases (before z y)) [
        | inl zy ↦ rw (zy, zx, zy) (ap (◌∷◌ z) (insert_after-insert_before x y zs))
        | inr yz ↦ let yx : before x y ≡ false = order.1 y z x yz zx in simp (yz, zx, yx)
      ]
    ]

    insertion_rounds-insert_before :
        (y : Update) (ps xs : List Update)
        → insertion_rounds before (insert_before before y ps) xs
          ≡ insert_before before y (insertion_rounds before ps xs)
    unfolding insertion_rounds
    insertion_rounds-insert_before y ps [] = refl
    insertion_rounds-insert_before y ps (x ∷ xs) =
        ap (λ qs. insertion_rounds before qs xs) (insert_after-insert_before x y ps)
        ∙ insertion_rounds-insert_before y (insert_after before x ps) xs

    -- The rounds sort as the standard sort does.
    stable_sort_lem : (xs : List Update) → stable_sort before xs ≡ insertion_rounds before [] xs
    unfolding stable_sort insertion_rounds insert_before insert_after
    stable_sort_lem [] = refl
    stable_sort_lem (x ∷ xs) =
        ap (insert_before before x) (stable_sort_lem xs)
        ∙ sym (insertion_rounds-insert_before x [] xs)

    -- For the order of a key, sorting updates gives the list that the standard stable sort and the
    -- insertion rounds give, whether the updates are already in order, few or many, and that list
    -- is in order and a permutation of the updates.
    pub sort_updates_by_key_lem :
        (xs : List Update)
        → (sort_updates_by_key before xs ≡ stable_sort before xs)
          × (sort_updates_by_key before xs ≡ insertion_rounds before [] xs)
          × InOrder (sort_updates_by_key before xs)
          × Perm (sort_updates_by_key before xs) xs
    unfolding sort_updates_by_key
    sort_updates_by_key_lem xs = elim (Bool-cases (is_sorted before xs)) [
      | inl already ↦
          let h = is_sorted-InOrder xs already in
          let same = sym (insertion_rounds_sorted [] xs h) in
          rw already (same ∙ sym (stable_sort_lem xs), same, h, Perm.rfl)
      | inr unsorted ↦
          let same = stable_sort_lem xs in
          let sorted : InOrder (insertion_rounds before [] xs)
              × Perm (insertion_rounds before [] xs) xs =
            (insertion_rounds-InOrder [] xs tt, insertion_rounds-Perm [] xs) in
          let there = subst (λ ys. InOrder ys × Perm ys xs) (sym same) sorted in
          elim (Bool-cases (ltb max_insertion_sort_updates (length xs))) [
            | inl many ↦ rw (unsorted, many) (refl, same, there.0, there.1)
            | inr few ↦ rw (unsorted, few) (sym same, refl, sorted.0, sorted.1)
          ]
    ]
