-- ===== src/MessageBox/Entries/Sorted.antt =====
-- The order of the table by key, which its binary searches rely on (mod.rs).
use grammers.Common.{
  ℕ, ◌≡◌, refl, sym, ap, subst, ◌∙◌, List, [], ◌∷◌, true, false, none, arith, inl, inr, Bool-cases,
  Option-cases,
}
use grammers.Common.Int.{ℤ}
use grammers.MessageBox.Defs.{
  Key, LiveEntry, eqb_key, ltb_key, eqb_key→eq, eqb_key_comm, ltb_key-ne, ltb_key_trans,
  ltb_key-total,
}
use grammers.MessageBox.Entries.{
  entry, update_entry, insert_entry, set_entry, force_update_entry, set_pts, pop_entry,
}
use grammers.MessageBox.Entries.Lookup.{KeepsKey}

-- Every key of the list is above `k`.
abbrev pub Above : Key → List LiveEntry → Type 0
Above k [] = Unit {0}
Above k (e ∷ es) = (ltb_key k e.key ≡ true) × Above k es

abbrev pub IsSorted : List LiveEntry → Type 0
IsSorted [] = Unit {0}
IsSorted (e ∷ es) = Above e.key es × IsSorted es

Above-trans : (a b : Key) (es : List LiveEntry) → ltb_key a b ≡ true → Above b es → Above a es
Above-trans a b [] h s = tt
Above-trans a b (e ∷ es) h s = (ltb_key_trans a b e.key h s.0, Above-trans a b es h s.1)

-- A key below all others has no entry.
pub entry-Above : (k : Key) (es : List LiveEntry) → Above k es → entry k es ≡ none
unfolding entry
entry-Above k [] s = refl
entry-Above k (e ∷ es) s =
    ground (arith, entry-Above k es s.1, ltb_key-ne k e.key s.0, eqb_key_comm k e.key)

module _ (j : Key) (f : LiveEntry → LiveEntry) (keep : KeepsKey j f) where
  update_entry-Above : (k : Key) (es : List LiveEntry) → Above k es → Above k (update_entry j f es)
  unfolding update_entry
  update_entry-Above k [] s = tt
  update_entry-Above k (e ∷ es) s =
      ground (arith, keep e, eqb_key→eq e.key j, update_entry-Above k es s.1)

  pub update_entry-IsSorted : (es : List LiveEntry) → IsSorted es → IsSorted (update_entry j f es)
  unfolding update_entry
  update_entry-IsSorted [] s = tt
  update_entry-IsSorted (e ∷ es) s = elim (Bool-cases (eqb_key e.key j)) [
    | inl hit ↦
        let same : (f e).key ≡ e.key =
          keep e (eqb_key→eq e.key j hit) ∙ sym (eqb_key→eq e.key j hit) in
        rw hit (subst (λ key. Above key es) (sym same) s.0, s.1)
    | inr miss ↦ rw miss (update_entry-Above e.key es s.0, update_entry-IsSorted es s.1)
  ]

insert_entry-Above :
    (k : Key) (new : LiveEntry) (es : List LiveEntry)
    → ltb_key k new.key ≡ true
    → Above k es
    → Above k (insert_entry new es)
unfolding insert_entry
insert_entry-Above k new [] h s = (h, tt)
insert_entry-Above k new (e ∷ es) h s = ground (arith, insert_entry-Above k new es h s.1)

insert_entry-IsSorted :
    (new : LiveEntry) (es : List LiveEntry)
    → entry new.key es ≡ none
    → IsSorted es
    → IsSorted (insert_entry new es)
unfolding insert_entry entry
insert_entry-IsSorted new [] h s = (tt, tt)
insert_entry-IsSorted new (e ∷ es) h s = elim (Bool-cases (ltb_key new.key e.key)) [
  | inl lt ↦ rw lt ((lt, Above-trans new.key e.key es lt s.0), s)
  | inr ge ↦
      let apart : eqb_key e.key new.key ≡ false = ground arith in
      let later : ltb_key e.key new.key ≡ true =
        ltb_key-total new.key e.key ge (eqb_key_comm new.key e.key ∙ apart) in
      rw ge
        (insert_entry-Above e.key new es later s.0, insert_entry-IsSorted new es (ground arith) s.1)
]

pub set_entry-IsSorted :
    (new : LiveEntry) (es : List LiveEntry) → IsSorted es → IsSorted (set_entry new es)
unfolding set_entry
set_entry-IsSorted new es s = elim (Option-cases (entry new.key es)) [
  | inl absent ↦ rw (absent, set_entry) (insert_entry-IsSorted new es absent s)
  | inr (old, present) ↦
      rw (present, set_entry) (update_entry-IsSorted new.key (λ _. new) (λ e h. refl) es s)
]

pub force_update_entry-IsSorted :
    (new : LiveEntry) (f : LiveEntry → LiveEntry) (es : List LiveEntry)
    → KeepsKey new.key f
    → IsSorted es
    → IsSorted (force_update_entry new f es)
unfolding force_update_entry
force_update_entry-IsSorted new f es keep s = elim (Option-cases (entry new.key es)) [
  | inl absent ↦
      rw (absent, force_update_entry)
        (insert_entry-IsSorted (f new) es (ap (λ key. entry key es) (keep new refl) ∙ absent) s)
  | inr (old, present) ↦
      rw (present, force_update_entry) (update_entry-IsSorted new.key f keep es s)
]

pub set_pts-IsSorted :
    (now : ℕ) (key : Key) (pts : ℤ) (es : List LiveEntry)
    → IsSorted es
    → IsSorted (set_pts now key pts es)
unfolding set_pts
set_pts-IsSorted now key pts es s = elim (Option-cases (entry key es)) [
  | inl absent ↦ rw (absent, set_pts) (set_entry-IsSorted _ es s)
  | inr (old, present) ↦
      rw (present, set_pts)
        (update_entry-IsSorted key (λ e. record e { pts = pts }) (λ e h. h) es s)
]

pop_entry-Above : (k j : Key) (es : List LiveEntry) → Above k es → Above k (pop_entry j es)
unfolding pop_entry
pop_entry-Above k j [] s = tt
pop_entry-Above k j (e ∷ es) s = ground (arith, pop_entry-Above k j es s.1)

pub pop_entry-IsSorted : (j : Key) (es : List LiveEntry) → IsSorted es → IsSorted (pop_entry j es)
unfolding pop_entry
pop_entry-IsSorted j [] s = tt
pop_entry-IsSorted j (e ∷ es) s =
    ground (arith, pop_entry-Above e.key j es s.0, pop_entry-IsSorted j es s.1)

-- In a sorted table the entry that is removed was the only one of its key.
pub entry-pop_self : (j : Key) (es : List LiveEntry) → IsSorted es → entry j (pop_entry j es) ≡ none
unfolding pop_entry entry
entry-pop_self j [] s = refl
entry-pop_self j (e ∷ es) s = elim (Bool-cases (eqb_key e.key j)) [
  | inl hit ↦ rw hit (entry-Above j es (subst (λ key. Above key es) (eqb_key→eq e.key j hit) s.0))
  | inr miss ↦ ground (arith, entry-pop_self j es s.1)
]
