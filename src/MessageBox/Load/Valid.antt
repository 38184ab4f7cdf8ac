-- ===== src/MessageBox/Load/Valid.antt =====
-- The loaded state and the invariant (mod.rs, `load`).
use grammers.Common.{
  ℕ, ◌≡◌, refl, sym, subst, List, [], ◌∷◌, ◌++◌, true, false, ◌&&◌, none, some, All, All-append,
  arith, inl, inr, Bool-cases,
}
use grammers.Common.Int.{ℤ, pos, ltb_ℤ}
use grammers.MessageBox.Defs.{
  Key, common, secondary, eqb_key, ltb_key, LiveEntry, UpdatesState, ChannelState, eqb_key→eq,
  ltb_key-total, no_pts,
}
use grammers.MessageBox.Entries.{entry, next_updates_deadline}
use grammers.MessageBox.Entries.Sorted.{Above, IsSorted, entry-Above}
use grammers.MessageBox.Invariant.{
  IsValid, count, ready_of, recovery_ok, GapOk, GapIsSequenced, if-GapOk,
}
use grammers.MessageBox.Load.{
  min_ℤ, account_entry, channel_entries, saved_entries, insert_by_key, sort_by_key, dedup_from,
  dedup, keys, repair, load,
}

-- An entry as it is loaded.
abbrev pub IsFresh : LiveEntry → Type 0
IsFresh e = (e.recovery_pending ≡ true) × (e.recovery_deferred ≡ false) × (e.possible_gap ≡ none)

channel_entries-IsFresh :
    (deadline : ℕ) (cs : List ChannelState) → All IsFresh (channel_entries deadline cs)
unfolding channel_entries
channel_entries-IsFresh deadline [] = tt
channel_entries-IsFresh deadline (c ∷ cs) =
    elim (Bool-cases (ltb_ℤ (pos 0) c.id && ltb_ℤ no_pts c.pts)) [
      | inl usable ↦ rw usable ((refl, refl, refl), channel_entries-IsFresh deadline cs)
      | inr useless ↦ rw useless (channel_entries-IsFresh deadline cs)
    ]

account_entry-IsFresh :
    (key : Key) (pts : ℤ) (deadline : ℕ) → All IsFresh (account_entry key pts deadline)
account_entry-IsFresh key pts deadline = elim (Bool-cases (ltb_ℤ no_pts pts)) [
  | inl known ↦ rw known ((refl, refl, refl), tt)
  | inr unknown ↦ rw unknown tt
]

saved_entries-IsFresh : (deadline : ℕ) (s : UpdatesState) → All IsFresh (saved_entries deadline s)
unfolding saved_entries
saved_entries-IsFresh deadline s =
    All-append IsFresh (account_entry common s.pts deadline)
      (account_entry secondary s.qts deadline ++ channel_entries deadline s.channels)
      (account_entry-IsFresh common s.pts deadline)
      (All-append IsFresh (account_entry secondary s.qts deadline)
        (channel_entries deadline s.channels) (account_entry-IsFresh secondary s.qts deadline)
        (channel_entries-IsFresh deadline s.channels))

insert_by_key-IsFresh :
    (e : LiveEntry) (xs : List LiveEntry)
    → IsFresh e
    → All IsFresh xs
    → All IsFresh (insert_by_key e xs)
unfolding insert_by_key
insert_by_key-IsFresh e [] h hs = (h, tt)
insert_by_key-IsFresh e (x ∷ xs) h hs = elim (Bool-cases (ltb_key e.key x.key)) [
  | inl front ↦ rw front (h, hs)
  | inr behind ↦ rw behind (hs.0, insert_by_key-IsFresh e xs h hs.1)
]

sort_by_key-IsFresh :
    (sorted es : List LiveEntry)
    → All IsFresh sorted
    → All IsFresh es
    → All IsFresh (sort_by_key sorted es)
unfolding sort_by_key
sort_by_key-IsFresh sorted [] h hs = h
sort_by_key-IsFresh sorted (e ∷ es) h hs =
    sort_by_key-IsFresh (insert_by_key e sorted) es (insert_by_key-IsFresh e sorted hs.0 h) hs.1

dedup_from-IsFresh :
    (e : LiveEntry) (xs : List LiveEntry)
    → IsFresh e
    → All IsFresh xs
    → All IsFresh (dedup_from e xs)
unfolding dedup_from
dedup_from-IsFresh e [] h hs = (h, tt)
dedup_from-IsFresh e (x ∷ xs) h hs = elim (Bool-cases (eqb_key x.key e.key)) [
  | inl same ↦ rw same (dedup_from-IsFresh (record e { pts = min_ℤ e.pts x.pts }) xs h hs.1)
  | inr apart ↦ rw apart (h, dedup_from-IsFresh x xs hs.0 hs.1)
]

-- No key below `k`, and the order that this gives.
abbrev NotBelow : Key → List LiveEntry → Type 0
NotBelow k xs = All (λ (x : LiveEntry). ltb_key x.key k ≡ false) xs

abbrev InKeyOrder : List LiveEntry → Type 0
InKeyOrder [] = Unit {0}
InKeyOrder (x ∷ xs) = NotBelow x.key xs × InKeyOrder xs

ltb_key_trans_false :
    (a b c : Key) → ltb_key b a ≡ false → ltb_key c b ≡ false → ltb_key c a ≡ false
ltb_key_trans_false a b c p q = ground arith

ltb_key-asym : (a b : Key) → ltb_key a b ≡ true → ltb_key b a ≡ false
ltb_key-asym a b p = ground arith

ltb_key-mix : (a b c : Key) → ltb_key a b ≡ true → ltb_key c b ≡ false → ltb_key a c ≡ true
ltb_key-mix a b c p q = ground arith

NotBelow-trans :
    (a b : Key) (xs : List LiveEntry) → ltb_key b a ≡ false → NotBelow b xs → NotBelow a xs
NotBelow-trans a b [] h hs = tt
NotBelow-trans a b (x ∷ xs) h hs =
    (ltb_key_trans_false a b x.key h hs.0, NotBelow-trans a b xs h hs.1)

insert_by_key-NotBelow :
    (k : Key) (e : LiveEntry) (xs : List LiveEntry)
    → ltb_key e.key k ≡ false
    → NotBelow k xs
    → NotBelow k (insert_by_key e xs)
unfolding insert_by_key
insert_by_key-NotBelow k e [] h hs = (h, tt)
insert_by_key-NotBelow k e (x ∷ xs) h hs = elim (Bool-cases (ltb_key e.key x.key)) [
  | inl front ↦ rw front (h, hs)
  | inr behind ↦ rw behind (hs.0, insert_by_key-NotBelow k e xs h hs.1)
]

insert_by_key-InKeyOrder :
    (e : LiveEntry) (xs : List LiveEntry) → InKeyOrder xs → InKeyOrder (insert_by_key e xs)
unfolding insert_by_key
insert_by_key-InKeyOrder e [] h = (tt, tt)
insert_by_key-InKeyOrder e (x ∷ xs) h = elim (Bool-cases (ltb_key e.key x.key)) [
  | inl front ↦
      let below = ltb_key-asym e.key x.key front in
      rw front ((below, NotBelow-trans e.key x.key xs below h.0), h)
  | inr behind ↦
      rw behind (insert_by_key-NotBelow x.key e xs behind h.0, insert_by_key-InKeyOrder e xs h.1)
]

sort_by_key-InKeyOrder :
    (sorted es : List LiveEntry) → InKeyOrder sorted → InKeyOrder (sort_by_key sorted es)
unfolding sort_by_key
sort_by_key-InKeyOrder sorted [] h = h
sort_by_key-InKeyOrder sorted (e ∷ es) h =
    sort_by_key-InKeyOrder (insert_by_key e sorted) es (insert_by_key-InKeyOrder e sorted h)

-- Keys that are not below and not equal are above; removing the equal ones sorts strictly.
dedup_from-Above :
    (k : Key) (e : LiveEntry) (xs : List LiveEntry)
    → ltb_key k e.key ≡ true
    → InKeyOrder (e ∷ xs)
    → Above k (dedup_from e xs)
unfolding dedup_from
dedup_from-Above k e [] h s = (h, tt)
dedup_from-Above k e (x ∷ xs) h s = elim (Bool-cases (eqb_key x.key e.key)) [
  | inl same ↦
      rw same (dedup_from-Above k (record e { pts = min_ℤ e.pts x.pts }) xs h (s.0.1, s.1.1))
  | inr apart ↦ rw apart (h, dedup_from-Above k x xs (ltb_key-mix k e.key x.key h s.0.0) s.1)
]

dedup_from-IsSorted :
    (e : LiveEntry) (xs : List LiveEntry) → InKeyOrder (e ∷ xs) → IsSorted (dedup_from e xs)
unfolding dedup_from
dedup_from-IsSorted e [] s = (tt, tt)
dedup_from-IsSorted e (x ∷ xs) s = elim (Bool-cases (eqb_key x.key e.key)) [
  | inl same ↦
      rw same (dedup_from-IsSorted (record e { pts = min_ℤ e.pts x.pts }) xs (s.0.1, s.1.1))
  | inr apart ↦ rw apart (
    dedup_from-Above e.key x xs (ltb_key-total x.key e.key s.0.0 apart) s.1,
    dedup_from-IsSorted x xs s.1,
  )
]

dedup_lem :
    (es : List LiveEntry)
    → InKeyOrder es
    → All IsFresh es
    → IsSorted (dedup es) × All IsFresh (dedup es)
unfolding dedup
dedup_lem [] s h = (tt, tt)
dedup_lem (e ∷ es) s h = (dedup_from-IsSorted e es s, dedup_from-IsFresh e es h.0 h.1)

-- With every entry fresh, the queue of all keys is the one of the ready entries.
count-keys :
    (k : Key) (es : List LiveEntry)
    → IsSorted es
    → All IsFresh es
    → count k (keys es) ≡ ready_of (entry k es)
unfolding count entry
count-keys k [] s h = refl
count-keys k (e ∷ es) s h = elim (Bool-cases (eqb_key e.key k)) [
  | inl hit ↦
      let none_left : entry k es ≡ none =
        subst (λ j. entry j es ≡ none) (eqb_key→eq e.key k hit) (entry-Above e.key es s.0) in
      ground (arith, count-keys k es s.1 h.1, none_left, h.0.0, h.0.1)
  | inr miss ↦ ground (arith, count-keys k es s.1 h.1)
]

fresh-deferred : (k : Key) (es : List LiveEntry) → All IsFresh es → recovery_ok (entry k es) ≡ true
unfolding entry
fresh-deferred k [] h = refl
fresh-deferred k (e ∷ es) h = ground (arith, fresh-deferred k es h.1, h.0.1)

fresh-GapOk : (k : Key) (es : List LiveEntry) → All IsFresh es → GapOk (entry k es)
unfolding entry
fresh-GapOk k [] h = tt
fresh-GapOk k (e ∷ es) h =
    if-GapOk (eqb_key e.key k) (some e) (entry k es) (subst GapIsSequenced (sym h.0.2) tt)
      (fresh-GapOk k es h.1)

-- Whatever state was saved, the message box that is loaded from it is valid.
pub load-IsValid : (s : UpdatesState) (now : ℕ) → IsValid (load s now)
unfolding load
load-IsValid s now =
    let deadline : ℕ = next_updates_deadline now in
    let saved : List LiveEntry = saved_entries deadline (repair s) in
    let es : List LiveEntry = dedup (sort_by_key [] saved) in
    let (sorted, fresh) =
      dedup_lem (sort_by_key [] saved) (sort_by_key-InKeyOrder [] saved tt)
        (sort_by_key-IsFresh [] saved tt (saved_entries-IsFresh deadline (repair s))) in
    record {
      sorted = sorted;
      queued = λ k. count-keys k es sorted fresh;
      recovery = λ k. fresh-deferred k es fresh;
      ready_count = refl;
      gaps = λ k. fresh-GapOk k es fresh;
      held_bound = omega arith;
    }
