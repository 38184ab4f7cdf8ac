-- ===== src/MessageBox/Invariant/Deadlines.antt =====
-- Checking the deadlines, and the invariant (mod.rs).
use grammers.Common.{
  ℕ, ◌+◌, ◌≡◌, refl, sym, ap, subst, List, [], ◌∷◌, ◌++◌, true, not, ◌&&◌, none, some,
  if◌then◌else◌, length, length-append, ltb, leb, arith, inl, inr, Bool-cases,
}
use grammers.MessageBox.Defs.{
  Key, eqb_key, ltb_key, LiveEntry, MessageBoxes, eqb_key→eq, eqb_key_refl,
}
use grammers.MessageBox.Entries.{entry}
use grammers.MessageBox.Entries.Sorted.{Above, IsSorted, entry-Above}
use grammers.MessageBox.Recovery.{
  Expired, effective_deadline, held_of, expire_deferral, expire_deadline, expire_entry,
  expire_entries, check_deadlines,
}
use grammers.MessageBox.Invariant.{
  IsValid, GapOk, GapIsSequenced, HeldOk, if-GapOk, hold_gap-HeldOk, count, ready_of, recovery_ok,
  count-append,
}

abbrev ready_at : Key → LiveEntry → ℕ
ready_at k e = if eqb_key e.key k then ready_of (some e) else 0

expire_entry-key : (now : ℕ) (e : LiveEntry) (x : Expired) → (expire_entry now e x).0.key ≡ e.key
unfolding expire_entry expire_deferral expire_deadline
expire_entry-key now e x = ground arith

expire_entry-deferred :
    (now : ℕ) (e : LiveEntry) (x : Expired)
    → recovery_ok (some e) ≡ true
    → recovery_ok (some (expire_entry now e x).0) ≡ true
unfolding expire_entry expire_deferral expire_deadline
expire_entry-deferred now e x h = ground arith

expire_entry-ready :
    (now : ℕ) (e : LiveEntry) (x : Expired)
    → (expire_entry now e x).1.ready + length x.queue
      ≡ x.ready + length (expire_entry now e x).1.queue
unfolding expire_entry expire_deferral expire_deadline
expire_entry-ready now e x = ground (
  arith,
  length-append x.queue (e.key ∷ []),
  length-append (x.queue ++ (e.key ∷ [])) (e.key ∷ []),
)

expire_entry-count :
    (k : Key) (now : ℕ) (e : LiveEntry) (x : Expired)
    → recovery_ok (some e) ≡ true
    → count k (expire_entry now e x).1.queue + ready_at k e
      ≡ count k x.queue + ready_at k (expire_entry now e x).0
unfolding expire_entry expire_deferral expire_deadline count
expire_entry-count k now e x h = ground (
  arith,
  count-append k x.queue (e.key ∷ []),
  count-append k (x.queue ++ (e.key ∷ [])) (e.key ∷ []),
)

expire_entries-Above :
    (k : Key) (now : ℕ) (es : List LiveEntry) (x : Expired)
    → Above k es
    → Above k (expire_entries now es x).0
unfolding expire_entries
expire_entries-Above k now [] x s = tt
expire_entries-Above k now (e ∷ es) x s = (
  subst (λ j. ltb_key k j ≡ true) (sym (expire_entry-key now e x)) s.0,
  expire_entries-Above k now es (expire_entry now e x).1 s.1,
)

expire_entries-IsSorted :
    (now : ℕ) (es : List LiveEntry) (x : Expired)
    → IsSorted es
    → IsSorted (expire_entries now es x).0
unfolding expire_entries
expire_entries-IsSorted now [] x s = tt
expire_entries-IsSorted now (e ∷ es) x s =
    let x1 = (expire_entry now e x).1 in
    (
      subst (λ j. Above j (expire_entries now es x1).0) (sym (expire_entry-key now e x))
          (expire_entries-Above e.key now es x1 s.0),
      expire_entries-IsSorted now es x1 s.1,
    )

expire_entries-ready :
    (now : ℕ) (es : List LiveEntry) (x : Expired)
    → (expire_entries now es x).1.ready + length x.queue
      ≡ x.ready + length (expire_entries now es x).1.queue
unfolding expire_entries
expire_entries-ready now [] x = refl
expire_entries-ready now (e ∷ es) x =
    let x1 = (expire_entry now e x).1 in
    omega (arith, expire_entries-ready now es x1, expire_entry-ready now e x)

abbrev DeferredOk : List LiveEntry → Type 0
DeferredOk es = (k : Key) → recovery_ok (entry k es) ≡ true

head-DeferredOk :
    (e : LiveEntry) (es : List LiveEntry) → DeferredOk (e ∷ es) → recovery_ok (some e) ≡ true
unfolding entry
head-DeferredOk e es d = ground (arith, d e.key, eqb_key_refl e.key)

-- In a sorted table the head's key has no further entry.
tail-none :
    (k : Key) (e : LiveEntry) (es : List LiveEntry)
    → Above e.key es
    → eqb_key e.key k ≡ true
    → entry k es ≡ none
tail-none k e es s h =
    subst (λ j. entry j es ≡ none) (eqb_key→eq e.key k h) (entry-Above e.key es s)

tail-DeferredOk :
    (e : LiveEntry) (es : List LiveEntry) → IsSorted (e ∷ es) → DeferredOk (e ∷ es) → DeferredOk es
unfolding entry
tail-DeferredOk e es s d k = ground (arith, d k, tail-none k e es s.0)

expire_entries-deferred :
    (now : ℕ) (es : List LiveEntry) (x : Expired)
    → IsSorted es
    → DeferredOk es
    → DeferredOk (expire_entries now es x).0
unfolding expire_entries entry
expire_entries-deferred now [] x s d k = refl
expire_entries-deferred now (e ∷ es) x s d k =
    let x1 = (expire_entry now e x).1 in
    ground (
      arith,
      expire_entries-deferred now es x1 s.1 (tail-DeferredOk e es s d) k,
      expire_entry-deferred now e x (head-DeferredOk e es d),
    )

-- What the loop adds to the queue for a key is what its entry becomes ready by.
expire_entries-count :
    (k : Key) (now : ℕ) (es : List LiveEntry) (x : Expired)
    → IsSorted es
    → DeferredOk es
    → count k (expire_entries now es x).1.queue + ready_of (entry k es)
      ≡ count k x.queue + ready_of (entry k (expire_entries now es x).0)
unfolding expire_entries entry
expire_entries-count k now [] x s d = refl
expire_entries-count k now (e ∷ es) x s d =
    let x1 = (expire_entry now e x).1 in
    let rest = expire_entries-count k now es x1 s.1 (tail-DeferredOk e es s d) in
    let here = expire_entry-count k now e x (head-DeferredOk e es d) in
    let same : eqb_key (expire_entry now e x).0.key k ≡ eqb_key e.key k =
      ap (λ j. eqb_key j k) (expire_entry-key now e x) in
    elim (Bool-cases (eqb_key e.key k)) [
      | inl hit ↦
          let before = tail-none k e es s.0 hit in
          let after : entry k (expire_entries now es x1).0 ≡ none =
            subst (λ j. entry j (expire_entries now es x1).0 ≡ none) (eqb_key→eq e.key k hit)
              (entry-Above e.key (expire_entries now es x1).0
                (expire_entries-Above e.key now es x1 s.0)) in
          ground (arith, rest, here, same, before, after, hit)
      | inr miss ↦ ground (arith, rest, here, same, miss)
    ]

abbrev GapsOk : List LiveEntry → Type 0
GapsOk es = (k : Key) → GapOk (entry k es)

expire_deferral-gap :
    (now : ℕ) (e : LiveEntry) (x : Expired)
    → (expire_deferral now e x).0.possible_gap ≡ e.possible_gap
unfolding expire_deferral
expire_deferral-gap now e x = ground arith

expire_deadline-GapOk :
    (now : ℕ) (e : LiveEntry) (x : Expired)
    → GapOk (some e)
    → GapOk (some (expire_deadline now e x).0)
unfolding expire_deadline
expire_deadline-GapOk now e x h =
    elim (Bool-cases (leb (effective_deadline e) now && not e.recovery_pending)) [
      | inl due ↦ rw due tt
      | inr waiting ↦ rw waiting h
    ]

expire_entry-GapOk :
    (now : ℕ) (e : LiveEntry) (x : Expired) → GapOk (some e) → GapOk (some (expire_entry now e x).0)
unfolding expire_entry
expire_entry-GapOk now e x h =
    let (e1, x1) = expire_deferral now e x in
    expire_deadline-GapOk now e1 x1 (subst GapIsSequenced (sym (expire_deferral-gap now e x)) h)

head-GapsOk : (e : LiveEntry) (es : List LiveEntry) → GapsOk (e ∷ es) → GapOk (some e)
unfolding entry
head-GapsOk e es d = rw (eqb_key_refl e.key) at (d e.key)

tail-GapsOk :
    (e : LiveEntry) (es : List LiveEntry) → IsSorted (e ∷ es) → GapsOk (e ∷ es) → GapsOk es
unfolding entry
tail-GapsOk e es s d k = elim (Bool-cases (eqb_key e.key k)) [
  | inl hit ↦ subst GapOk (sym (tail-none k e es s.0 hit)) tt
  | inr miss ↦ rw miss at (d k)
]

expire_entries-gaps :
    (now : ℕ) (es : List LiveEntry) (x : Expired)
    → IsSorted es
    → GapsOk es
    → GapsOk (expire_entries now es x).0
unfolding expire_entries entry
expire_entries-gaps now [] x s d k = tt
expire_entries-gaps now (e ∷ es) x s d k =
    let (e1, x1) = expire_entry now e x in
    if-GapOk (eqb_key e1.key k) (some e1) (entry k (expire_entries now es x1).0)
      (expire_entry-GapOk now e x (head-GapsOk e es d))
      (expire_entries-gaps now es x1 s.1 (tail-GapsOk e es s d) k)

expire_entry-HeldOk :
    (now : ℕ) (e : LiveEntry) (x : Expired)
    → HeldOk x.held.updates
    → HeldOk (expire_entry now e x).1.held.updates
unfolding expire_entry expire_deferral expire_deadline
expire_entry-HeldOk now e x h = ground (arith, hold_gap-HeldOk e.key e.possible_gap x.held h)

expire_entries-HeldOk :
    (now : ℕ) (es : List LiveEntry) (x : Expired)
    → HeldOk x.held.updates
    → HeldOk (expire_entries now es x).1.held.updates
unfolding expire_entries
expire_entries-HeldOk now [] x h = h
expire_entries-HeldOk now (e ∷ es) x h =
    expire_entries-HeldOk now es (expire_entry now e x).1 (expire_entry-HeldOk now e x h)

-- Checking the deadlines keeps a message box valid: each entry that becomes due joins the queue
-- once.
pub check_deadlines-IsValid :
    (now : ℕ) (b : MessageBoxes) → IsValid b → IsValid (check_deadlines now b).1
unfolding check_deadlines
check_deadlines-IsValid now b v =
    let x0 : Expired = record {
      queue = b.getting_diff_for;
      ready = b.ready_diff_count;
      held = held_of b;
    } in
    elim (Bool-cases (ltb now b.next_deadline)) [
      | inl early ↦ rw early v
      | inr due ↦ rw due record {
        sorted = expire_entries-IsSorted now b.entries x0 v.sorted;
        queued = λ k.
            ground (arith, expire_entries-count k now b.entries x0 v.sorted v.recovery, v.queued k);
        recovery = expire_entries-deferred now b.entries x0 v.sorted v.recovery;
        ready_count = ground (arith, expire_entries-ready now b.entries x0, v.ready_count);
        gaps = expire_entries-gaps now b.entries x0 v.sorted v.gaps;
        held_bound = expire_entries-HeldOk now b.entries x0 v.held_bound;
      }
    ]
