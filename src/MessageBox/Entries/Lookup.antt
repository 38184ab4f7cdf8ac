-- ===== src/MessageBox/Entries/Lookup.antt =====
-- Each operation on the table, seen from the entry of any key (mod.rs).
use grammers.Common.{
  ℕ, ◌≡◌, refl, ap, ◌∙◌, List, [], ◌∷◌, true, false, Option, none, some, if◌then◌else◌, arith, inl,
  inr, Bool-cases, Option-cases,
}
use mathlib.Core.Option
use grammers.Common.Int.{ℤ}
use grammers.MessageBox.Defs.{Key, LiveEntry, eqb_key, eqb_key→eq, eqb_key_comm}
use grammers.MessageBox.Entries.{
  entry, update_entry, insert_entry, set_entry, force_update_entry, set_pts, pop_entry, quiet,
  next_updates_deadline,
}

-- A function on the entries of a key that leaves the key alone.
abbrev pub KeepsKey : Key → (LiveEntry → LiveEntry) → Type 0
KeepsKey key f = (e : LiveEntry) → e.key ≡ key → (f e).key ≡ key

pub entry-key : (k : Key) (es : List LiveEntry) (e : LiveEntry) → entry k es ≡ some e → e.key ≡ k
unfolding entry
entry-key k [] e h = cc
entry-key k (x ∷ xs) e h = elim (Bool-cases (eqb_key x.key k)) [
  | inl hit ↦ ground (arith, eqb_key→eq x.key k)
  | inr miss ↦ entry-key k xs e (ground arith)
]

eqb_key_trans_false : (a b k : Key) → eqb_key a k ≡ true → eqb_key a b ≡ false → eqb_key b k ≡ false
eqb_key_trans_false a b k h n = ground (arith, eqb_key→eq a k, eqb_key_comm a b)

eqb_key_trans : (a b k : Key) → eqb_key a b ≡ true → eqb_key a k ≡ eqb_key b k
eqb_key_trans a b k h = ground (arith, eqb_key→eq a b)

module _ (j k : Key) where
  pub entry-update :
      (f : LiveEntry → LiveEntry) (es : List LiveEntry)
      → KeepsKey j f
      → entry k (update_entry j f es)
        ≡ (if eqb_key j k then Option.map f (entry k es) else entry k es)
  unfolding entry update_entry
  entry-update f [] keep = ground arith
  entry-update f (e ∷ es) keep = ground (
    arith,
    keep e,
    eqb_key→eq e.key j,
    entry-update f es keep,
    eqb_key_trans e.key j k,
    eqb_key_trans_false e.key j k,
    eqb_key_comm e.key j,
  )

  pub entry-pop_ne :
      (es : List LiveEntry) → eqb_key j k ≡ false → entry k (pop_entry j es) ≡ entry k es
  unfolding entry pop_entry
  entry-pop_ne [] h = refl
  entry-pop_ne (e ∷ es) h = ground (arith, entry-pop_ne es h, eqb_key_trans e.key j k)

pub entry-insert :
    (k : Key) (new : LiveEntry) (es : List LiveEntry)
    → entry new.key es ≡ none
    → entry k (insert_entry new es) ≡ (if eqb_key new.key k then some new else entry k es)
unfolding entry insert_entry
entry-insert k new [] h = refl
entry-insert k new (e ∷ es) h = ground (
  arith,
  entry-insert k new es,
  eqb_key_trans_false e.key new.key k,
  eqb_key_trans e.key new.key k,
)

entry-same : (a b : Key) (es : List LiveEntry) → eqb_key a b ≡ true → entry a es ≡ entry b es
entry-same a b es h = ap (λ key. entry key es) (eqb_key→eq a b h)

pub entry-set :
    (k : Key) (new : LiveEntry) (es : List LiveEntry)
    → entry k (set_entry new es) ≡ (if eqb_key new.key k then some new else entry k es)
unfolding set_entry
entry-set k new es = elim (Option-cases (entry new.key es)) [
  | inl absent ↦ rw (absent, set_entry) (entry-insert k new es absent)
  | inr (old, present) ↦
      rw (present, set_entry)
        (ground
          (arith, entry-update new.key k (λ _. new) es (λ e h. refl), entry-same new.key k es))
]

abbrev pub or_new : LiveEntry → Option LiveEntry → LiveEntry
or_new new none = new
or_new new (some e) = e

pub entry-force :
    (k : Key) (new : LiveEntry) (f : LiveEntry → LiveEntry) (es : List LiveEntry)
    → KeepsKey new.key f
    → entry k (force_update_entry new f es)
      ≡ (if eqb_key new.key k then some (f (or_new new (entry k es))) else entry k es)
unfolding force_update_entry
entry-force k new f es keep = elim (Option-cases (entry new.key es)) [
  | inl absent ↦
      let same = keep new refl in
      let absent' : entry (f new).key es ≡ none = ap (λ key. entry key es) same ∙ absent in
      rw (absent, force_update_entry)
        (ground (
          arith,
          entry-insert k (f new) es absent',
          ap (λ key. eqb_key key k) same,
          entry-same new.key k es,
        ))
  | inr (old, present) ↦
      rw (present, force_update_entry)
        (ground (arith, entry-update new.key k f es keep, entry-same new.key k es))
]

pub entry-set_pts :
    (k : Key) (now : ℕ) (key : Key) (pts : ℤ) (es : List LiveEntry)
    → entry k (set_pts now key pts es) ≡ (
        if eqb_key key k
        then some
            (record (or_new (quiet key pts (next_updates_deadline now)) (entry k es)) { pts = pts })
        else entry k es)
unfolding set_pts
entry-set_pts k now key pts es =
    let new : LiveEntry = quiet key pts (next_updates_deadline now) in
    let f : LiveEntry → LiveEntry = λ e. record e { pts = pts } in
    elim (Option-cases (entry key es)) [
      | inl absent ↦ rw (absent, set_pts) (ground (arith, entry-set k new es, entry-same key k es))
      | inr (old, present) ↦
          rw (present, set_pts)
            (ground (arith, entry-update key k f es (λ e h. h), entry-same key k es))
    ]
