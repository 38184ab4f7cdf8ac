-- ===== src/MessageBox/Invariant.antt =====
-- The invariant of the message box (mod.rs): how its table, its queue and its count agree.
pub mod Recovery
pub mod Retained
pub mod Channels
pub mod Account
pub mod Deadlines
use grammers.Common.{
  ℕ, suc, ◌+◌, ◌-◌, ◌≤◌, ◌≡◌, refl, sym, ap, subst, ◌∙◌, List, [], ◌∷◌, ◌++◌, Bool, true, false,
  not, ◌&&◌, ◌||◌, Option, none, some, if◌then◌else◌, length, length-append, All, arith, inl, inr,
  ◌⊎◌, Bool-cases, Option-cases,
}
use mathlib.Core.Option
use grammers.Common.Int.{ℤ}
use grammers.MessageBox.Defs.{
  Key, common, secondary, channel, eqb_key, Update, PossibleGap, PtsInfo, LiveEntry, MessageBoxes,
  eqb_key→eq, eqb_key_comm, eqb_key_refl,
}
use grammers.MessageBox.Entries.{entry, update_entry, pop_entry}
use grammers.MessageBox.Entries.Lookup.{KeepsKey, entry-update}
use grammers.MessageBox.Entries.Sorted.{IsSorted, update_entry-IsSorted}
use grammers.MessageBox.Updates.{from_update}
use grammers.MessageBox.Recovery.{
  remove_key, max_held_updates, Held, hold_channel_update, hold_updates, hold_gap, drop_front,
  has_gap, is_channel_key,
}

-- 1 for an entry whose difference is to be got now.
abbrev pub ready_of : Option LiveEntry → ℕ
ready_of none = 0
ready_of (some e) = if e.recovery_pending && not e.recovery_deferred then 1 else 0

abbrev pub without_gap_or_recovery : LiveEntry → Bool
without_gap_or_recovery e = not (e.recovery_pending && has_gap (some e))

-- A deferred recovery is pending, and an account entry in recovery has no gap.
abbrev pub recovery_ok : Option LiveEntry → Bool
recovery_ok none = true
recovery_ok (some e) =
    (if e.recovery_deferred then e.recovery_pending else true)
    && (is_channel_key e.key || without_gap_or_recovery e)

-- The entry can leave recovery: it has no gap then.
abbrev pub is_clear : Option LiveEntry → Bool
is_clear none = true
is_clear (some e) = without_gap_or_recovery e

abbrev pub sequenced : Option PtsInfo → Bool
sequenced none = false
sequenced (some info) = true

-- The update has sequence information.
abbrev pub IsSequenced : Update → Type 0
IsSequenced u = sequenced (from_update u) ≡ true

abbrev pub GapIsSequenced : Option PossibleGap → Type 0
GapIsSequenced none = Unit {0}
GapIsSequenced (some g) = All IsSequenced g.updates

abbrev pub gap_of : Option LiveEntry → Option PossibleGap
gap_of none = none
gap_of (some e) = e.possible_gap

-- The updates in the gap of an entry all have sequence information.
abbrev pub GapOk : Option LiveEntry → Type 0
GapOk o = GapIsSequenced (gap_of o)

abbrev pub HeldOk : List (ℤ × Update) → Type 0
HeldOk hs = length hs ≤ max_held_updates

-- How often a key is in the queue.
unfoldable pub count : Key → List Key → ℕ
count k [] = 0
count k (j ∷ js) = (if eqb_key j k then 1 else 0) + count k js

pub record IsValid (b : MessageBoxes) : Type 0 where
  pub sorted : IsSorted b.entries
  pub queued : (k : Key) → count k b.getting_diff_for ≡ ready_of (entry k b.entries)
  pub recovery : (k : Key) → recovery_ok (entry k b.entries) ≡ true
  pub ready_count : b.ready_diff_count ≡ length b.getting_diff_for
  pub gaps : (k : Key) → GapOk (entry k b.entries)
  pub held_bound : HeldOk b.held_updates

pub if-GapOk : (t : Bool) (x y : Option LiveEntry) → GapOk x → GapOk y → GapOk (if t then x else y)
if-GapOk true x y hx hy = hx
if-GapOk false x y hx hy = hy

-- Changes of an entry that keep its gap, or drop it.
pub map-GapOk :
    (f : LiveEntry → LiveEntry) (o : Option LiveEntry)
    → ((e : LiveEntry) → (f e).possible_gap ≡ e.possible_gap)
    → GapOk o
    → GapOk (Option.map f o)
map-GapOk f none keep h = tt
map-GapOk f (some e) keep h = subst GapIsSequenced (sym (keep e)) h

pub map-GapOk-none :
    (f : LiveEntry → LiveEntry) (o : Option LiveEntry)
    → ((e : LiveEntry) → (f e).possible_gap ≡ none)
    → GapOk (Option.map f o)
map-GapOk-none f none drop = tt
map-GapOk-none f (some e) drop = subst GapIsSequenced (sym (drop e)) tt

-- Holding updates stays within the bound.
pub hold_channel_update-HeldOk :
    (id : ℤ) (h : Held) (u : Update)
    → HeldOk h.updates
    → HeldOk (hold_channel_update id h u).updates
unfolding hold_channel_update
hold_channel_update-HeldOk id h u bound = ground (
  arith,
  length-append h.updates ((id, u) ∷ []),
  length-append (drop_front h.updates) ((id, u) ∷ []),
)

pub hold_updates-HeldOk :
    (id : ℤ) (h : Held) (us : List Update)
    → HeldOk h.updates
    → HeldOk (hold_updates id h us).updates
unfolding hold_updates
hold_updates-HeldOk id h [] bound = bound
hold_updates-HeldOk id h (u ∷ us) bound =
    hold_updates-HeldOk id (hold_channel_update id h u) us (hold_channel_update-HeldOk id h u bound)

pub hold_gap-HeldOk :
    (key : Key) (gap : Option PossibleGap) (h : Held)
    → HeldOk h.updates
    → HeldOk (hold_gap key gap h).updates
unfolding hold_gap
hold_gap-HeldOk (channel id) (some g) h bound = hold_updates-HeldOk id h g.updates bound
hold_gap-HeldOk (channel id) none h bound = bound
hold_gap-HeldOk common gap h bound = bound
hold_gap-HeldOk secondary gap h bound = bound

pub count-append : (k : Key) (xs ys : List Key) → count k (xs ++ ys) ≡ count k xs + count k ys
unfolding count
count-append k [] ys = omega arith
count-append k (x ∷ xs) ys = ground (arith, count-append k xs ys)

-- A key in the queue is found, and removed once.
pub remove_key_lem :
    (key : Key) (q : List Key)
    → 1 ≤ count key q
    → (q' : List Key) × (remove_key key q ≡ some q')
      × (length q ≡ suc (length q'))
      × ((k : Key) → count k q ≡ (if eqb_key key k then 1 else 0) + count k q')
unfolding count remove_key
remove_key_lem key [] h = absurd (omega arith)
remove_key_lem key (x ∷ q) h = elim (Bool-cases (eqb_key x key)) [
  | inl hit ↦ (
    q,
    rw hit refl,
    refl,
    λ k. ap (λ t. (if eqb_key t k then 1 else 0) + count k q) (eqb_key→eq x key hit),
  )
  | inr miss ↦
      let (q', found, shorter, counts) = remove_key_lem key q (ground arith) in
      (x ∷ q', rw (miss, found) refl, ap suc shorter, λ k. ground (arith, counts k))
]

-- Replacing the entry of one key, with the queue and the count that go with it.
pub change-IsValid :
    (key : Key) (f : LiveEntry → LiveEntry) (b b' : MessageBoxes)
    → KeepsKey key f
    → IsValid b
    → b'.entries ≡ update_entry key f b.entries
    → ((k : Key)
        → count k b'.getting_diff_for ≡ (
            if eqb_key key k
            then ready_of (Option.map f (entry key b.entries))
            else count k b.getting_diff_for))
    → recovery_ok (Option.map f (entry key b.entries)) ≡ true
    → b'.ready_diff_count ≡ length b'.getting_diff_for
    → GapOk (Option.map f (entry key b.entries))
    → HeldOk b'.held_updates
    → IsValid b'
change-IsValid key f b b' keep v es counts def n gap held =
    let looked : (k : Key)
        → entry k b'.entries
          ≡ (if eqb_key key k then Option.map f (entry key b.entries) else entry k b.entries) =
      λ k.
        ap (entry k) es
        ∙ (entry-update key k f b.entries keep ∙ (elim (Bool-cases (eqb_key key k)) [
          | inl hit ↦
              rw hit (ap (λ t. Option.map f (entry t b.entries)) (sym (eqb_key→eq key k hit)))
          | inr miss ↦ rw miss refl
        ])) in
    record {
      sorted = subst IsSorted (sym es) (update_entry-IsSorted key f keep b.entries v.sorted);
      queued = λ k. ground (arith, counts k, looked k, v.queued k);
      recovery = λ k. ground (arith, def, looked k, v.recovery k);
      ready_count = n;
      gaps = λ k. subst GapOk (sym (looked k)) (
          if-GapOk (eqb_key key k) (Option.map f (entry key b.entries)) (entry k b.entries) gap
            (v.gaps k));
      held_bound = held;
    }

-- A change of an entry that leaves its recovery alone.
pub keep-IsValid :
    (key : Key) (f : LiveEntry → LiveEntry) (b b' : MessageBoxes)
    → KeepsKey key f
    → ((o : Option LiveEntry) → ready_of (Option.map f o) ≡ ready_of o)
    → (recovery_ok (entry key b.entries) ≡ true
        → recovery_ok (Option.map f (entry key b.entries)) ≡ true)
    → ((o : Option LiveEntry) → GapOk o → GapOk (Option.map f o))
    → IsValid b
    → b'.entries ≡ update_entry key f b.entries
    → b'.getting_diff_for ≡ b.getting_diff_for
    → b'.ready_diff_count ≡ b.ready_diff_count
    → HeldOk b'.held_updates
    → IsValid b'
keep-IsValid key f b b' keep kr kd kg v es q n held =
    change-IsValid key f b b' keep v es
      (λ k. ap (count k) q ∙ (elim (Bool-cases (eqb_key key k)) [
        | inl hit ↦ rw hit (
            v.queued k
            ∙ (ap (λ t. ready_of (entry t b.entries)) (sym (eqb_key→eq key k hit))
                ∙ sym (kr (entry key b.entries))))
        | inr miss ↦ rw miss refl
      ]))
      (kd (v.recovery key)) (n ∙ (v.ready_count ∙ sym (ap length q)))
      (kg (entry key b.entries) (v.gaps key)) held
