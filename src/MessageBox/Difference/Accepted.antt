-- ===== src/MessageBox/Difference/Accepted.antt =====
-- Processing the updates of a difference, of which malformed ones were dropped, and the `expect`s
-- on it (mod.rs).
use grammers.Common.{
  ℕ, ◌≡◌, refl, List, [], ◌∷◌, Bool, true, false, ◌&&◌, ◌||◌, Option, none, some, if◌then◌else◌,
  All, arith, inl, inr, Bool-cases, Option-cases,
}
use grammers.Common.Int.{pos, ltb_ℤ, eqb_ℤ, ◌-ℤ◌}
use grammers.Common.Outcome.{Outcome, ok, err, panic, ◌>>=◌}
use grammers.MessageBox.Defs.{Key, Update, MessageBoxes, PtsInfo, LiveEntry, no_pts}
use grammers.MessageBox.Updates.{
  from_update, valid_update, valid_info, valid_peer, raw_from_update, sort_updates_by_key,
}
use grammers.MessageBox.Entries.{entry, is_getting_diff, quiet, next_updates_deadline}
use grammers.MessageBox.Entries.Lookup.{or_new}
use grammers.MessageBox.Invariant.{IsValid}
use grammers.MessageBox.Process.{
  Combined, Pass, Round, Processed, settle, sequence_update, process_info, process_ordered,
  process_update, process_all, process_checked, process_updates_inner, finish, round_of,
  account_pending, all_valid, contains_key, before_login, as_channel_too_long, below_by_key,
}
use grammers.MessageBox.Process.Gaps.{sort_updates_by_key-All}
use grammers.MessageBox.Process.Safety.{IsSafe, process_updates_inner-IsSafe}
use grammers.MessageBox.Difference.{unnumbered, retain_valid_updates, retain_wanted, wanted}

abbrev Valid : Update → Type 0
Valid u = valid_update u ≡ true

-- Not an error; whether it is a panic is another matter.
abbrev IsNoError : {E A : Type 0} → Outcome E A → Type 0
IsNoError (ok a) = Unit {0}
IsNoError (err e) = ⊥
IsNoError panic = Unit {0}

IsNoError-bind :
    {E A B : Type 0} (m : Outcome E A) (f : A → Outcome E B)
    → IsNoError m
    → ((a : A) → IsNoError (f a))
    → IsNoError (m >>= f)
IsNoError-bind (ok a) f h k = k a
IsNoError-bind (err e) f h k = h
IsNoError-bind panic f h k = tt

valid_info-bounds :
    (info : PtsInfo)
    → valid_info info ≡ true
    → eqb_ℤ info.pts no_pts ≡ false
    → (ltb_ℤ info.count (pos 0) || ltb_ℤ info.pts info.count) ≡ false
unfolding valid_info
valid_info-bounds info h n = ground arith

from_raw-bounds :
    (raw : Option PtsInfo) (info : PtsInfo) (peer : Bool)
    → (peer && (elim raw [ none ↦ true | some i ↦ valid_info i ])) ≡ true
    → (elim raw [ some i ↦ if eqb_ℤ i.pts no_pts then none else some i | none ↦ none ]) ≡ some info
    → (ltb_ℤ info.count (pos 0) || ltb_ℤ info.pts info.count) ≡ false
from_raw-bounds none info peer h known = cc
from_raw-bounds (some i) info peer h known = elim (Bool-cases (eqb_ℤ i.pts no_pts)) [
  | inl zero_pts ↦ absurd (ground (arith, zero_pts))
  | inr numbered ↦
      let valid : valid_info i ≡ true = ground arith in
      let same : some i ≡ some info = rw numbered at known in
      ground (arith, valid_info-bounds i valid numbered, same)
]

bounds_of_update :
    (u : Update) (info : PtsInfo)
    → Valid u
    → from_update u ≡ some info
    → (ltb_ℤ info.count (pos 0) || ltb_ℤ info.pts info.count) ≡ false
unfolding from_update valid_update
bounds_of_update u info h known =
    from_raw-bounds (raw_from_update u.kind) info (valid_peer u.kind) h known

sequence_update-IsNoError :
    (r : Round) (info : PtsInfo) (u : Update) (p : Pass) → IsNoError (sequence_update r info u p)
unfolding sequence_update
sequence_update-IsNoError r info u p =
    elim (Option-cases (
      settle r.now info u (
        or_new (quiet info.key (info.pts -ℤ info.count) (next_updates_deadline r.now))
          (entry info.key p.boxes.entries)))) [
            | inl fails ↦ rw (fails, sequence_update) tt
            | inr (s, settled) ↦ rw (settled, sequence_update) tt
          ]

process_info-IsNoError :
    (r : Round) (info : PtsInfo) (u : Update) (p : Pass)
    → (ltb_ℤ info.count (pos 0) || ltb_ℤ info.pts info.count) ≡ false
    → IsNoError (process_info r info u p)
unfolding process_info
process_info-IsNoError r info u p good =
    rw good (elim (Bool-cases (contains_key info.key r.force)) [
      | inl forced ↦ rw forced tt
      | inr free ↦ rw free (elim (Bool-cases (is_getting_diff info.key p.boxes.entries)) [
        | inl pending ↦ rw pending tt
        | inr idle ↦ rw idle (elim (Bool-cases (before_login info p.boxes)) [
          | inl early ↦ rw early tt
          | inr ready ↦ rw ready (sequence_update-IsNoError r info u p)
        ])
      ])
    ])

process_update-IsNoError :
    (r : Round) (u : Update) (p : Pass) → Valid u → IsNoError (process_update r u p)
unfolding process_update
process_update-IsNoError r u p v = elim (Option-cases (as_channel_too_long u.kind)) [
  | inr ((id, pts), too_long) ↦ rw (too_long, process_update) tt
  | inl other ↦
      rw (other, process_update)
        (elim (Option-cases (from_update u)) [
          | inl unknown ↦ rw (unknown, process_ordered) tt
          | inr (info, known) ↦
              rw (known, process_ordered)
                (process_info-IsNoError r info u p (bounds_of_update u info v known))
        ])
]

process_all-IsNoError :
    (r : Round) (us : List Update) (p : Pass) → All Valid us → IsNoError (process_all r us p)
unfolding process_all
process_all-IsNoError r [] p h = tt
process_all-IsNoError r (u ∷ us) p h =
    IsNoError-bind (process_update r u p) (process_all r us) (process_update-IsNoError r u p h.0)
      (λ q. process_all-IsNoError r us q h.1)

all_valid-All : (us : List Update) → All Valid us → all_valid us ≡ true
unfolding all_valid
all_valid-All [] h = refl
all_valid-All (u ∷ us) h = rw (h.0, all_valid-All us h.1) refl

process_unnumbered-IsNoError :
    (us : List Update) (peers : ℕ) (force : List Key) (now : ℕ) (b : MessageBoxes)
    → All Valid us
    → IsNoError (process_updates_inner (some (unnumbered us peers)) force now b)
unfolding process_updates_inner process_checked
process_unnumbered-IsNoError us peers force now b h =
    let c : Combined = unnumbered us peers in
    let r : Round = round_of force now (account_pending force b) c b in
    rw (all_valid-All us h) (
      IsNoError-bind
        (process_all r (sort_updates_by_key below_by_key us)
          (record { boxes = b; result = []; unresolved = false }))
        (λ p. ok ((p.result, peers), finish r p))
        (process_all-IsNoError r (sort_updates_by_key below_by_key us) _
          (sort_updates_by_key-All Valid below_by_key us h))
        (λ p. tt))

safe-ok :
    (m : Outcome MessageBoxes Processed)
    → IsSafe (λ (x : Processed). x.1) m
    → IsNoError m
    → (x : Processed) × (m ≡ ok x) × IsValid x.1
safe-ok (ok x) s n = (x, refl, s)
safe-ok (err b) s n = absurd n
safe-ok panic s n = absurd s

-- Processing well-formed updates without a sequence number succeeds on a valid message box.
pub process_unnumbered-ok :
    (us : List Update) (peers : ℕ) (force : List Key) (now : ℕ) (b : MessageBoxes)
    → IsValid b
    → All Valid us
    → (x : Processed) × (process_updates_inner (some (unnumbered us peers)) force now b ≡ ok x)
      × IsValid x.1
process_unnumbered-ok us peers force now b v h =
    safe-ok (process_updates_inner (some (unnumbered us peers)) force now b)
      (process_updates_inner-IsSafe (some (unnumbered us peers)) force now b v)
      (process_unnumbered-IsNoError us peers force now b h)

pub retain_valid_updates-All : (us : List Update) → All Valid (retain_valid_updates us)
unfolding retain_valid_updates
retain_valid_updates-All [] = tt
retain_valid_updates-All (u ∷ us) = elim (Bool-cases (valid_update u)) [
  | inl good ↦ rw (good, retain_valid_updates) (good, retain_valid_updates-All us)
  | inr bad ↦ rw bad (retain_valid_updates-All us)
]

pub retain_wanted-All :
    (es : List LiveEntry) (us : List Update) → All Valid us → All Valid (retain_wanted es us)
unfolding retain_wanted
retain_wanted-All es [] h = tt
retain_wanted-All es (u ∷ us) h = elim (Bool-cases (wanted es (from_update u))) [
  | inl keep ↦ rw keep (h.0, retain_wanted-All es us h.1)
  | inr drop ↦ rw drop (retain_wanted-All es us h.1)
]
