-- ===== src/Mtp/Replay.antt =====
-- The history of server message identifiers (grammers-mtproto/src/mtp/replay.rs). A packed offset,
-- six bytes with the highest first, is the number that they spell: their order is its order. What
-- is logged and the storage's capacity are left out.
pub mod Ids
pub mod Lists
pub mod Shape
pub mod Rebase
pub mod Pops
pub mod Refines
pub mod History
mod Runs
use grammers.Common.{
  ℕ, suc, ◌*◌, ◌%◌, ◌^◌, ◌-◌, Bool, true, false, ◌&&◌, ◌||◌, Option, none, some, List, [], ◌∷◌,
  ◌++◌, map, if◌then◌else◌, ◌==◌, ltb, leb, length,
}
use grammers.Common.Int.{ℤ, pos, ltb_ℤ}
use grammers.Common.I64.{wrapping_add_i64, wrapping_sub_u64, saturating_sub}

abbrev pub capacity : ℕ
capacity = 1024

abbrev pub max_age : ℕ
max_age = 300 * 2 ^ 32

abbrev pub offset_limit : ℕ
offset_limit = 2 ^ 48

pub record ReplayIds : Type 0 where
  pub base : ℤ
  pub offsets : List ℕ

-- The low six bytes.
unfoldable pub pack : ℕ → ℕ
pack offset = offset % 2 ^ 48

unfoldable pub new : ReplayIds
new = record { base = pos 0; offsets = [] }

unfoldable pub id_of : ℤ → ℕ → ℤ
id_of base offset = wrapping_add_i64 base offset

unfoldable pub offset_of : ℤ → ℤ → Option ℕ
offset_of base id =
    let offset = wrapping_sub_u64 id base in
    if ltb offset offset_limit then some (pack offset) else none

module _ {ℓ} {A : Type ℓ} where
  unfoldable pub front : List A → Option A
  front [] = none
  front (x ∷ xs) = some x

  unfoldable pub back : List A → Option A
  back [] = none
  back (x ∷ xs) = elim (back xs) [ none ↦ some x | some y ↦ some y ]

  unfoldable pub is_none_or : Option A → (A → Bool) → Bool
  is_none_or none p = true
  is_none_or (some a) p = p a

  unfoldable pub is_some_and : Option A → (A → Bool) → Bool
  is_some_and none p = false
  is_some_and (some a) p = p a

  unfoldable pub is_empty : List A → Bool
  is_empty [] = true
  is_empty (x ∷ xs) = false

-- `binary_search(&target).is_ok()` on an ascending list.
unfoldable pub found : ℕ → List ℕ → Bool
found target [] = false
found target (x ∷ xs) = (x == target) || found target xs

-- `if let Err(index) = binary_search(&target) { insert(index, target) }` on an ascending list.
unfoldable pub insert_missing : ℕ → List ℕ → List ℕ
insert_missing target [] = target ∷ []
insert_missing target (x ∷ xs) =
    let rest = insert_missing target xs in
    if ltb target x then target ∷ x ∷ xs else if x == target then x ∷ xs else x ∷ rest

unfoldable pub contains : ℤ → ReplayIds → Bool
contains id r =
    is_some_and (offset_of r.base id)
      λ offset. is_some_and (back r.offsets) (λ last. leb offset last) && found offset r.offsets

-- `while let Some(first) = … && first < oldest_allowed { pop_front; evicted = Some(first) }`
unfoldable pub pop_old : ℤ → ℤ → Option ℤ → List ℕ → Option ℤ × List ℕ
pop_old base oldest evicted [] = (evicted, [])
pop_old base oldest evicted (o ∷ os) =
    let first = id_of base o in
    let rest = pop_old base oldest (some first) os in
    if ltb_ℤ first oldest then rest else (evicted, o ∷ os)

-- `if self.offsets.len() == CAPACITY { evicted = self.offsets.pop_front() }`
unfoldable pub pop_full : ℤ → Option ℤ × List ℕ → Option ℤ × List ℕ
pop_full base (evicted, []) = (evicted, [])
pop_full base (evicted, o ∷ os) =
    if length (o ∷ os) == capacity then (some (id_of base o), os) else (evicted, o ∷ os)

unfoldable pub moved : ℤ → ℤ → ReplayIds → ℕ × ReplayIds
moved id oldest r = (
  pack (wrapping_sub_u64 id oldest),
  record {
    base = oldest;
    offsets = map (λ slot. pack (wrapping_sub_u64 (id_of r.base slot) oldest)) r.offsets;
  },
)

-- The offset of a new identifier, after the retained ones are moved to a new base if need be.
unfoldable pub rebase : ℤ → ℤ → ReplayIds → ℕ × ReplayIds
rebase id oldest r = elim (offset_of r.base id) [
  | none ↦ moved id oldest r
  | some offset ↦ if is_empty r.offsets then moved id oldest r else (offset, r)
]

unfoldable pub push_offset : ℕ → List ℕ → List ℕ
push_offset offset offsets =
    if is_none_or (back offsets) (λ last. ltb last offset)
    then offsets ++ (offset ∷ [])
    else insert_missing offset offsets

unfoldable pub max_ℤ : ℤ → ℤ → ℤ
max_ℤ a b = if ltb_ℤ b a then a else b

-- `previous_newest.map_or(id, |previous| previous.max(id))`
unfoldable pub newest_of : Option ℤ → ℤ → ℤ
newest_of none id = id
newest_of (some previous) id = max_ℤ previous id

unfoldable pub previous_newest : ReplayIds → Option ℤ
previous_newest r = elim (back r.offsets) [ none ↦ none | some last ↦ some (id_of r.base last) ]

-- An identifier that the history has no place for.
unfoldable pub has_no_place : ℤ → ℤ → ReplayIds → Bool
has_no_place id oldest r =
    ltb_ℤ id oldest
    || ((length r.offsets == capacity)
        && is_some_and (front r.offsets) (λ first. ltb_ℤ id (id_of r.base first)))

unfoldable pub remember_in_place : ℤ → ℤ → ReplayIds → Option ℤ × ReplayIds
remember_in_place id oldest r =
    let (evicted, kept) = pop_full r.base (pop_old r.base oldest none r.offsets) in
    let (offset, r') = rebase id oldest (record r { offsets = kept }) in
    (evicted, record r' { offsets = push_offset offset r'.offsets })

-- The highest identifier that left the history, and the history.
unfoldable pub remember : ℤ → ReplayIds → Option ℤ × ReplayIds
remember id r =
    let oldest = saturating_sub (newest_of (previous_newest r) id) max_age in
    if has_no_place id oldest r then (some id, r) else remember_in_place id oldest r
