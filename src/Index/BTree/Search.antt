-- ===== src/Index/BTree/Search.antt =====
-- The binary search of src/index/btree.rs among a page's live cells, and the search one by one that it
-- stands for.
use trunkdb.Base.{ℕ, zero, suc, ◌+◌, ◌-◌, ◌/◌, Bool, Option, none, some, ltb, if◌then◌else◌, Bytes}
use trunkdb.Storage.Slotted.Cells.{get_cell}
use trunkdb.Storage.Slotted.Defs.{SlottedPage, slot_count}

module _ (cell : ℕ → Option Bytes) where
  abbrev pub or_next : ℕ → Option Bytes → Option (ℕ × Bytes) → Option (ℕ × Bytes)
  or_next slot (some c) rest = some (slot, c)
  or_next slot none rest = rest

  -- `(mid..hi).find_map(…)`: the first live slot of `left` from `slot` on.
  unfoldable pub first_live : ℕ → ℕ → Option (ℕ × Bytes)
  first_live zero slot = none
  first_live (suc left) slot = or_next slot (cell slot) (first_live left (suc slot))

  module _ (meets : Bytes → Bool) where
    -- The loop of `first_slot_where`, on fuel that is at least the slots between `lo` and `hi`.
    abbrev pub narrowed :
        (ℕ → ℕ → Option ℕ → Option ℕ) → ℕ → ℕ → ℕ → Option ℕ → Option (ℕ × Bytes) → Option ℕ
    narrowed search lo mid hi found none = search lo mid found
    narrowed search lo mid hi found (some (slot, c)) =
        if meets c then search lo mid (some slot) else search (suc slot) hi found

    unfoldable pub search_slots : ℕ → ℕ → ℕ → Option ℕ → Option ℕ
    unfolding first_live
    search_slots zero lo hi found = found
    search_slots (suc fuel) lo hi found =
        let mid = lo + (hi - lo) / 2 in
        let rest = narrowed (search_slots fuel) lo mid hi found (first_live (hi - mid) mid) in
        if ltb lo hi then rest else found

    abbrev pub take_slot : ℕ → Option Bytes → Option ℕ → Option ℕ
    take_slot slot (some c) rest = if meets c then some slot else rest
    take_slot slot none rest = rest

    -- The same slot by looking at all of them: the reference.
    unfoldable pub first_meeting : ℕ → ℕ → Option ℕ
    first_meeting zero slot = none
    first_meeting (suc left) slot = take_slot slot (cell slot) (first_meeting left (suc slot))

-- `first_slot_where`
unfoldable pub first_slot_where : SlottedPage → (Bytes → Bool) → Option ℕ
unfolding search_slots
first_slot_where page meets =
    search_slots (get_cell page) meets (slot_count page) 0 (slot_count page) none
