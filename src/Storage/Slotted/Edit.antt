-- ===== src/Storage/Slotted/Edit.antt =====
-- src/storage/slotted.rs: cells inserted in order, taken out, put into a dead slot and replaced. An
-- `assert!` that fails is `none`.
use trunkdb.Base.{
  ℕ, zero, suc, ◌+◌, ◌-◌, Bool, true, false, not, ◌&&◌, Option, none, some, length, ltb, leb, ◌==◌,
  if◌then◌else◌, Bytes,
}
use trunkdb.Base.Buffer.{splice, clear_range, copy_within}
use trunkdb.Storage.Slotted.Defs.{
  SlottedPage, bytes_of, with_bytes, slot_len, slot_offset, offset_of, length_of, slot_count,
  set_slot_count, data_start, set_data_start, write_slot, free_space, has_room_for,
}
use trunkdb.Storage.Slotted.Cells.{place_cell, insert_cell, delete_cell, reclaimable_space, fits}
use trunkdb.Storage.Slotted.Compact.{compact, compact_keeping}

unfoldable pub insert_cell_at : SlottedPage → ℕ → Bytes → Option (SlottedPage × Bool)
insert_cell_at p slot cell =
    let room = if has_room_for p (length cell) then p else compact_keeping p (slot_count p) in
    let count = slot_count room in
    let from = slot_offset slot in
    let moved =
      with_bytes room
        (copy_within (bytes_of room) from (slot_offset count - from) (from + slot_len)) in
    if ltb (slot_count p) slot
    then none
    else if not (fits p (length cell))
    then some (p, false)
    else some (place_cell (set_slot_count moved (count + 1)) slot cell, true)

unfoldable pub remove_cell_at : SlottedPage → ℕ → Option SlottedPage
remove_cell_at p slot =
    let count = slot_count p in
    let zeroed =
      clear_range (bytes_of p) (offset_of (bytes_of p) slot) (length_of (bytes_of p) slot) in
    let from = slot_offset (slot + 1) in
    let moved = copy_within zeroed from (slot_offset count - from) (from - slot_len) in
    let trimmed = clear_range moved (slot_offset (count - 1)) slot_len in
    if ltb slot count then some (set_slot_count (with_bytes p trimmed) (count - 1)) else none

find_dead : Bytes → ℕ → ℕ → Option ℕ
find_dead buf zero slot = none
find_dead buf (suc left) slot =
    let rest = find_dead buf left (suc slot) in if length_of buf slot == 0 then some slot else rest

unfoldable pub dead_slot : SlottedPage → Option ℕ
unfolding find_dead
dead_slot p = find_dead (bytes_of p) (slot_count p) 0

unfoldable pub fits_reusing_slot : SlottedPage → ℕ → Bool
fits_reusing_slot p data_len = elim (dead_slot p) [
  | some _ ↦ leb data_len (reclaimable_space p)
  | none ↦ fits p data_len
]

unfoldable pub insert_cell_reusing_slot : SlottedPage → Bytes → SlottedPage × Option ℕ
insert_cell_reusing_slot p cell = elim (dead_slot p) [
  | none ↦
      let room =
        if not (has_room_for p (length cell)) && leb (slot_len + length cell) (reclaimable_space p)
        then compact p
        else p in
      insert_cell room cell
  | some slot ↦
      if ltb (reclaimable_space p) (length cell)
      then (p, none)
      else let room =
          if ltb (free_space p) (length cell) then compact_keeping p (slot + 1) else p in
        (place_cell room slot cell, some slot)
]

-- The slots of the cells below the one that grows, moved down by as much.
lower_slots : ℕ → ℕ → ℕ → ℕ → ℕ → SlottedPage → SlottedPage
lower_slots zero other start offset grown p = p
lower_slots (suc left) other start offset grown p =
    let at = offset_of (bytes_of p) other in
    let len = length_of (bytes_of p) other in
    let below = not (len == 0) && leb start at && ltb at offset in
    lower_slots left (suc other) start offset grown
      (if below then write_slot p other (at - grown) len else p)

unfoldable pub grow_cell : SlottedPage → ℕ → ℕ → Bytes → ℕ → SlottedPage
unfolding lower_slots
grow_cell p slot offset cell grown =
    let start = data_start p in
    let moved = with_bytes p (copy_within (bytes_of p) start (offset - start) (start - grown)) in
    let lowered = lower_slots (slot_count moved) 0 start offset grown moved in
    let to = offset - grown in
    let written = with_bytes lowered (splice (bytes_of lowered) to cell) in
    write_slot (set_data_start written (start - grown)) slot to (length cell)

unfoldable pub update_cell : SlottedPage → ℕ → Bytes → Option (SlottedPage × Bool)
update_cell p slot cell =
    let offset = offset_of (bytes_of p) slot in
    let len = length_of (bytes_of p) slot in
    let in_place = with_bytes p (splice (bytes_of p) offset cell) in
    let grown = length cell - len in
    let deleted = delete_cell p slot in
    let room =
      if ltb (free_space deleted) (length cell)
      then compact_keeping deleted (slot + 1)
      else deleted in
    if (if ltb slot (slot_count p) then len == 0 else true)
    then none
    else if leb (length cell) len
    then some (write_slot in_place slot offset (length cell), true)
    else if leb grown (free_space p)
    then some (grow_cell p slot offset cell grown, true)
    else if ltb (reclaimable_space p + len) (length cell)
    then some (p, false)
    else some (place_cell room slot cell, true)

count_live : Bytes → ℕ → ℕ → ℕ
count_live buf zero slot = 0
count_live buf (suc left) slot =
    (if length_of buf slot == 0 then 0 else 1) + count_live buf left (suc slot)

unfoldable pub live_cells : SlottedPage → ℕ
unfolding count_live
live_cells p = count_live (bytes_of p) (slot_count p) 0
