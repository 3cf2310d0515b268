-- ===== src/Storage/Slotted/Cells.antt =====
-- src/storage/slotted.rs: cells placed, appended, read and tombstoned.
use trunkdb.Base.{
  ℕ, zero, suc, ◌+◌, ◌-◌, ◌*◌, ◌%◌, ◌^◌, Bool, true, false, Option, none, some, List, [], ◌∷◌,
  length, ltb, leb, ◌==◌, if◌then◌else◌, Bytes,
}
use trunkdb.Base.Buffer.{slice, splice}
use trunkdb.Storage.Page.{usable_page_size}
use trunkdb.Storage.Slotted.Defs.{
  SlottedPage, bytes_of, with_bytes, header_len, slot_len, offset_of, length_of, slot_count,
  set_slot_count, data_start, set_data_start, write_slot, free_space, has_room_for,
}

unfoldable pub place_cell : SlottedPage → ℕ → Bytes → SlottedPage
place_cell p slot cell =
    let start = data_start p - length cell in
    let written = with_bytes p (splice (bytes_of p) start cell) in
    write_slot (set_data_start written start) slot start (length cell)

unfoldable pub insert_cell : SlottedPage → Bytes → SlottedPage × Option ℕ
insert_cell p cell =
    if ltb (free_space p) (slot_len + length cell)
    then (p, none)
    else let slot = slot_count p in (place_cell (set_slot_count p (slot + 1)) slot cell, some slot)

unfoldable pub delete_cell : SlottedPage → ℕ → SlottedPage
delete_cell p slot = write_slot p slot 0 0

unfoldable pub get_cell : SlottedPage → ℕ → Option Bytes
get_cell p slot =
    if leb (slot_count p) slot
    then none
    else if length_of (bytes_of p) slot == 0
    then none
    else some (slice (bytes_of p) (offset_of (bytes_of p) slot) (length_of (bytes_of p) slot))

abbrev pub with_slot : ℕ → Option Bytes → List (ℕ × Bytes) → List (ℕ × Bytes)
with_slot slot none cells = cells
with_slot slot (some cell) cells = (slot, cell) ∷ cells

unfoldable pub cells_from : SlottedPage → ℕ → ℕ → List (ℕ × Bytes)
cells_from p zero slot = []
cells_from p (suc left) slot = with_slot slot (get_cell p slot) (cells_from p left (suc slot))

unfoldable pub iter_cells : SlottedPage → List (ℕ × Bytes)
unfolding cells_from
iter_cells p = cells_from p (slot_count p) 0

total_len : List (ℕ × Bytes) → ℕ
total_len [] = 0
total_len ((slot, cell) ∷ cells) = length cell + total_len cells

abbrev wrapping_sub : ℕ → ℕ → ℕ
wrapping_sub a b = (a + (2 ^ 64 - b % 2 ^ 64)) % 2 ^ 64

-- `usize` subtraction as a release build has it. Cells that overlap, on a damaged page alone, could
-- take more than there is.
unfoldable pub reclaimable_space : SlottedPage → ℕ
unfolding total_len
reclaimable_space p =
    wrapping_sub (wrapping_sub (usable_page_size - header_len) (slot_count p * slot_len))
      (total_len (iter_cells p))

unfoldable pub is_empty : SlottedPage → Bool
is_empty p = elim (iter_cells p) [ [] ↦ true | _ ∷ _ ↦ false ]

unfoldable pub fits : SlottedPage → ℕ → Bool
fits p data_len =
    if has_room_for p data_len then true else leb (slot_len + data_len) (reclaimable_space p)
