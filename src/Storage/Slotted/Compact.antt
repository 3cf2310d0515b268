-- ===== src/Storage/Slotted/Compact.antt =====
-- src/storage/slotted.rs: the live cells packed against the page's end.
use trunkdb.Base.{
  ℕ, zero, suc, ◌+◌, ◌-◌, ◌*◌, max, Bool, true, ◌&&◌, List, [], ◌∷◌, leb, ◌==◌, if◌then◌else◌,
  Bytes,
}
use trunkdb.Base.Buffer.{slice, clear_range, copy_within}
use trunkdb.Storage.Page.{usable_page_size}
use trunkdb.Storage.Slotted.Defs.{
  SlottedPage, bytes_of, with_bytes, header_len, slot_len, offset_of, length_of, slot_count,
  set_slot_count, data_start, set_data_start, write_slot,
}
use trunkdb.Storage.Slotted.Cells.{place_cell}

-- A live cell's place in the page: its offset, length and slot.
pub record Placed : Type 0 where
  pub offset : ℕ
  pub len : ℕ
  pub slot : ℕ

unfoldable pub live_from : Bytes → ℕ → ℕ → List Placed
live_from buf zero slot = []
live_from buf (suc left) slot =
    let rest = live_from buf left (suc slot) in
    if length_of buf slot == 0
    then rest
    else record { offset = offset_of buf slot; len = length_of buf slot; slot = slot } ∷ rest

-- Highest offset first; cells at one offset overlap, and then their order does not matter.
insert_placed : Placed → List Placed → List Placed
insert_placed c [] = c ∷ []
insert_placed c (d ∷ cells) =
    if leb d.offset c.offset then c ∷ d ∷ cells else d ∷ insert_placed c cells

sort_placed : List Placed → List Placed
sort_placed [] = []
sort_placed (c ∷ cells) = insert_placed c (sort_placed cells)

are_apart : List Placed → Bool
are_apart [] = true
are_apart (c ∷ []) = true
are_apart (c ∷ d ∷ cells) = leb (d.offset + d.len) c.offset && are_apart (d ∷ cells)

last_slot_end : List Placed → ℕ
last_slot_end [] = 0
last_slot_end (c ∷ cells) = max (c.slot + 1) (last_slot_end cells)

-- Each cell moved up against the one above, and where the lowest now begins.
pack_up : List Placed → ℕ → SlottedPage → SlottedPage
pack_up [] end p = set_data_start p end
pack_up (c ∷ cells) end p =
    let to = end - c.len in
    pack_up cells to
      (write_slot (with_bytes p (copy_within (bytes_of p) c.offset c.len to)) c.slot to c.len)

copied_out : SlottedPage → List Placed → List (ℕ × Bytes)
copied_out p [] = []
copied_out p (c ∷ cells) = (c.slot, slice (bytes_of p) c.offset c.len) ∷ copied_out p cells

place_all : List (ℕ × Bytes) → SlottedPage → SlottedPage
place_all [] p = p
place_all ((slot, cell) ∷ cells) p = place_all cells (place_cell p slot cell)

unfoldable pub compact_keeping : SlottedPage → ℕ → SlottedPage
unfolding live_from insert_placed sort_placed are_apart last_slot_end pack_up copied_out place_all
compact_keeping p min_slots =
    let live = live_from (bytes_of p) (slot_count p) 0 in
    let count = max (last_slot_end live) min_slots in
    let sorted = sort_placed live in
    let trimmed = set_slot_count p count in
    let packed =
      if are_apart sorted
      then pack_up sorted usable_page_size trimmed
      else place_all (copied_out p sorted) (set_data_start trimmed usable_page_size) in
    let gap = header_len + count * slot_len in
    with_bytes packed (clear_range (bytes_of packed) gap (data_start packed - gap))

unfoldable pub compact : SlottedPage → SlottedPage
compact p = compact_keeping p 0
