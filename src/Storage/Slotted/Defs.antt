-- ===== src/Storage/Slotted/Defs.antt =====
-- src/storage/slotted.rs: a page's header and its slot directory, as bytes, and the check of its
-- layout. A range past the end, which the source panics on, is on no valid page.
use trunkdb.Base.{
  ℕ, zero, suc, ◌+◌, ◌-◌, ◌*◌, ◌⊎◌, inl, inr, Bool, true, false, not, ◌&&◌, Option, none, some, [],
  ◌∷◌, length, replicate, get_or, ltb, leb, ◌==◌, if◌then◌else◌, Bytes,
}
use trunkdb.Base.Buffer.{slice, splice, get_u16, set_u16}
use trunkdb.Base.ByteString.{to_le, from_le}
use trunkdb.Storage.Page.{
  PageType, Page, usable_page_size, type_byte, type_of_byte, is_slotted, page_of, changed,
  known_checked,
}

abbrev pub header_len : ℕ
header_len = 13

abbrev pub slot_len : ℕ
slot_len = 4

abbrev pub min_index_entry_len : ℕ
min_index_entry_len = 10

abbrev pub min_branch_entry_len : ℕ
min_branch_entry_len = 8

unfoldable pub min_cell : ℕ → ℕ
min_cell page_type =
    if page_type == type_byte PageType.index_leaf
    then min_index_entry_len
    else if page_type == type_byte PageType.index_branch
    then min_branch_entry_len
    else 0

pub record SlottedPage : Type 0 where
  pub buf : Page
  pub valid : Bool

abbrev pub bytes_of : SlottedPage → Bytes
bytes_of p = p.buf.bytes

-- `bytes_mut`, with the bytes as they are after the change.
abbrev pub with_bytes : SlottedPage → Bytes → SlottedPage
with_bytes p bytes = record p { buf = changed p.buf bytes }

unfoldable pub new : PageType → SlottedPage
new page_type =
    let empty = splice (replicate usable_page_size 0) 0 (type_byte page_type ∷ []) in
    record { buf = page_of (set_u16 empty 11 usable_page_size); valid = is_slotted page_type }

pub data LayoutError : Type 0 where
  wrong_length unknown_type not_slotted cells_past_end directory_past_cells : LayoutError
  slot_outside slot_too_short : ℕ → LayoutError

pub data Checked : Type 0 where
  layout_ok : Checked
  layout_err : LayoutError → Checked

abbrev pub also : Checked → Checked → Checked
also layout_ok c = c
also (layout_err e) c = layout_err e

unfoldable pub slot_offset : ℕ → ℕ
slot_offset index = header_len + index * slot_len

abbrev pub offset_of : Bytes → ℕ → ℕ
offset_of buf slot = get_u16 buf (slot_offset slot)

abbrev pub length_of : Bytes → ℕ → ℕ
length_of buf slot = get_u16 buf (slot_offset slot + 2)

unfoldable pub check_slot : Bytes → ℕ → ℕ → Checked
check_slot buf data_start slot =
    if length_of buf slot == 0
    then layout_ok
    else if ltb (offset_of buf slot) data_start
    then layout_err (slot_outside slot)
    else if ltb usable_page_size (offset_of buf slot + length_of buf slot)
    then layout_err (slot_outside slot)
    else layout_ok

unfoldable pub check_length : Bytes → ℕ → ℕ → Checked
check_length buf least slot =
    if (if length_of buf slot == 0 then false else ltb (length_of buf slot) least)
    then layout_err (slot_too_short slot)
    else layout_ok

-- `for slot in 0..count`, ended by the first error: `left` slots from `slot` on.
unfoldable pub check_slots : (ℕ → Checked) → ℕ → ℕ → Checked
check_slots check zero slot = layout_ok
check_slots check (suc left) slot =
    let rest = check_slots check left (suc slot) in also (check slot) rest

unfoldable pub check_type : Option PageType → Checked
check_type none = layout_err unknown_type
check_type (some t) = if is_slotted t then layout_ok else layout_err not_slotted

unfoldable pub check_layout : Bytes → Checked
unfolding check_type
check_layout buf =
    let slot_count = get_u16 buf 9 in
    let data_start = get_u16 buf 11 in
    if not (length buf == usable_page_size)
    then layout_err wrong_length
    else also (check_type (type_of_byte (get_or buf 0 0))) (
        if ltb usable_page_size data_start
        then layout_err cells_past_end
        else if ltb data_start (header_len + slot_count * slot_len)
        then layout_err directory_past_cells
        else also (check_slots (check_slot buf data_start) slot_count 0)
            (check_slots (check_length buf (min_cell (get_or buf 0 0))) slot_count 0))

-- `Ok` of the page, or the check's error.
unfoldable pub from_bytes : Page → LayoutError ⊎ SlottedPage
from_bytes buf =
    if buf.layout_checked
    then inr (record { buf = buf; valid = true })
    else elim (check_layout buf.bytes) [
      | layout_ok ↦ inr (record { buf = buf; valid = true })
      | layout_err e ↦ inl e
    ]

-- The assertion, of debug builds alone, is left out.
unfoldable pub into_page : SlottedPage → Page
into_page p = if p.valid then known_checked p.buf else p.buf

unfoldable pub next_page : SlottedPage → ℕ
next_page p = from_le (slice (bytes_of p) 1 8)

unfoldable pub set_next_page : SlottedPage → ℕ → SlottedPage
set_next_page p id = with_bytes p (splice (bytes_of p) 1 (to_le 8 id))

unfoldable pub slot_count : SlottedPage → ℕ
slot_count p = get_u16 (bytes_of p) 9

unfoldable pub set_slot_count : SlottedPage → ℕ → SlottedPage
set_slot_count p n = with_bytes p (set_u16 (bytes_of p) 9 n)

unfoldable pub data_start : SlottedPage → ℕ
data_start p = get_u16 (bytes_of p) 11

unfoldable pub set_data_start : SlottedPage → ℕ → SlottedPage
set_data_start p v = with_bytes p (set_u16 (bytes_of p) 11 v)

-- `read_slot`: offset and length.
unfoldable pub read_slot : SlottedPage → ℕ → ℕ × ℕ
read_slot p index = (offset_of (bytes_of p) index, length_of (bytes_of p) index)

unfoldable pub write_slot : SlottedPage → ℕ → ℕ → ℕ → SlottedPage
write_slot p index offset len =
    let bytes =
      set_u16 (set_u16 (bytes_of p) (slot_offset index) offset) (slot_offset index + 2) len in
    let short = not (len == 0) && ltb len (min_cell (get_or (bytes_of p) 0 0)) in
    record { buf = changed p.buf bytes; valid = if short then false else p.valid }

unfoldable pub free_space : SlottedPage → ℕ
free_space p = data_start p - (header_len + slot_count p * slot_len)

unfoldable pub space_needed : ℕ → ℕ
space_needed data_len = slot_len + data_len

unfoldable pub has_room_for : SlottedPage → ℕ → Bool
has_room_for p data_len = leb (slot_len + data_len) (free_space p)
