-- ===== src/Storage/Slotted/Insert.antt =====
-- src/storage/slotted.rs: a cell appended is read back, the others stay, and the layout stays valid.
use trunkdb.Base.{
  ℕ, ◌+◌, ◌-◌, ◌*◌, ◌≤◌, ◌<◌, ◌≡◌, refl, inl, inr, sym, ap, ◌∙◌, arith, true, false, Option, none,
  some, length, get_or, ltb, leb, le→ltb, le_cases, ◌==◌, if◌then◌else◌, Bytes,
}
use trunkdb.Base.Buffer.{
  slice, get_u16, set_u16, length-set_u16, get_u16-set_self, get_u16-set_after, slice-set_after,
  get_or-splice,
}
use trunkdb.Storage.Page.{usable_page_size}
use trunkdb.Storage.Slotted.Defs.{
  SlottedPage, bytes_of, header_len, slot_len, slot_offset, offset_of, length_of, min_cell,
  slot_count, set_slot_count, data_start, free_space,
}
use trunkdb.Storage.Slotted.Cells.{insert_cell, get_cell}
use trunkdb.Storage.Slotted.Layout.{IsLayout, SlotFits}
use trunkdb.Storage.Slotted.Place.{
  placed, place_cell-placed, length-placed, slot_count-placed, data_start-placed, offset_of-placed,
  length_of-placed, field-placed, cell-placed, above-placed, type-placed,
}

-- What a page shows of itself: `get_cell` on its bytes.
abbrev cell_at : Bytes → ℕ → Option Bytes
cell_at b slot =
    if leb (get_u16 b 9) slot
    then none
    else if length_of b slot == 0
    then none
    else some (slice b (offset_of b slot) (length_of b slot))

get_cell-cell_at : (p : SlottedPage) (slot : ℕ) → get_cell p slot ≡ cell_at (bytes_of p) slot
unfolding get_cell slot_count
get_cell-cell_at p slot = refl

-- A page after a cell was appended to it.
pub record Inserted (b : Bytes) (cell : Bytes) (c : Bytes) : Type 0 where
  pub count : get_u16 c 9 ≡ get_u16 b 9 + 1
  pub new_cell : cell_at c (get_u16 b 9) ≡ some cell
  pub other_cells : (i : ℕ) → i < get_u16 b 9 → cell_at c i ≡ cell_at b i
  pub layout : IsLayout c

-- The same in the page's fields.
pub record Appended (b : Bytes) (cell : Bytes) (c : Bytes) : Type 0 where
  pub size : length c ≡ usable_page_size
  pub count : get_u16 c 9 ≡ get_u16 b 9 + 1
  pub start : get_u16 c 11 + length cell ≡ get_u16 b 11
  pub directory : header_len + (get_u16 b 9 + 1) * slot_len ≤ get_u16 c 11
  pub new_offset : offset_of c (get_u16 b 9) ≡ get_u16 c 11
  pub new_length : length_of c (get_u16 b 9) ≡ length cell
  pub new_bytes : slice c (get_u16 c 11) (length cell) ≡ cell
  pub old_offset : (i : ℕ) → i < get_u16 b 9 → offset_of c i ≡ offset_of b i
  pub old_length : (i : ℕ) → i < get_u16 b 9 → length_of c i ≡ length_of b i
  pub old_bytes : (at k : ℕ) → get_u16 b 11 ≤ at → slice c at k ≡ slice b at k
  pub type_same : get_or c 0 0 ≡ get_or b 0 0

module _ (b cell c : Bytes) (ok : IsLayout b) (some_bytes : 0 < length cell)
    (long_enough : min_cell (get_or b 0 0) ≤ length cell) (a : Appended b cell c) where
  new_fits : SlotFits c (get_u16 b 9)
  new_fits = inr (
    omega (arith, a.new_offset),
    omega (arith, a.new_offset, a.new_length, a.start, ok.start_le),
    rw a.type_same (omega (arith, a.new_length)),
  )

  old_fits : (i : ℕ) → i < get_u16 b 9 → SlotFits c i
  old_fits i h = elim (ok.slots_fit i h) [
    | inl dead ↦ inl (a.old_length i h ∙ dead)
    | inr (lo, hi, long) ↦ inr (
      omega (arith, a.old_offset i h, a.start),
      omega (arith, a.old_offset i h, a.old_length i h),
      rw a.type_same (omega (arith, a.old_length i h)),
    )
  ]

  new_cell_at : cell_at c (get_u16 b 9) ≡ some cell
  new_cell_at =
      let counted : leb (get_u16 c 9) (get_u16 b 9) ≡ false = ground (arith, a.count) in
      let live : (length_of c (get_u16 b 9) == 0) ≡ false = ground (arith, a.new_length) in
      rw (counted, live, a.new_length, a.new_offset) (ap some a.new_bytes)

  old_cell_at : (i : ℕ) → i < get_u16 b 9 → cell_at c i ≡ cell_at b i
  old_cell_at i h =
      let counted : leb (get_u16 c 9) i ≡ false = ground (arith, a.count) in
      let before : leb (get_u16 b 9) i ≡ false = ground arith in
      elim (ok.slots_fit i h) [
        | inl dead ↦
            let gone : (length_of b i == 0) ≡ true = ground arith in
            rw (counted, before, a.old_length i h, gone) refl
        | inr (lo, hi, long) ↦
            rw
              (
                counted,
                before,
                a.old_length i h,
                a.old_offset i h,
                a.old_bytes (offset_of b i) (length_of b i) lo,
              )
              refl
      ]

  fits_all : (i : ℕ) → i < get_u16 c 9 → SlotFits c i
  fits_all i h = elim (le_cases i (get_u16 b 9) (omega (arith, a.count))) [
    | inl old ↦ old_fits i old
    | inr new ↦ rw new new_fits
  ]

  Appended-Inserted : Inserted b cell c
  Appended-Inserted = record {
    count = a.count;
    new_cell = new_cell_at;
    other_cells = old_cell_at;
    layout = record {
      size = a.size;
      slotted = rw a.type_same ok.slotted;
      start_le = omega (arith, a.start, ok.start_le);
      directory_le = omega (arith, a.count, a.directory);
      slots_fit = fits_all;
    };
  }

module _ (b cell : Bytes) (ok : IsLayout b)
    (room : slot_len + length cell ≤ get_u16 b 11 - (header_len + get_u16 b 9 * slot_len)) where
  abbrev n : ℕ
  n = get_u16 b 9

  abbrev start : ℕ
  start = get_u16 b 11 - length cell

  abbrev counted : Bytes
  counted = set_u16 b 9 (n + 1)

  abbrev after : Bytes
  after = placed counted n start cell

  above : slot_offset n + 4 ≤ start
  unfolding slot_offset
  above = omega arith

  inside : start + length cell ≤ length counted
  inside = omega (arith, length-set_u16 b 9 (n + 1), ok.size, ok.start_le)

  small : length counted < 65536
  small = omega (arith, length-set_u16 b 9 (n + 1), ok.size)

  count_after : get_u16 after 9 ≡ n + 1
  count_after =
      slot_count-placed counted n start cell above inside small
      ∙ get_u16-set_self b 9 (n + 1) (omega (arith, ok.size))
          (omega (arith, ok.directory_le, ok.start_le))

  start_after : get_u16 after 11 ≡ start
  start_after = data_start-placed counted n start cell above inside small

  -- The directory's entries before the new one.
  field_after : (at : ℕ) → 13 ≤ at → at + 2 ≤ slot_offset n → get_u16 after at ≡ get_u16 b at
  field_after at h k =
      field-placed counted n start cell above inside small at h (omega (arith, above)) (inl k)
      ∙ get_u16-set_after b 9 (n + 1) at (omega arith)

  offset_after : (i : ℕ) → i < n → offset_of after i ≡ offset_of b i
  unfolding slot_offset
  offset_after i h = field_after (slot_offset i) (omega arith) (omega arith)

  length_after : (i : ℕ) → i < n → length_of after i ≡ length_of b i
  unfolding slot_offset
  length_after i h = field_after (slot_offset i + 2) (omega arith) (omega arith)

  type_after : get_or after 0 0 ≡ get_or b 0 0
  type_after =
      type-placed counted n start cell above inside small
      ∙ unfold set_u16 in get_or-splice b 9 _ (omega arith)

  bytes_after : (at k : ℕ) → get_u16 b 11 ≤ at → slice after at k ≡ slice b at k
  bytes_after at k h =
      above-placed counted n start cell above inside small at k (omega arith)
      ∙ slice-set_after b 9 (n + 1) at k (omega (arith, ok.directory_le))

  pub after-Appended : Appended b cell after
  after-Appended = record {
    size =
        length-placed counted n start cell above inside small
        ∙ length-set_u16 b 9 (n + 1)
        ∙ ok.size;
    count = count_after;
    start = omega (arith, start_after);
    directory = omega (arith, start_after);
    new_offset = offset_of-placed counted n start cell above inside small ∙ sym start_after;
    new_length = length_of-placed counted n start cell above inside small;
    new_bytes = rw start_after (cell-placed counted n start cell above inside small);
    old_offset = offset_after;
    old_length = length_after;
    old_bytes = bytes_after;
    type_same = type_after;
  }

data_start-set_slot_count :
    (p : SlottedPage) (n : ℕ) → data_start (set_slot_count p n) ≡ data_start p
unfolding data_start set_slot_count
data_start-set_slot_count p n = get_u16-set_after (bytes_of p) 9 n 11 (omega arith)

pub insert_cell-placed :
    (p : SlottedPage) (cell : Bytes)
    → slot_len + length cell ≤ free_space p
    → (bytes_of (insert_cell p cell).0
        ≡ placed
            (set_u16 (bytes_of p) 9 (slot_count p + 1))
            (slot_count p)
            (data_start p - length cell)
            cell)
      × ((insert_cell p cell).1 ≡ some (slot_count p))
unfolding insert_cell
insert_cell-placed p cell room =
    let now : ltb (free_space p) (slot_len + length cell) ≡ false = le→ltb _ _ room in
    let counted = set_slot_count p (slot_count p + 1) in
    (
      rw now (
          place_cell-placed counted (slot_count p) cell
          ∙ rw (data_start-set_slot_count p (slot_count p + 1)) (unfold set_slot_count in refl)),
      rw now refl,
    )

-- In a page with a valid layout and room for it, `insert_cell` appends a cell that is long enough
-- for the page's kind: it is read back under the slot returned, the other cells stay, and the
-- layout stays valid.
pub insert_cell_lem :
    (p : SlottedPage) (cell : Bytes)
    → IsLayout (bytes_of p)
    → 0 < length cell
    → min_cell (get_or (bytes_of p) 0 0) ≤ length cell
    → slot_len + length cell ≤ free_space p
    → ((insert_cell p cell).1 ≡ some (slot_count p))
      × (get_cell (insert_cell p cell).0 (slot_count p) ≡ some cell)
      × ((i : ℕ) → i < slot_count p → get_cell (insert_cell p cell).0 i ≡ get_cell p i)
      × IsLayout (bytes_of (insert_cell p cell).0)
unfolding slot_count data_start free_space
insert_cell_lem p cell ok some_bytes long_enough room =
    let (bytes, slot) = insert_cell-placed p cell room in
    let done =
      Appended-Inserted (bytes_of p) cell _ ok some_bytes long_enough
        (after-Appended (bytes_of p) cell ok room) in
    (
      slot,
      get_cell-cell_at _ _ ∙ rw bytes done.new_cell,
      λ i h. get_cell-cell_at _ i ∙ rw bytes (done.other_cells i h) ∙ sym (get_cell-cell_at p i),
      rw bytes done.layout,
    )

-- A cell that does not fit leaves the page as it was.
pub insert_cell_full :
    (p : SlottedPage) (cell : Bytes)
    → free_space p < slot_len + length cell
    → insert_cell p cell ≡ (p, none)
unfolding insert_cell
insert_cell_full p cell h = ground arith
