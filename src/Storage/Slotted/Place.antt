-- ===== src/Storage/Slotted/Place.antt =====
-- src/storage/slotted.rs: what `place_cell` leaves on a page, field by field.
use trunkdb.Base.{
  ℕ, ◌+◌, ◌-◌, ◌≤◌, ◌<◌, ◌≡◌, refl, ◌⊎◌, inl, inr, ◌∙◌, arith, length, get_or, Bytes,
}
use trunkdb.Base.Buffer.{
  slice, splice, get_u16, set_u16, length-splice, slice-splice_self, slice-splice_after,
  get_u16-set_self, get_u16-set_before, get_u16-set_after, get_u16-splice_before, length-set_u16,
  slice-set_after, get_or-splice,
}
use trunkdb.Storage.Slotted.Defs.{
  SlottedPage, bytes_of, slot_offset, offset_of, length_of, data_start, set_data_start, write_slot,
}
use trunkdb.Storage.Slotted.Cells.{place_cell}

-- The bytes of a page on which a cell was placed at `start`, for `slot`.
abbrev pub placed : Bytes → ℕ → ℕ → Bytes → Bytes
placed b slot start cell =
    set_u16 (set_u16 (set_u16 (splice b start cell) 11 start) (slot_offset slot) start)
      (slot_offset slot + 2) (length cell)

pub place_cell-placed :
    (p : SlottedPage) (slot : ℕ) (cell : Bytes)
    → bytes_of (place_cell p slot cell) ≡ placed (bytes_of p) slot (data_start p - length cell) cell
unfolding place_cell write_slot set_data_start set_u16
place_cell-placed p slot cell = refl

module _ (b : Bytes) (slot start : ℕ) (cell : Bytes) (above : slot_offset slot + 4 ≤ start)
    (inside : start + length cell ≤ length b) (small : length b < 65536) where
  pub length-placed : length (placed b slot start cell) ≡ length b
  length-placed =
      length-set_u16 _ _ _
      ∙ length-set_u16 _ _ _
      ∙ length-set_u16 _ _ _
      ∙ length-splice b start cell

  pub slot_count-placed : get_u16 (placed b slot start cell) 9 ≡ get_u16 b 9
  unfolding slot_offset
  slot_count-placed =
      get_u16-set_before _ _ _ 9 (omega arith)
      ∙ get_u16-set_before _ _ _ 9 (omega arith)
      ∙ get_u16-set_before _ _ _ 9 (omega arith)
      ∙ get_u16-splice_before b start cell 9 (omega arith)

  pub data_start-placed : get_u16 (placed b slot start cell) 11 ≡ start
  unfolding slot_offset
  data_start-placed =
      get_u16-set_before _ _ _ 11 (omega arith)
      ∙ get_u16-set_before _ _ _ 11 (omega arith)
      ∙ get_u16-set_self _ 11 start (omega (arith, length-splice b start cell)) (omega arith)

  pub offset_of-placed : offset_of (placed b slot start cell) slot ≡ start
  offset_of-placed =
      get_u16-set_before _ _ _ (slot_offset slot) (omega arith)
      ∙ get_u16-set_self _ _ start
          (omega (arith, length-splice b start cell, length-set_u16 (splice b start cell) 11 start))
          (omega arith)

  pub length_of-placed : length_of (placed b slot start cell) slot ≡ length cell
  length_of-placed =
      get_u16-set_self _ _ _
        (omega (
          arith,
          length-splice b start cell,
          length-set_u16 (splice b start cell) 11 start,
          length-set_u16 (set_u16 (splice b start cell) 11 start) (slot_offset slot) start,
        ))
        (omega arith)

  -- A field of the directory apart from the slot's own.
  pub field-placed :
      (at : ℕ)
      → 13 ≤ at
      → at + 2 ≤ start
      → (at + 2 ≤ slot_offset slot) ⊎ (slot_offset slot + 4 ≤ at)
      → get_u16 (placed b slot start cell) at ≡ get_u16 b at
  field-placed at h k (inl before) =
      get_u16-set_before _ _ _ at (omega arith)
      ∙ get_u16-set_before _ _ _ at before
      ∙ get_u16-set_after _ _ _ at (omega arith)
      ∙ get_u16-splice_before b start cell at k
  field-placed at h k (inr after) =
      get_u16-set_after _ _ _ at (omega arith)
      ∙ get_u16-set_after _ _ _ at (omega arith)
      ∙ get_u16-set_after _ _ _ at (omega arith)
      ∙ get_u16-splice_before b start cell at k

  -- The cell itself, and the bytes of the cells above it.
  pub cell-placed : slice (placed b slot start cell) start (length cell) ≡ cell
  unfolding slot_offset
  cell-placed =
      slice-set_after _ _ _ start _ (omega arith)
      ∙ slice-set_after _ _ _ start _ (omega arith)
      ∙ slice-set_after _ _ _ start _ (omega arith)
      ∙ slice-splice_self b start cell inside

  pub above-placed :
      (at n : ℕ) → start + length cell ≤ at → slice (placed b slot start cell) at n ≡ slice b at n
  unfolding slot_offset
  above-placed at n h =
      slice-set_after _ _ _ at n (omega arith)
      ∙ slice-set_after _ _ _ at n (omega arith)
      ∙ slice-set_after _ _ _ at n (omega arith)
      ∙ slice-splice_after b start cell at n h

  pub type-placed : get_or (placed b slot start cell) 0 0 ≡ get_or b 0 0
  unfolding slot_offset set_u16
  type-placed =
      get_or-splice _ _ _ (omega arith)
      ∙ get_or-splice _ _ _ (omega arith)
      ∙ get_or-splice _ _ _ (omega arith)
      ∙ get_or-splice b start cell (omega arith)
