-- ===== src/Storage/Slotted/Layout.antt =====
-- src/storage/slotted.rs: what `check_layout` accepts, as a predicate.
use trunkdb.Base.{
  ℕ, zero, suc, ◌+◌, ◌*◌, ◌≤◌, ◌<◌, ◌≡◌, refl, ◌⊎◌, inl, inr, ◌↔◌, arith, length, get_or, Bytes,
  le_cases,
}
use trunkdb.Base.Buffer.{get_u16}
use trunkdb.Storage.Page.{type_of_byte, is_slotted, usable_page_size}
use trunkdb.Storage.Slotted.Defs.{
  header_len, slot_len, Checked, layout_ok, layout_err, also, offset_of, length_of, min_cell,
  check_slot, check_length, check_slots, check_layout, check_type,
}

-- A live slot's cell lies in the page, behind where the cells start, and is long enough.
abbrev pub SlotFits : Bytes → ℕ → Type 0
SlotFits b slot =
    (length_of b slot ≡ 0)
    ⊎ ((get_u16 b 11 ≤ offset_of b slot)
        × (offset_of b slot + length_of b slot ≤ usable_page_size)
        × (min_cell (get_or b 0 0) ≤ length_of b slot))

-- A catalog page, a data page, a leaf or a branch of an index.
abbrev pub IsSlottedType : ℕ → Type 0
IsSlottedType kind = (2 ≤ kind) × (kind ≤ 5)

pub record IsLayout (b : Bytes) : Type 0 where
  pub size : length b ≡ usable_page_size
  pub slotted : IsSlottedType (get_or b 0 0)
  pub start_le : get_u16 b 11 ≤ usable_page_size
  pub directory_le : header_len + get_u16 b 9 * slot_len ≤ get_u16 b 11
  pub slots_fit : (slot : ℕ) → slot < get_u16 b 9 → SlotFits b slot

IsSlottedType-check : (kind : ℕ) → check_type (type_of_byte kind) ≡ layout_ok → IsSlottedType kind
unfolding check_type type_of_byte is_slotted
IsSlottedType-check kind h = ground arith

check-IsSlottedType : (kind : ℕ) → IsSlottedType kind → check_type (type_of_byte kind) ≡ layout_ok
unfolding check_type type_of_byte is_slotted
check-IsSlottedType kind h = ground arith

also-ok : (c d : Checked) → also c d ≡ layout_ok → (c ≡ layout_ok) × (d ≡ layout_ok)
also-ok layout_ok d h = (refl, h)
also-ok (layout_err e) d h = cc

check_slots-all :
    (check : ℕ → Checked) (left slot : ℕ)
    → check_slots check left slot ≡ layout_ok
    → (i : ℕ) → slot ≤ i
    → i < slot + left
    → check i ≡ layout_ok
unfolding check_slots
check_slots-all check zero slot h i lo hi = absurd (omega arith)
check_slots-all check (suc left) slot h i lo hi =
    let (here, later) = also-ok _ _ h in
    elim (le_cases slot i lo) [
      | inl above ↦ check_slots-all check left (suc slot) later i above (omega arith)
      | inr same ↦ rw (← same) here
    ]

check_slots-ok :
    (check : ℕ → Checked) (left slot : ℕ)
    → ((i : ℕ) → slot ≤ i → i < slot + left → check i ≡ layout_ok)
    → check_slots check left slot ≡ layout_ok
unfolding check_slots
check_slots-ok check zero slot h = refl
check_slots-ok check (suc left) slot h =
    let here : check slot ≡ layout_ok = h slot (omega arith) (omega arith) in
    rw here (check_slots-ok check left (suc slot) (λ i lo hi. h i (omega arith) (omega arith)))

abbrev first_check : Bytes → ℕ → Checked
first_check b = check_slot b (get_u16 b 11)

abbrev second_check : Bytes → ℕ → Checked
second_check b = check_length b (min_cell (get_or b 0 0))

check_layout-parts :
    (b : Bytes)
    → check_layout b ≡ layout_ok
    → (length b ≡ usable_page_size)
      × (check_type (type_of_byte (get_or b 0 0)) ≡ layout_ok)
      × (get_u16 b 11 ≤ usable_page_size)
      × (header_len + get_u16 b 9 * slot_len ≤ get_u16 b 11)
      × (check_slots (first_check b) (get_u16 b 9) 0 ≡ layout_ok)
      × (check_slots (second_check b) (get_u16 b 9) 0 ≡ layout_ok)
unfolding check_layout
check_layout-parts b h = ground arith

slot_fits :
    (b : Bytes) (slot : ℕ)
    → first_check b slot ≡ layout_ok
    → second_check b slot ≡ layout_ok
    → SlotFits b slot
unfolding check_slot check_length
slot_fits b slot h k = ground arith

fits_first : (b : Bytes) (slot : ℕ) → SlotFits b slot → first_check b slot ≡ layout_ok
unfolding check_slot
fits_first b slot h = ground arith

fits_second : (b : Bytes) (slot : ℕ) → SlotFits b slot → second_check b slot ≡ layout_ok
unfolding check_length
fits_second b slot h = ground arith

pub check_layout-IsLayout : (b : Bytes) → check_layout b ≡ layout_ok → IsLayout b
check_layout-IsLayout b h =
    let parts = check_layout-parts b h in
    record {
      size = parts.0;
      slotted = IsSlottedType-check (get_or b 0 0) parts.1;
      start_le = parts.2;
      directory_le = parts.3;
      slots_fit = λ slot k.
          slot_fits b slot
            (check_slots-all (first_check b) _ 0 parts.4 slot (omega arith) (omega arith))
            (check_slots-all (second_check b) _ 0 parts.5 slot (omega arith) (omega arith));
    }

-- `check_layout` accepts bytes if, and only if, they have the length of a page's usable part, the
-- type byte of one of the four slotted kinds, a start of the cells no later than the page's end,
-- a slot directory that ends no later than the cells start, and every live cell lies between
-- where the cells start and the page's end, with the length its kind of page asks for.
pub check_layout_iff : (b : Bytes) → (check_layout b ≡ layout_ok) ↔ IsLayout b
unfolding check_layout
check_layout_iff b = (check_layout-IsLayout b, back)
  where
    back : IsLayout b → check_layout b ≡ layout_ok
    back h =
        let first =
          check_slots-ok (first_check b) (get_u16 b 9) 0
            (λ i lo hi. fits_first b i (h.slots_fit i (omega arith))) in
        let second =
          check_slots-ok (second_check b) (get_u16 b 9) 0
            (λ i lo hi. fits_second b i (h.slots_fit i (omega arith))) in
        let kind = check-IsSlottedType (get_or b 0 0) h.slotted in
        ground (arith, first, second, kind)
