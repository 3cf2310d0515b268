-- ===== src/Index/BTree/Fill.antt =====
-- src/index/btree.rs: pages filled by `insert_cell` one cell after another.
use trunkdb.Base.{
  ℕ, zero, suc, ◌+◌, ◌-◌, ◌≤◌, ◌<◌, ◌≡◌, refl, sym, ap, ◌∙◌, inl, inr, arith, Option, none, some,
  List, [], ◌∷◌, ◌++◌, append-nil, append_assoc, map-append, All, length, get_or, le_or_lt, Bytes,
}
use trunkdb.Base.Buffer.{slice, set_u16, slice-splice_before, slice-set_before}
use trunkdb.Base.ByteString.{from_le}
use trunkdb.Index.BTree.Build.{go_on, insert_cells}
use trunkdb.Index.BTree.Defs.{cells_of}
use trunkdb.Storage.Slotted.Cells.{get_cell, insert_cell, with_slot, cells_from, iter_cells}
use trunkdb.Storage.Slotted.Defs.{
  SlottedPage, bytes_of, slot_len, slot_offset, min_cell, slot_count, data_start, free_space,
  next_page,
}
use trunkdb.Storage.Slotted.Insert.{
  insert_cell_lem, insert_cell-placed, after-Appended, insert_cell_full,
}
use trunkdb.Storage.Slotted.Layout.{IsLayout}
use trunkdb.Storage.Slotted.Place.{placed}

add_zero : (n : ℕ) → n + zero ≡ n
add_zero n = omega arith

zero_add : (n : ℕ) → 0 + n ≡ n
zero_add n = omega arith

add_one : (n : ℕ) → n + 1 ≡ suc n
add_one n = omega arith

suc_shift : (m n : ℕ) → m + suc n ≡ suc m + n
suc_shift m n = omega arith

with_slot-append :
    (slot : ℕ) (o : Option Bytes) (xs ys : List (ℕ × Bytes))
    → with_slot slot o (xs ++ ys) ≡ with_slot slot o xs ++ ys
with_slot-append slot none xs ys = refl
with_slot-append slot (some cell) xs ys = refl

-- The cells of the slots, where the last one, or all before it, are known.
cells_from-snoc :
    (q : SlottedPage) (left slot : ℕ)
    → cells_from q (suc left) slot
      ≡ cells_from q left slot ++ with_slot (slot + left) (get_cell q (slot + left)) []
unfolding cells_from
cells_from-snoc q zero slot = rw (add_zero slot) refl
cells_from-snoc q (suc left) slot =
    rw (cells_from-snoc q left (suc slot), suc_shift slot left)
      (with_slot-append slot (get_cell q slot) (cells_from q left (suc slot)) _)

pub cells_from-same :
    (p q : SlottedPage) (left slot : ℕ)
    → ((i : ℕ) → i < slot + left → get_cell q i ≡ get_cell p i)
    → cells_from q left slot ≡ cells_from p left slot
unfolding cells_from
cells_from-same p q zero slot h = refl
cells_from-same p q (suc left) slot h =
    rw (h slot (omega arith), cells_from-same p q left (suc slot) (λ i k. h i (omega arith))) refl

cells_of-insert :
    (p q : SlottedPage) (cell : Bytes)
    → slot_count q ≡ slot_count p + 1
    → get_cell q (slot_count p) ≡ some cell
    → ((i : ℕ) → i < slot_count p → get_cell q i ≡ get_cell p i)
    → cells_of q ≡ cells_of p ++ cell ∷ []
unfolding iter_cells
cells_of-insert p q cell count new old =
    rw
      (
        count,
        add_one (slot_count p),
        cells_from-snoc q (slot_count p) 0,
        cells_from-same p q (slot_count p) 0 (λ i h. old i (omega arith)),
        zero_add (slot_count p),
        new,
      )
      (map-append _ (cells_from p (slot_count p) 0) _)

next_page-placed :
    (b : Bytes) (slot start : ℕ) (cell : Bytes) (v : ℕ)
    → 13 ≤ start
    → slice (placed (set_u16 b 9 v) slot start cell) 1 8 ≡ slice b 1 8
unfolding slot_offset
next_page-placed b slot start cell v h =
    slice-set_before _ _ _ 1 8 (omega arith)
    ∙ slice-set_before _ _ _ 1 8 (omega arith)
    ∙ slice-set_before _ _ _ 1 8 (omega arith)
    ∙ slice-splice_before _ start cell 1 8 (omega arith)
    ∙ slice-set_before b 9 v 1 8 (omega arith)

-- What is known of a page while it is filled.
pub record Holds (p : SlottedPage) (kind next : ℕ) (cells : List Bytes) (room : ℕ) : Type 0 where
  pub layout : IsLayout (bytes_of p)
  pub kind_same : get_or (bytes_of p) 0 0 ≡ kind
  pub next_same : next_page p ≡ next
  pub cells_same : cells_of p ≡ cells
  pub room_same : free_space p ≡ room

Holds-same :
    {p : SlottedPage} {kind next : ℕ} {cells cells' : List Bytes} {room room' : ℕ}
    → cells ≡ cells'
    → room ≡ room'
    → Holds p kind next cells room
    → Holds p kind next cells' room'
Holds-same e f h = rw (← e, ← f) h

abbrev pub weight : List Bytes → ℕ
weight [] = 0
weight (cell ∷ cells) = slot_len + length cell + weight cells

-- A cell that is long enough for the page's kind.
abbrev pub IsCell : ℕ → Bytes → Type 0
IsCell kind cell = (0 < length cell) × (min_cell kind ≤ length cell)

insert_cell-Holds :
    (p : SlottedPage) (kind next : ℕ) (cells : List Bytes) (room : ℕ) (cell : Bytes)
    → Holds p kind next cells room
    → IsCell kind cell
    → slot_len + length cell ≤ room
    → Holds (insert_cell p cell).0 kind next (cells ++ cell ∷ []) (room - (slot_len + length cell))
unfolding next_page slot_count data_start free_space
insert_cell-Holds p kind next cells room cell h (some_bytes, long) fits =
    let room_for : slot_len + length cell ≤ free_space p = omega (arith, h.room_same) in
    let long_enough : min_cell (get_or (bytes_of p) 0 0) ≤ length cell = rw h.kind_same long in
    let (bytes, slot) = insert_cell-placed p cell room_for in
    let (at, new, old, valid) = insert_cell_lem p cell h.layout some_bytes long_enough room_for in
    let fields = after-Appended (bytes_of p) cell h.layout room_for in
    let counted : slot_count (insert_cell p cell).0 ≡ slot_count p + 1 = rw bytes fields.count in
    let started : data_start (insert_cell p cell).0 + length cell ≡ data_start p =
      rw bytes fields.start in
    record {
      layout = valid;
      kind_same = rw bytes (fields.type_same ∙ h.kind_same);
      next_same =
          rw bytes (
            ap from_le
              (next_page-placed (bytes_of p) (slot_count p) _ cell _ (omega (arith, room_for))))
          ∙ h.next_same;
      cells_same =
          cells_of-insert p _ cell counted new old
          ∙ ap (λ (cs : List Bytes). cs ++ cell ∷ []) h.cells_same;
      room_same = omega (arith, counted, started, h.room_same);
    }

-- The cells are all inserted where they fit, one behind the other.
pub insert_cells-Holds :
    (p : SlottedPage) (kind next : ℕ) (before : List Bytes) (room : ℕ) (cells : List Bytes)
    → Holds p kind next before room
    → All (IsCell kind) cells
    → weight cells ≤ room
    → (q : SlottedPage) × (insert_cells cells p ≡ some q)
      × Holds q kind next (before ++ cells) (room - weight cells)
unfolding insert_cells
insert_cells-Holds p kind next before room [] h ok fits =
    (p, refl, Holds-same (sym (append-nil before)) (omega arith) h)
insert_cells-Holds p kind next before room (cell ∷ cells) h ok fits =
    let here = insert_cell-Holds p kind next before room cell h ok.0 (omega arith) in
    let (q, filled, rest) =
      insert_cells-Holds (insert_cell p cell).0 kind next (before ++ cell ∷ []) _ cells here ok.1
        (omega arith) in
    let inserted : go_on (insert_cells cells) (insert_cell p cell)
        ≡ insert_cells cells (insert_cell p cell).0 =
      rw (insert_cell-placed p cell (omega (arith, h.room_same))).1 refl in
    (q, inserted ∙ filled, Holds-same (append_assoc before (cell ∷ []) cells) (omega arith) rest)

-- And where they do not, none are.
pub insert_cells-full :
    (p : SlottedPage) (kind next : ℕ) (before : List Bytes) (room : ℕ) (cells : List Bytes)
    → Holds p kind next before room
    → All (IsCell kind) cells
    → room < weight cells
    → insert_cells cells p ≡ none
unfolding insert_cells
insert_cells-full p kind next before room [] h ok over = absurd (omega arith)
insert_cells-full p kind next before room (cell ∷ cells) h ok over =
    elim (le_or_lt (slot_len + length cell) room) [
      | inr full ↦ rw (insert_cell_full p cell (omega (arith, h.room_same))) refl
      | inl fits ↦
          let here = insert_cell-Holds p kind next before room cell h ok.0 fits in
          let inserted : go_on (insert_cells cells) (insert_cell p cell)
              ≡ insert_cells cells (insert_cell p cell).0 =
            rw (insert_cell-placed p cell (omega (arith, h.room_same))).1 refl in
          inserted
          ∙ insert_cells-full (insert_cell p cell).0 kind next (before ++ cell ∷ []) _ cells here
              ok.1 (omega arith)
    ]
