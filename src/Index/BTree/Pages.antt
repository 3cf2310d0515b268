-- ===== src/Index/BTree/Pages.antt =====
-- src/index/btree.rs: what the pages built from entries hold, and when there is room for them.
use trunkdb.Base.{
  ℕ, ◌+◌, ◌-◌, ◌^◌, ◌≤◌, ◌<◌, ◌≡◌, refl, ap, ◌∙◌, arith, none, some, List, [], ◌∷◌, map, All,
  length, replicate, length-replicate, get_or, Bytes,
}
use trunkdb.Base.Buffer.{
  slice, splice, get_u16, set_u16, length-splice, length-set_u16, slice-splice_self,
  get_u16-splice_after, get_u16-set_self, get_u16-set_before, get_or-splice,
}
use trunkdb.Base.ByteString.{from_le, to_le, from_le-to_le, length-to_le}
use trunkdb.Index.BTree.Build.{leaf_cell, branch_cell, build_leaf_page, build_branch_page}
use trunkdb.Index.BTree.Defs.{cells_of, page_type, leaf_entries, branch_entries}
use trunkdb.Index.BTree.Fill.{Holds, weight, IsCell, insert_cells-Holds, insert_cells-full}
use trunkdb.Index.Entry.{
  RecordLocation, IsLocation, decode_index_entry, decode_branch_entry, decode_index_entry-encode,
  decode_branch_entry-encode, length-encode_index_entry, length-encode_branch_entry,
}
use trunkdb.Storage.Page.{PageType, usable_page_size, type_byte, type_of_byte, page_of}
use trunkdb.Storage.Slotted.Defs.{
  SlottedPage, bytes_of, header_len, min_cell, new, set_next_page, next_page, slot_count,
  data_start, free_space,
}
use trunkdb.Storage.Slotted.Cells.{iter_cells, cells_from}
use trunkdb.Storage.Slotted.Layout.{IsSlottedType, IsLayout}

-- The room of an empty page.
abbrev pub capacity : ℕ
capacity = usable_page_size - header_len

-- The two kinds of page.
abbrev zeros : Bytes
zeros = replicate usable_page_size 0

abbrev typed : ℕ → Bytes
typed kind = set_u16 (splice zeros 0 (kind ∷ [])) 11 usable_page_size

abbrev empty : ℕ → ℕ → Bytes
empty kind next = splice (typed kind) 1 (to_le 8 next)

length-empty : (kind next : ℕ) → length (empty kind next) ≡ usable_page_size
length-empty kind next =
    length-splice (typed kind) 1 (to_le 8 next)
    ∙ length-set_u16 (splice zeros 0 (kind ∷ [])) 11 usable_page_size
    ∙ length-splice zeros 0 (kind ∷ [])
    ∙ length-replicate {A = ℕ} usable_page_size 0

zero_count : get_u16 zeros 9 ≡ 0
unfolding get_u16 slice from_le
zero_count = refl

count-empty : (kind next : ℕ) → get_u16 (empty kind next) 9 ≡ 0
count-empty kind next =
    get_u16-splice_after (typed kind) 1 (to_le 8 next) 9 (omega (arith, length-to_le 8 next))
    ∙ get_u16-set_before _ 11 usable_page_size 9 (omega arith)
    ∙ get_u16-splice_after zeros 0 (kind ∷ []) 9 (omega arith)
    ∙ zero_count

start-empty : (kind next : ℕ) → get_u16 (empty kind next) 11 ≡ usable_page_size
start-empty kind next =
    get_u16-splice_after (typed kind) 1 (to_le 8 next) 11 (omega (arith, length-to_le 8 next))
    ∙ get_u16-set_self _ 11 usable_page_size
        (omega
          (arith, length-splice zeros 0 (kind ∷ []), length-replicate {A = ℕ} usable_page_size 0))
        (omega arith)

first_byte : (kind : ℕ) → get_or (splice zeros 0 (kind ∷ [])) 0 0 ≡ kind
unfolding splice
first_byte kind = refl

kind-empty : (kind next : ℕ) → get_or (empty kind next) 0 0 ≡ kind
unfolding set_u16
kind-empty kind next =
    get_or-splice (typed kind) 1 (to_le 8 next) (omega arith)
    ∙ get_or-splice (splice zeros 0 (kind ∷ [])) 11 _ (omega arith)
    ∙ first_byte kind

next-empty : (kind next : ℕ) → next < 2 ^ 64 → from_le (slice (empty kind next) 1 8) ≡ next
next-empty kind next h =
    let size = length-to_le 8 next in
    let inside : 1 + length (to_le 8 next) ≤ length (typed kind) =
      omega (arith, size, length-empty kind next, length-splice (typed kind) 1 (to_le 8 next)) in
    ap from_le (rw size at (slice-splice_self (typed kind) 1 (to_le 8 next) inside))
    ∙ from_le-to_le 8 next h

-- A new page with its link.
abbrev pub empty_page : PageType → ℕ → SlottedPage
empty_page kind next = set_next_page (new kind) next

bytes_of-empty_page :
    (kind : PageType) (next : ℕ) → bytes_of (empty_page kind next) ≡ empty (type_byte kind) next
unfolding new set_next_page set_u16 page_of
bytes_of-empty_page kind next = refl

empty-IsLayout : (kind next : ℕ) → IsSlottedType kind → IsLayout (empty kind next)
empty-IsLayout kind next slotted = record {
  size = length-empty kind next;
  slotted = rw (kind-empty kind next) slotted;
  start_le = omega (arith, start-empty kind next);
  directory_le = omega (arith, start-empty kind next, count-empty kind next);
  slots_fit = λ i h. absurd (omega (arith, count-empty kind next));
}

no_cells : (p : SlottedPage) → slot_count p ≡ 0 → cells_of p ≡ []
unfolding iter_cells cells_from
no_cells p h = rw h refl

empty-Holds :
    (kind : PageType) (next : ℕ)
    → IsSlottedType (type_byte kind)
    → next < 2 ^ 64
    → Holds (empty_page kind next) (type_byte kind) next [] capacity
unfolding next_page slot_count data_start free_space
empty-Holds kind next slotted h =
    let byte = type_byte kind in
    let count : slot_count (empty_page kind next) ≡ 0 =
      rw (bytes_of-empty_page kind next) (count-empty byte next) in
    let start : data_start (empty_page kind next) ≡ usable_page_size =
      rw (bytes_of-empty_page kind next) (start-empty byte next) in
    record {
      layout = rw (bytes_of-empty_page kind next) (empty-IsLayout byte next slotted);
      kind_same = rw (bytes_of-empty_page kind next) (kind-empty byte next);
      next_same = rw (bytes_of-empty_page kind next) (next-empty byte next h);
      cells_same = no_cells (empty_page kind next) count;
      room_same = omega (arith, count, start);
    }

slotted_leaf : IsSlottedType (type_byte PageType.index_leaf)
unfolding type_byte
slotted_leaf = (omega arith, omega arith)

slotted_branch : IsSlottedType (type_byte PageType.index_branch)
unfolding type_byte
slotted_branch = (omega arith, omega arith)

leaf_cells-IsCell :
    (entries : List (Bytes × RecordLocation))
    → All (IsCell (type_byte PageType.index_leaf)) (map leaf_cell entries)
unfolding type_byte min_cell
leaf_cells-IsCell [] = tt
leaf_cells-IsCell ((key, loc) ∷ entries) = (
  (
    omega (arith, length-encode_index_entry key loc),
    omega (arith, length-encode_index_entry key loc),
  ),
  leaf_cells-IsCell entries,
)

branch_cells-IsCell :
    (entries : List (Bytes × ℕ))
    → All (IsCell (type_byte PageType.index_branch)) (map branch_cell entries)
unfolding type_byte min_cell
branch_cells-IsCell [] = tt
branch_cells-IsCell ((key, child) ∷ entries) = (
  (
    omega (arith, length-encode_branch_entry key child),
    omega (arith, length-encode_branch_entry key child),
  ),
  branch_cells-IsCell entries,
)

-- The entries are those that were encoded.
abbrev pub IsLeafEntry : Bytes × RecordLocation → Type 0
IsLeafEntry (key, loc) = IsLocation loc

abbrev pub IsBranchEntry : Bytes × ℕ → Type 0
IsBranchEntry (key, child) = child < 2 ^ 64

map-decode_leaf :
    (entries : List (Bytes × RecordLocation))
    → All IsLeafEntry entries
    → map decode_index_entry (map leaf_cell entries) ≡ entries
map-decode_leaf [] ok = refl
map-decode_leaf ((key, loc) ∷ entries) ok =
    rw (decode_index_entry-encode key loc ok.0, map-decode_leaf entries ok.1) refl

map-decode_branch :
    (entries : List (Bytes × ℕ))
    → All IsBranchEntry entries
    → map decode_branch_entry (map branch_cell entries) ≡ entries
map-decode_branch [] ok = refl
map-decode_branch ((key, child) ∷ entries) ok =
    rw (decode_branch_entry-encode key child ok.0, map-decode_branch entries ok.1) refl

-- What a page built is: its kind, its link and a layout that is valid.
abbrev pub IsPage : PageType → ℕ → SlottedPage → Type 0
IsPage kind next page =
    (page_type page ≡ some kind) × (next_page page ≡ next) × IsLayout (bytes_of page)

-- Entries with a location of machine size that weigh no more than an empty page has room for are
-- built into a leaf that has exactly these entries, the link given and a valid layout.
pub build_leaf_page_lem :
    (entries : List (Bytes × RecordLocation)) (next : ℕ)
    → All IsLeafEntry entries
    → next < 2 ^ 64
    → weight (map leaf_cell entries) ≤ capacity
    → (page : SlottedPage) × (build_leaf_page entries next ≡ some page)
      × (leaf_entries page ≡ entries)
      × IsPage PageType.index_leaf next page
unfolding build_leaf_page leaf_entries page_type type_of_byte type_byte
build_leaf_page_lem entries next ok h fits =
    let (page, built, held) =
      insert_cells-Holds _ _ next [] _ (map leaf_cell entries)
        (empty-Holds PageType.index_leaf next slotted_leaf h) (leaf_cells-IsCell entries) fits in
    (
      page,
      built,
      ap (map decode_index_entry) held.cells_same ∙ map-decode_leaf entries ok,
      (ap type_of_byte held.kind_same, held.next_same, held.layout),
    )

pub build_branch_page_lem :
    (entries : List (Bytes × ℕ)) (rightmost : ℕ)
    → All IsBranchEntry entries
    → rightmost < 2 ^ 64
    → weight (map branch_cell entries) ≤ capacity
    → (page : SlottedPage) × (build_branch_page entries rightmost ≡ some page)
      × (branch_entries page ≡ entries)
      × IsPage PageType.index_branch rightmost page
unfolding build_branch_page branch_entries page_type type_of_byte type_byte
build_branch_page_lem entries rightmost ok h fits =
    let (page, built, held) =
      insert_cells-Holds _ _ rightmost [] _ (map branch_cell entries)
        (empty-Holds PageType.index_branch rightmost slotted_branch h) (branch_cells-IsCell entries)
        fits in
    (
      page,
      built,
      ap (map decode_branch_entry) held.cells_same ∙ map-decode_branch entries ok,
      (ap type_of_byte held.kind_same, held.next_same, held.layout),
    )

pub build_leaf_page_full :
    (entries : List (Bytes × RecordLocation)) (next : ℕ)
    → next < 2 ^ 64
    → capacity < weight (map leaf_cell entries)
    → build_leaf_page entries next ≡ none
unfolding build_leaf_page
build_leaf_page_full entries next h over =
    insert_cells-full _ _ next [] _ (map leaf_cell entries)
      (empty-Holds PageType.index_leaf next slotted_leaf h) (leaf_cells-IsCell entries) over

pub build_branch_page_full :
    (entries : List (Bytes × ℕ)) (rightmost : ℕ)
    → rightmost < 2 ^ 64
    → capacity < weight (map branch_cell entries)
    → build_branch_page entries rightmost ≡ none
unfolding build_branch_page
build_branch_page_full entries rightmost h over =
    insert_cells-full _ _ rightmost [] _ (map branch_cell entries)
      (empty-Holds PageType.index_branch rightmost slotted_branch h) (branch_cells-IsCell entries)
      over
