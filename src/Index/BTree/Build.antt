-- ===== src/Index/BTree/Build.antt =====
-- src/index/btree.rs: where an overfull page is split, and the pages built from entries.
use trunkdb.Base.{
  ℕ, suc, ◌+◌, ◌*◌, Option, none, some, List, [], ◌∷◌, map, length, leb, if◌then◌else◌, Bytes,
}
use trunkdb.Index.Entry.{RecordLocation, encode_index_entry, encode_branch_entry}
use trunkdb.Storage.Page.{PageType}
use trunkdb.Storage.Slotted.Cells.{insert_cell}
use trunkdb.Storage.Slotted.Defs.{SlottedPage, new, set_next_page}

abbrev pub total : List ℕ → ℕ
total [] = 0
total (size ∷ sizes) = size + total sizes

-- The loop of `byte_midpoint` from entry `i` on; `none` is the `unreachable!` behind it.
unfoldable pub reaches_half : ℕ → ℕ → ℕ → List ℕ → Option ℕ
reaches_half all running i [] = none
reaches_half all running i (size ∷ sizes) =
    let rest = reaches_half all (running + size) (suc i) sizes in
    if leb all ((running + size) * 2) then some (i + 1) else rest

unfoldable pub byte_midpoint : List ℕ → Option ℕ
unfolding reaches_half
byte_midpoint sizes = reaches_half (total sizes) 0 0 sizes

-- `page.insert_cell(…)?` for each cell in order.
abbrev pub go_on : (SlottedPage → Option SlottedPage) → SlottedPage × Option ℕ → Option SlottedPage
go_on rest (page, none) = none
go_on rest (page, some slot) = rest page

unfoldable pub insert_cells : List Bytes → SlottedPage → Option SlottedPage
insert_cells [] page = some page
insert_cells (cell ∷ cells) page = go_on (insert_cells cells) (insert_cell page cell)

abbrev pub leaf_cell : Bytes × RecordLocation → Bytes
leaf_cell (key, location) = encode_index_entry key location

abbrev pub branch_cell : Bytes × ℕ → Bytes
branch_cell (key, child) = encode_branch_entry key child

unfoldable pub build_leaf_page : List (Bytes × RecordLocation) → ℕ → Option SlottedPage
unfolding insert_cells
build_leaf_page entries next_page =
    insert_cells (map leaf_cell entries) (set_next_page (new PageType.index_leaf) next_page)

unfoldable pub build_branch_page : List (Bytes × ℕ) → ℕ → Option SlottedPage
unfolding insert_cells
build_branch_page entries rightmost =
    insert_cells (map branch_cell entries) (set_next_page (new PageType.index_branch) rightmost)

-- The cells' lengths.
abbrev pub leaf_size : Bytes × RecordLocation → ℕ
leaf_size entry = length entry.0 + 10

abbrev pub branch_size : Bytes × ℕ → ℕ
branch_size entry = length entry.0 + 8
