-- ===== src/Tests/Trees.antt =====
-- src/index/btree.rs at concrete pages and trees. The stores have one state, and work.
use trunkdb.Base.{
  ℕ, zero, suc, ◌-◌, ◌≤◌, ◌<◌, ◌≡◌, refl, ap, ◌∙◌, arith, true, some, List, [], ◌∷◌, ◌++◌, map, All,
  length, replicate, length-replicate, ◌==◌, if◌then◌else◌, Bytes,
}
use trunkdb.Base.ByteString.{compare_bytes}
use trunkdb.Index.BTree.Build.{build_leaf_page, build_branch_page}
use trunkdb.Index.BTree.InRange.{next_in_leaf-nearest}
use trunkdb.Index.BTree.Nearest.{nearest_forward, nearest_backward}
use trunkdb.Index.BTree.Walk.{Walk, walk, moved, next_in_leaf}
use trunkdb.Index.Key.Range.{KeyRange}
use trunkdb.Base.{false}
use trunkdb.Index.BTree.Counted.{IsBuild, push-IsBuild}
use trunkdb.Index.BTree.SortedBuild.{BranchLevel, SortedBuild, push}
use trunkdb.Index.Key.Defs.{max_key_len}
use trunkdb.Index.BTree.Defs.{
  ok, PageStore, page_type, leaf_entries, branch_entries, at_least, read_node, lookup, cells_of,
}
use trunkdb.Index.BTree.Fill.{cells_from-same}
use trunkdb.Index.BTree.First.{first_slot_where-first_meeting}
use trunkdb.Index.BTree.Insert.{split, insert_at, head?, split_leaf, split_branch}
use trunkdb.Index.BTree.Node.{IsOrdered, find_entry, at_least-IsUpward}
use trunkdb.Index.BTree.Pages.{
  capacity, IsPage, IsLeafEntry, IsBranchEntry, build_leaf_page_lem, build_branch_page_lem,
}
use trunkdb.Index.BTree.Search.{first_slot_where, first_meeting}
use trunkdb.Index.BTree.Sorted.{slot_mono}
use trunkdb.Index.BTree.Split.{IsKeyed, leaf_weight}
use trunkdb.Index.BTree.SplitBranch.{split_branch_lem}
use trunkdb.Index.BTree.SplitLeaf.{split_leaf_lem}
use trunkdb.Index.BTree.Tree.{IsTree, IsChildren, lookup-find_entry}
use trunkdb.Index.Entry.{
  RecordLocation, encode_index_entry, decode_index_entry, encode_branch_entry, decode_branch_entry,
  decode_index_entry-encode, decode_branch_entry-encode, length-encode_index_entry,
  length-encode_branch_entry,
}
use trunkdb.Storage.Page.{PageType, Page}
use trunkdb.Storage.Slotted.Cells.{get_cell, iter_cells}
use trunkdb.Storage.Slotted.Defs.{
  space_needed, SlottedPage, bytes_of, from_bytes, into_page, next_page, slot_count,
}

abbrev here : RecordLocation
here = record { page = 7; slot = 3 }

abbrev there : RecordLocation
there = record { page = 300; slot = 0 }

decode_index_entry-encode_example :
    decode_index_entry (encode_index_entry (1 ∷ 2 ∷ []) there) ≡ (1 ∷ 2 ∷ [], there)
decode_index_entry-encode_example =
    decode_index_entry-encode (1 ∷ 2 ∷ []) there (omega arith, omega arith)

decode_branch_entry-encode_example :
    decode_branch_entry (encode_branch_entry (9 ∷ []) 300) ≡ (9 ∷ [], 300)
decode_branch_entry-encode_example = decode_branch_entry-encode (9 ∷ []) 300 (omega arith)

-- Two leaves under a root, and a key in the second.
abbrev low_entries : List (Bytes × RecordLocation)
low_entries = (1 ∷ [], here) ∷ (2 ∷ [], there) ∷ []

abbrev high_entries : List (Bytes × RecordLocation)
high_entries = (5 ∷ [], there) ∷ (6 ∷ 1 ∷ [], here) ∷ []

entries_small :
    (a b : Bytes × RecordLocation)
    → length a.0 ≤ 2
    → length b.0 ≤ 2
    → leaf_weight (a ∷ b ∷ []) ≤ capacity
entries_small a b h k =
    omega (arith, length-encode_index_entry a.0 a.1, length-encode_index_entry b.0 b.1)

build_leaf_page_lem_example :
    (page : SlottedPage) × (build_leaf_page high_entries 12 ≡ some page)
    × (leaf_entries page ≡ high_entries)
    × IsPage PageType.index_leaf 12 page
build_leaf_page_lem_example =
    build_leaf_page_lem high_entries 12
      ((omega arith, omega arith), ((omega arith, omega arith), tt)) (omega arith)
      (entries_small (5 ∷ [], there) (6 ∷ 1 ∷ [], here) (omega arith) (omega arith))

low_leaf :
    (page : SlottedPage) × (build_leaf_page low_entries 4 ≡ some page)
    × (leaf_entries page ≡ low_entries)
    × IsPage PageType.index_leaf 4 page
low_leaf =
    build_leaf_page_lem low_entries 4 ((omega arith, omega arith), ((omega arith, omega arith), tt))
      (omega arith) (entries_small (1 ∷ [], here) (2 ∷ [], there) (omega arith) (omega arith))

high_leaf :
    (page : SlottedPage) × (build_leaf_page high_entries 0 ≡ some page)
    × (leaf_entries page ≡ high_entries)
    × IsPage PageType.index_leaf 0 page
high_leaf =
    build_leaf_page_lem high_entries 0
      ((omega arith, omega arith), ((omega arith, omega arith), tt)) (omega arith)
      (entries_small (5 ∷ [], there) (6 ∷ 1 ∷ [], here) (omega arith) (omega arith))

abbrev separators : List (Bytes × ℕ)
separators = (5 ∷ [], 3) ∷ []

root_branch :
    (page : SlottedPage) × (build_branch_page separators 4 ≡ some page)
    × (branch_entries page ≡ separators)
    × IsPage PageType.index_branch 4 page
root_branch =
    build_branch_page_lem separators 4 (omega arith, tt) (omega arith)
      (omega (arith, length-encode_branch_entry (5 ∷ []) 3))

-- A page as the cache has it.
abbrev cached : SlottedPage → Page
cached page = record { bytes = bytes_of page; layout_checked = true }

abbrev reading : SlottedPage → SlottedPage
reading page = record { buf = cached page; valid = true }

abbrev store_of : (ℕ → SlottedPage) → PageStore Unit
store_of pages = record {
  allocate_page = λ s. ok (9, s);
  read_page = λ s id. ok (cached (pages id));
  write_page = λ s id page. ok s;
  free_page = λ s id. ok s;
}

abbrev leaf_low : SlottedPage
leaf_low = low_leaf.0

abbrev leaf_high : SlottedPage
leaf_high = high_leaf.0

abbrev root_page : SlottedPage
root_page = root_branch.0

abbrev small_tree : PageStore Unit
small_tree = store_of (λ id. if id == 3 then leaf_low else if id == 4 then leaf_high else root_page)

low-IsOrdered : IsOrdered low_entries
unfolding compare_bytes
low-IsOrdered = ((refl, tt), (tt, tt))

high-IsOrdered : IsOrdered high_entries
unfolding compare_bytes
high-IsOrdered = ((refl, tt), (tt, tt))

-- A cached page's cells are the page's.
cells_of-reading : (page : SlottedPage) → cells_of (reading page) ≡ cells_of page
unfolding iter_cells slot_count get_cell
cells_of-reading page =
    ap (map (λ (c : ℕ × Bytes). c.1))
      (cells_from-same page (reading page) (slot_count page) 0 (λ i h. refl))

leaf-reading : (page : SlottedPage) → leaf_entries (reading page) ≡ leaf_entries page
unfolding leaf_entries
leaf-reading page = ap (map decode_index_entry) (cells_of-reading page)

branch-reading : (page : SlottedPage) → branch_entries (reading page) ≡ branch_entries page
unfolding branch_entries
branch-reading page = ap (map decode_branch_entry) (cells_of-reading page)

low-IsTree : IsTree small_tree tt 0 3 low_entries
unfolding IsTree read_node from_bytes page_type
low-IsTree = (
  reading leaf_low,
  rw low_leaf.3.0 refl,
  low_leaf.3.0,
  leaf-reading leaf_low ∙ low_leaf.2,
  rw (leaf-reading leaf_low, low_leaf.2) low-IsOrdered,
)

high-IsTree : IsTree small_tree tt 0 4 high_entries
unfolding IsTree read_node from_bytes page_type
high-IsTree = (
  reading leaf_high,
  rw high_leaf.3.0 refl,
  high_leaf.3.0,
  leaf-reading leaf_high ∙ high_leaf.2,
  rw (leaf-reading leaf_high, high_leaf.2) high-IsOrdered,
)

IsChildren-in_order : IsChildren (IsTree small_tree tt 0) separators 4 (low_entries ++ high_entries)
unfolding IsChildren compare_bytes
IsChildren-in_order = (
  low_entries,
  high_entries,
  refl,
  low-IsTree,
  high-IsTree,
  (refl, (refl, tt)),
  (refl, (refl, tt)),
)

whole-IsTree : IsTree small_tree tt 1 2 (low_entries ++ high_entries)
unfolding IsTree read_node from_bytes page_type next_page
whole-IsTree =
    let kind = root_branch.3.0 in
    let held = root_branch.2 in
    let next = root_branch.3.1 in
    (
      reading root_page,
      rw kind refl,
      kind,
      rw (branch-reading root_page, held) (tt, tt),
      rw (branch-reading root_page, held, next) IsChildren-in_order,
    )

lookup-find_entry_example :
    lookup small_tree tt 2 (6 ∷ 1 ∷ []) ≡ ok (find_entry (6 ∷ 1 ∷ []) (low_entries ++ high_entries))
lookup-find_entry_example =
    lookup-find_entry (6 ∷ 1 ∷ []) small_tree tt 1 2 (low_entries ++ high_entries) whole-IsTree
      (omega arith)

high_upward : IsOrdered (map decode_index_entry (cells_of leaf_high))
unfolding leaf_entries
high_upward = rw high_leaf.2 high-IsOrdered

first_slot_where-first_meeting_example :
    first_slot_where leaf_high (at_least (6 ∷ []))
    ≡ first_meeting (get_cell leaf_high) (at_least (6 ∷ [])) (slot_count leaf_high) 0
first_slot_where-first_meeting_example =
    first_slot_where-first_meeting leaf_high (at_least (6 ∷ [])) (
      slot_mono (at_least (6 ∷ [])) leaf_high
        (at_least-IsUpward (6 ∷ []) (cells_of leaf_high) high_upward))

-- Leaves and branches of long keys.
abbrev long_key : Bytes
long_key = replicate 1000 8

abbrev long_entry : Bytes × RecordLocation
long_entry = (long_key, here)

abbrev full_leaf : List (Bytes × RecordLocation)
full_leaf = replicate 8 long_entry

long_length : length long_key ≡ 1000
long_length = length-replicate {A = ℕ} 1000 8

All-same : {A : Type 0} (P : A → Type 0) (x : A) → P x → (n : ℕ) → All P (replicate n x)
All-same P x h zero = tt
All-same P x h (suc n) = (h, All-same P x h n)

abbrev writing : PageStore Unit
writing = store_of (λ id. root_page)

split_leaf_lem_example :
    (left : SlottedPage) × (right : SlottedPage) × (first : Bytes × RecordLocation) × (s2 : Unit)
    × (s3 : Unit) × (split_leaf writing tt 5 (insert_at 2 long_entry full_leaf) 2 11
        ≡ ok (split first.0 9, s3))
    × (writing.write_page tt 5 (into_page left) ≡ ok s2)
    × (writing.write_page s2 9 (into_page right) ≡ ok s3)
    × (leaf_entries left ++ leaf_entries right ≡ insert_at 2 long_entry full_leaf)
    × (head? (leaf_entries right) ≡ some first)
    × IsPage PageType.index_leaf 9 left
    × IsPage PageType.index_leaf 11 right
split_leaf_lem_example =
    split_leaf_lem writing (λ s id page. (tt, refl)) tt tt 5 9 refl (omega arith) full_leaf
      long_entry 2 11 (All-same IsKeyed long_entry (omega (arith, long_length)) 8)
      (All-same IsLeafEntry long_entry (omega arith, omega arith) 8) (omega (arith, long_length))
      (omega arith, omega arith) (omega arith)
      (omega (arith, long_length, length-encode_index_entry long_key here))
      (omega (arith, long_length, length-encode_index_entry long_key here))

abbrev long_separator : Bytes × ℕ
long_separator = (long_key, 77)

abbrev full_branch : List (Bytes × ℕ)
full_branch = replicate 9 long_separator

split_branch_lem_example :
    (left : SlottedPage) × (right : SlottedPage) × (promoted : Bytes × ℕ) × (s2 : Unit)
    × (s3 : Unit) × (split_branch writing tt 5 full_branch 11 ≡ ok (split promoted.0 9, s3))
    × (writing.write_page tt 5 (into_page left) ≡ ok s2)
    × (writing.write_page s2 9 (into_page right) ≡ ok s3)
    × (branch_entries left ++ promoted ∷ branch_entries right ≡ full_branch)
    × (0 < length (branch_entries left))
    × (0 < length (branch_entries right))
    × IsPage PageType.index_branch promoted.1 left
    × IsPage PageType.index_branch 11 right
split_branch_lem_example =
    split_branch_lem writing (λ s id page. (tt, refl)) tt tt 5 9 refl full_branch 11
      (All-same IsKeyed long_separator (omega (arith, long_length)) 9)
      (All-same IsBranchEntry long_separator (omega arith) 9) (omega arith)
      (omega (arith, long_length, length-encode_branch_entry long_key 77))
      (omega (arith, long_length, length-encode_branch_entry long_key 77))

-- A full leaf, under a full branch.
abbrev full_level : BranchLevel
full_level = record { finished = 0; keys = replicate 8 1000; room = 79 }

abbrev full_build : SortedBuild
full_build = record { leaves = 9; leaf_room = 5; levels = full_level ∷ [] }

full_build-IsBuild : IsBuild full_build
unfolding space_needed
full_build-IsBuild = record {
  leaf_le = omega arith;
  all_levels = (
    record {
      short = All-same (λ len. len ≤ max_key_len) 1000 (omega arith) 8;
      books = omega arith;
    },
    tt,
  );
}

push-IsBuild_example :
    (build' : SortedBuild) × (push full_build 1000 ≡ some build') × IsBuild build'
push-IsBuild_example = push-IsBuild full_build 1000 full_build-IsBuild (omega arith)

-- A walk in the second leaf.
abbrev small_range : KeyRange
small_range = record { start = 5 ∷ 1 ∷ []; end = some (9 ∷ []) }

abbrev in_high : Walk
in_high = record (walk 2 small_range false) { leaf = some leaf_high }

not_done : in_high.done ≡ false
unfolding walk
not_done = refl

next_in_leaf-nearest_example :
    next_in_leaf in_high
    ≡ moved in_high (
        if in_high.backward
        then nearest_backward in_high.range leaf_high in_high.at
        else nearest_forward in_high.range leaf_high (slot_count leaf_high - in_high.at) in_high.at)
next_in_leaf-nearest_example =
    next_in_leaf-nearest in_high leaf_high refl not_done (rw high_leaf.2 high-IsOrdered)
