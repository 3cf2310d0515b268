-- ===== src/Index/BTree/Defs.antt =====
-- src/index/btree.rs: the pages that a B-tree is read by and changed through, and the operations that
-- only read. The `PageStore` trait of src/storage/mod.rs is a record of its operations on a store's
-- state. What a failed operation leaves is nobody's: the batch is rolled back.
use trunkdb.Base.{
  ℕ, zero, suc, ◌⊎◌, inl, inr, Bool, true, false, Option, none, some, List, [], ◌∷◌, map, ◌==◌,
  if◌then◌else◌, get_or, drop, Bytes,
}
use mathlib.Core.List.{reverse}
use trunkdb.Base.ByteString.{eq_bytes, leb_bytes, ltb_bytes}
use trunkdb.Index.BTree.Search.{first_slot_where}
use trunkdb.Index.Entry.{RecordLocation, decode_index_entry, decode_branch_entry}
use trunkdb.Storage.Page.{PageType, Page, type_of_byte}
use trunkdb.Storage.Slotted.Cells.{get_cell, iter_cells}
use trunkdb.Storage.Slotted.Defs.{
  SlottedPage, bytes_of, new, from_bytes, into_page, next_page, LayoutError,
}
use trunkdb.Storage.Slotted.Edit.{remove_cell_at}

-- `panicked` is an assertion or an `expect` that fails.
pub data IndexError : Type 0 where
  key_too_long too_deep reached_twice leaf_twice : ℕ → IndexError
  wrong_type : ℕ → PageType → IndexError
  bad_layout : ℕ → LayoutError → IndexError
  store_failed panicked : IndexError

pub data Result {ℓ} (A : Type ℓ) : Type ℓ where
  ok : A → Result A
  err : IndexError → Result A

infixl 5 ◌>>=◌
abbrev pub ◌>>=◌ {ℓ κ} : {A : Type ℓ} {B : Type κ} → Result A → (A → Result B) → Result B
ok a >>= f = f a
err e >>= f = err e

-- The `expect` of a value, and an assertion on a page that was changed.
abbrev pub expect {ℓ} : {A : Type ℓ} → Option A → Result A
expect none = err panicked
expect (some a) = ok a

pub record PageStore (S : Type 0) : Type 0 where
  pub allocate_page : S → Result (ℕ × S)
  pub read_page : S → ℕ → Result Page
  pub write_page : S → ℕ → Page → Result S
  pub free_page : S → ℕ → Result S

-- `SlottedPage::page_type`
unfoldable pub page_type : SlottedPage → Option PageType
page_type page = type_of_byte (get_or (bytes_of page) 0 0)

abbrev pub max_depth : ℕ
max_depth = 64

-- A page's entries, in slot order.
abbrev pub cells_of : SlottedPage → List Bytes
cells_of page = map (λ (c : ℕ × Bytes). c.1) (iter_cells page)

unfoldable pub leaf_entries : SlottedPage → List (Bytes × RecordLocation)
leaf_entries page = map decode_index_entry (cells_of page)

unfoldable pub branch_entries : SlottedPage → List (Bytes × ℕ)
branch_entries page = map decode_branch_entry (cells_of page)

-- The bounds that a search looks for: `key >= x` and `key > x`.
abbrev pub at_least : Bytes → Bytes → Bool
at_least key cell = leb_bytes key (decode_index_entry cell).0

abbrev pub above : Bytes → Bytes → Bool
above key cell = ltb_bytes key (decode_branch_entry cell).0

abbrev child_in : Option Bytes → Result ℕ
child_in none = err panicked
child_in (some cell) = ok (decode_branch_entry cell).1

abbrev child_at : SlottedPage → Option ℕ → Result ℕ
child_at page none = ok (next_page page)
child_at page (some slot) = child_in (get_cell page slot)

unfoldable pub find_child : SlottedPage → Bytes → Result ℕ
find_child page target = child_at page (first_slot_where page (above target))

abbrev if_key : Bytes → ℕ → Option Bytes → Result (Option ℕ)
if_key key slot none = err panicked
if_key key slot (some cell) =
    ok (if eq_bytes (decode_index_entry cell).0 key then some slot else none)

abbrev slot_if_key : SlottedPage → Bytes → Option ℕ → Result (Option ℕ)
slot_if_key page key none = ok none
slot_if_key page key (some slot) = if_key key slot (get_cell page slot)

unfoldable pub slot_of : SlottedPage → Bytes → Result (Option ℕ)
slot_of page key = slot_if_key page key (first_slot_where page (at_least key))

abbrev pub location_in : SlottedPage → Option ℕ → Result (Option RecordLocation)
location_in page none = ok none
location_in page (some slot) =
    expect (get_cell page slot) >>= λ cell. ok (some (decode_index_entry cell).1)

-- A page of the two kinds, or the error.
abbrev pub of_type : ℕ → SlottedPage → Option PageType → Result SlottedPage
of_type id page (some PageType.index_leaf) = ok page
of_type id page (some PageType.index_branch) = ok page
of_type id page (some other) = err (wrong_type id other)
of_type id page none = err panicked

abbrev pub laid_out : ℕ → LayoutError ⊎ SlottedPage → Result SlottedPage
laid_out id (inl e) = err (bad_layout id e)
laid_out id (inr page) = of_type id page (page_type page)

-- What is done with a leaf or with a branch.
abbrev pub on_node {ℓ} : {A : Type ℓ} → ℕ → Option PageType → Result A → Result A → Result A
on_node id (some PageType.index_leaf) leaf branch = leaf
on_node id (some PageType.index_branch) leaf branch = branch
on_node id (some other) leaf branch = err (wrong_type id other)
on_node id none leaf branch = err panicked

abbrev pub holds_id : ℕ → List ℕ → Bool
holds_id id [] = false
holds_id id (x ∷ xs) = if x == id then true else holds_id id xs

module _ {S : Type 0} (store : PageStore S) where
  unfoldable pub read_node : S → ℕ → Result SlottedPage
  unfolding page_type
  read_node s id = store.read_page s id >>= λ page. laid_out id (from_bytes page)

  -- `PageStore::change_page`; a change that panics writes nothing.
  unfoldable pub change_page : S → ℕ → SlottedPage → (SlottedPage → Option SlottedPage) → Result S
  change_page s id page change = expect (change page) >>= λ p. store.write_page s id (into_page p)

  -- The loop of `find_leaf`, on the levels it may still go down.
  unfoldable pub find_leaf_in : ℕ → S → ℕ → Bytes → Result (ℕ × SlottedPage)
  unfolding page_type find_child
  find_leaf_in zero s id key = err (too_deep id)
  find_leaf_in (suc levels) s id key = read_node s id >>= λ page.
      on_node id (page_type page) (ok (id, page))
        (find_child page key >>= λ child. find_leaf_in levels s child key)

  unfoldable pub find_leaf : S → ℕ → Bytes → Result (ℕ × SlottedPage)
  unfolding find_leaf_in
  find_leaf s root key = find_leaf_in (suc max_depth) s root key

  unfoldable pub lookup : S → ℕ → Bytes → Result (Option RecordLocation)
  unfolding find_leaf slot_of
  lookup s root key =
      find_leaf s root key >>= λ (id, page). slot_of page key >>= λ slot. location_in page slot

  abbrev remove_at : S → ℕ → SlottedPage → Option ℕ → Result S
  remove_at s id page none = ok s
  remove_at s id page (some slot) = change_page s id page (λ p. remove_cell_at p slot)

  unfoldable pub remove : S → ℕ → Bytes → Result S
  unfolding find_leaf slot_of change_page
  remove s root key =
      find_leaf s root key >>= λ (id, page). slot_of page key >>= λ slot. remove_at s id page slot

  -- The pages still to look at, last in first out, those seen, and those found so far, last first. A
  -- tree of `fuel` pages is seen whole with more fuel than that.
  unfoldable pub pages_from : ℕ → S → List ℕ → List ℕ → Result (List ℕ)
  unfolding page_type branch_entries
  pages_from zero s pending pages = err panicked
  pages_from (suc fuel) s [] pages = ok pages
  pages_from (suc fuel) s (id ∷ pending) pages =
      if holds_id id pages
      then err (reached_twice id)
      else (read_node s id >>= λ page.
          on_node id (page_type page) (pages_from fuel s pending (id ∷ pages)) (
            pages_from fuel s (next_page page ∷ (rev_children (branch_entries page) pending))
              (id ∷ pages)))
    where
      rev_children : List (Bytes × ℕ) → List ℕ → List ℕ
      rev_children [] rest = rest
      rev_children ((key, child) ∷ entries) rest = rev_children entries (child ∷ rest)

  -- The loop of `depth`: down the first children.
  abbrev first_child : SlottedPage → List (Bytes × ℕ) → ℕ
  first_child page [] = next_page page
  first_child page ((key, child) ∷ entries) = child

  unfoldable pub depth_from : ℕ → ℕ → S → ℕ → Result ℕ
  unfolding page_type branch_entries
  depth_from zero depth s id = err (too_deep id)
  depth_from (suc levels) depth s id = read_node s id >>= λ page.
      on_node id (page_type page) (ok depth)
        (depth_from levels (suc depth) s (first_child page (branch_entries page)))

  unfoldable pub depth : S → ℕ → Result ℕ
  unfolding depth_from
  depth s root = depth_from (suc max_depth) 1 s root

  unfoldable pub free_pages : List ℕ → S → Result S
  free_pages [] s = ok s
  free_pages (id ∷ ids) s = store.free_page s id >>= λ s'. free_pages ids s'

  -- `BTreeIndex::pages`, where `fuel` is more than the tree's pages.
  unfoldable pub pages : ℕ → S → ℕ → Result (List ℕ)
  unfolding pages_from
  pages fuel s root = pages_from fuel s (root ∷ []) [] >>= λ found. ok (reverse found)

  unfoldable pub free_all : ℕ → S → ℕ → Result S
  unfolding pages free_pages
  free_all fuel s root = pages fuel s root >>= λ found. free_pages found s

  unfoldable pub clear : ℕ → S → ℕ → Result S
  unfolding pages free_pages
  clear fuel s root = pages fuel s root >>= λ found. free_pages (drop 1 found) s >>= λ s1.
      store.write_page s1 root (into_page (new PageType.index_leaf))
