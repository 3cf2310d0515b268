-- ===== src/Index/BTree/Insert.antt =====
-- src/index/btree.rs: a key inserted, with the splits of the pages on its way and the new root.
use trunkdb.Base.{
  ℕ, zero, suc, ◌+◌, ◌-◌, Bool, true, false, ◌&&◌, Option, none, some, List, [], ◌∷◌, ◌++◌, map,
  length, take, drop, ltb, ◌==◌, if◌then◌else◌, Bytes,
}
use trunkdb.Base.ByteString.{leb_bytes, ltb_bytes}
use trunkdb.Index.BTree.Build.{
  byte_midpoint, build_leaf_page, build_branch_page, leaf_size, branch_size,
}
use trunkdb.Index.BTree.Defs.{
  IndexError, Result, ok, err, ◌>>=◌, expect, PageStore, page_type, max_depth, leaf_entries,
  branch_entries, at_least, above, on_node, read_node, change_page,
}
use trunkdb.Index.BTree.Search.{first_slot_where}
use trunkdb.Index.Entry.{
  RecordLocation, encode_index_entry, encode_branch_entry, decode_branch_entry,
}
use trunkdb.Index.Key.Defs.{max_key_len}
use trunkdb.Storage.Page.{PageType}
use trunkdb.Storage.Slotted.Cells.{get_cell, fits, insert_cell}
use trunkdb.Storage.Slotted.Defs.{SlottedPage, new, into_page, next_page, set_next_page, slot_count}
use trunkdb.Storage.Slotted.Edit.{insert_cell_at, update_cell}

pub data InsertOutcome : Type 0 where
  done : InsertOutcome
  split : Bytes → ℕ → InsertOutcome

-- Slices' `partition_point`, of entries that meet a test up to one of them, and `Vec`'s methods.
unfoldable pub partition_point {ℓ} : {A : Type ℓ} → (A → Bool) → List A → ℕ
partition_point meets [] = 0
partition_point meets (x ∷ xs) =
    let rest = partition_point meets xs in if meets x then suc rest else 0

abbrev pub insert_at {ℓ} : {A : Type ℓ} → ℕ → A → List A → List A
insert_at at x xs = take at xs ++ x ∷ drop at xs

abbrev pub head? {ℓ} : {A : Type ℓ} → List A → Option A
head? [] = none
head? (x ∷ xs) = some x

unfoldable pub sorted_leaf : List (Bytes × RecordLocation) → Bytes → ℕ
unfolding partition_point
sorted_leaf entries key =
    partition_point (λ (k : Bytes × RecordLocation). ltb_bytes k.0 key) entries

-- An assertion on a change to a page.
abbrev pub asserted : Option (SlottedPage × Bool) → Option SlottedPage
asserted (some (page, true)) = some page
asserted (some (page, false)) = none
asserted none = none

abbrev and_then : (SlottedPage → Option SlottedPage) → Option SlottedPage → Option SlottedPage
and_then f none = none
and_then f (some page) = f page

-- The child that split, between its low half and what its high half is reached by now.
unfoldable pub reroute : ℕ → Bytes → ℕ → ℕ → List (Bytes × ℕ) → ℕ → List (Bytes × ℕ) × ℕ
reroute idx separator child new_right entries rightmost = elim (drop idx entries) [
  | [] ↦ (entries ++ (separator, child) ∷ [], new_right)
  | (next, old) ∷ later ↦
      (take idx entries ++ (separator, child) ∷ (next, new_right) ∷ later, rightmost)
]

-- Where a leaf is split: before the new key if that comes last of all, by bytes otherwise.
unfoldable pub leaf_split_at : List (Bytes × RecordLocation) → ℕ → ℕ → Option ℕ
leaf_split_at entries pos next =
    if (pos == length entries - 1) && (next == 0)
    then some pos
    else byte_midpoint (map leaf_size entries)

unfoldable pub branch_split_at : List (Bytes × ℕ) → Option ℕ
branch_split_at entries = byte_midpoint (map branch_size entries)

abbrev pub Inserting : Type 0 → Type 0
Inserting S = Result (InsertOutcome × S)

module _ {S : Type 0} (store : PageStore S) where
  abbrev absorbed : Result S → Inserting S
  absorbed written = written >>= λ s. ok (done, s)

  -- The two halves written, behind a new page for the right one.
  abbrev pub write_halves : S → ℕ → ℕ → Option SlottedPage → Option SlottedPage → Result S
  write_halves s id right_id left right = expect left >>= λ low. expect right >>= λ high.
      store.write_page s id (into_page low) >>= λ s1. store.write_page s1 right_id (into_page high)

  unfoldable pub split_leaf : S → ℕ → List (Bytes × RecordLocation) → ℕ → ℕ → Inserting S
  unfolding leaf_split_at
  split_leaf s id entries pos next = expect (leaf_split_at entries pos next) >>= λ mid.
      expect (head? (drop mid entries)) >>= λ first. store.allocate_page s >>= λ (right_id, s1).
      write_halves s1 id right_id (build_leaf_page (take mid entries) right_id)
        (build_leaf_page (drop mid entries) next)
      >>= λ s2. ok (split first.0 right_id, s2)

  -- The page rebuilt from its entries, or split.
  abbrev rebuilt_leaf :
      S → ℕ → List (Bytes × RecordLocation) → ℕ → ℕ → Option SlottedPage → Inserting S
  rebuilt_leaf s id entries pos next (some page) = absorbed (store.write_page s id (into_page page))
  rebuilt_leaf s id entries pos next none = split_leaf s id entries pos next

  unfoldable pub insert_into_leaf : S → ℕ → SlottedPage → Bytes → RecordLocation → Inserting S
  unfolding split_leaf sorted_leaf leaf_entries change_page
  insert_into_leaf s id page key location =
      let slot = or_end page (first_slot_where page (at_least key)) in
      let entry = encode_index_entry key location in
      let pos = sorted_leaf (leaf_entries page) key in
      let entries = insert_at pos (key, location) (leaf_entries page) in
      if fits page (length entry)
      then absorbed (change_page store s id page (λ p. asserted (insert_cell_at p slot entry)))
      else rebuilt_leaf s id entries pos (next_page page) (build_leaf_page entries (next_page page))
    where
      or_end : SlottedPage → Option ℕ → ℕ
      or_end page none = slot_count page
      or_end page (some slot) = slot

  -- The separator in front of the child that split, and what routed to it now to its right half.
  abbrev put_separator : S → ℕ → SlottedPage → Option ℕ → Bytes → ℕ → Result S
  put_separator s id page (some slot) routing new_right = expect (get_cell page slot) >>= λ cell.
      let rerouted = encode_branch_entry (decode_branch_entry cell).0 new_right in
      change_page store s id page (λ p.
        and_then (λ q. asserted (update_cell q (slot + 1) rerouted))
          (asserted (insert_cell_at p slot routing)))
  put_separator s id page none routing new_right = change_page store s id page (λ p.
      and_then (λ q. some (set_next_page q new_right))
        (asserted (insert_cell_at p (slot_count p) routing)))

  unfoldable pub split_branch : S → ℕ → List (Bytes × ℕ) → ℕ → Inserting S
  unfolding branch_split_at
  split_branch s id entries rightmost = expect (branch_split_at entries) >>= λ count.
      let mid = count - 1 in
      expect (head? (drop mid entries)) >>= λ promoted. store.allocate_page s >>= λ (right_id, s1).
      write_halves s1 id right_id (build_branch_page (take mid entries) promoted.1)
        (build_branch_page (drop (mid + 1) entries) rightmost)
      >>= λ s2. ok (split promoted.0 right_id, s2)

  abbrev rebuilt_branch : S → ℕ → List (Bytes × ℕ) → ℕ → Option SlottedPage → Inserting S
  rebuilt_branch s id entries rightmost (some page) =
      absorbed (store.write_page s id (into_page page))
  rebuilt_branch s id entries rightmost none = split_branch s id entries rightmost

  -- What a branch does when the child came back split.
  unfoldable pub take_split : S → ℕ → SlottedPage → Bytes → Option ℕ → ℕ → Bytes → ℕ → Inserting S
  unfolding split_branch reroute branch_entries partition_point change_page
  take_split s id page key slot child separator new_right =
      let routing = encode_branch_entry separator child in
      let idx = partition_point (λ (e : Bytes × ℕ). leb_bytes e.0 key) (branch_entries page) in
      let (entries, rightmost) =
        reroute idx separator child new_right (branch_entries page) (next_page page) in
      if fits page (length routing)
      then absorbed (put_separator s id page slot routing new_right)
      else rebuilt_branch s id entries rightmost (build_branch_page entries rightmost)

  abbrev routed : SlottedPage → Option ℕ → Result ℕ
  routed page none = ok (next_page page)
  routed page (some slot) = expect (get_cell page slot) >>= λ cell. ok (decode_branch_entry cell).1

  abbrev taken : ℕ → SlottedPage → Bytes → Option ℕ → ℕ → InsertOutcome × S → Inserting S
  taken id page key slot child (done, s) = ok (done, s)
  taken id page key slot child (split separator new_right, s) =
      take_split s id page key slot child separator new_right

  -- `insert_into` of the child is `insert_below`.
  unfoldable pub insert_into_branch :
      (S → ℕ → Inserting S) → S → ℕ → SlottedPage → Bytes → Inserting S
  unfolding take_split
  insert_into_branch insert_below s id page key =
      let slot = first_slot_where page (above key) in
      routed page slot >>= λ child. insert_below s child >>= taken id page key slot child

  -- On the levels that are left above `MAX_DEPTH`.
  unfoldable pub insert_into : ℕ → S → ℕ → Bytes → RecordLocation → Inserting S
  unfolding page_type insert_into_leaf insert_into_branch
  insert_into zero s id key location = err (IndexError.too_deep id)
  insert_into (suc levels) s id key location = read_node store s id >>= λ page.
      on_node id (page_type page) (insert_into_leaf s id page key location)
        (insert_into_branch (λ s' child. insert_into levels s' child key location) s id page key)

  abbrev filled : SlottedPage × Option ℕ → Option SlottedPage
  filled (page, none) = none
  filled (page, some slot) = some page

  unfoldable pub grow_new_root : S → ℕ → Bytes → ℕ → Result S
  grow_new_root s root separator new_right = store.allocate_page s >>= λ (left_id, s1).
      store.read_page s1 root >>= λ old_root. store.write_page s1 left_id old_root >>= λ s2.
      let empty = set_next_page (new PageType.index_branch) new_right in
      expect (filled (insert_cell empty (encode_branch_entry separator left_id))) >>= λ new_root.
      store.write_page s2 root (into_page new_root)

  abbrev rooted : ℕ → InsertOutcome × S → Result S
  rooted root (done, s) = ok s
  rooted root (split separator new_right, s) = grow_new_root s root separator new_right

  unfoldable pub insert : S → ℕ → Bytes → RecordLocation → Result S
  unfolding insert_into grow_new_root
  insert s root key location =
      if ltb max_key_len (length key)
      then err (IndexError.key_too_long (length key))
      else (insert_into (suc max_depth) s root key location >>= rooted root)
