-- ===== src/Index/BTree/Tree.antt =====
-- src/index/btree.rs: a tree of pages in order, and what a lookup in it finds.
use trunkdb.Base.{
  ℕ, zero, suc, ◌≤◌, ◌<◌, ◌≡◌, refl, sym, ap, ◌∙◌, arith, true, none, some, Bool-cases, inl, inr,
  List, [], ◌∷◌, ◌++◌, All, Bytes,
}
use trunkdb.Base.ByteString.{ltb_bytes, leb_bytes, eq_bytes}
use trunkdb.Index.BTree.Defs.{
  ok, ◌>>=◌, PageStore, page_type, max_depth, leaf_entries, branch_entries, slot_of, location_in,
  read_node, find_leaf_in, lookup,
}
use trunkdb.Index.BTree.Node.{IsOrdered, find_entry, route, find_child-route, slot_of-find_entry}
use trunkdb.Index.BTree.Sorted.{ltb_leb_trans, ltb_false, ltb_not_eq}
use trunkdb.Index.Entry.{RecordLocation}
use trunkdb.Storage.Page.{PageType}
use trunkdb.Storage.Slotted.Defs.{SlottedPage, next_page}

abbrev pub Entries : Type 0
Entries = List (Bytes × RecordLocation)

-- The children of a branch, whose entries follow one another, each below its separator.
unfoldable pub IsChildren : (ℕ → Entries → Type 0) → List (Bytes × ℕ) → ℕ → Entries → Type 0
IsChildren T [] last entries = T last entries
IsChildren T ((separator, child) ∷ children) last entries =
    (low : Entries) × (high : Entries) × (entries ≡ low ++ high)
    × T child low
    × IsChildren T children last high
    × All (λ (e : Bytes × RecordLocation). ltb_bytes e.0 separator ≡ true) low
    × All (λ (e : Bytes × RecordLocation). leb_bytes separator e.0 ≡ true) high

module _ {S : Type 0} (store : PageStore S) (s : S) where
  -- The page is a tree of so many levels of branches over its leaves, and holds the entries.
  unfoldable pub IsTree : ℕ → ℕ → Entries → Type 0
  unfolding IsChildren
  IsTree zero id entries =
      (page : SlottedPage) × (read_node store s id ≡ ok page)
      × (page_type page ≡ some PageType.index_leaf)
      × (leaf_entries page ≡ entries)
      × IsOrdered (leaf_entries page)
  IsTree (suc height) id entries =
      (page : SlottedPage) × (read_node store s id ≡ ok page)
      × (page_type page ≡ some PageType.index_branch)
      × IsOrdered (branch_entries page)
      × IsChildren (IsTree height) (branch_entries page) (next_page page) entries

module _ (key : Bytes) where
  -- Entries below the key, or above it, do not hold it.
  find_entry-below :
      (separator : Bytes) (low high : Entries)
      → leb_bytes separator key ≡ true
      → All (λ (e : Bytes × RecordLocation). ltb_bytes e.0 separator ≡ true) low
      → find_entry key (low ++ high) ≡ find_entry key high
  find_entry-below separator [] high h all = refl
  find_entry-below separator (e ∷ low) high h (less, all) =
      rw (ltb_not_eq e.0 key (ltb_leb_trans e.0 separator key less h)).0
        (find_entry-below separator low high h all)

  find_entry-above :
      (separator : Bytes) (high : Entries)
      → ltb_bytes key separator ≡ true
      → All (λ (e : Bytes × RecordLocation). leb_bytes separator e.0 ≡ true) high
      → find_entry key high ≡ none
  find_entry-above separator [] h all = refl
  find_entry-above separator (e ∷ high) h (le, all) =
      rw (ltb_not_eq key e.0 (ltb_leb_trans key separator e.0 h le)).1
        (find_entry-above separator high h all)

  find_entry-append_none :
      (low high : Entries)
      → find_entry key high ≡ none
      → find_entry key (low ++ high) ≡ find_entry key low
  find_entry-append_none [] high h = h
  find_entry-append_none (e ∷ low) high h = elim (Bool-cases (eq_bytes e.0 key)) [
    | inl same ↦ rw same refl
    | inr differs ↦ rw differs (find_entry-append_none low high h)
  ]

  -- The child that a key is routed to holds the key's entry, if any does.
  routed :
      (T : ℕ → Entries → Type 0) (children : List (Bytes × ℕ)) (last : ℕ) (entries : Entries)
      → IsChildren T children last entries
      → (part : Entries) × T (route key children last) part
        × (find_entry key part ≡ find_entry key entries)
  unfolding IsChildren
  routed T [] last entries h = (entries, h, refl)
  routed T ((separator, child) ∷ children) last entries (low, high, e, here, rest, below, above) =
      elim (Bool-cases (ltb_bytes key separator)) [
        | inl less ↦ (
          low,
          rw less here,
          rw e (sym (find_entry-append_none low high (find_entry-above separator high less above))),
        )
        | inr from ↦
            let (part, tree, found) = routed T children last high rest in
            (
              part,
              rw from tree,
              rw e (
                  found
                  ∙ sym (find_entry-below separator low high (ltb_false key separator from) below)),
            )
      ]

  module _ {S : Type 0} (store : PageStore S) (s : S) where
    lookup_in :
        (height levels id : ℕ) (entries : Entries)
        → IsTree store s height id entries
        → height < levels
        → (find_leaf_in store levels s id key >>= λ (leaf, page).
            slot_of page key >>= location_in page)
          ≡ ok (find_entry key entries)
    unfolding find_leaf_in IsTree
    lookup_in height zero id entries h enough = absurd (omega arith)
    lookup_in zero (suc levels) id entries (page, read, kind, held, ordered) enough =
        rw (read, kind)
          (slot_of-find_entry key page ordered ∙ ap (λ (es : Entries). ok (find_entry key es)) held)
    lookup_in (suc height) (suc levels) id entries (page, read, kind, ordered, children) enough =
        let (part, tree, found) =
          routed (IsTree store s height) (branch_entries page) (next_page page) entries children in
        rw (read, kind, find_child-route key page ordered)
          (lookup_in height levels _ part tree (omega arith) ∙ ap ok found)

    -- In a tree of pages in key order, of at most 64 levels of branches, `lookup` of any key
    -- returns what a search through all the entries of its leaves finds: the key's location, or
    -- none.
    pub lookup-find_entry :
        (height root : ℕ) (entries : Entries)
        → IsTree store s height root entries
        → height ≤ max_depth
        → lookup store s root key ≡ ok (find_entry key entries)
    unfolding lookup
    lookup-find_entry height root entries h deep =
        lookup_in height (suc max_depth) root entries h (omega arith)
