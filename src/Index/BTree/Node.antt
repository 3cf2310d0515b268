-- ===== src/Index/BTree/Node.antt =====
-- src/index/btree.rs: what `find_child` and `slot_of` find in a page whose entries are in key order.
use trunkdb.Base.{
  ℕ, ◌≡◌, refl, sym, ap, ◌∙◌, inl, inr, true, Option, none, some, Option-cases, Bool-cases, List,
  [], ◌∷◌, map, All, if◌then◌else◌, Bytes,
}
use trunkdb.Base.ByteString.{ltb_bytes, leb_bytes, eq_bytes}
use trunkdb.Index.BTree.Defs.{
  ok, ◌>>=◌, cells_of, at_least, above, find_child, slot_of, leaf_entries, branch_entries,
  location_in,
}
use trunkdb.Index.BTree.Sorted.{
  leb_trans, ltb_leb_trans, leb_false, ltb_not_eq, leb_not_eq, first_of, IsUpward,
  first_slot_where-live, first_slot_where-first_of,
}
use trunkdb.Index.BTree.Search.{first_slot_where}
use trunkdb.Index.Entry.{RecordLocation, decode_index_entry, decode_branch_entry}
use trunkdb.Storage.Slotted.Defs.{SlottedPage, next_page}

-- Entries in key order.
abbrev pub IsOrdered : {A : Type 0} → List (Bytes × A) → Type 0
IsOrdered [] = Unit
IsOrdered (e ∷ entries) = All (λ f. leb_bytes e.0 f.0 ≡ true) entries × IsOrdered entries

-- The value of a key among entries, and the child that a key is routed to.
abbrev pub find_entry : {A : Type 0} → Bytes → List (Bytes × A) → Option A
find_entry key [] = none
find_entry key ((k, v) ∷ entries) =
    let rest = find_entry key entries in if eq_bytes k key then some v else rest

abbrev pub route : Bytes → List (Bytes × ℕ) → ℕ → ℕ
route key [] last = last
route key ((separator, child) ∷ entries) last =
    let rest = route key entries last in if ltb_bytes key separator then child else rest

module _ (key : Bytes) where
  All-mapped :
      {A B : Type 0} (f : A → B) (P : B → Type 0) (Q : A → Type 0) (xs : List A)
      → ((x : A) → P (f x) → Q x)
      → All P (map f xs)
      → All Q xs
  All-mapped f P Q [] h k = tt
  All-mapped f P Q (x ∷ xs) h (k, ks) = (h x k, All-mapped f P Q xs h ks)

  pub at_least-IsUpward :
      (cells : List Bytes)
      → IsOrdered (map decode_index_entry cells)
      → IsUpward (at_least key) cells
  at_least-IsUpward [] h = tt
  at_least-IsUpward (c ∷ cells) (h, hs) = (
    All-mapped decode_index_entry _ _ cells
        (λ d le m. leb_trans key (decode_index_entry c).0 (decode_index_entry d).0 m le) h,
    at_least-IsUpward cells hs,
  )

  above-IsUpward :
      (cells : List Bytes) → IsOrdered (map decode_branch_entry cells) → IsUpward (above key) cells
  above-IsUpward [] h = tt
  above-IsUpward (c ∷ cells) (h, hs) = (
    All-mapped decode_branch_entry _ _ cells
        (λ d le m. ltb_leb_trans key (decode_branch_entry c).0 (decode_branch_entry d).0 m le) h,
    above-IsUpward cells hs,
  )

  abbrev chosen : Option Bytes → ℕ → ℕ
  chosen none last = last
  chosen (some c) last = (decode_branch_entry c).1

  chosen-route :
      (cells : List Bytes) (last : ℕ)
      → chosen (first_of (above key) cells) last ≡ route key (map decode_branch_entry cells) last
  chosen-route [] last = refl
  chosen-route (c ∷ cells) last = elim (Bool-cases (above key c)) [
    | inl m ↦ rw m refl
    | inr m ↦ rw m (chosen-route cells last)
  ]

  -- In a branch in order, the child found is that in front of the first separator above the key.
  pub find_child-route :
      (page : SlottedPage)
      → IsOrdered (branch_entries page)
      → find_child page key ≡ ok (route key (branch_entries page) (next_page page))
  unfolding find_child branch_entries
  find_child-route page h =
      let upward = above-IsUpward (cells_of page) h in
      let found = first_slot_where-first_of (above key) page upward in
      elim (Option-cases (first_slot_where page (above key))) [
        | inl e ↦
            let no_cell : first_of (above key) (cells_of page) ≡ none = sym found ∙ rw e refl in
            let last : chosen none (next_page page)
                ≡ route key (map decode_branch_entry (cells_of page)) (next_page page) =
              rw no_cell at (chosen-route (cells_of page) (next_page page)) in
            rw e (ap ok last)
        | inr (k, e) ↦
            let (c, live) = first_slot_where-live (above key) page k upward e in
            let the_cell : first_of (above key) (cells_of page) ≡ some c = sym found ∙ rw e live in
            let child : chosen (some c) (next_page page)
                ≡ route key (map decode_branch_entry (cells_of page)) (next_page page) =
              rw the_cell at (chosen-route (cells_of page) (next_page page)) in
            rw (e, live) (ap ok child)
      ]

  beyond :
      {A : Type 0} (k : Bytes) (entries : List (Bytes × A))
      → ltb_bytes key k ≡ true
      → All (λ (f : Bytes × A). leb_bytes k f.0 ≡ true) entries
      → find_entry key entries ≡ none
  beyond k [] h all = refl
  beyond k (e ∷ entries) h (le, all) =
      rw (ltb_not_eq key e.0 (ltb_leb_trans key k e.0 h le)).1 (beyond k entries h all)

  abbrev kept : Option Bytes → Option RecordLocation
  kept none = none
  kept (some c) =
      if eq_bytes (decode_index_entry c).0 key then some (decode_index_entry c).1 else none

  kept-find :
      (cells : List Bytes)
      → IsOrdered (map decode_index_entry cells)
      → kept (first_of (at_least key) cells) ≡ find_entry key (map decode_index_entry cells)
  kept-find [] h = refl
  kept-find (c ∷ cells) (h, hs) =
      let all : All (λ (f : Bytes × RecordLocation). leb_bytes (decode_index_entry c).0 f.0 ≡ true)
          (map decode_index_entry cells) =
        h in
      elim (Bool-cases (at_least key c)) [
        | inr before ↦
            let differs = (ltb_not_eq _ _ (leb_false key (decode_index_entry c).0 before)).0 in
            rw (before, differs) (kept-find cells hs)
        | inl m ↦ elim (Bool-cases (eq_bytes (decode_index_entry c).0 key)) [
          | inl same ↦ rw (m, same) refl
          | inr differs ↦
              let gone =
                beyond (decode_index_entry c).0 (map decode_index_entry cells)
                  (leb_not_eq _ _ m differs) all in
              rw (m, differs) (sym gone)
        ]
      ]

  -- In a leaf in order, the slot found holds the key's entry, if there is one.
  pub slot_of-find_entry :
      (page : SlottedPage)
      → IsOrdered (leaf_entries page)
      → (slot_of page key >>= location_in page) ≡ ok (find_entry key (leaf_entries page))
  unfolding slot_of leaf_entries
  slot_of-find_entry page h =
      let upward = at_least-IsUpward (cells_of page) h in
      let found = first_slot_where-first_of (at_least key) page upward in
      elim (Option-cases (first_slot_where page (at_least key))) [
        | inl e ↦
            let no_cell : first_of (at_least key) (cells_of page) ≡ none = sym found ∙ rw e refl in
            let gone : kept none ≡ find_entry key (map decode_index_entry (cells_of page)) =
              rw no_cell at (kept-find (cells_of page) h) in
            rw e (ap ok gone)
        | inr (k, e) ↦
            let (c, live) = first_slot_where-live (at_least key) page k upward e in
            let the_cell : first_of (at_least key) (cells_of page) ≡ some c =
              sym found ∙ rw e live in
            let entry : kept (some c) ≡ find_entry key (map decode_index_entry (cells_of page)) =
              rw the_cell at (kept-find (cells_of page) h) in
            elim (Bool-cases (eq_bytes (decode_index_entry c).0 key)) [
              | inl same ↦ rw (e, live, same, live) (ap ok (rw same at entry))
              | inr differs ↦ rw (e, live, differs) (ap ok (rw differs at entry))
            ]
      ]
