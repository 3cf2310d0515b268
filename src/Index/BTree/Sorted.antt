-- ===== src/Index/BTree/Sorted.antt =====
-- src/index/btree.rs: searches in a page, where its live cells are in key order.
use trunkdb.Base.{
  ℕ, zero, suc, ◌+◌, ◌≤◌, ◌<◌, ◌≡◌, refl, sym, ap, ◌∙◌, inl, inr, arith, Bool, true, false, Option,
  none, some, Option-cases, Bool-cases, List, [], ◌∷◌, map, All, le_cases, if◌then◌else◌, Bytes,
}
use mathlib.Core.Path.{subst}
use trunkdb.Base.ByteString.{
  ltb_bytes, leb_bytes, eq_bytes, eq_bytes→eq, eq_bytes_refl, compare_bytes_trans,
  compare_bytes_le_trans, compare_bytes_flip, compare_bytes_refl, compare_bytes-eq,
}
use trunkdb.Index.BTree.Defs.{cells_of}
use trunkdb.Index.BTree.First.{IsMonotone, first_slot_where-first_meeting}
use trunkdb.Index.BTree.Search.{first_meeting, first_slot_where}
use trunkdb.Storage.Slotted.Cells.{get_cell, cells_from, iter_cells}
use trunkdb.Storage.Slotted.Defs.{SlottedPage, slot_count}

-- The order of keys.
pub leb_trans : (a b c : Bytes) → leb_bytes a b ≡ true → leb_bytes b c ≡ true → leb_bytes a c ≡ true
leb_trans a b c h k = ground (arith, compare_bytes_le_trans a b c)

pub ltb_leb_trans :
    (a b c : Bytes) → ltb_bytes a b ≡ true → leb_bytes b c ≡ true → ltb_bytes a c ≡ true
ltb_leb_trans a b c h k =
    ground (arith, compare_bytes_trans a b c, compare_bytes_flip a b, compare_bytes_le_trans a b c)

pub leb_false : (a b : Bytes) → leb_bytes a b ≡ false → ltb_bytes b a ≡ true
leb_false a b h = ground (arith, compare_bytes_flip a b)

pub ltb_false : (a b : Bytes) → ltb_bytes a b ≡ false → leb_bytes b a ≡ true
ltb_false a b h = ground (arith, compare_bytes_flip a b)

pub ltb_not_eq :
    (a b : Bytes) → ltb_bytes a b ≡ true → (eq_bytes a b ≡ false) × (eq_bytes b a ≡ false)
ltb_not_eq a b h = ground (arith, eq_bytes→eq a b, eq_bytes→eq b a, compare_bytes_refl a)

pub leb_not_eq : (a b : Bytes) → leb_bytes a b ≡ true → eq_bytes b a ≡ false → ltb_bytes a b ≡ true
leb_not_eq a b h k = ground (arith, compare_bytes-eq a b, eq_bytes_refl a)

module _ (meets : Bytes → Bool) where
  -- The first of the cells that meets the bound.
  abbrev pub first_of : List Bytes → Option Bytes
  first_of [] = none
  first_of (c ∷ cells) = let rest = first_of cells in if meets c then some c else rest

  abbrev pub IsUpward : List Bytes → Type 0
  IsUpward [] = Unit
  IsUpward (c ∷ cells) = All (λ d. meets c ≡ true → meets d ≡ true) cells × IsUpward cells

  module _ (page : SlottedPage) where
    abbrev some_cells : ℕ → ℕ → List Bytes
    some_cells left slot = map (λ (c : ℕ × Bytes). c.1) (cells_from page left slot)

    abbrev pub cell_of : Option ℕ → Option Bytes
    cell_of none = none
    cell_of (some slot) = get_cell page slot

    dead_slot :
        (left slot : ℕ)
        → get_cell page slot ≡ none
        → some_cells (suc left) slot ≡ some_cells left (suc slot)
    unfolding cells_from
    dead_slot left slot e = rw e refl

    live_slot :
        (left slot : ℕ) (c : Bytes)
        → get_cell page slot ≡ some c
        → some_cells (suc left) slot ≡ c ∷ some_cells left (suc slot)
    unfolding cells_from
    live_slot left slot c e = rw e refl

    first_meeting-first_of :
        (left slot : ℕ)
        → cell_of (first_meeting (get_cell page) meets left slot) ≡ first_of (some_cells left slot)
    unfolding first_meeting cells_from
    first_meeting-first_of zero slot = refl
    first_meeting-first_of (suc left) slot =
        let rest = first_meeting-first_of left (suc slot) in
        elim (Option-cases (get_cell page slot)) [
          | inl dead ↦ rw (dead_slot left slot dead, dead) rest
          | inr (c, live) ↦ rw (live_slot left slot c live, live) (taken c live rest)
        ]
      where
        taken :
            (c : Bytes)
            → get_cell page slot ≡ some c
            → cell_of (first_meeting (get_cell page) meets left (suc slot))
              ≡ first_of (some_cells left (suc slot))
            → cell_of
                (if meets c then some slot else first_meeting (get_cell page) meets left (suc slot))
              ≡ (if meets c then some c else first_of (some_cells left (suc slot)))
        taken c live rest = elim (Bool-cases (meets c)) [ inl m ↦ rw m live | inr m ↦ rw m rest ]

    tail_cells :
        (P : Bytes → Type 0) (left slot : ℕ)
        → All P (some_cells (suc left) slot)
        → All P (some_cells left (suc slot))
    tail_cells P left slot h = elim (Option-cases (get_cell page slot)) [
      | inl dead ↦ subst (All P) (dead_slot left slot dead) h
      | inr (c, live) ↦ (subst (All P) (live_slot left slot c live) h).1
    ]

    later_cells :
        (P : Bytes → Type 0) (left slot i : ℕ) (d : Bytes)
        → All P (some_cells left slot)
        → slot ≤ i
        → i < slot + left
        → get_cell page i ≡ some d
        → P d
    later_cells P zero slot i d h lo hi e = absurd (omega arith)
    later_cells P (suc left) slot i d h lo hi e = elim (le_cases slot i lo) [
      | inl behind ↦
          later_cells P left (suc slot) i d (tail_cells P left slot h) behind (omega arith) e
      | inr here ↦
          let head : All P (d ∷ some_cells left (suc slot)) =
            subst (All P) (live_slot left slot d (rw here e)) h in
          head.0
    ]

    tail-IsUpward :
        (left slot : ℕ)
        → IsUpward (some_cells (suc left) slot)
        → IsUpward (some_cells left (suc slot))
    tail-IsUpward left slot h = elim (Option-cases (get_cell page slot)) [
      | inl dead ↦ subst IsUpward (dead_slot left slot dead) h
      | inr (c, live) ↦ (subst IsUpward (live_slot left slot c live) h).1
    ]

    upward :
        (left slot i j : ℕ) (c d : Bytes)
        → IsUpward (some_cells left slot)
        → slot ≤ i
        → i < j
        → j < slot + left
        → get_cell page i ≡ some c
        → get_cell page j ≡ some d
        → meets c ≡ true
        → meets d ≡ true
    upward zero slot i j c d h lo less hi e f m = absurd (omega arith)
    upward (suc left) slot i j c d h lo less hi e f m = elim (le_cases slot i lo) [
      | inl behind ↦
          upward left (suc slot) i j c d (tail-IsUpward left slot h) behind less (omega arith) e f m
      | inr here ↦
          let head : IsUpward (c ∷ some_cells left (suc slot)) =
            subst IsUpward (live_slot left slot c (rw here e)) h in
          later_cells (λ x. meets c ≡ true → meets x ≡ true) left (suc slot) j d head.0
            (omega arith) (omega arith) f m
    ]

    counted : (i : ℕ) (c : Bytes) → get_cell page i ≡ some c → i < slot_count page
    unfolding get_cell
    counted i c e = ground arith

    pub slot_mono : IsUpward (cells_of page) → IsMonotone (get_cell page) meets
    unfolding iter_cells
    slot_mono h i j c d less e f m =
        upward (slot_count page) 0 i j c d h (omega arith) less (omega (arith, counted j d f)) e f m

    live_meeting :
        (left slot k : ℕ)
        → first_meeting (get_cell page) meets left slot ≡ some k
        → (c : Bytes) × (get_cell page k ≡ some c)
    unfolding first_meeting
    live_meeting zero slot k e = absurd cc
    live_meeting (suc left) slot k e = elim (Option-cases (get_cell page slot)) [
      | inl dead ↦ live_meeting left (suc slot) k (ground (arith, dead, e))
      | inr (c, live) ↦ elim (Bool-cases (meets c)) [
        | inl m ↦ let same : slot ≡ k = ground (arith, live, m, e) in (c, rw (← same) live)
        | inr m ↦ live_meeting left (suc slot) k (ground (arith, live, m, e))
      ]
    ]

    pub first_slot_where-live :
        (k : ℕ)
        → IsUpward (cells_of page)
        → first_slot_where page meets ≡ some k
        → (c : Bytes) × (get_cell page k ≡ some c)
    first_slot_where-live k h e =
        live_meeting (slot_count page) 0 k
          (sym (first_slot_where-first_meeting page meets (slot_mono h)) ∙ e)

    -- The binary search finds the first of the cells that meets the bound.
    pub first_slot_where-first_of :
        IsUpward (cells_of page) → cell_of (first_slot_where page meets) ≡ first_of (cells_of page)
    unfolding iter_cells
    first_slot_where-first_of h =
        ap cell_of (first_slot_where-first_meeting page meets (slot_mono h))
        ∙ first_meeting-first_of (slot_count page) 0
