-- ===== src/Storage/Slotted/Overlap.antt =====
-- src/storage/slotted.rs: two live cells that share bytes, as `check` looks for them.
use trunkdb.Base.{
  ℕ, ◌+◌, min, max, Bool, ◌&&◌, ◌||◌, Option, none, some, List, [], ◌∷◌, ltb, ◌==◌, if◌then◌else◌,
}
use trunkdb.Storage.Slotted.Defs.{SlottedPage, bytes_of, slot_count}
use trunkdb.Storage.Slotted.Compact.{Placed, live_from}

-- The order of `(offset, length, slot)`.
abbrev before : Placed → Placed → Bool
before c d =
    ltb c.offset d.offset
    || (c.offset == d.offset && (ltb c.len d.len || (c.len == d.len && ltb c.slot d.slot)))

unfoldable insert_sorted : Placed → List Placed → List Placed
insert_sorted c [] = c ∷ []
insert_sorted c (d ∷ cells) =
    let rest = insert_sorted c cells in if before c d then c ∷ d ∷ cells else d ∷ rest

unfoldable sort_cells : List Placed → List Placed
sort_cells [] = []
sort_cells (c ∷ cells) = insert_sorted c (sort_cells cells)

unfoldable first_overlap : List Placed → Option (ℕ × ℕ)
first_overlap [] = none
first_overlap (c ∷ []) = none
first_overlap (c ∷ d ∷ cells) =
    let rest = first_overlap (d ∷ cells) in
    if ltb d.offset (c.offset + c.len) then some (min c.slot d.slot, max c.slot d.slot) else rest

unfoldable pub overlapping_cells : SlottedPage → Option (ℕ × ℕ)
unfolding live_from first_overlap sort_cells insert_sorted
overlapping_cells p = first_overlap (sort_cells (live_from (bytes_of p) (slot_count p) 0))
