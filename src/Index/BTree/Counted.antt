-- ===== src/Index/BTree/Counted.antt =====
-- src/index/btree.rs: the books that the counted build keeps.
use trunkdb.Base.{
  ℕ, suc, ◌+◌, ◌-◌, ◌*◌, ◌≤◌, ◌<◌, ◌≡◌, refl, inl, inr, arith, false, some, Bool-cases, List, [],
  ◌∷◌, ◌++◌, append_assoc, map, All, All-append, All-append_back, length, length-append, drop,
  drop-length_append, ltb, leb, leb→le, leb→lt, le→ltb, ◌==◌,
}
use mathlib.Core.Path.{subst}
use trunkdb.Base.Buffer.{get_u16, set_u16, slice, splice}
use trunkdb.Base.ByteString.{to_le, from_le}
use trunkdb.Index.BTree.Build.{total}
use trunkdb.Index.BTree.Midpoint.{
  sizes_of, total-append, byte_midpoint_lem, least_total, sizes_of_cases,
}
use trunkdb.Index.BTree.Pages.{capacity}
use trunkdb.Index.BTree.SortedBuild.{
  BranchLevel, SortedBuild, empty_room, cell_room, entry_len, split_level, grown, separate, push,
  push_begun, begun,
}
use trunkdb.Index.Key.Defs.{max_key_len}
use trunkdb.Storage.Page.{PageType, page_of, type_byte}
use trunkdb.Storage.Slotted.Defs.{new, free_space, space_needed, data_start, slot_count}

empty_room-leaf : empty_room PageType.index_leaf ≡ capacity
unfolding empty_room free_space data_start slot_count new page_of set_u16 splice to_le type_byte
    get_u16 from_le slice
empty_room-leaf = refl

empty_room-branch : empty_room PageType.index_branch ≡ capacity
unfolding empty_room free_space data_start slot_count new page_of set_u16 splice to_le type_byte
    get_u16 from_le slice
empty_room-branch = refl

abbrev IsLen : ℕ → Type 0
IsLen len = len ≤ max_key_len

abbrev cells : List ℕ → ℕ
cells keys = total (map cell_room keys)

cells_total : (keys : List ℕ) → cells keys ≡ sizes_of entry_len keys + 4 * length keys
unfolding space_needed
cells_total [] = refl
cells_total (k ∷ keys) = omega (arith, cells_total keys)

-- A level's keys are short enough, and its room is what they leave.
pub record IsLevel (level : BranchLevel) : Type 0 where
  pub short : All IsLen level.keys
  pub books : level.room + cells level.keys ≡ capacity

pub record IsBuild (build : SortedBuild) : Type 0 where
  pub leaf_le : build.leaf_room ≤ capacity
  pub all_levels : All IsLevel build.levels

split_level-IsLevel :
    (branch : BranchLevel) (keys : List ℕ)
    → All IsLen keys
    → capacity < cells keys
    → cells keys ≤ capacity + cell_room max_key_len
    → (rest : BranchLevel) × (promoted : ℕ) × (split_level branch keys ≡ some (rest, promoted))
      × IsLevel rest
      × IsLen promoted
unfolding split_level space_needed
split_level-IsLevel branch keys short over most =
    let whole = cells_total keys in
    let (before, x, after, found, middle) =
      byte_midpoint_lem entry_len keys (grind (arith, whole, sizes_of_cases entry_len keys)) in
    let parts = All-append_back IsLen before (x ∷ after) (subst (All IsLen) middle.parts short) in
    let count : length keys ≡ length before + suc (length after) =
      rw middle.parts (length-append before (x ∷ after)) in
    let sum : sizes_of entry_len keys
        ≡ sizes_of entry_len before + (entry_len x + sizes_of entry_len after) =
      rw middle.parts (total-append entry_len before (x ∷ after)) in
    let least : 8 * length after ≤ sizes_of entry_len after =
      least_total entry_len 8 (λ len. omega arith) after in
    let fits : cells after ≤ capacity =
      omega (arith, whole, cells_total after, middle.reached, middle.below) in
    let mid : length before + 1 - 1 ≡ length before = omega arith in
    let at : drop (length before) keys ≡ x ∷ after =
      rw middle.parts (drop-length_append _ before (x ∷ after) refl) in
    let back : drop (length before + 1) keys ≡ after =
      rw (middle.parts, ← append_assoc before (x ∷ []) after)
        (drop-length_append _ (before ++ x ∷ []) after (length-append before (x ∷ []))) in
    let enough : ltb capacity (cells after) ≡ false = le→ltb _ _ fits in
    (
      record { finished = branch.finished + 1; keys = after; room = capacity - cells after },
      x,
      rw (found, mid, at, back, empty_room-branch, enough) refl,
      record { short = parts.1.1; books = omega (arith, fits) },
      parts.1.0,
    )

separate-IsLevel :
    (levels : List BranchLevel) (key_len : ℕ)
    → All IsLevel levels
    → IsLen key_len
    → (levels' : List BranchLevel) × (separate levels key_len ≡ some levels') × All IsLevel levels'
unfolding separate space_needed
separate-IsLevel [] key_len h short =
    let enough : ltb capacity (cell_room key_len) ≡ false = le→ltb _ _ (omega arith) in
    (
      record { finished = 0; keys = key_len ∷ []; room = capacity - cell_room key_len } ∷ [],
      rw (empty_room-branch, enough) refl,
      (record { short = (short, tt); books = omega arith }, tt),
    )
separate-IsLevel (branch ∷ levels) key_len (h, hs) short =
    let more : cells (branch.keys ++ key_len ∷ []) ≡ cells branch.keys + cell_room key_len =
      omega (arith, total-append cell_room branch.keys (key_len ∷ [])) in
    let all_short : All IsLen (branch.keys ++ key_len ∷ []) =
      All-append IsLen branch.keys (key_len ∷ []) h.short (short, tt) in
    elim (Bool-cases (leb (cell_room key_len) branch.room)) [
      | inl room ↦
          let fits = leb→le _ _ room in
          (
            grown branch key_len ∷ levels,
            rw room refl,
            (record { short = all_short; books = omega (arith, more, h.books, fits) }, hs),
          )
      | inr full ↦
          let over = leb→lt _ _ full in
          let (rest, promoted, found, level, next_short) =
            split_level-IsLevel branch (branch.keys ++ key_len ∷ []) all_short
              (omega (arith, more, h.books, over)) (omega (arith, more, h.books)) in
          let (above, separated, all) = separate-IsLevel levels promoted hs next_short in
          (rest ∷ above, rw (full, found, separated) refl, (level, all))
    ]

begun-IsBuild : (build : SortedBuild) → IsBuild build → IsBuild (begun build)
begun-IsBuild build h = elim (Bool-cases (build.leaves == 0)) [
  | inl first ↦
      rw first (record { leaf_le = omega (arith, empty_room-leaf); all_levels = h.all_levels })
  | inr more ↦ rw more h
]

push_begun-IsBuild :
    (build : SortedBuild) (key_len : ℕ)
    → IsBuild build
    → IsLen key_len
    → (build' : SortedBuild) × (push_begun build key_len ≡ some build') × IsBuild build'
unfolding push_begun space_needed
push_begun-IsBuild build key_len h short =
    let needed = 4 + (key_len + 10) in
    elim (Bool-cases (leb needed build.leaf_room)) [
      | inl room ↦ (
        record build { leaf_room = build.leaf_room - needed },
        rw room refl,
        record { leaf_le = omega (arith, h.leaf_le); all_levels = h.all_levels },
      )
      | inr full ↦
          let enough : ltb capacity needed ≡ false = le→ltb _ _ (omega arith) in
          let (levels, separated, all) = separate-IsLevel build.levels key_len h.all_levels short in
          (
            record { leaves = build.leaves + 1; leaf_room = capacity - needed; levels = levels },
            rw (full, empty_room-leaf, enough, separated) refl,
            record { leaf_le = omega arith; all_levels = all },
          )
    ]

-- In a counted build whose levels each have the room that their keys leave of an empty branch,
-- and whose leaf has no more than an empty leaf, `push` of a key no longer than an index takes
-- subtracts nothing below 0 and fails no `expect`, whatever levels it splits, and leaves such a
-- build.
pub push-IsBuild :
    (build : SortedBuild) (key_len : ℕ)
    → IsBuild build
    → key_len ≤ max_key_len
    → (build' : SortedBuild) × (push build key_len ≡ some build') × IsBuild build'
unfolding push
push-IsBuild build key_len h short =
    push_begun-IsBuild (begun build) key_len (begun-IsBuild build h) short
