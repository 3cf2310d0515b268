-- ===== src/Index/BTree/SortedBuild.antt =====
-- `SortedBuild` of src/index/btree.rs: the pages that keys in order would fill, counted. A subtraction
-- below 0 and a failed `expect` are `none`.
use trunkdb.Base.{
  ℕ, ◌+◌, ◌-◌, max, Option, none, some, List, [], ◌∷◌, ◌++◌, map, drop, ltb, leb, ◌==◌,
  if◌then◌else◌,
}
use trunkdb.Base.Options.{◌>>=◌}
use trunkdb.Index.BTree.Build.{total, byte_midpoint}
use trunkdb.Index.BTree.Insert.{head?}
use trunkdb.Storage.Page.{PageType}
use trunkdb.Storage.Slotted.Defs.{
  new, free_space, space_needed, min_index_entry_len, min_branch_entry_len,
}

pub record BranchLevel : Type 0 where
  pub finished : ℕ
  pub keys : List ℕ
  pub room : ℕ

pub record SortedBuild : Type 0 where
  pub leaves : ℕ
  pub leaf_room : ℕ
  pub levels : List BranchLevel

unfoldable pub no_keys : SortedBuild
no_keys = record { leaves = 0; leaf_room = 0; levels = [] }

unfoldable pub empty_room : PageType → ℕ
empty_room page_type = free_space (new page_type)

abbrev pub minus : ℕ → ℕ → Option ℕ
minus a b = if ltb a b then none else some (a - b)

-- The closure `cell`, and the length that the split goes by.
abbrev pub cell_room : ℕ → ℕ
cell_room key_len = space_needed (key_len + min_branch_entry_len)

abbrev pub entry_len : ℕ → ℕ
entry_len key_len = key_len + 8

-- A full branch and the new key: what stays of it, and the key promoted.
unfoldable pub split_level : BranchLevel → List ℕ → Option (BranchLevel × ℕ)
split_level branch keys = byte_midpoint (map entry_len keys) >>= λ count.
    let mid = count - 1 in
    let right = drop (mid + 1) keys in
    head? (drop mid keys) >>= λ promoted.
    minus (empty_room PageType.index_branch) (total (map cell_room right)) >>= λ room.
    some (record { finished = branch.finished + 1; keys = right; room = room }, promoted)

abbrev new_level : ℕ → Option (List BranchLevel)
new_level key_len = minus (empty_room PageType.index_branch) (cell_room key_len) >>= λ room.
    some (record { finished = 0; keys = key_len ∷ []; room = room } ∷ [])

abbrev pub grown : BranchLevel → ℕ → BranchLevel
grown branch key_len = record branch {
  keys = branch.keys ++ key_len ∷ [];
  room = branch.room - cell_room key_len;
}

unfoldable pub separate : List BranchLevel → ℕ → Option (List BranchLevel)
unfolding split_level
separate [] key_len = new_level key_len
separate (branch ∷ levels) key_len =
    let overflowed = split_level branch (branch.keys ++ key_len ∷ []) >>= λ (rest, promoted).
    separate levels promoted >>= λ above. some (rest ∷ above) in
    if leb (cell_room key_len) branch.room then some (grown branch key_len ∷ levels) else overflowed

abbrev pub begun : SortedBuild → SortedBuild
begun build =
    if build.leaves == 0
    then record build { leaves = 1; leaf_room = empty_room PageType.index_leaf }
    else build

-- `push`, once there is a leaf.
unfoldable pub push_begun : SortedBuild → ℕ → Option SortedBuild
unfolding separate
push_begun build key_len =
    let needed = space_needed (key_len + min_index_entry_len) in
    let next_leaf = minus (empty_room PageType.index_leaf) needed >>= λ room.
    separate build.levels key_len >>= λ levels.
    some (record { leaves = build.leaves + 1; leaf_room = room; levels = levels }) in
    if leb needed build.leaf_room
    then some (record build { leaf_room = build.leaf_room - needed })
    else next_leaf

unfoldable pub push : SortedBuild → ℕ → Option SortedBuild
unfolding push_begun
push build key_len = push_begun (begun build) key_len

abbrev level_pages : List BranchLevel → ℕ
level_pages [] = 0
level_pages (level ∷ levels) = level.finished + 1 + level_pages levels

unfoldable pub page_count : SortedBuild → ℕ
page_count build = max build.leaves 1 + level_pages build.levels
