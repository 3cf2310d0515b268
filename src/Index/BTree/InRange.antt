-- ===== src/Index/BTree/InRange.antt =====
-- src/index/btree.rs: a walk's next entry in its leaf is the nearest of its range.
use trunkdb.Base.{
  ℕ, zero, suc, ◌+◌, ◌-◌, ◌≡◌, refl, inl, inr, arith, false, some, Bool-cases, Option-cases,
  if◌then◌else◌,
}
use trunkdb.Base.ByteString.{ltb_bytes}
use trunkdb.Index.BTree.Defs.{leaf_entries}
use trunkdb.Index.BTree.Nearest.{
  last_meeting, key_in, is_inside, is_past, is_past-is_inside, is_early-is_inside,
  is_inside_between, nearest_forward, nearest_backward, none_after, none_before,
}
use trunkdb.Index.BTree.Node.{IsOrdered}
use trunkdb.Index.BTree.Search.{first_meeting}
use trunkdb.Index.BTree.Walk.{Walk, moved, forward_in, backward_in, next_in_leaf}
use trunkdb.Index.Key.Range.{KeyRange, below_end}
use trunkdb.Storage.Slotted.Cells.{get_cell}
use trunkdb.Storage.Slotted.Defs.{SlottedPage, slot_count}

module _ (range : KeyRange) (leaf : SlottedPage) where
  -- A slot that the search goes by, forward.
  forward_by :
      (left at : ℕ)
      → first_meeting (get_cell leaf) (is_inside range) (suc left) at
        ≡ first_meeting (get_cell leaf) (is_inside range) left (suc at)
      → first_meeting (get_cell leaf) (is_past range) (suc left) at
        ≡ first_meeting (get_cell leaf) (is_past range) left (suc at)
      → nearest_forward range leaf (suc left) at ≡ nearest_forward range leaf left (suc at)
  forward_by left at same past =
      let moved_on : at + suc left ≡ suc at + left = omega arith in rw (same, past, moved_on) refl

  module _ (ordered : IsOrdered (leaf_entries leaf)) where
    forward_in-nearest :
        (left at : ℕ) → forward_in range leaf left at ≡ nearest_forward range leaf left at
    unfolding forward_in first_meeting
    forward_in-nearest zero at = let stays : at + 0 ≡ at = omega arith in rw stays refl
    forward_in-nearest (suc left) at =
        let rest = forward_in-nearest left (suc at) in
        elim (Option-cases (get_cell leaf at)) [
          | inl dead ↦ rw (forward_by left at (rw dead refl) (rw dead refl), dead) rest
          | inr (c, live) ↦ elim (Bool-cases (is_past range c)) [
            | inl past ↦
                let outside = is_past-is_inside range c past in
                let later =
                  none_after range leaf ordered at c live past left (suc at) (omega arith) in
                rw (live, past, outside, later) refl
            | inr below ↦ elim (Bool-cases (ltb_bytes (key_in range c) range.start)) [
              | inl early ↦
                  let outside = is_early-is_inside range c early in
                  rw
                    (
                      forward_by left at (rw (live, outside) refl) (rw (live, below) refl),
                      live,
                      below,
                      early,
                    )
                    rest
              | inr behind ↦
                  let inside = is_inside_between range c below behind in
                  rw (live, below, behind, inside) refl
            ]
          ]
        ]

    backward_in-nearest : (at : ℕ) → backward_in range leaf at ≡ nearest_backward range leaf at
    unfolding backward_in last_meeting
    backward_in-nearest zero = refl
    backward_in-nearest (suc slot) =
        let rest = backward_in-nearest slot in
        elim (Option-cases (get_cell leaf slot)) [
          | inl dead ↦ rw dead rest
          | inr (c, live) ↦ elim (Bool-cases (below_end range.end (key_in range c))) [
            | inr past ↦
                let outside = is_past-is_inside range c (rw past refl) in
                rw (live, past, outside) rest
            | inl below ↦ elim (Bool-cases (ltb_bytes (key_in range c) range.start)) [
              | inl early ↦
                  let outside = is_early-is_inside range c early in
                  let lower = none_before range leaf ordered slot c live early slot (omega arith) in
                  rw (live, below, early, outside, lower) refl
              | inr behind ↦
                  let inside = is_inside_between range c (rw below refl) behind in
                  rw (live, below, behind, inside) refl
            ]
          ]
        ]

-- In its current leaf, with the entries in key order, a walk that is not done hands out what a
-- search through all the slots ahead finds: forward the first, backward the last, that holds an
-- entry of the range, and none only if none does; the cursor is left behind that slot, as the
-- walk goes; without one, the walk is done just if a slot ahead holds an entry past the range's
-- end, or, backward, one before its start and not past its end, and the cursor is then left
-- behind the nearest of these, else behind all the slots; the rest of the walk stays.
pub next_in_leaf-nearest :
    (w : Walk) (leaf : SlottedPage)
    → w.leaf ≡ some leaf
    → w.done ≡ false
    → IsOrdered (leaf_entries leaf)
    → next_in_leaf w
      ≡ moved w (
          if w.backward
          then nearest_backward w.range leaf w.at
          else nearest_forward w.range leaf (slot_count leaf - w.at) w.at)
unfolding next_in_leaf
next_in_leaf-nearest w leaf in_leaf going ordered = elim (Bool-cases w.backward) [
  | inl back ↦ rw (in_leaf, going, back, backward_in-nearest w.range leaf ordered w.at) refl
  | inr on ↦
      rw (in_leaf, going, on, forward_in-nearest w.range leaf ordered (slot_count leaf - w.at) w.at)
        refl
]
