-- ===== src/Index/BTree/Nearest.antt =====
-- src/index/btree.rs: the nearest entry of a range in a leaf, by a search through all its slots.
use trunkdb.Base.{
  ℕ, zero, suc, ◌+◌, ◌<◌, ◌≡◌, refl, inl, inr, arith, Bool, true, false, not, ◌&&◌, Option, none,
  some, Option-cases, Bytes,
}
use trunkdb.Base.ByteString.{ltb_bytes, leb_bytes, compare_bytes_flip, compare_bytes_refl}
use trunkdb.Index.BTree.Defs.{leaf_entries}
use trunkdb.Index.BTree.Node.{IsOrdered, at_least-IsUpward}
use trunkdb.Index.BTree.Search.{first_meeting, take_slot}
use trunkdb.Index.BTree.Sorted.{ltb_false, leb_trans, slot_mono}
use trunkdb.Index.BTree.Walk.{Cursor, cursor}
use trunkdb.Index.Entry.{decode_index_entry}
use trunkdb.Index.Key.Range.{KeyRange, below_end, contains_key}
use trunkdb.Storage.Slotted.Cells.{get_cell}
use trunkdb.Storage.Slotted.Defs.{SlottedPage}

-- The last live slot below `at` that meets a bound.
unfoldable pub last_meeting : (ℕ → Option Bytes) → (Bytes → Bool) → ℕ → Option ℕ
last_meeting cell meets zero = none
last_meeting cell meets (suc slot) =
    take_slot cell meets slot (cell slot) (last_meeting cell meets slot)

-- Behind the first entry of the range, else behind the first that is past its end, which uses the
-- range up, else behind them all.
abbrev pub forward_to : Option ℕ → Option ℕ → ℕ → Cursor
forward_to (some k) past stop = cursor (suc k) false (some k)
forward_to none (some k) stop = cursor (suc k) true none
forward_to none none stop = cursor stop false none

-- At the last entry of the range, else at the last that is before its start, which uses the range
-- up, else at the leaf's front.
abbrev pub backward_to : Option ℕ → Option ℕ → Cursor
backward_to (some k) early = cursor k false (some k)
backward_to none (some k) = cursor k true none
backward_to none none = cursor 0 false none

module _ (range : KeyRange) where
  abbrev pub key_in : Bytes → Bytes
  key_in cell = (decode_index_entry cell).0

  -- An entry of the range, one past its end, and one before its start.
  abbrev pub is_inside : Bytes → Bool
  is_inside cell = contains_key range (key_in cell)

  abbrev pub is_past : Bytes → Bool
  is_past cell = not (below_end range.end (key_in cell))

  abbrev pub is_early : Bytes → Bool
  is_early cell = below_end range.end (key_in cell) && ltb_bytes (key_in cell) range.start

  pub is_past-is_inside : (c : Bytes) → is_past c ≡ true → is_inside c ≡ false
  unfolding contains_key
  is_past-is_inside c h = ground (arith, h)

  pub is_early-is_inside :
      (c : Bytes) → ltb_bytes (key_in c) range.start ≡ true → is_inside c ≡ false
  unfolding contains_key
  is_early-is_inside c h = ground (arith, h, compare_bytes_flip (key_in c) range.start)

  pub is_inside_between :
      (c : Bytes)
      → is_past c ≡ false
      → ltb_bytes (key_in c) range.start ≡ false
      → is_inside c ≡ true
  unfolding contains_key
  is_inside_between c h k = ground (arith, h, k, ltb_false (key_in c) range.start)

  is_past_after :
      (c d : Bytes) → leb_bytes (key_in c) (key_in d) ≡ true → is_past c ≡ true → is_past d ≡ true
  unfolding below_end
  is_past_after c d le h = by_end range.end h
    where
      by_end :
          (e : Option Bytes)
          → not (below_end e (key_in c)) ≡ true
          → not (below_end e (key_in d)) ≡ true
      by_end none h = cc
      by_end (some e) h =
          let above : leb_bytes e (key_in c) ≡ true = ltb_false (key_in c) e (ground (arith, h)) in
          let later = leb_trans e (key_in c) (key_in d) above le in
          ground (arith, later, compare_bytes_flip e (key_in d))

  is_early_before :
      (c d : Bytes)
      → leb_bytes (key_in c) (key_in d) ≡ true
      → ltb_bytes (key_in d) range.start ≡ true
      → ltb_bytes (key_in c) range.start ≡ true
  is_early_before c d le h = ground (
    arith,
    ltb_false (key_in c) range.start,
    leb_trans range.start (key_in c) (key_in d),
    compare_bytes_flip range.start (key_in d),
    h,
  )

  module _ (leaf : SlottedPage) where
    -- Where a search through the slots from `at` on leaves the cursor.
    abbrev pub nearest_forward : ℕ → ℕ → Cursor
    nearest_forward left at =
        forward_to (first_meeting (get_cell leaf) is_inside left at)
          (first_meeting (get_cell leaf) is_past left at) (at + left)

    -- The same through the slots below `at`, the last first.
    abbrev pub nearest_backward : ℕ → Cursor
    nearest_backward at =
        backward_to (last_meeting (get_cell leaf) is_inside at)
          (last_meeting (get_cell leaf) is_early at)

    leaf_mono :
        IsOrdered (leaf_entries leaf)
        → (i j : ℕ) (c d : Bytes) → i < j
        → get_cell leaf i ≡ some c
        → get_cell leaf j ≡ some d
        → leb_bytes (key_in c) (key_in d) ≡ true
    unfolding leaf_entries
    leaf_mono h i j c d less e f =
        slot_mono _ leaf (at_least-IsUpward (key_in c) _ h) i j c d less e f
          (ground (arith, compare_bytes_refl (key_in c)))

    module _ (ordered : IsOrdered (leaf_entries leaf)) where
      pub none_after :
          (at : ℕ) (c : Bytes)
          → get_cell leaf at ≡ some c
          → is_past c ≡ true
          → (left slot : ℕ) → at < slot
          → first_meeting (get_cell leaf) is_inside left slot ≡ none
      unfolding first_meeting
      none_after at c live past zero slot h = refl
      none_after at c live past (suc left) slot h =
          let rest = none_after at c live past left (suc slot) (omega arith) in
          elim (Option-cases (get_cell leaf slot)) [
            | inl dead ↦ rw dead rest
            | inr (d, here) ↦
                let later = is_past_after c d (leaf_mono ordered at slot c d h live here) past in
                rw (here, is_past-is_inside d later) rest
          ]

      pub none_before :
          (at : ℕ) (d : Bytes)
          → get_cell leaf at ≡ some d
          → ltb_bytes (key_in d) range.start ≡ true
          → (slot : ℕ) → slot < suc at
          → last_meeting (get_cell leaf) is_inside slot ≡ none
      unfolding last_meeting
      none_before at d live early zero h = refl
      none_before at d live early (suc slot) h =
          let rest = none_before at d live early slot (omega arith) in
          elim (Option-cases (get_cell leaf slot)) [
            | inl dead ↦ rw dead rest
            | inr (c, here) ↦
                let le = leaf_mono ordered slot at c d (omega arith) here live in
                rw (here, is_early-is_inside c (is_early_before c d le early)) rest
          ]
