-- ===== src/Index/BTree/Walk.antt =====
-- `Walk` of src/index/btree.rs: the entries of a range, forward or backward. After an error a walk is
-- over. The branches above the leaf are kept with the lowest first.
use trunkdb.Base.{
  ℕ, zero, suc, ◌+◌, ◌-◌, Bool, true, false, not, Option, none, some, List, [], ◌∷◌, ◌++◌, map,
  length, get_elem?, ltb, ◌==◌, if◌then◌else◌, Bytes,
}
use trunkdb.Base.ByteString.{leb_bytes, ltb_bytes}
use trunkdb.Index.BTree.Defs.{
  IndexError, Result, ok, err, ◌>>=◌, expect, PageStore, page_type, max_depth, branch_entries,
  on_node, read_node, holds_id,
}
use trunkdb.Index.BTree.Insert.{partition_point}
use trunkdb.Index.Entry.{RecordLocation, decode_index_entry}
use trunkdb.Index.Key.Range.{KeyRange, below_end}
use trunkdb.Storage.Slotted.Cells.{get_cell}
use trunkdb.Storage.Slotted.Defs.{SlottedPage, slot_count, next_page}

pub record Walk : Type 0 where
  pub root : ℕ
  pub range : KeyRange
  pub backward : Bool
  pub leaf : Option SlottedPage
  pub at : ℕ
  pub started : Bool
  pub next_leaf : ℕ
  pub path : List (List ℕ × ℕ)
  pub done : Bool
  pub seen : List ℕ
  pub leaves : ℕ

unfoldable pub walk : ℕ → KeyRange → Bool → Walk
walk root range backward = record {
  root = root;
  range = range;
  backward = backward;
  leaf = none;
  at = 0;
  started = false;
  next_leaf = 0;
  path = [];
  done = false;
  seen = [];
  leaves = 0;
}

-- Where the cursor is left, whether the range is used up, and the slot found.
pub record Cursor : Type 0 where
  pub at : ℕ
  pub used_up : Bool
  pub slot : Option ℕ

abbrev pub cursor : ℕ → Bool → Option ℕ → Cursor
cursor at used_up slot = record { at = at; used_up = used_up; slot = slot }

module _ (range : KeyRange) (leaf : SlottedPage) where
  abbrev pub forward_at : ℕ → Option Bytes → Cursor → Cursor
  forward_at slot none rest = rest
  forward_at slot (some cell) rest =
      let key = (decode_index_entry cell).0 in
      if not (below_end range.end key)
      then cursor (suc slot) true none
      else if ltb_bytes key range.start
      then rest
      else cursor (suc slot) false (some slot)

  -- The loop of `next_in_leaf`, forward on the slots that are left.
  unfoldable pub forward_in : ℕ → ℕ → Cursor
  forward_in zero at = cursor at false none
  forward_in (suc left) at = forward_at at (get_cell leaf at) (forward_in left (suc at))

  abbrev pub backward_at : ℕ → Option Bytes → Cursor → Cursor
  backward_at slot none rest = rest
  backward_at slot (some cell) rest =
      let key = (decode_index_entry cell).0 in
      if not (below_end range.end key)
      then rest
      else if ltb_bytes key range.start
      then cursor slot true none
      else cursor slot false (some slot)

  unfoldable pub backward_in : ℕ → Cursor
  backward_in zero = cursor 0 false none
  backward_in (suc slot) = backward_at slot (get_cell leaf slot) (backward_in slot)

abbrev pub moved : Walk → Cursor → Walk × Option ℕ
moved w c = (record w { at = c.at; done = c.used_up }, c.slot)

abbrev pub search_leaf : Walk → SlottedPage → Walk × Option ℕ
search_leaf w leaf =
    if w.backward
    then moved w (backward_in w.range leaf w.at)
    else moved w (forward_in w.range leaf (slot_count leaf - w.at) w.at)

abbrev pub in_leaf : Walk → Option SlottedPage → Walk × Option ℕ
in_leaf w none = (w, none)
in_leaf w (some leaf) = if w.done then (w, none) else search_leaf w leaf

unfoldable pub next_in_leaf : Walk → Walk × Option ℕ
unfolding forward_in backward_in
next_in_leaf w = in_leaf w w.leaf

abbrev used_leaf : Walk → Option SlottedPage → Bool
used_leaf w none = true
used_leaf w (some leaf) = if w.backward then w.at == 0 else not (ltb w.at (slot_count leaf))

unfoldable pub used_up : Walk → Bool
used_up w = used_leaf w w.leaf

abbrev passed : Walk → Option SlottedPage → Walk
passed w none = w
passed w (some leaf) = record w { at = if w.backward then 0 else slot_count leaf }

unfoldable pub pass_leaf : Walk → Walk
pass_leaf w = passed w w.leaf

-- Up to the nearest branch with a child before this one.
unfoldable pub go_up : List (List ℕ × ℕ) → Option (List ℕ × ℕ × List (List ℕ × ℕ))
go_up [] = none
go_up ((children, zero) ∷ path) = go_up path
go_up ((children, suc at) ∷ path) = some (children, at, path)

abbrev child_index : List (Bytes × ℕ) → Option Bytes → ℕ
child_index entries none = length entries
child_index entries (some key) = partition_point (λ (e : Bytes × ℕ). leb_bytes e.0 key) entries

module _ {S : Type 0} (store : PageStore S) where
  -- `descend`, on the levels that are left.
  unfoldable pub descend_in :
      ℕ → S → Bool → List (List ℕ × ℕ) → ℕ → Option Bytes → Result (SlottedPage × List (List ℕ × ℕ))
  unfolding page_type branch_entries partition_point
  descend_in zero s backward path id key = err (IndexError.too_deep id)
  descend_in (suc levels) s backward path id key = read_node store s id >>= λ page.
      let entries = branch_entries page in
      let children = map (λ (e : Bytes × ℕ). e.1) entries ++ next_page page ∷ [] in
      let at = child_index entries key in
      on_node id (page_type page) (ok (page, path)) (
        expect (get_elem? children at) >>= λ child.
        descend_in levels s backward (if backward then (children, at) ∷ path else path) child key)

  unfoldable pub descend : S → Walk → ℕ → Option Bytes → Result (SlottedPage × List (List ℕ × ℕ))
  unfolding descend_in
  descend s w id key = descend_in (suc max_depth - length w.path) s w.backward w.path id key

  abbrev enter : Walk → SlottedPage → Walk
  enter w leaf = record w {
    leaf = some leaf;
    leaves = w.leaves + 1;
    next_leaf = next_page leaf;
    at = if w.backward then slot_count leaf else 0;
  }

  abbrev enter_below : S → Walk → ℕ → Option Bytes → Result Walk
  enter_below s w id key =
      descend s w id key >>= λ (leaf, path). ok (enter (record w { path = path }) leaf)

  abbrev step_back : S → Walk → Option (List ℕ × ℕ × List (List ℕ × ℕ)) → Result Walk
  step_back s w none = ok (record w { done = true; path = [] })
  step_back s w (some (children, at, path)) = expect (get_elem? children at) >>= λ child.
      enter_below s (record w { path = (children, at) ∷ path }) child none

  abbrev step_on : S → Walk → Result Walk
  step_on s w =
      if w.next_leaf == 0
      then ok (record w { done = true })
      else if holds_id w.next_leaf w.seen
      then err (IndexError.leaf_twice w.next_leaf)
      else (read_node store s w.next_leaf >>= λ leaf.
          ok (enter (record w { seen = w.next_leaf ∷ w.seen }) leaf))

  unfoldable pub read_next_leaf : S → Walk → Result Walk
  unfolding descend go_up
  read_next_leaf s w =
      let first = record w { started = true } in
      if not w.started
      then enter_below s first w.root (if w.backward then w.range.end else some w.range.start)
      else if w.backward
      then step_back s w (go_up w.path)
      else step_on s w

  abbrev entry_in : Walk → Option SlottedPage → ℕ → Result (Walk × Option (Bytes × RecordLocation))
  entry_in w none slot = err IndexError.panicked
  entry_in w (some leaf) slot =
      expect (get_cell leaf slot) >>= λ cell. ok (w, some (decode_index_entry cell))

  abbrev stepped :
      (Walk → Result (Walk × Option (Bytes × RecordLocation)))
      → S
      → Walk × Option ℕ
      → Result (Walk × Option (Bytes × RecordLocation))
  stepped again s (w, some slot) = entry_in w w.leaf slot
  stepped again s (w, none) = if w.done then ok (w, none) else (read_next_leaf s w >>= again)

  -- `step`, on fuel that is more than the leaves it enters.
  unfoldable pub step : ℕ → S → Walk → Result (Walk × Option (Bytes × RecordLocation))
  unfolding next_in_leaf read_next_leaf
  step zero s w = err IndexError.panicked
  step (suc fuel) s w = stepped (step fuel s) s (next_in_leaf w)
