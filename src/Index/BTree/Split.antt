-- ===== src/Index/BTree/Split.antt =====
-- src/index/btree.rs: the halves of a page that is split, and what they weigh.
use trunkdb.Base.{
  ℕ, suc, ◌+◌, ◌*◌, ◌^◌, ◌≤◌, ◌<◌, ◌≡◌, refl, sym, ap, ◌∙◌, arith, some, List, [], ◌∷◌, ◌++◌,
  append_assoc, map, All, All-append_back, length, length-append, take, drop, take-length_append,
  drop-length_append, take-append-drop, Bytes,
}
use mathlib.Core.Path.{subst}
use trunkdb.Index.BTree.Build.{
  byte_midpoint, leaf_cell, branch_cell, build_leaf_page, leaf_size, branch_size,
}
use trunkdb.Index.BTree.Defs.{leaf_entries}
use trunkdb.Index.BTree.Fill.{weight}
use trunkdb.Index.BTree.Insert.{insert_at}
use trunkdb.Index.BTree.Midpoint.{
  sizes_of, total-append, Middle, byte_midpoint_lem, weight_total, least_total, sizes_of_cases,
}
use trunkdb.Index.BTree.Pages.{capacity, IsPage, IsLeafEntry, build_leaf_page_lem}
use trunkdb.Index.Entry.{RecordLocation, length-encode_index_entry, length-encode_branch_entry}
use trunkdb.Index.Key.Defs.{max_key_len}
use trunkdb.Storage.Page.{PageType}
use trunkdb.Storage.Slotted.Defs.{SlottedPage, slot_len}

-- Entries whose keys an index takes.
abbrev pub IsKeyed : {A : Type 0} → Bytes × A → Type 0
IsKeyed e = length e.0 ≤ max_key_len

abbrev pub leaf_weight : List (Bytes × RecordLocation) → ℕ
leaf_weight entries = weight (map leaf_cell entries)

abbrev pub branch_weight : List (Bytes × ℕ) → ℕ
branch_weight entries = weight (map branch_cell entries)

leaf_weight_total :
    (entries : List (Bytes × RecordLocation))
    → (leaf_weight entries ≡ sizes_of leaf_size entries + slot_len * length entries)
      × (10 * length entries ≤ sizes_of leaf_size entries)
leaf_weight_total entries = (
  weight_total leaf_size leaf_cell
      (λ (e : Bytes × RecordLocation). length-encode_index_entry e.0 e.1) entries,
  least_total leaf_size 10 (λ (e : Bytes × RecordLocation). omega arith) entries,
)

pub branch_weight_total :
    (entries : List (Bytes × ℕ))
    → (branch_weight entries ≡ sizes_of branch_size entries + slot_len * length entries)
      × (8 * length entries ≤ sizes_of branch_size entries)
branch_weight_total entries = (
  weight_total branch_size branch_cell (λ (e : Bytes × ℕ). length-encode_branch_entry e.0 e.1)
      entries,
  least_total branch_size 8 (λ (e : Bytes × ℕ). omega arith) entries,
)

-- The heaviest cells.
abbrev pub heaviest_leaf_cell : ℕ
heaviest_leaf_cell = slot_len + (max_key_len + 10)

abbrev pub heaviest_branch_cell : ℕ
heaviest_branch_cell = slot_len + (max_key_len + 8)

leaf_halves :
    (entries before after : List (Bytes × RecordLocation)) (x : Bytes × RecordLocation)
    → Middle leaf_size entries before x after
    → IsKeyed x
    → capacity < leaf_weight entries
    → leaf_weight entries ≤ capacity + heaviest_leaf_cell
    → (leaf_weight before + leaf_weight (x ∷ []) ≤ capacity)
      × (leaf_weight after ≤ capacity)
      × (0 < length after)
leaf_halves entries before after x h keyed over most =
    let whole = leaf_weight_total entries in
    let front = leaf_weight_total before in
    let one = leaf_weight_total (x ∷ []) in
    let back = leaf_weight_total after in
    let sum : sizes_of leaf_size entries
        ≡ sizes_of leaf_size before + (leaf_size x + sizes_of leaf_size after) =
      rw h.parts (total-append leaf_size before (x ∷ after)) in
    let count : length entries ≡ length before + suc (length after) =
      rw h.parts (length-append before (x ∷ after)) in
    (
      omega (arith, whole, front, one, back, h.below, h.reached),
      omega (arith, whole, front, one, back, h.below, h.reached),
      grind (arith, sizes_of_cases leaf_size after, whole, front, one, back, h.below, h.reached),
    )

pub branch_halves :
    (entries before after : List (Bytes × ℕ)) (x : Bytes × ℕ)
    → Middle branch_size entries before x after
    → IsKeyed x
    → capacity < branch_weight entries
    → branch_weight entries ≤ capacity + heaviest_branch_cell
    → (branch_weight before ≤ capacity)
      × (branch_weight after ≤ capacity)
      × (0 < length before)
      × (0 < length after)
branch_halves entries before after x h keyed over most =
    let whole = branch_weight_total entries in
    let front = branch_weight_total before in
    let back = branch_weight_total after in
    let sum : sizes_of branch_size entries
        ≡ sizes_of branch_size before + (branch_size x + sizes_of branch_size after) =
      rw h.parts (total-append branch_size before (x ∷ after)) in
    let count : length entries ≡ length before + suc (length after) =
      rw h.parts (length-append before (x ∷ after)) in
    (
      omega (arith, whole, front, back, h.below, h.reached),
      omega (arith, whole, front, back, h.below, h.reached),
      grind (arith, sizes_of_cases branch_size before, whole, front, back, h.below, h.reached),
      grind (arith, sizes_of_cases branch_size after, whole, front, back, h.below, h.reached),
    )

-- What a split of a leaf makes: two pages that hold the entries between them.
abbrev pub IsLeafSplit :
    List (Bytes × RecordLocation) → ℕ → ℕ → ℕ → SlottedPage → SlottedPage → Type 0
IsLeafSplit entries mid right_id next left right =
    (build_leaf_page (take mid entries) right_id ≡ some left)
    × (build_leaf_page (drop mid entries) next ≡ some right)
    × (leaf_entries left ≡ take mid entries)
    × (leaf_entries right ≡ drop mid entries)
    × (0 < length (leaf_entries right))
    × IsPage PageType.index_leaf right_id left
    × IsPage PageType.index_leaf next right

-- Two parts of a list that each fit a leaf.
pub leaf_parts :
    (entries before after : List (Bytes × RecordLocation)) (right_id next : ℕ)
    → entries ≡ before ++ after
    → All IsLeafEntry entries
    → right_id < 2 ^ 64
    → next < 2 ^ 64
    → leaf_weight before ≤ capacity
    → leaf_weight after ≤ capacity
    → 0 < length after
    → (left right : SlottedPage) × IsLeafSplit entries (length before) right_id next left right
leaf_parts entries before after right_id next e ok h k low high some_right =
    let (ok_before, ok_after) =
      All-append_back IsLeafEntry before after (subst (All IsLeafEntry) e ok) in
    let (left, built_left, held_left, is_left) =
      build_leaf_page_lem before right_id ok_before h low in
    let (right, built_right, held_right, is_right) =
      build_leaf_page_lem after next ok_after k high in
    let front : take (length before) entries ≡ before =
      rw e (take-length_append _ before after refl) in
    let back : drop (length before) entries ≡ after =
      rw e (drop-length_append _ before after refl) in
    (
      left,
      right,
      (
        rw front built_left,
        rw back built_right,
        held_left ∙ sym front,
        held_right ∙ sym back,
        rw held_right some_right,
        is_left,
        is_right,
      ),
    )

leaf_weight-append :
    (xs ys : List (Bytes × RecordLocation))
    → leaf_weight (xs ++ ys) ≡ leaf_weight xs + leaf_weight ys
leaf_weight-append [] ys = omega arith
leaf_weight-append (x ∷ xs) ys = omega (arith, leaf_weight-append xs ys)

pub leaf_weight-insert :
    (pos : ℕ) (e : Bytes × RecordLocation) (old : List (Bytes × RecordLocation))
    → leaf_weight (insert_at pos e old) ≡ leaf_weight old + leaf_weight (e ∷ [])
leaf_weight-insert pos e old =
    let whole : leaf_weight (take pos old ++ drop pos old) ≡ leaf_weight old =
      rw (take-append-drop pos old) refl in
    omega (
      arith,
      whole,
      leaf_weight-append (take pos old) (drop pos old),
      leaf_weight-append (take pos old) (e ∷ drop pos old),
    )

pub keyed_weight :
    (e : Bytes × RecordLocation) → IsKeyed e → leaf_weight (e ∷ []) ≤ heaviest_leaf_cell
keyed_weight e h = omega (arith, length-encode_index_entry e.0 e.1)

-- The split by bytes.
pub IsLeafSplit-middle :
    (entries : List (Bytes × RecordLocation)) (right_id next : ℕ)
    → All IsKeyed entries
    → All IsLeafEntry entries
    → right_id < 2 ^ 64
    → next < 2 ^ 64
    → capacity < leaf_weight entries
    → leaf_weight entries ≤ capacity + heaviest_leaf_cell
    → (mid : ℕ) × (left : SlottedPage) × (right : SlottedPage) × (byte_midpoint
          (map leaf_size entries)
        ≡ some mid)
      × IsLeafSplit entries mid right_id next left right
IsLeafSplit-middle entries right_id next keyed ok h k over most =
    let whole = leaf_weight_total entries in
    let (before, x, after, found, middle) =
      byte_midpoint_lem leaf_size entries
        (grind (arith, whole, sizes_of_cases leaf_size entries)) in
    let key : IsKeyed x =
      (All-append_back IsKeyed before (x ∷ after) (subst (All IsKeyed) middle.parts keyed)).1.0 in
    let (low, high, some_right) = leaf_halves entries before after x middle key over most in
    let front = before ++ x ∷ [] in
    let weighs : leaf_weight front ≤ capacity = omega (arith, leaf_weight-append before (x ∷ [])) in
    let (left, right, done) =
      leaf_parts entries front after right_id next
        (middle.parts ∙ sym (append_assoc before (x ∷ []) after)) ok h k weighs high some_right in
    (length front, left, right, found ∙ ap some (sym (length-append before (x ∷ []))), done)
