-- ===== src/Index/BTree/SplitBranch.antt =====
-- src/index/btree.rs: `split_branch`, the end of `insert_into_branch`, in a store that works.
use trunkdb.Base.{
  ℕ, ◌+◌, ◌-◌, ◌^◌, ◌≤◌, ◌<◌, ◌≡◌, refl, sym, arith, List, [], ◌∷◌, ◌++◌, append_assoc, All,
  All-append_back, length, length-append, take, drop, take-length_append, drop-length_append, Bytes,
}
use mathlib.Core.Path.{subst}
use trunkdb.Index.BTree.Build.{branch_size}
use trunkdb.Index.BTree.Defs.{ok, PageStore, branch_entries}
use trunkdb.Index.BTree.Insert.{split, branch_split_at, split_branch}
use trunkdb.Index.BTree.Midpoint.{byte_midpoint_lem, sizes_of_cases}
use trunkdb.Index.BTree.Pages.{capacity, IsPage, IsBranchEntry, build_branch_page_lem}
use trunkdb.Index.BTree.Split.{
  IsKeyed, branch_weight, heaviest_branch_cell, branch_halves, branch_weight_total,
}
use trunkdb.Storage.Page.{PageType, Page}
use trunkdb.Storage.Slotted.Defs.{SlottedPage, into_page}

-- A branch with one entry more than fits, with keys no longer than an index takes, is split
-- without a failed assertion: in a store whose writes succeed, its page and the new one hold
-- between them, in order, every entry but the one promoted, and at least one each; the separator
-- is the promoted key, and its child the last of the left page.
pub split_branch_lem :
    {S : Type 0} (store : PageStore S)
    → ((s : S) (id : ℕ) (page : Page) → (s' : S) × (store.write_page s id page ≡ ok s'))
    → (s s1 : S) (id right_id : ℕ) → store.allocate_page s ≡ ok (right_id, s1)
    → (entries : List (Bytes × ℕ)) (rightmost : ℕ) → All IsKeyed entries
    → All IsBranchEntry entries
    → rightmost < 2 ^ 64
    → capacity < branch_weight entries
    → branch_weight entries ≤ capacity + heaviest_branch_cell
    → (left : SlottedPage) × (right : SlottedPage) × (promoted : Bytes × ℕ) × (s2 : S) × (s3 : S)
      × (split_branch store s id entries rightmost ≡ ok (split promoted.0 right_id, s3))
      × (store.write_page s1 id (into_page left) ≡ ok s2)
      × (store.write_page s2 right_id (into_page right) ≡ ok s3)
      × (branch_entries left ++ promoted ∷ branch_entries right ≡ entries)
      × (0 < length (branch_entries left))
      × (0 < length (branch_entries right))
      × IsPage PageType.index_branch promoted.1 left
      × IsPage PageType.index_branch rightmost right
unfolding split_branch branch_split_at
split_branch_lem store writes s s1 id right_id allocated entries rightmost keyed valid h over most =
    let whole = branch_weight_total entries in
    let (before, x, after, found, middle) =
      byte_midpoint_lem branch_size entries
        (grind (arith, whole, sizes_of_cases branch_size entries)) in
    let key : IsKeyed x =
      (All-append_back IsKeyed before (x ∷ after) (subst (All IsKeyed) middle.parts keyed)).1.0 in
    let (low, high, some_left, some_right) =
      branch_halves entries before after x middle key over most in
    let (ok_before, (ok_x, ok_after)) =
      All-append_back IsBranchEntry before (x ∷ after)
        (subst (All IsBranchEntry) middle.parts valid) in
    let (left, built, held, is_left) = build_branch_page_lem before x.1 ok_before ok_x low in
    let (right, built', held', is_right) = build_branch_page_lem after rightmost ok_after h high in
    let (s2, wrote) = writes s1 id (into_page left) in
    let (s3, wrote') = writes s2 right_id (into_page right) in
    let mid : length before + 1 - 1 ≡ length before = omega arith in
    let at : drop (length before) entries ≡ x ∷ after =
      rw middle.parts (drop-length_append _ before (x ∷ after) refl) in
    let front : take (length before) entries ≡ before =
      rw middle.parts (take-length_append _ before (x ∷ after) refl) in
    let back : drop (length before + 1) entries ≡ after =
      rw (middle.parts, ← append_assoc before (x ∷ []) after)
        (drop-length_append _ (before ++ x ∷ []) after (length-append before (x ∷ []))) in
    (
      left,
      right,
      x,
      s2,
      s3,
      rw (found, mid, at, allocated, front, back, built, built', wrote, wrote') refl,
      wrote,
      wrote',
      rw (held, held') (sym middle.parts),
      rw held some_left,
      rw held' some_right,
      is_left,
      is_right,
    )
