-- ===== src/Index/BTree/SplitLeaf.antt =====
-- src/index/btree.rs: `split_leaf` of a leaf that a key no longer fits, in a store that works.
use trunkdb.Base.{
  ℕ, suc, ◌-◌, ◌^◌, ◌≤◌, ◌<◌, ◌≡◌, refl, ap, inl, inr, arith, some, List, [], ◌∷◌, ◌++◌, All,
  All-append, All-append_back, length, length-append, take, drop, take-length, drop-length,
  take-append-drop, ◌==◌, ◌&&◌, Bool-cases, Bytes,
}
use trunkdb.Index.BTree.Defs.{ok, PageStore, leaf_entries}
use trunkdb.Index.BTree.Insert.{split, insert_at, head?, leaf_split_at, split_leaf}
use trunkdb.Index.BTree.Pages.{capacity, IsPage, IsLeafEntry}
use trunkdb.Index.BTree.Split.{
  IsKeyed, IsLeafSplit, leaf_weight, leaf_weight-insert, keyed_weight, leaf_parts,
  IsLeafSplit-middle,
}
use trunkdb.Index.Entry.{RecordLocation}
use trunkdb.Storage.Page.{PageType, Page}
use trunkdb.Storage.Slotted.Defs.{SlottedPage, into_page}

module _ {A : Type 0} where
  length-insert_at :
      (pos : ℕ) (e : A) (old : List A) → length (insert_at pos e old) ≡ suc (length old)
  length-insert_at pos e old =
      let whole : length (take pos old ++ drop pos old) ≡ length old =
        ap length (take-append-drop pos old) in
      omega (
        arith,
        whole,
        length-append (take pos old) (drop pos old),
        length-append (take pos old) (e ∷ drop pos old),
      )

  insert_at-end : (e : A) (old : List A) → insert_at (length old) e old ≡ old ++ e ∷ []
  insert_at-end e old = rw (take-length old, drop-length old) refl

  All-insert_at :
      (P : A → Type 0) (pos : ℕ) (e : A) (old : List A)
      → P e
      → All P old
      → All P (insert_at pos e old)
  All-insert_at P pos e old h held =
      let parts =
        All-append_back P (take pos old) (drop pos old) (rw (take-append-drop pos old) held) in
      All-append P (take pos old) (e ∷ drop pos old) parts.0 (h, parts.1)

-- A key that no longer fits a leaf, whose entries fitted, is put with them into two pages.
leaf_split_lem :
    (old : List (Bytes × RecordLocation)) (e : Bytes × RecordLocation) (pos right_id next : ℕ)
    → All IsKeyed old
    → All IsLeafEntry old
    → IsKeyed e
    → IsLeafEntry e
    → right_id < 2 ^ 64
    → next < 2 ^ 64
    → leaf_weight old ≤ capacity
    → capacity < leaf_weight (insert_at pos e old)
    → (mid : ℕ) × (left : SlottedPage) × (right : SlottedPage) × (leaf_split_at
          (insert_at pos e old)
          pos
          next
        ≡ some mid)
      × IsLeafSplit (insert_at pos e old) mid right_id next left right
unfolding leaf_split_at
leaf_split_lem old e pos right_id next keyed valid key_e valid_e h k fitted over =
    let entries = insert_at pos e old in
    let weighs = leaf_weight-insert pos e old in
    let all_keyed : All IsKeyed entries = All-insert_at IsKeyed pos e old key_e keyed in
    let all_valid : All IsLeafEntry entries = All-insert_at IsLeafEntry pos e old valid_e valid in
    elim (Bool-cases ((pos == length entries - 1) && (next == 0))) [
      | inr bytes ↦
          let (mid, left, right, found, parts) =
            IsLeafSplit-middle entries right_id next all_keyed all_valid h k over
              (omega (arith, weighs, keyed_weight e key_e)) in
          (mid, left, right, rw bytes found, parts)
      | inl appends ↦
          let last : pos ≡ length old = ground (arith, appends, length-insert_at pos e old) in
          let (left, right, parts) =
            leaf_parts entries old (e ∷ []) right_id next (rw last (insert_at-end e old)) all_valid
              h k fitted (omega (arith, keyed_weight e key_e)) (omega arith) in
          (length old, left, right, rw appends (ap some last), parts)
    ]

head_cases : {A : Type 0} (xs : List A) → 0 < length xs → (x : A) × (head? xs ≡ some x)
head_cases [] h = absurd (omega arith)
head_cases (x ∷ xs) h = (x, refl)

-- A leaf whose entries fitted it, with keys no longer than an index takes, and that one more key
-- does not fit, is split without a failed assertion: in a store whose writes succeed, its page
-- and the new one hold between them the old entries and the new one, in their order; the
-- separator is the first key of the new page, the leaf links to the new page, and that to the
-- leaf's old sibling.
pub split_leaf_lem :
    {S : Type 0} (store : PageStore S)
    → ((s : S) (id : ℕ) (page : Page) → (s' : S) × (store.write_page s id page ≡ ok s'))
    → (s s1 : S) (id right_id : ℕ) → store.allocate_page s ≡ ok (right_id, s1)
    → right_id < 2 ^ 64
    → (old : List (Bytes × RecordLocation)) (e : Bytes × RecordLocation) (pos next : ℕ)
    → All IsKeyed old
    → All IsLeafEntry old
    → IsKeyed e
    → IsLeafEntry e
    → next < 2 ^ 64
    → leaf_weight old ≤ capacity
    → capacity < leaf_weight (insert_at pos e old)
    → (left : SlottedPage) × (right : SlottedPage) × (first : Bytes × RecordLocation) × (s2 : S)
      × (s3 : S) × (split_leaf store s id (insert_at pos e old) pos next
          ≡ ok (split first.0 right_id, s3))
      × (store.write_page s1 id (into_page left) ≡ ok s2)
      × (store.write_page s2 right_id (into_page right) ≡ ok s3)
      × (leaf_entries left ++ leaf_entries right ≡ insert_at pos e old)
      × (head? (leaf_entries right) ≡ some first)
      × IsPage PageType.index_leaf right_id left
      × IsPage PageType.index_leaf next right
unfolding split_leaf
split_leaf_lem store writes s s1 id right_id allocated h old e pos next keyed valid key_e valid_e k
      fitted over =
    let (mid, left, right, at, (built, built', low, high, some_right, is_left, is_right)) =
      leaf_split_lem old e pos right_id next keyed valid key_e valid_e h k fitted over in
    let (first, head) = head_cases (leaf_entries right) some_right in
    let (s2, wrote) = writes s1 id (into_page left) in
    let (s3, wrote') = writes s2 right_id (into_page right) in
    let head' : head? (drop mid (insert_at pos e old)) ≡ some first = rw (← high) head in
    (
      left,
      right,
      first,
      s2,
      s3,
      rw (at, head', allocated, built, built', wrote, wrote') refl,
      wrote,
      wrote',
      rw (low, high) (take-append-drop mid (insert_at pos e old)),
      head,
      is_left,
      is_right,
    )
