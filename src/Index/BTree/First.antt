-- ===== src/Index/BTree/First.antt =====
-- The binary search of src/index/btree.rs against the search one by one.
use trunkdb.Base.{
  ℕ, zero, suc, ◌+◌, ◌-◌, ◌/◌, ◌≤◌, ◌<◌, ◌≡◌, refl, sym, ap, ◌∙◌, Bool, true, false, Option, none,
  some, Bool-cases, inl, inr, Option-cases, ltb, if◌then◌else◌, Bytes, arith,
}
use trunkdb.Storage.Slotted.Cells.{get_cell}
use trunkdb.Storage.Slotted.Defs.{SlottedPage, slot_count}
use trunkdb.Index.BTree.Search.{
  first_live, search_slots, narrowed, first_meeting, first_slot_where, take_slot,
}

abbrev pub or_else : Option ℕ → Option ℕ → Option ℕ
or_else (some a) b = some a
or_else none b = b

module _ (cell : ℕ → Option Bytes) (meets : Bytes → Bool) where
  abbrev scan : ℕ → ℕ → Option ℕ
  scan = first_meeting cell meets

  -- What meets the bound goes on to meet it.
  abbrev pub IsMonotone : Type 0
  IsMonotone =
      (i j : ℕ) (c d : Bytes)
      → i < j
      → cell i ≡ some c
      → cell j ≡ some d
      → meets c ≡ true
      → meets d ≡ true

  scan_split : (a b slot : ℕ) → scan (a + b) slot ≡ or_else (scan a slot) (scan b (slot + a))
  unfolding first_meeting
  scan_split zero b slot =
      let none_more : 0 + b ≡ b = omega arith in
      let same : slot + 0 ≡ slot = omega arith in rw (none_more, same) refl
  scan_split (suc a) b slot =
      let sum : suc a + b ≡ suc (a + b) = omega arith in
      let next : slot + suc a ≡ suc slot + a = omega arith in
      let rest = scan_split a b (suc slot) in rw (sum, next) (taken (cell slot) rest)
    where
      taken :
          (c : Option Bytes)
          → scan (a + b) (suc slot) ≡ or_else (scan a (suc slot)) (scan b (suc slot + a))
          → take_slot cell meets slot c (scan (a + b) (suc slot))
            ≡ or_else (take_slot cell meets slot c (scan a (suc slot))) (scan b (suc slot + a))
      taken none e = e
      taken (some c) e = ground (arith, e)

  first_live-none : (left slot : ℕ) → first_live cell left slot ≡ none → scan left slot ≡ none
  unfolding first_live first_meeting
  first_live-none zero slot e = refl
  first_live-none (suc left) slot e =
      let rest = first_live-none left (suc slot) in
      elim (Option-cases (cell slot)) [
        | inl dead ↦ ground (arith, dead, rest, e)
        | inr (c, live) ↦ absurd (ground (arith, live, e))
      ]

  record Live (left slot found : ℕ) (c : Bytes) : Type 0 where
    low : slot ≤ found
    high : found < slot + left
    live : cell found ≡ some c
    dead : scan (found - slot) slot ≡ none

  first_live-some :
      (left slot found : ℕ) (c : Bytes)
      → first_live cell left slot ≡ some (found, c)
      → Live left slot found c
  unfolding first_live first_meeting
  first_live-some zero slot found c e = absurd cc
  first_live-some (suc left) slot found c e = elim (Option-cases (cell slot)) [
    | inl dead ↦
        let later : Live left (suc slot) found c =
          first_live-some left (suc slot) found c (ground (arith, dead, e)) in
        let more : found - slot ≡ suc (found - suc slot) = omega (arith, later.low) in
        record {
          low = omega (arith, later.low);
          high = omega (arith, later.high);
          live = later.live;
          dead = rw (more, dead) later.dead;
        }
    | inr (d, live) ↦
        let here : found ≡ slot = ground (arith, live, e) in
        let same : d ≡ c = ground (arith, live, e) in
        let none_before : found - slot ≡ 0 = omega (arith, here) in
        record {
          low = omega (arith, here);
          high = omega (arith, here);
          live = ap cell here ∙ live ∙ ap some same;
          dead = rw none_before refl;
        }
  ]

  before_failing :
      (at : ℕ) (d : Bytes)
      → IsMonotone
      → cell at ≡ some d
      → meets d ≡ false
      → (left slot : ℕ) → slot + left ≤ at
      → scan left slot ≡ none
  unfolding first_meeting
  before_failing at d mono e f zero slot h = refl
  before_failing at d mono e f (suc left) slot h =
      let rest = before_failing at d mono e f left (suc slot) (omega arith) in
      elim (Option-cases (cell slot)) [
        | inl dead ↦ rw dead rest
        | inr (c, live) ↦
            let fails : meets c ≡ true → meets d ≡ true = mono slot at c d (omega arith) live e in
            rw live (ground (arith, fails, f, rest))
      ]

  or_else-none : (o : Option ℕ) → or_else o none ≡ o
  or_else-none none = refl
  or_else-none (some a) = refl

  or_else_assoc : (a b c : Option ℕ) → or_else (or_else a b) c ≡ or_else a (or_else b c)
  or_else_assoc none b c = refl
  or_else_assoc (some a) b c = refl

  -- The slots from `lo` to `hi`, taken apart at `mid`.
  scan_between :
      (lo mid hi : ℕ)
      → lo ≤ mid
      → mid ≤ hi
      → scan (hi - lo) lo ≡ or_else (scan (mid - lo) lo) (scan (hi - mid) mid)
  scan_between lo mid hi h k =
      let sum : hi - lo ≡ (mid - lo) + (hi - mid) = omega arith in
      let at : lo + (mid - lo) ≡ mid = omega arith in
      ap (λ n. scan n lo) sum
      ∙ scan_split (mid - lo) (hi - mid) lo
      ∙ ap (λ n. or_else (scan (mid - lo) lo) (scan (hi - mid) n)) at

  scan_at :
      (left slot : ℕ) (c : Bytes)
      → cell slot ≡ some c
      → scan (suc left) slot ≡ (if meets c then some slot else scan left (suc slot))
  unfolding first_meeting
  scan_at left slot c e = rw e refl

  module _ (fuel lo hi : ℕ) (found : Option ℕ) (mid : ℕ) (low : lo ≤ mid) (high : mid < hi)
      (mono : IsMonotone)
      (go : (lo hi : ℕ) (found : Option ℕ)
        → hi - lo ≤ fuel
        → search_slots cell meets fuel lo hi found ≡ or_else (scan (hi - lo) lo) found)
      (enough : hi - lo ≤ suc fuel) where
    narrowed_none :
        first_live cell (hi - mid) mid ≡ none
        → search_slots cell meets fuel lo mid found ≡ or_else (scan (hi - lo) lo) found
    narrowed_none e =
        go lo mid found (omega arith)
        ∙ ap (λ o. or_else o found)
            (sym (
              scan_between lo mid hi low (omega arith)
              ∙ ap (or_else (scan (mid - lo) lo)) (first_live-none (hi - mid) mid e)
              ∙ or_else-none (scan (mid - lo) lo)))

    narrowed_meets :
        (slot : ℕ) (c : Bytes)
        → Live (hi - mid) mid slot c
        → meets c ≡ true
        → search_slots cell meets fuel lo mid (some slot) ≡ or_else (scan (hi - lo) lo) found
    narrowed_meets slot c l m =
        let one : hi - slot ≡ suc (hi - suc slot) = omega (arith, l.low, l.high, high) in
        let last : scan (hi - slot) slot ≡ some slot =
          ap (λ n. scan n slot) one ∙ scan_at (hi - suc slot) slot c l.live ∙ rw m refl in
        let right : scan (hi - mid) mid ≡ some slot =
          scan_between mid slot hi l.low (omega (arith, l.high, high))
          ∙ ap (λ o. or_else o (scan (hi - slot) slot)) l.dead
          ∙ last in
        go lo mid (some slot) (omega arith)
        ∙ sym (
            ap (λ o. or_else o found)
              (scan_between lo mid hi low (omega arith) ∙ ap (or_else (scan (mid - lo) lo)) right)
            ∙ or_else_assoc (scan (mid - lo) lo) (some slot) found)

    narrowed_fails :
        (slot : ℕ) (c : Bytes)
        → Live (hi - mid) mid slot c
        → meets c ≡ false
        → search_slots cell meets fuel (suc slot) hi found ≡ or_else (scan (hi - lo) lo) found
    narrowed_fails slot c l m =
        let one : hi - slot ≡ suc (hi - suc slot) = omega (arith, l.low, l.high, high) in
        let left : scan (slot - lo) lo ≡ none =
          before_failing slot c mono l.live m (slot - lo) lo (omega (arith, l.low)) in
        go (suc slot) hi found (omega (arith, l.low))
        ∙ sym (
            ap (λ o. or_else o found)
              (scan_between lo slot hi (omega (arith, l.low)) (omega (arith, l.high, high))
                ∙ ap (λ o. or_else o (scan (hi - slot) slot)) left
                ∙ ap (λ n. scan n slot) one
                ∙ scan_at (hi - suc slot) slot c l.live
                ∙ rw m refl))

    narrowed_lem :
        (r : Option (ℕ × Bytes))
        → first_live cell (hi - mid) mid ≡ r
        → narrowed cell meets (search_slots cell meets fuel) lo mid hi found r
          ≡ or_else (scan (hi - lo) lo) found
    narrowed_lem none e = narrowed_none e
    narrowed_lem (some (slot, c)) e =
        let l = first_live-some (hi - mid) mid slot c e in
        elim (Bool-cases (meets c)) [
          | inl m ↦ rw m (narrowed_meets slot c l m)
          | inr m ↦ rw m (narrowed_fails slot c l m)
        ]

  search_slots_lem :
      (fuel lo hi : ℕ) (found : Option ℕ)
      → IsMonotone
      → hi - lo ≤ fuel
      → search_slots cell meets fuel lo hi found ≡ or_else (scan (hi - lo) lo) found
  unfolding search_slots first_meeting
  search_slots_lem zero lo hi found mono enough =
      let none_left : hi - lo ≡ 0 = omega arith in rw none_left refl
  search_slots_lem (suc fuel) lo hi found mono enough = elim (Bool-cases (ltb lo hi)) [
    | inl more ↦
        let go = λ (lo hi : ℕ) (found : Option ℕ) (h : hi - lo ≤ fuel).
          search_slots_lem fuel lo hi found mono h in
        rw more (
          narrowed_lem fuel lo hi found (lo + (hi - lo) / 2) (omega arith) (ground arith) mono go
            enough (first_live cell (hi - (lo + (hi - lo) / 2)) (lo + (hi - lo) / 2)) refl)
    | inr over ↦ let none_left : hi - lo ≡ 0 = ground arith in rw (over, none_left) refl
  ]

-- On a page whose live cells go on to meet a bound once one of them does, the binary search finds
-- the first live slot that meets it, with tombstones among the slots or without.
pub first_slot_where-first_meeting :
    (page : SlottedPage) (meets : Bytes → Bool)
    → IsMonotone (get_cell page) meets
    → first_slot_where page meets ≡ first_meeting (get_cell page) meets (slot_count page) 0
unfolding first_slot_where
first_slot_where-first_meeting page meets mono =
    search_slots_lem (get_cell page) meets (slot_count page) 0 (slot_count page) none mono
      (omega arith)
    ∙ or_else-none (get_cell page) meets
        (first_meeting (get_cell page) meets (slot_count page - 0) 0)
    ∙ ap (λ n. first_meeting (get_cell page) meets n 0) (omega arith)
