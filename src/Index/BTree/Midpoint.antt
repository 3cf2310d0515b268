-- ===== src/Index/BTree/Midpoint.antt =====
-- `byte_midpoint` of src/index/btree.rs: where it splits, and how heavy the halves are.
use trunkdb.Base.{
  ℕ, suc, ◌+◌, ◌*◌, ◌≤◌, ◌<◌, ◌≡◌, refl, ap, ◌∙◌, ◌⊎◌, inl, inr, arith, some, List, [], ◌∷◌, ◌++◌,
  map, length, leb, leb→le, leb→lt, Bool-cases, Bytes,
}
use trunkdb.Index.BTree.Build.{total, reaches_half, byte_midpoint}
use trunkdb.Index.BTree.Fill.{weight}
use trunkdb.Storage.Slotted.Defs.{slot_len}

module _ {A : Type 0} (size : A → ℕ) where
  abbrev pub sizes_of : List A → ℕ
  sizes_of entries = total (map size entries)

  pub total-append : (xs ys : List A) → sizes_of (xs ++ ys) ≡ sizes_of xs + sizes_of ys
  total-append [] ys = omega arith
  total-append (x ∷ xs) ys = omega (arith, total-append xs ys)

  -- Sizes are at least `least`.
  pub least_total :
      (least : ℕ)
      → ((x : A) → least ≤ size x)
      → (entries : List A) → least * length entries ≤ sizes_of entries
  least_total least h [] = omega arith
  least_total least h (x ∷ entries) = omega (arith, h x, least_total least h entries)

  pub sizes_of_cases : (xs : List A) → (0 < length xs) ⊎ (sizes_of xs ≡ 0)
  sizes_of_cases [] = inr refl
  sizes_of_cases (x ∷ xs) = inl (omega arith)

  -- The entry at which the running total reaches half.
  pub record Middle (entries : List A) (before : List A) (x : A) (after : List A) : Type 0 where
    pub parts : entries ≡ before ++ x ∷ after
    pub below : sizes_of before * 2 < sizes_of entries
    pub reached : sizes_of entries ≤ (sizes_of before + size x) * 2

  reaches_half_lem :
      (all running i : ℕ) (entries : List A)
      → all ≡ running + sizes_of entries
      → running * 2 < all
      → (before : List A) × (x : A) × (after : List A) × (entries ≡ before ++ x ∷ after)
        × (reaches_half all running i (map size entries) ≡ some (i + length before + 1))
        × ((running + sizes_of before) * 2 < all)
        × (all ≤ (running + sizes_of before + size x) * 2)
  unfolding reaches_half
  reaches_half_lem all running i [] e h = absurd (omega arith)
  reaches_half_lem all running i (x ∷ entries) e h =
      elim (Bool-cases (leb all ((running + size x) * 2))) [
        | inl reached ↦
            let enough = leb→le _ _ reached in
            ([], x, entries, refl, rw reached (ap some (omega arith)), omega arith, omega arith)
        | inr short ↦
            let small = leb→lt _ _ short in
            let (before, y, after, parts, found, below, half) =
              reaches_half_lem all (running + size x) (suc i) entries (omega arith) small in
            (
              x ∷ before,
              y,
              after,
              ap (◌∷◌ x) parts,
              rw short (found ∙ ap some (omega arith)),
              omega arith,
              omega arith,
            )
      ]

  -- Entries of some size are split behind the one at which their running total reaches half.
  pub byte_midpoint_lem :
      (entries : List A)
      → 0 < sizes_of entries
      → (before : List A) × (x : A) × (after : List A) × (byte_midpoint (map size entries)
          ≡ some (length before + 1))
        × Middle entries before x after
  unfolding byte_midpoint
  byte_midpoint_lem entries h =
      let (before, x, after, parts, found, below, reached) =
        reaches_half_lem (sizes_of entries) 0 0 entries (omega arith) (omega arith) in
      (
        before,
        x,
        after,
        found ∙ ap some (omega arith),
        record { parts = parts; below = omega arith; reached = omega arith },
      )

-- A page's cells weigh their sizes and a slot each.
module _ {A : Type 0} (size : A → ℕ) (cell : A → Bytes)
    (cell_size : (x : A) → length (cell x) ≡ size x) where
  pub weight_total :
      (entries : List A)
      → weight (map cell entries) ≡ sizes_of size entries + slot_len * length entries
  weight_total [] = refl
  weight_total (x ∷ entries) = omega (arith, weight_total entries, cell_size x)
