-- ===== src/Index/Key/Contains.antt =====
-- src/index/key.rs: which keys a range holds.
use mathlib.Core.List.{reverse, reverse-append, reverse-cons}
use mathlib.Core.Option.{some-injective}
use trunkdb.Base.{
  ℕ, ◌+◌, ◌≡◌, refl, ap, ◌∙◌, ◌⊎◌, inl, inr, arith, Ordering, Bool, true, false, ◌&&◌, Option, none,
  some, [], ◌∷◌, ◌++◌, length, All, All-append, ltb, ◌==◌, if◌then◌else◌, Bytes, IsByte, Bool-cases,
}
use trunkdb.Base.ByteString.{
  compare_bytes, ltb_bytes, leb_bytes, compare_bytes-append, compare_bytes_le_trans,
  compare_bytes_trans, compare_bytes_flip, compare_bytes_prefix,
}
use trunkdb.Query.{Op, holds}
use trunkdb.Index.Key.Defs.{primary}
use trunkdb.Index.Key.Range.{
  KeyRange, pop_full, prefix_end, prefixed, intersect, below_end, contains_key, under, end_under,
  max_bytes, min_bytes, earlier_end, primary_range,
}

-- `key.starts_with(prefix)`
unfoldable pub is_prefix : Bytes → Bytes → Bool
is_prefix [] key = true
is_prefix (b ∷ bs) [] = false
is_prefix (b ∷ bs) (c ∷ key) = b == c && is_prefix bs key

abbrev pub onto_end : ℕ → Option Bytes → Option Bytes
onto_end b (some e) = some (b ∷ e)
onto_end b none = if ltb b 0xFF then some ((b + 1) ∷ []) else none

-- `prefix_end` from the front.
unfoldable pub end_after : Bytes → Option Bytes
end_after [] = none
end_after (b ∷ bs) = onto_end b (end_after bs)

pop_full-concat : (r : Bytes) (b : ℕ) → pop_full (r ++ b ∷ []) ≡ onto_end b (pop_full r)
unfolding pop_full
pop_full-concat [] b = refl
pop_full-concat (l ∷ r) b = elim (Bool-cases (ltb l 0xFF)) [
  | inl stops ↦ rw stops (ap some (reverse-append ((l + 1) ∷ r) (b ∷ [])))
  | inr full ↦ rw full (pop_full-concat r b)
]

pop_full-reverse : (p : Bytes) → pop_full (reverse p) ≡ end_after p
unfolding end_after
pop_full-reverse [] = unfold pop_full in refl
pop_full-reverse (b ∷ bs) =
    ap pop_full (reverse-cons b bs)
    ∙ pop_full-concat (reverse bs) b
    ∙ ap (onto_end b) (pop_full-reverse bs)

pub prefix_end-end_after : (p : Bytes) → prefix_end p ≡ end_after p
unfolding prefix_end
prefix_end-end_after p = pop_full-reverse p

not_before_empty :
    (key : Bytes) → (compare_bytes key [] ≡ Ordering.eq) ⊎ (compare_bytes key [] ≡ Ordering.gt)
unfolding compare_bytes
not_before_empty [] = inl refl
not_before_empty (c ∷ key) = inr refl

between_is_prefix :
    (p key : Bytes)
    → All IsByte key
    → (leb_bytes p key && below_end (end_after p) key) ≡ is_prefix p key
unfolding compare_bytes below_end end_after is_prefix
between_is_prefix [] [] h = refl
between_is_prefix [] (c ∷ key) h = refl
between_is_prefix (b ∷ p) [] h = refl
between_is_prefix (b ∷ p) (c ∷ key) (h, hs) = by_end (end_after p) (between_is_prefix p key hs)
  where
    by_end :
        (e : Option Bytes)
        → (leb_bytes p key && below_end e key) ≡ is_prefix p key
        → (leb_bytes (b ∷ p) (c ∷ key) && below_end (onto_end b e) (c ∷ key))
          ≡ (b == c && is_prefix p key)
    by_end (some e) ih = ground arith
    by_end none ih = ground (arith, not_before_empty key)

pub is_prefix_append : (p key : Bytes) → is_prefix p (p ++ key) ≡ true
unfolding is_prefix
is_prefix_append [] key = refl
is_prefix_append (b ∷ p) key = ground (arith, is_prefix_append p key)

-- The range of a prefix holds exactly the keys that begin with it.
pub prefixed_lem :
    (p key : Bytes) → All IsByte key → contains_key (prefixed p) key ≡ is_prefix p key
unfolding contains_key prefixed
prefixed_lem p key h = rw prefix_end-end_after (between_is_prefix p key h)

max_below :
    (a b key : Bytes)
    → leb_bytes (if leb_bytes a b then b else a) key ≡ (leb_bytes a key && leb_bytes b key)
max_below a b key =
    ground (
      arith,
      compare_bytes_le_trans a b key,
      compare_bytes_le_trans b a key,
      compare_bytes_flip a b,
    )

min_above :
    (a b key : Bytes)
    → ltb_bytes key (if leb_bytes a b then a else b) ≡ (ltb_bytes key a && ltb_bytes key b)
min_above a b key =
    ground (arith, compare_bytes_trans key a b, compare_bytes_trans key b a, compare_bytes_flip a b)

below_earlier :
    (d e : Option Bytes) (key : Bytes)
    → below_end (earlier_end d e) key ≡ (below_end d key && below_end e key)
unfolding below_end earlier_end min_bytes
below_earlier none e key = refl
below_earlier (some a) none key = ground arith
below_earlier (some a) (some b) key = min_above a b key

-- A range that two ranges meet in holds exactly the keys that both hold.
pub intersect_lem :
    (r s : KeyRange) (key : Bytes)
    → contains_key (intersect r s) key ≡ (contains_key r key && contains_key s key)
unfolding contains_key intersect max_bytes
intersect_lem r s key = ground (arith, max_below r.start s.start key, below_earlier r.end s.end key)

-- A range moved under a prefix holds, of the keys with that prefix, those whose rest it held.
pub under_append :
    (r : KeyRange) (p key : Bytes)
    → All IsByte key
    → All IsByte p
    → contains_key (under r p) (p ++ key) ≡ contains_key r key
unfolding contains_key under end_under below_end
under_append r p key h hp = by_end r.end
  where
    by_end :
        (e : Option Bytes)
        → (leb_bytes (p ++ r.start) (p ++ key) && below_end (end_under p e) (p ++ key))
          ≡ (leb_bytes r.start key && below_end e key)
    by_end (some e) =
        ground (arith, compare_bytes-append p r.start key, compare_bytes-append p key e)
    by_end none = ground (
      arith,
      compare_bytes-append p r.start key,
      compare_bytes_prefix p key,
      between_is_prefix p (p ++ key) (All-append IsByte p key hp h),
      prefix_end-end_after p,
      is_prefix_append p key,
    )

pub empty_first : (key : Bytes) → leb_bytes [] key ≡ true
unfolding compare_bytes
empty_first [] = refl
empty_first (b ∷ key) = refl

-- The first string behind `y`.
after_id :
    (x y : Bytes)
    → length x ≡ length y
    → compare_bytes x (y ++ 0 ∷ [])
      ≡ (elim (compare_bytes x y) [ Ordering.gt ↦ Ordering.gt | _ ↦ Ordering.lt ])
unfolding compare_bytes
after_id [] [] e = refl
after_id [] (y ∷ ys) e = absurd (omega arith)
after_id (x ∷ xs) [] e = absurd (omega arith)
after_id (x ∷ xs) (y ∷ ys) e = ground (arith, after_id xs ys)

-- The range that a condition on the id reads holds exactly the ids that compare so with the one
-- given.
pub primary_range_exact :
    (op : Op) (id other : Bytes) (r : KeyRange)
    → length other ≡ length id
    → primary_range op id ≡ some r
    → contains_key r (primary other) ≡ holds op (some (compare_bytes other id))
unfolding primary_range primary contains_key holds
primary_range_exact Op.eq id other r e h =
    rw (← some-injective _ _ h) (ground (arith, after_id other id e, compare_bytes_flip id other))
primary_range_exact Op.gt id other r e h =
    rw (← some-injective _ _ h)
      (ground (arith, after_id other id e, compare_bytes_flip (id ++ 0 ∷ []) other))
primary_range_exact Op.gte id other r e h =
    rw (← some-injective _ _ h) (ground (arith, compare_bytes_flip id other))
primary_range_exact Op.lt id other r e h =
    rw (← some-injective _ _ h) (ground (arith, empty_first other))
primary_range_exact Op.lte id other r e h =
    rw (← some-injective _ _ h) (ground (arith, empty_first other, after_id other id e))
primary_range_exact _ id other r e h = cc
