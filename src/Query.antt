-- ===== src/Query.antt =====
-- What src/query.rs says of single values: how two compare, and whether an operator holds.
use trunkdb.Base.{
  ℕ, ◌+◌, ◌*◌, ◌^◌, Ordering, Bool, true, false, ◌&&◌, Option, none, some, leb, ltb, if◌then◌else◌,
}
use trunkdb.Base.ByteString.{compare_bytes, flip_ordering}
use trunkdb.Base.Int.{ℤ}
use trunkdb.Float.{is_nan, partial_cmp, compare_non_nan, trunc, as_i64, is_negative, magnitude}
use trunkdb.DateTime.{compare_ℤ, compare_times}
use trunkdb.Document.{Document}

pub data Op : Type 0 where
  eq ne lt lte gt gte contains starts_with : Op

abbrev two_pow_63 : ℕ
two_pow_63 = (1023 + 63) * 2 ^ 52

-- `then_with`
abbrev then_with : Ordering → Ordering → Ordering
then_with Ordering.lt o = Ordering.lt
then_with Ordering.eq o = o
then_with Ordering.gt o = Ordering.gt

-- By exact value: the whole parts as integers, then the fraction.
unfoldable pub int_vs_float : ℤ → ℕ → Option Ordering
unfolding is_nan compare_non_nan magnitude is_negative
int_vs_float i f =
    if is_nan f
    then none
    else if leb two_pow_63 (magnitude f) && (if is_negative f then false else true)
    then some Ordering.lt
    else if is_negative f && ltb two_pow_63 (magnitude f)
    then some Ordering.gt
    else some (then_with (compare_ℤ i (as_i64 (trunc f))) (compare_non_nan (trunc f) f))

abbrev map_flip : Option Ordering → Option Ordering
map_flip none = none
map_flip (some o) = some (flip_ordering o)

unfoldable pub compare_bools : Bool → Bool → Ordering
compare_bools false true = Ordering.lt
compare_bools true false = Ordering.gt
compare_bools _ _ = Ordering.eq

-- `query::compare`
unfoldable pub compare_values : Document → Document → Option Ordering
compare_values Document.null Document.null = some Ordering.eq
compare_values (Document.int x) (Document.int y) = some (compare_ℤ x y)
compare_values (Document.float x) (Document.float y) = partial_cmp x y
compare_values (Document.int x) (Document.float y) = int_vs_float x y
compare_values (Document.float x) (Document.int y) = map_flip (int_vs_float y x)
compare_values (Document.string x) (Document.string y) = some (compare_bytes x y)
compare_values (Document.bool x) (Document.bool y) = some (compare_bools x y)
compare_values (Document.id x) (Document.id y) = some (compare_bytes x y)
compare_values (Document.date_time x) (Document.date_time y) = some (compare_times x y)
compare_values (Document.binary x) (Document.binary y) = some (compare_bytes x y)
compare_values _ _ = none

-- Whether `op` holds of two values that compare as `ord`.
unfoldable pub holds : Op → Option Ordering → Bool
holds eq (some Ordering.eq) = true
holds ne (some Ordering.eq) = false
holds ne _ = true
holds lt (some Ordering.lt) = true
holds lte (some Ordering.lt) = true
holds lte (some Ordering.eq) = true
holds gt (some Ordering.gt) = true
holds gte (some Ordering.gt) = true
holds gte (some Ordering.eq) = true
holds _ _ = false
