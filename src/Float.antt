-- ===== src/Float.antt =====
-- `f64` as its IEEE 754 bit pattern, a number below 2 ^ 64: the sign bit, 11 bits of exponent and
-- 52 of fraction. What index/key.rs and query.rs use of it: `is_nan`, `==`, `partial_cmp`, `abs`,
-- `trunc`, and the conversions `as f64` (to the nearest, ties to even) and `as i64`.
use trunkdb.Base.{
  ℕ, zero, suc, ◌+◌, ◌-◌, ◌*◌, ◌/◌, ◌%◌, ◌^◌, ◌<◌, compare, Ordering, Bool, ◌&&◌, ◌||◌, Option,
  none, some, ltb, leb, ◌==◌, if◌then◌else◌,
}
use trunkdb.Base.Int.{ℤ, pos, negsuc}

abbrev pub IsF64 : ℕ → Type 0
IsF64 f = f < 2 ^ 64

-- Exponent and fraction, without the sign.
unfoldable pub magnitude : ℕ → ℕ
magnitude f = f % 2 ^ 63

unfoldable pub is_negative : ℕ → Bool
is_negative f = leb (2 ^ 63) f

abbrev pub infinity_bits : ℕ
infinity_bits = 2047 * 2 ^ 52

unfoldable pub is_nan : ℕ → Bool
unfolding magnitude
is_nan f = ltb infinity_bits (magnitude f)

unfoldable pub is_zero : ℕ → Bool
unfolding magnitude
is_zero f = magnitude f == 0

-- Finite values and infinities are ordered by sign, then by magnitude: that of the bits.
unfoldable pub compare_non_nan : ℕ → ℕ → Ordering
unfolding magnitude is_negative is_zero
compare_non_nan f g =
    if is_zero f && is_zero g
    then Ordering.eq
    else if is_negative f
    then (if is_negative g then compare (magnitude g) (magnitude f) else Ordering.lt)
    else if is_negative g
    then Ordering.gt
    else compare (magnitude f) (magnitude g)

-- `partial_cmp`
unfoldable pub partial_cmp : ℕ → ℕ → Option Ordering
unfolding is_nan compare_non_nan
partial_cmp f g = if is_nan f || is_nan g then none else some (compare_non_nan f g)

exponent : ℕ → ℕ
exponent f = f % 2 ^ 63 / 2 ^ 52

-- `trunc`: below 1 in magnitude a zero of the sign, else the fraction's bits behind the point cleared.
unfoldable pub trunc : ℕ → ℕ
unfolding exponent
trunc f =
    let e = exponent f in
    if ltb e 1023 then f - f % 2 ^ 63 else if leb 1075 e then f else f - f % 2 ^ (1075 - e)

-- The whole value of a finite float that `trunc` gave, without its sign.
whole_magnitude : ℕ → ℕ
unfolding exponent
whole_magnitude f =
    let e = exponent f in
    let significand = 2 ^ 52 + f % 2 ^ 52 in
    if ltb e 1023
    then 0
    else if leb 1075 e
    then significand * 2 ^ (e - 1075)
    else significand / 2 ^ (1075 - e)

-- `whole as i64`, for a whole value that an `i64` holds.
unfoldable pub as_i64 : ℕ → ℤ
unfolding whole_magnitude is_negative
as_i64 f = let n = whole_magnitude f in if is_negative f && ltb 0 n then negsuc (n - 1) else pos n

-- The place of the highest bit set of a number below 2 ^ (k + 1).
unfoldable pub top_bit : ℕ → ℕ → ℕ
top_bit zero n = 0
top_bit (suc k) n = if leb (2 ^ suc k) n then suc k else top_bit k n

-- A number below 2 ^ 64 as the nearest `f64`, ties to an even fraction. A carry out of the
-- fraction raises the exponent, as it should.
unfoldable pub magnitude_of : ℕ → ℕ
unfolding top_bit
magnitude_of n =
    let k = top_bit 63 n in
    let cut = k - 52 in
    let kept = n / 2 ^ cut in
    let lost = n % 2 ^ cut in
    let half = 2 ^ cut / 2 in
    let up = ltb half lost || (lost == half && kept % 2 == 1 && ltb 0 cut) in
    if n == 0
    then 0
    else if leb k 52
    then (1023 + k) * 2 ^ 52 + (n * 2 ^ (52 - k) - 2 ^ 52)
    else (1023 + k) * 2 ^ 52 + (kept - 2 ^ 52) + (if up then 1 else 0)

-- `n as f64`, for an `i64`.
unfoldable pub from_i64 : ℤ → ℕ
unfolding magnitude_of
from_i64 (pos n) = magnitude_of n
from_i64 (negsuc n) = 2 ^ 63 + magnitude_of (suc n)
