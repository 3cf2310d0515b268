-- ===== src/Rounding.antt =====
-- `n as f64` of src/index/key.rs: rounding to the nearest keeps the order of integers.
use trunkdb.Base.{
  ℕ, zero, suc, ◌+◌, ◌-◌, ◌*◌, ◌/◌, ◌%◌, ◌^◌, ◌≤◌, ◌<◌, ◌≡◌, refl, sym, inl, inr, arith, ◌&&◌, ◌||◌,
  le_cases, le_or_lt, ltb, ◌==◌, if◌then◌else◌,
}
use native.Mathlib.Nat.{mul_assoc}
use trunkdb.TopBits.{power_pos, power_mono, top_bit-lt, top_bit-le, top_bit_bound, power_split}
use trunkdb.Float.{top_bit, magnitude_of}

-- The quotient's bounds, and its order.
kept_bounds :
    (p n : ℕ) → 0 < p → 2 ^ 52 * p ≤ n → n < 2 ^ 53 * p → (2 ^ 52 ≤ n / p) × (n / p < 2 ^ 53)
kept_bounds p n h lo hi = (grind arith, grind arith)

kept_mono : (p n m : ℕ) → 0 < p → n ≤ m → n / p ≤ m / p
kept_mono p n m h le = grind arith

lost_mono : (p n m : ℕ) → 0 < p → n ≤ m → n / p ≡ m / p → n % p ≤ m % p
lost_mono p n m h le same = grind arith

-- What is added for the bits cut off.
abbrev carry : ℕ → ℕ → ℕ → ℕ
carry cut p n =
    if ltb (p / 2) (n % p) || (n % p == p / 2 && n / p % 2 == 1 && ltb 0 cut) then 1 else 0

carry_le : (cut p n : ℕ) → carry cut p n ≤ 1
carry_le cut p n = ground arith

carry_mono : (cut p n m : ℕ) → n % p ≤ m % p → n / p ≡ m / p → carry cut p n ≤ carry cut p m
carry_mono cut p n m le same = ground arith

rounded_mono : (cut p n m : ℕ) → 0 < p → n ≤ m → n / p + carry cut p n ≤ m / p + carry cut p m
rounded_mono cut p n m h le = elim (le_cases (n / p) (m / p) (kept_mono p n m h le)) [
  | inl less ↦ omega (arith, carry_le cut p n)
  | inr same ↦ omega (arith, carry_mono cut p n m (lost_mono p n m h le same) same)
]

-- The magnitude with the top bit and the power of the cut given.
small_magnitude :
    (n k : ℕ)
    → 0 < n
    → top_bit 63 n ≡ k
    → k ≤ 52
    → magnitude_of n ≡ (1023 + k) * 2 ^ 52 + (n * 2 ^ (52 - k) - 2 ^ 52)
unfolding magnitude_of
small_magnitude n k h e le = ground (arith, h, e, le)

large_magnitude :
    (n k : ℕ)
    → 0 < n
    → top_bit 63 n ≡ k
    → 52 < k
    → magnitude_of n
      ≡ (1023 + k) * 2 ^ 52 + (n / 2 ^ (k - 52) - 2 ^ 52) + carry (k - 52) (2 ^ (k - 52)) n
unfolding magnitude_of
large_magnitude n k h e le = ground (arith, h, e, le)

-- A number with its top bit at `k`.
record IsTop (n k : ℕ) : Type 0 where
  positive : 0 < n
  top : top_bit 63 n ≡ k
  lower : 2 ^ k ≤ n
  upper : n < 2 * 2 ^ k
  bound : k ≤ 63

positive-IsTop : (n : ℕ) → 0 < n → n < 2 ^ 64 → IsTop n (top_bit 63 n)
positive-IsTop n h lt = record {
  positive = h;
  top = refl;
  lower = top_bit-le 63 n h;
  upper = omega (arith, top_bit-lt 63 n lt);
  bound = top_bit_bound 63 n;
}

mul_lt : (n m b : ℕ) → 0 < b → n < m → n * b < m * b
mul_lt n m b h less = grind arith

shifted_bounds :
    (n k : ℕ) → IsTop n k → k ≤ 52 → (2 ^ 52 ≤ n * 2 ^ (52 - k)) × (n * 2 ^ (52 - k) < 2 ^ 53)
shifted_bounds n k h le =
    let whole : k + (52 - k) ≡ 52 = omega arith in
    let split : 2 ^ 52 ≡ 2 ^ k * 2 ^ (52 - k) = rw whole at (power_split k (52 - k)) in
    scaled n (2 ^ k) (2 ^ (52 - k)) h.lower h.upper (power_pos (52 - k)) split
  where
    scaled :
        (n a b : ℕ)
        → a ≤ n
        → n < 2 * a
        → 0 < b
        → 2 ^ 52 ≡ a * b
        → (2 ^ 52 ≤ n * b) × (n * b < 2 ^ 53)
    scaled n a b lo hi pos e =
        (grind arith, omega (arith, mul_lt n (2 * a) b pos hi, mul_assoc 2 a b, e))

cut_bounds :
    (n k : ℕ) → IsTop n k → 52 < k → (2 ^ 52 ≤ n / 2 ^ (k - 52)) × (n / 2 ^ (k - 52) < 2 ^ 53)
cut_bounds n k h lt =
    let whole : 52 + (k - 52) ≡ k = omega arith in
    let split : 2 ^ k ≡ 2 ^ 52 * 2 ^ (k - 52) = rw whole at (power_split 52 (k - 52)) in
    kept_bounds (2 ^ (k - 52)) n (power_pos (k - 52)) (omega (arith, h.lower, split))
      (omega (arith, h.upper, split))

magnitude_bounds :
    (n k : ℕ)
    → IsTop n k
    → ((1023 + k) * 2 ^ 52 ≤ magnitude_of n) × (magnitude_of n ≤ (1024 + k) * 2 ^ 52)
magnitude_bounds n k h = elim (le_or_lt k 52) [
  | inl small ↦
      let value = small_magnitude n k h.positive h.top small in
      let bounds = shifted_bounds n k h small in
      (omega (arith, value, bounds.0), omega (arith, value, bounds.1))
  | inr large ↦
      let value = large_magnitude n k h.positive h.top large in
      let bounds = cut_bounds n k h large in
      let little = carry_le (k - 52) (2 ^ (k - 52)) n in
      (omega (arith, value, bounds.0), omega (arith, value, bounds.1, little))
]

same_top : (n m k : ℕ) → IsTop n k → IsTop m k → n ≤ m → magnitude_of n ≤ magnitude_of m
same_top n m k h g le = elim (le_or_lt k 52) [
  | inl small ↦
      let low = small_magnitude n k h.positive h.top small in
      let high = small_magnitude m k g.positive g.top small in
      let scaled : n * 2 ^ (52 - k) ≤ m * 2 ^ (52 - k) = grind arith in
      omega (arith, low, high, scaled)
  | inr large ↦
      let low = large_magnitude n k h.positive h.top large in
      let high = large_magnitude m k g.positive g.top large in
      let rounded = rounded_mono (k - 52) (2 ^ (k - 52)) n m (power_pos (k - 52)) le in
      let bounds = cut_bounds n k h large in
      let bounds' = cut_bounds m k g large in omega (arith, low, high, rounded, bounds.0, bounds'.0)
]

top_mono : (n m j k : ℕ) → IsTop n j → IsTop m k → n ≤ m → j ≤ k
top_mono n m j k h g le = elim (le_or_lt j k) [
  | inl fine ↦ fine
  | inr more ↦
      let whole : suc k + (j - suc k) ≡ j = omega arith in
      let power : 2 ^ suc k ≤ 2 ^ j = rw whole at (power_mono (suc k) (j - suc k)) in
      absurd (omega (arith, power, h.lower, g.upper))
]

-- A larger number is rounded to no smaller one.
pub magnitude_of_mono : (n m : ℕ) → m < 2 ^ 64 → n ≤ m → magnitude_of n ≤ magnitude_of m
magnitude_of_mono zero m lt le = unfold magnitude_of in omega arith
magnitude_of_mono (suc n) m lt le =
    let h = positive-IsTop (suc n) (omega arith) (omega arith) in
    let g = positive-IsTop m (omega arith) lt in
    elim (le_cases _ _ (top_mono (suc n) m _ _ h g le)) [
      | inl less ↦ omega (arith, (magnitude_bounds (suc n) _ h).1, (magnitude_bounds m _ g).0, less)
      | inr same ↦ same_top (suc n) m _ (rw same at h) g le
    ]

-- No 64-bit integer is rounded to an infinity.
pub magnitude_of-lt : (n : ℕ) → n < 2 ^ 64 → magnitude_of n < 2047 * 2 ^ 52
magnitude_of-lt zero lt = unfold magnitude_of in omega arith
magnitude_of-lt (suc n) lt =
    let h = positive-IsTop (suc n) (omega arith) lt in
    omega (arith, (magnitude_bounds (suc n) _ h).1, h.bound)

pub magnitude_of_pos : (n : ℕ) → 0 < n → n < 2 ^ 64 → 0 < magnitude_of n
magnitude_of_pos n h lt = omega (arith, (magnitude_bounds n _ (positive-IsTop n h lt)).0)

top_small : (n k : ℕ) → IsTop n k → n < 2 ^ 53 → k ≤ 52
top_small n k h lt = elim (le_or_lt k 52) [
  | inl fine ↦ fine
  | inr more ↦
      let whole : 53 + (k - 53) ≡ k = omega arith in
      let power : 2 ^ 53 ≤ 2 ^ k = rw whole at (power_mono 53 (k - 53)) in
      absurd (omega (arith, power, h.lower))
]

small_lt :
    (n m j k : ℕ) → IsTop n j → IsTop m k → n < m → j ≤ k → k ≤ 52 → magnitude_of n < magnitude_of m
small_lt n m j k h g less le small =
    let low = small_magnitude n j h.positive h.top (omega arith) in
    let high = small_magnitude m k g.positive g.top small in
    let bounds = shifted_bounds n j h (omega arith) in
    let bounds' = shifted_bounds m k g small in
    elim (le_cases j k le) [
      | inl apart ↦ omega (arith, low, high, bounds.1, bounds'.0, apart)
      | inr same ↦
          let scaled : n * 2 ^ (52 - j) < m * 2 ^ (52 - j) =
            mul_lt n m (2 ^ (52 - j)) (power_pos (52 - j)) less in
          let high' : magnitude_of m ≡ (1023 + j) * 2 ^ 52 + (m * 2 ^ (52 - j) - 2 ^ 52) =
            rw (sym same) at high in
          omega (arith, low, high', scaled, bounds.0)
    ]

-- A number below 2^53 is not rounded: a larger one gives a larger one.
pub magnitude_of_strict : (n m : ℕ) → m < 2 ^ 53 → n < m → magnitude_of n < magnitude_of m
magnitude_of_strict zero m lt less =
    let g = positive-IsTop m (omega arith) (omega arith) in
    let none : magnitude_of 0 ≡ 0 = unfold magnitude_of in refl in
    omega (arith, none, (magnitude_bounds m _ g).0)
magnitude_of_strict (suc n) m lt less =
    let h = positive-IsTop (suc n) (omega arith) (omega arith) in
    let g = positive-IsTop m (omega arith) (omega arith) in
    small_lt (suc n) m _ _ h g less (top_mono (suc n) m _ _ h g (omega arith)) (top_small m _ g lt)
