-- ===== src/TopBits.antt =====
-- The highest bit of a number, which src/index/key.rs rounds by in `n as f64`.
use trunkdb.Base.{ℕ, zero, suc, ◌+◌, ◌*◌, ◌^◌, ◌≤◌, ◌<◌, ◌≡◌, inl, inr, arith, Bool-cases, leb}
use trunkdb.Float.{top_bit}

pub power_pos : (n : ℕ) → 0 < 2 ^ n
power_pos zero = omega arith
power_pos (suc n) = omega (arith, power_pos n)

pub power_mono : (j d : ℕ) → 2 ^ j ≤ 2 ^ (j + d)
power_mono j zero = let e : j + 0 ≡ j = omega arith in rw e (omega arith)
power_mono j (suc d) =
    let e : j + suc d ≡ suc (j + d) = omega arith in rw e (omega (arith, power_mono j d))

pub top_bit-lt : (k n : ℕ) → n < 2 ^ suc k → n < 2 ^ suc (top_bit k n)
unfolding top_bit
top_bit-lt zero n h = h
top_bit-lt (suc k) n h = elim (Bool-cases (leb (2 ^ suc k) n)) [
  | inl high ↦ rw high h
  | inr low ↦ rw low (top_bit-lt k n (ground (arith, low)))
]

pub top_bit-le : (k n : ℕ) → 0 < n → 2 ^ top_bit k n ≤ n
unfolding top_bit
top_bit-le zero n h = omega arith
top_bit-le (suc k) n h = elim (Bool-cases (leb (2 ^ suc k) n)) [
  | inl high ↦ rw high (ground (arith, high))
  | inr low ↦ rw low (top_bit-le k n h)
]

pub top_bit_bound : (k n : ℕ) → top_bit k n ≤ k
unfolding top_bit
top_bit_bound zero n = omega arith
top_bit_bound (suc k) n = elim (Bool-cases (leb (2 ^ suc k) n)) [
  | inl high ↦ rw high (omega arith)
  | inr low ↦ rw low (omega (arith, top_bit_bound k n))
]

pub power_split : (k c : ℕ) → 2 ^ (k + c) ≡ 2 ^ k * 2 ^ c
power_split k zero = let e : k + 0 ≡ k = omega arith in rw e (omega arith)
power_split k (suc c) =
    let e : k + suc c ≡ suc (k + c) = omega arith in
    let rest = power_split k c in rw e (grind (arith, rest))
