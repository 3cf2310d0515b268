-- ===== src/Base/ByteString.antt =====
-- Byte strings: their order as slices (`[u8]`'s `Ord`), and integers as bytes, little- and
-- big-endian (`to_le_bytes`, `from_be_bytes` and the like of Rust's standard library).
use Prim.Native.Nat.{ℕ, zero, suc, ◌+◌, ◌*◌, ◌/◌, ◌%◌, ◌^◌, ◌≤◌, ◌<◌, compare, Ordering}
use mathlib.Core.Path.{◌≡◌, refl, ap}
use mathlib.Core.Logic.{◌≢◌}
use mathlib.Core.Bool.{Bool, true, false, ◌&&◌}
use mathlib.Core.List.{List, [], ◌∷◌, ◌++◌}
use native.Mathlib.Omega.{arith}
use trunkdb.Base.Tests.{◌==◌}
use trunkdb.Base.Lists.{length, All}

abbrev pub Bytes : Type 0
Bytes = List ℕ

abbrev pub IsByte : ℕ → Type 0
IsByte b = b < 256

-- `width` bytes of `v`, lowest first; a value that does not fit is cut, as `as u32` cuts it.
unfoldable pub to_le : ℕ → ℕ → Bytes
to_le zero v = []
to_le (suc width) v = (v % 256) ∷ to_le width (v / 256)

unfoldable pub from_le : Bytes → ℕ
from_le [] = 0
from_le (b ∷ bs) = b + 256 * from_le bs

-- `width` bytes of `v`, highest first.
unfoldable pub to_be : ℕ → ℕ → Bytes
to_be zero v = []
to_be (suc width) v = (v / 256 ^ width % 256) ∷ to_be width (v % 256 ^ width)

unfoldable pub from_be : Bytes → ℕ
from_be [] = 0
from_be (b ∷ bs) = b * 256 ^ length bs + from_be bs

-- The first difference decides, and a proper prefix comes first.
unfoldable pub compare_bytes : Bytes → Bytes → Ordering
compare_bytes [] [] = Ordering.eq
compare_bytes [] (y ∷ ys) = Ordering.lt
compare_bytes (x ∷ xs) [] = Ordering.gt
compare_bytes (x ∷ xs) (y ∷ ys) = elim (compare x y) [
  | Ordering.lt ↦ Ordering.lt
  | Ordering.eq ↦ compare_bytes xs ys
  | Ordering.gt ↦ Ordering.gt
]

abbrev pub ltb_bytes : Bytes → Bytes → Bool
ltb_bytes a b = elim (compare_bytes a b) [ Ordering.lt ↦ true | _ ↦ false ]

abbrev pub leb_bytes : Bytes → Bytes → Bool
leb_bytes a b = elim (compare_bytes a b) [ Ordering.gt ↦ false | _ ↦ true ]

-- `[u8]`'s `==`.
unfoldable pub eq_bytes : Bytes → Bytes → Bool
eq_bytes [] [] = true
eq_bytes (x ∷ xs) (y ∷ ys) = x == y && eq_bytes xs ys
eq_bytes _ _ = false

abbrev pub flip_ordering : Ordering → Ordering
flip_ordering Ordering.lt = Ordering.gt
flip_ordering Ordering.eq = Ordering.eq
flip_ordering Ordering.gt = Ordering.lt

pub eq_bytes→eq : (a b : Bytes) → eq_bytes a b ≡ true → a ≡ b
unfolding eq_bytes
eq_bytes→eq [] [] h = refl
eq_bytes→eq (x ∷ xs) (y ∷ ys) h = ground (arith, eq_bytes→eq xs ys)
eq_bytes→eq [] (y ∷ ys) h = cc
eq_bytes→eq (x ∷ xs) [] h = cc

pub eq_bytes_refl : (a : Bytes) → eq_bytes a a ≡ true
unfolding eq_bytes
eq_bytes_refl [] = refl
eq_bytes_refl (x ∷ xs) = ground (arith, eq_bytes_refl xs)

pub compare_bytes_refl : (a : Bytes) → compare_bytes a a ≡ Ordering.eq
unfolding compare_bytes
compare_bytes_refl [] = refl
compare_bytes_refl (x ∷ xs) = ground (arith, compare_bytes_refl xs)

pub compare_bytes-eq : (a b : Bytes) → compare_bytes a b ≡ Ordering.eq → a ≡ b
unfolding compare_bytes
compare_bytes-eq [] [] h = refl
compare_bytes-eq [] (y ∷ ys) h = cc
compare_bytes-eq (x ∷ xs) [] h = cc
compare_bytes-eq (x ∷ xs) (y ∷ ys) h = ground (arith, compare_bytes-eq xs ys)

pub compare_bytes_flip : (a b : Bytes) → compare_bytes b a ≡ flip_ordering (compare_bytes a b)
unfolding compare_bytes
compare_bytes_flip [] [] = refl
compare_bytes_flip [] (y ∷ ys) = refl
compare_bytes_flip (x ∷ xs) [] = refl
compare_bytes_flip (x ∷ xs) (y ∷ ys) = ground (arith, compare_bytes_flip xs ys)

pub compare_bytes_trans :
    (a b c : Bytes)
    → compare_bytes a b ≡ Ordering.lt
    → compare_bytes b c ≢ Ordering.gt
    → compare_bytes a c ≡ Ordering.lt
unfolding compare_bytes
compare_bytes_trans [] [] c h k = cc
compare_bytes_trans (x ∷ xs) [] c h k = cc
compare_bytes_trans [] (y ∷ ys) [] h k = absurd (k refl)
compare_bytes_trans [] (y ∷ ys) (z ∷ zs) h k = refl
compare_bytes_trans (x ∷ xs) (y ∷ ys) [] h k = absurd (k refl)
compare_bytes_trans (x ∷ xs) (y ∷ ys) (z ∷ zs) h k = ground (arith, compare_bytes_trans xs ys zs)

pub compare_bytes_le_trans :
    (a b c : Bytes)
    → compare_bytes a b ≢ Ordering.gt
    → compare_bytes b c ≢ Ordering.gt
    → compare_bytes a c ≢ Ordering.gt
unfolding compare_bytes
compare_bytes_le_trans [] b [] h k = λ e. cc
compare_bytes_le_trans [] b (z ∷ zs) h k = λ e. cc
compare_bytes_le_trans (x ∷ xs) [] c h k = absurd (h refl)
compare_bytes_le_trans (x ∷ xs) (y ∷ ys) [] h k = absurd (k refl)
compare_bytes_le_trans (x ∷ xs) (y ∷ ys) (z ∷ zs) h k =
    ground (arith, compare_bytes_le_trans xs ys zs)

-- A common prefix does not count.
pub compare_bytes-append : (p a b : Bytes) → compare_bytes (p ++ a) (p ++ b) ≡ compare_bytes a b
unfolding compare_bytes
compare_bytes-append [] a b = refl
compare_bytes-append (x ∷ p) a b = ground (arith, compare_bytes-append p a b)

pub compare_bytes_prefix : (p a : Bytes) → compare_bytes p (p ++ a) ≢ Ordering.gt
unfolding compare_bytes
compare_bytes_prefix [] [] = λ e. cc
compare_bytes_prefix [] (x ∷ a) = λ e. cc
compare_bytes_prefix (x ∷ p) a = ground (arith, compare_bytes_prefix p a)

pub length-to_le : (n v : ℕ) → length (to_le n v) ≡ n
unfolding to_le
length-to_le zero v = refl
length-to_le (suc n) v = ap suc (length-to_le n (v / 256))

pub length-to_be : (n v : ℕ) → length (to_be n v) ≡ n
unfolding to_be
length-to_be zero v = refl
length-to_be (suc n) v = ap suc (length-to_be n (v % 256 ^ n))

pub to_le-IsByte : (n v : ℕ) → All IsByte (to_le n v)
unfolding to_le
to_le-IsByte zero v = tt
to_le-IsByte (suc n) v = (omega arith, to_le-IsByte n (v / 256))

pub to_be-IsByte : (n v : ℕ) → All IsByte (to_be n v)
unfolding to_be
to_be-IsByte zero v = tt
to_be-IsByte (suc n) v = (omega arith, to_be-IsByte n (v % 256 ^ n))

pub from_le-to_le : (n v : ℕ) → v < 256 ^ n → from_le (to_le n v) ≡ v
unfolding to_le from_le
from_le-to_le zero v h = omega arith
from_le-to_le (suc n) v h = omega (arith, from_le-to_le n (v / 256) (omega arith))

pub to_le-from_le : (bs : Bytes) → All IsByte bs → to_le (length bs) (from_le bs) ≡ bs
unfolding to_le from_le
to_le-from_le [] h = refl
to_le-from_le (b ∷ bs) (h, hs) =
    let low : (b + 256 * from_le bs) % 256 ≡ b = omega arith in
    let high : (b + 256 * from_le bs) / 256 ≡ from_le bs = omega arith in
    rw (low, high) (ap (◌∷◌ b) (to_le-from_le bs hs))

pow_pos : (n : ℕ) → 0 < 256 ^ n
pow_pos zero = omega arith
pow_pos (suc n) = omega (arith, pow_pos n)

head_fits : (p v : ℕ) → 0 < p → v < 256 * p → v / p < 256
head_fits p v h k = grind arith

quotient : (p v : ℕ) → 0 < p → (v / p * p + v % p ≡ v) × (v % p < p)
quotient p v h = (grind arith, grind arith)

pub from_be-to_be : (n v : ℕ) → v < 256 ^ n → from_be (to_be n v) ≡ v
unfolding to_be from_be
from_be-to_be zero v h = omega arith
from_be-to_be (suc n) v h =
    let p = 256 ^ n in
    let positive = pow_pos n in
    let rest = from_be-to_be n (v % 256 ^ n) (quotient p v positive).1 in
    let top : v / 256 ^ n % 256 ≡ v / 256 ^ n =
      omega (arith, head_fits (256 ^ n) v positive (omega arith)) in
    rw (top, length-to_be n (v % 256 ^ n), rest) ((quotient p v positive).0)

mul_gap : (p x y : ℕ) → x < y → x * p + p ≤ y * p
mul_gap p x y h = grind arith

-- Comparison by the quotient first, and by the remainder where the quotients agree.
compare_split :
    (p a b : ℕ)
    → 0 < p
    → compare a b ≡ elim (compare (a / p) (b / p)) [
      | Ordering.lt ↦ Ordering.lt
      | Ordering.eq ↦ compare (a % p) (b % p)
      | Ordering.gt ↦ Ordering.gt
    ]
compare_split p a b h =
    ground
      (arith, quotient p a h, quotient p b h, mul_gap p (a / p) (b / p), mul_gap p (b / p) (a / p))

-- Big-endian bytes of one width sort as the numbers do.
pub compare_bytes-to_be :
    (n a b : ℕ) → a < 256 ^ n → b < 256 ^ n → compare_bytes (to_be n a) (to_be n b) ≡ compare a b
unfolding compare_bytes to_be
compare_bytes-to_be zero a b ha hb = ground arith
compare_bytes-to_be (suc n) a b ha hb =
    let p = 256 ^ n in
    let positive = pow_pos n in
    let top_a : a / 256 ^ n % 256 ≡ a / 256 ^ n =
      omega (arith, head_fits (256 ^ n) a positive (omega arith)) in
    let top_b : b / 256 ^ n % 256 ≡ b / 256 ^ n =
      omega (arith, head_fits (256 ^ n) b positive (omega arith)) in
    let rest =
      compare_bytes-to_be n (a % p) (b % p) (quotient p a positive).1 (quotient p b positive).1 in
    ground (arith, top_a, top_b, rest, compare_split p a b positive)
