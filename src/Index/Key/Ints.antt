-- ===== src/Index/Key/Ints.antt =====
-- src/index/key.rs: an `Int`'s key, which goes through `as f64`.
use trunkdb.Base.{
  ℕ, suc, ◌+◌, ◌-◌, ◌*◌, ◌^◌, ◌≤◌, ◌<◌, ◌≡◌, refl, sym, ap, ◌∙◌, inl, inr, arith, Ordering, Bool,
  true, false, ◌&&◌, some, ◌∷◌, length, le_cases, Bytes,
}
use trunkdb.Base.ByteString.{compare_bytes, compare_bytes-to_be, to_be, length-to_be}
use trunkdb.Base.Int.{ℤ, pos, negsuc, pos_part, neg_part, ◌≤ℤ◌, ◌<ℤ◌}
use trunkdb.DateTime.{compare_ℤ}
use trunkdb.Float.{is_nan, is_zero, from_i64, magnitude, magnitude_of}
use trunkdb.Index.Key.Before.{StrictlyBefore, StrictlyBefore-cons}
use trunkdb.Index.Key.Defs.{sortable_bits, encode_number, tag_number}
use trunkdb.Index.Key.Numbers.{
  normal, number_bytes, sortable_bits-lt, same_length, encode_number-bytes,
}
use trunkdb.Index.Key.Whole.{Sorts, is_whole_int}
use trunkdb.Rounding.{magnitude_of_mono, magnitude_of_strict, magnitude_of_pos, magnitude_of-lt}

abbrev pub IsI64 : ℤ → Type 0
IsI64 n = (pos_part n < 2 ^ 63) × (neg_part n ≤ 2 ^ 63)

abbrev key_bits : ℤ → ℕ
key_bits n = sortable_bits (normal (from_i64 n))

-- The bits of a finite `f64`, positive or negative.
positive_bits : (f : ℕ) → f < 2047 * 2 ^ 52 → sortable_bits (normal f) ≡ 2 ^ 63 + f
unfolding sortable_bits is_zero magnitude
positive_bits f h = ground arith

negative_bits :
    (f : ℕ) → 0 < f → f < 2047 * 2 ^ 52 → sortable_bits (normal (2 ^ 63 + f)) ≡ 2 ^ 63 - 1 - f
unfolding sortable_bits is_zero magnitude
negative_bits f positive h = ground arith

finite : (f : ℕ) → f < 2047 * 2 ^ 52 → (is_nan f ≡ false) × (is_nan (2 ^ 63 + f) ≡ false)
unfolding is_nan magnitude
finite f h = (ground arith, ground arith)

pos_bits : (n : ℕ) → n < 2 ^ 64 → key_bits (pos n) ≡ 2 ^ 63 + magnitude_of n
unfolding from_i64
pos_bits n h = positive_bits (magnitude_of n) (magnitude_of-lt n h)

negsuc_bits : (n : ℕ) → suc n < 2 ^ 64 → key_bits (negsuc n) ≡ 2 ^ 63 - 1 - magnitude_of (suc n)
unfolding from_i64
negsuc_bits n h =
    negative_bits (magnitude_of (suc n)) (magnitude_of_pos (suc n) (omega arith) h)
      (magnitude_of-lt (suc n) h)

from_i64-IsF64 : (n : ℤ) → IsI64 n → (from_i64 n < 2 ^ 64) × (is_nan (from_i64 n) ≡ false)
unfolding from_i64
from_i64-IsF64 (pos n) h =
    let small = magnitude_of-lt n (omega arith) in
    (omega (arith, small), (finite (magnitude_of n) small).0)
from_i64-IsF64 (negsuc n) h =
    let small = magnitude_of-lt (suc n) (omega arith) in
    (omega (arith, small), (finite (magnitude_of (suc n)) small).1)

key_bits_mono : (a b : ℤ) → IsI64 a → IsI64 b → a ≤ℤ b → key_bits a ≤ key_bits b
key_bits_mono (pos a) (pos b) ha hb le =
    let order = magnitude_of_mono a b (omega arith) (omega arith) in
    omega (arith, order, pos_bits a (omega arith), pos_bits b (omega arith))
key_bits_mono (pos a) (negsuc b) ha hb le = absurd (omega arith)
key_bits_mono (negsuc a) (pos b) ha hb le =
    omega (arith, negsuc_bits a (omega arith), pos_bits b (omega arith))
key_bits_mono (negsuc a) (negsuc b) ha hb le =
    let order = magnitude_of_mono (suc b) (suc a) (omega arith) (omega arith) in
    omega (arith, order, negsuc_bits a (omega arith), negsuc_bits b (omega arith))

is_whole_int-lt : (n : ℤ) → is_whole_int n ≡ true → pos_part n + neg_part n < 2 ^ 53
is_whole_int-lt n h = ground arith

key_bits_strict :
    (a b : ℤ) → is_whole_int a ≡ true → is_whole_int b ≡ true → a <ℤ b → key_bits a < key_bits b
key_bits_strict (pos a) (pos b) ha hb less =
    let large = is_whole_int-lt (pos b) hb in
    let order = magnitude_of_strict a b (omega arith) (omega arith) in
    omega (arith, order, pos_bits a (omega arith), pos_bits b (omega arith))
key_bits_strict (pos a) (negsuc b) ha hb less = absurd (omega arith)
key_bits_strict (negsuc a) (pos b) ha hb less =
    let small = is_whole_int-lt (negsuc a) ha in
    let large = is_whole_int-lt (pos b) hb in
    omega (arith, negsuc_bits a (omega arith), pos_bits b (omega arith))
key_bits_strict (negsuc a) (negsuc b) ha hb less =
    let small = is_whole_int-lt (negsuc a) ha in
    let order = magnitude_of_strict (suc b) (suc a) (omega arith) (omega arith) in
    let finite = magnitude_of-lt (suc a) (omega arith) in
    omega (arith, order, finite, negsuc_bits a (omega arith), negsuc_bits b (omega arith))

int_key : ℤ → Bytes
int_key n = tag_number ∷ number_bytes (from_i64 n)

module _ (a b : ℤ) (ha : IsI64 a) (hb : IsI64 b) where
  bits_strictly : key_bits a < key_bits b → StrictlyBefore (int_key a) (int_key b)
  unfolding int_key
  bits_strictly less =
      let order : compare_bytes (number_bytes (from_i64 a)) (number_bytes (from_i64 b))
          ≡ Ordering.lt =
        compare_bytes-to_be 8 _ _ (sortable_bits-lt _ (from_i64-IsF64 a ha).0)
          (sortable_bits-lt _ (from_i64-IsF64 b hb).0)
        ∙ ground (arith, less) in
      let lengths : length (number_bytes (from_i64 a)) ≡ length (number_bytes (from_i64 b)) =
        length-to_be 8 _ ∙ sym (length-to_be 8 _) in
      StrictlyBefore-cons tag_number (record { before = λ r s. same_length _ _ r s lengths order })

  bits_same : key_bits a ≡ key_bits b → int_key a ≡ int_key b
  unfolding int_key
  bits_same same = ap (λ (n : ℕ). tag_number ∷ to_be 8 n) same

  int_before :
      (whole : Bool)
      → (is_whole_int a && is_whole_int b) ≡ whole
      → a <ℤ b
      → Sorts whole Ordering.lt (int_key a) (int_key b)
  int_before true e less =
      bits_strictly (key_bits_strict a b (ground (arith, e)) (ground (arith, e)) less)
  int_before false e less = elim (le_cases _ _ (key_bits_mono a b ha hb (omega arith))) [
    | inl apart ↦ inr (bits_strictly apart)
    | inr same ↦ inl (bits_same same)
  ]

int_same :
    (a b : ℤ)
    → IsI64 a
    → IsI64 b
    → compare_ℤ a b ≡ Ordering.eq
    → (whole : Bool) → Sorts whole Ordering.eq (int_key a) (int_key b)
int_same a b ha hb e whole =
    let up = key_bits_mono a b ha hb (ground (arith, e)) in
    let down = key_bits_mono b a hb ha (ground (arith, e)) in
    settled whole (bits_same a b ha hb (omega (arith, up, down)))
  where
    settled :
        (whole : Bool) → int_key a ≡ int_key b → Sorts whole Ordering.eq (int_key a) (int_key b)
    settled true same = same
    settled false same = same

int_after :
    (a b : ℤ)
    → IsI64 a
    → IsI64 b
    → (whole : Bool) → (is_whole_int b && is_whole_int a) ≡ whole
    → b <ℤ a
    → Sorts whole Ordering.gt (int_key a) (int_key b)
int_after a b ha hb true e less = int_before b a hb ha true e less
int_after a b ha hb false e less = int_before b a hb ha false e less

int_key-encode : (n : ℤ) (x : Bytes) → IsI64 n → encode_number (from_i64 n) ≡ some x → x ≡ int_key n
unfolding int_key
int_key-encode n x h e = encode_number-bytes (from_i64 n) x (from_i64-IsF64 n h).1 e

-- Integers' encodings sort as the integers do, strictly where both have at most 53 bits.
pub int-Sorts :
    (a b : ℤ) (o : Ordering) (x y : Bytes)
    → IsI64 a
    → IsI64 b
    → compare_ℤ a b ≡ o
    → encode_number (from_i64 a) ≡ some x
    → encode_number (from_i64 b) ≡ some y
    → Sorts (is_whole_int a && is_whole_int b) o x y
int-Sorts a b o x y ha hb e ex ey =
    rw (int_key-encode a x ha ex, int_key-encode b y hb ey) (by_order o e)
  where
    swapped : (is_whole_int b && is_whole_int a) ≡ (is_whole_int a && is_whole_int b)
    swapped = ground arith

    by_order :
        (o : Ordering)
        → compare_ℤ a b ≡ o
        → Sorts (is_whole_int a && is_whole_int b) o (int_key a) (int_key b)
    by_order Ordering.lt e = int_before a b ha hb _ refl (ground (arith, e))
    by_order Ordering.eq e = int_same a b ha hb e _
    by_order Ordering.gt e = int_after a b ha hb _ swapped (ground (arith, e))
