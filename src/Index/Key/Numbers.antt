-- ===== src/Index/Key/Numbers.antt =====
-- src/index/key.rs: the bytes of a number's key.
use trunkdb.Base.{
  ℕ, ◌^◌, ◌<◌, ◌≡◌, arith, Ordering, false, some, [], ◌∷◌, ◌++◌, length, if◌then◌else◌, Bytes,
}
use trunkdb.Base.ByteString.{compare_bytes, to_be}
use trunkdb.Float.{IsF64, is_nan, is_zero}
use trunkdb.Index.Key.Defs.{sortable_bits, encode_number, tag_number}

pub same_length :
    (x y : Bytes) (r s : Bytes)
    → length x ≡ length y
    → compare_bytes x y ≡ Ordering.lt
    → compare_bytes (x ++ r) (y ++ s) ≡ Ordering.lt
unfolding compare_bytes
same_length [] [] r s e h = cc
same_length [] (y ∷ ys) r s e h = absurd (omega arith)
same_length (x ∷ xs) [] r s e h = absurd (omega arith)
same_length (x ∷ xs) (y ∷ ys) r s e h = ground (arith, same_length xs ys r s)

abbrev pub normal : ℕ → ℕ
normal f = if is_zero f then 0 else f

pub sortable_bits-lt : (f : ℕ) → IsF64 f → sortable_bits (normal f) < 2 ^ 64
unfolding sortable_bits is_zero
sortable_bits-lt f h = ground arith

abbrev pub number_bytes : ℕ → Bytes
number_bytes f = to_be 8 (sortable_bits (normal f))

pub encode_number-bytes :
    (f : ℕ) (x : Bytes)
    → is_nan f ≡ false
    → encode_number f ≡ some x
    → x ≡ tag_number ∷ number_bytes f
unfolding encode_number
encode_number-bytes f x h e = ground arith
