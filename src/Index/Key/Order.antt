-- ===== src/Index/Key/Order.antt =====
-- src/index/key.rs: the encodings of two values sort as `query::compare` orders the values.
use trunkdb.Base.{
  ℕ, ◌^◌, ◌<◌, ◌≡◌, refl, sym, ◌∙◌, ap, arith, compare, Ordering, Bool, true, false, some, [], ◌∷◌,
  ◌++◌, length, length-append, ◌&&◌, if◌then◌else◌, Bytes,
}
use mathlib.Core.Path.{subst₃}
use mathlib.Core.Option.{some-injective}
use trunkdb.Base.ByteString.{
  compare_bytes, compare_bytes_flip, compare_bytes-eq, compare_bytes-to_be, to_be, length-to_be,
  flip_ordering,
}
use trunkdb.Float.{IsF64, is_nan, is_zero, is_negative, magnitude, compare_non_nan, partial_cmp}
use trunkdb.DateTime.{DateTime, IsDateTime, compare_ℤ, compare_times}
use trunkdb.Document.{Document}
use trunkdb.Query.{compare_bools, compare_values}
use trunkdb.Index.Key.Defs.{
  sortable_bits, encode_number, flip_top, to_u64, string_budget, encode_value_in, tag_bool,
  tag_number, tag_string, tag_binary, tag_id, tag_datetime,
}
use trunkdb.Index.Key.Before.{
  AgreesStrictly, AgreesStrictly-cons, StrictlyBefore-cons, StrictlyBefore-lt,
}
use trunkdb.Index.Key.Ints.{IsI64, int-Sorts}
use trunkdb.Index.Key.Numbers.{
  same_length, normal, sortable_bits-lt, number_bytes, encode_number-bytes,
}
use trunkdb.Index.Key.Whole.{is_whole, Sorts, text-Sorts}

-- Bytes of one length sort alike whatever follows them.
same_length-Agrees : (x y : Bytes) → length x ≡ length y → AgreesStrictly (compare_bytes x y) x y
same_length-Agrees x y e = by_order (compare_bytes x y) refl
  where
    by_order : (o : Ordering) → compare_bytes x y ≡ o → AgreesStrictly o x y
    by_order Ordering.lt h = record { before = λ r s. same_length x y r s e h }
    by_order Ordering.eq h = compare_bytes-eq x y h
    by_order Ordering.gt h =
        let back : compare_bytes y x ≡ Ordering.lt = compare_bytes_flip x y ∙ ap flip_ordering h in
        record { before = λ r s. same_length y x r s (sym e) back }

compare_bytes-append_same :
    (x y r s : Bytes)
    → length x ≡ length y
    → compare_bytes (x ++ r) (y ++ s) ≡ elim (compare_bytes x y) [
      | Ordering.lt ↦ Ordering.lt
      | Ordering.eq ↦ compare_bytes r s
      | Ordering.gt ↦ Ordering.gt
    ]
unfolding compare_bytes
compare_bytes-append_same [] [] r s e = refl
compare_bytes-append_same [] (y ∷ ys) r s e = absurd (omega arith)
compare_bytes-append_same (x ∷ xs) [] r s e = absurd (omega arith)
compare_bytes-append_same (x ∷ xs) (y ∷ ys) r s e =
    ground (arith, compare_bytes-append_same xs ys r s)

sortable_bits-order :
    (f g : ℕ)
    → IsF64 f
    → IsF64 g
    → compare (sortable_bits (normal f)) (sortable_bits (normal g)) ≡ compare_non_nan f g
unfolding sortable_bits compare_non_nan is_zero is_negative magnitude
sortable_bits-order f g hf hg = ground arith

comparable :
    (f g : ℕ) (o : Ordering)
    → partial_cmp f g ≡ some o
    → (is_nan f ≡ false) × (is_nan g ≡ false) × (compare_non_nan f g ≡ o)
unfolding partial_cmp
comparable f g o e = (ground arith, ground arith, ground arith)

encode_number-Agrees :
    (f g : ℕ) (o : Ordering) (x y : Bytes)
    → IsF64 f
    → IsF64 g
    → partial_cmp f g ≡ some o
    → encode_number f ≡ some x
    → encode_number g ≡ some y
    → AgreesStrictly o x y
encode_number-Agrees f g o x y hf hg e ex ey =
    let (nf, ng, order) = comparable f g o e in
    let same : compare_bytes (number_bytes f) (number_bytes g) ≡ o =
      compare_bytes-to_be 8 _ _ (sortable_bits-lt f hf) (sortable_bits-lt g hg)
      ∙ sortable_bits-order f g hf hg
      ∙ order in
    let lengths : length (number_bytes f) ≡ length (number_bytes g) =
      length-to_be 8 _ ∙ sym (length-to_be 8 _) in
    rw (encode_number-bytes f x nf ex, encode_number-bytes g y ng ey)
      (AgreesStrictly-cons tag_number o _ _
        (rw same at (same_length-Agrees (number_bytes f) (number_bytes g) lengths)))

time_bytes : DateTime → Bytes
time_bytes t = to_be 8 (flip_top (to_u64 t.secs)) ++ to_be 4 t.nanos

flip_top-to_u64-lt : (t : DateTime) → IsDateTime t → flip_top (to_u64 t.secs) < 2 ^ 64
unfolding flip_top
flip_top-to_u64-lt t h = omega arith

flip_top-order :
    (a b : DateTime)
    → IsDateTime a
    → IsDateTime b
    → compare (flip_top (to_u64 a.secs)) (flip_top (to_u64 b.secs)) ≡ compare_ℤ a.secs b.secs
unfolding flip_top to_u64
flip_top-order a b ha hb = ground arith

time_bytes-order :
    (a b : DateTime)
    → IsDateTime a
    → IsDateTime b
    → compare_bytes (time_bytes a) (time_bytes b) ≡ compare_times a b
unfolding compare_times time_bytes
time_bytes-order a b ha hb =
    let same =
      length-to_be 8 (flip_top (to_u64 a.secs)) ∙ sym (length-to_be 8 (flip_top (to_u64 b.secs))) in
    ground (
      arith,
      compare_bytes-append_same (to_be 8 (flip_top (to_u64 a.secs)))
          (to_be 8 (flip_top (to_u64 b.secs))) (to_be 4 a.nanos) (to_be 4 b.nanos) same,
      compare_bytes-to_be 8 (flip_top (to_u64 a.secs)) (flip_top (to_u64 b.secs))
          (flip_top-to_u64-lt a ha) (flip_top-to_u64-lt b hb),
      compare_bytes-to_be 4 a.nanos b.nanos (omega arith) (omega arith),
      flip_top-order a b ha hb,
    )

time_bytes-Agrees :
    (a b : DateTime)
    → IsDateTime a
    → IsDateTime b
    → AgreesStrictly (compare_times a b) (time_bytes a) (time_bytes b)
unfolding time_bytes
time_bytes-Agrees a b ha hb =
    let lengths : length (time_bytes a) ≡ length (time_bytes b) = omega (
      arith,
      length-append (to_be 8 (flip_top (to_u64 a.secs))) (to_be 4 a.nanos),
      length-append (to_be 8 (flip_top (to_u64 b.secs))) (to_be 4 b.nanos),
      length-to_be 8 (flip_top (to_u64 a.secs)),
      length-to_be 8 (flip_top (to_u64 b.secs)),
      length-to_be 4 a.nanos,
      length-to_be 4 b.nanos,
    ) in
    rw (time_bytes-order a b ha hb) at (same_length-Agrees (time_bytes a) (time_bytes b) lengths)

bool-Agrees :
    (a b : Bool)
    → AgreesStrictly
        (compare_bools a b)
        (tag_bool ∷ (if a then 1 else 0) ∷ [])
        (tag_bool ∷ (if b then 1 else 0) ∷ [])
unfolding compare_bools
bool-Agrees true true = refl
bool-Agrees false false = refl
bool-Agrees false true = StrictlyBefore-cons tag_bool (StrictlyBefore-lt 0 1 (omega arith))
bool-Agrees true false = StrictlyBefore-cons tag_bool (StrictlyBefore-lt 0 1 (omega arith))

-- What the types of the source promise of a value that a key holds.
abbrev pub IsKeyable : Document → Type 0
IsKeyable (Document.float f) = IsF64 f
IsKeyable (Document.id i) = length i ≡ 16
IsKeyable (Document.date_time t) = IsDateTime t
IsKeyable (Document.int n) = IsI64 n
IsKeyable _ = Unit

-- Not an `Int` with a `Float`, which are compared by value, and not by the keys' rounded numbers.
abbrev pub IsAlike : Document → Document → Type 0
IsAlike (Document.int n) (Document.float f) = ⊥
IsAlike (Document.float f) (Document.int n) = ⊥
IsAlike _ _ = Unit

settle :
    (whole : Bool) (o p : Ordering) (x y x' y' : Bytes)
    → Sorts whole o x y
    → some o ≡ some p
    → some x ≡ some x'
    → some y ≡ some y'
    → Sorts whole p x' y'
settle whole o p x y x' y' h eo ex ey =
    subst₃ (Sorts whole) (some-injective _ _ eo) (some-injective _ _ ex) (some-injective _ _ ey) h

-- Values that compare, as the types of the source have them and not an `Int` with a `Float`, have
-- encodings that sort strictly the same way whatever follows them in a key, and equal values the
-- same encoding; where one is a string or binary value over the budget of a key's text, or an
-- `Int` of 2^53 or more without its sign, the encodings of unequal values may also be equal, and
-- do not sort the other way.
pub encode_value_in-Sorts :
    (v w : Document) (fields : ℕ) (o : Ordering) (x y : Bytes)
    → IsKeyable v
    → IsKeyable w
    → IsAlike v w
    → compare_values v w ≡ some o
    → encode_value_in v fields ≡ some x
    → encode_value_in w fields ≡ some y
    → Sorts (is_whole v fields && is_whole w fields) o x y
unfolding compare_values encode_value_in time_bytes
encode_value_in-Sorts (Document.int m) (Document.float g) fields o x y hv hw alike e ex ey =
    elim alike [ ]
encode_value_in-Sorts (Document.float f) (Document.int n) fields o x y hv hw alike e ex ey =
    elim alike [ ]
encode_value_in-Sorts (Document.int m) (Document.int n) fields o x y hv hw alike e ex ey =
    int-Sorts m n o x y hv hw (some-injective _ _ e) ex ey
encode_value_in-Sorts Document.null Document.null fields o x y hv hw alike e ex ey =
    settle true _ _ _ _ _ _ refl e ex ey
encode_value_in-Sorts (Document.bool a) (Document.bool b) fields o x y hv hw alike e ex ey =
    settle true _ _ _ _ _ _ (bool-Agrees a b) e ex ey
encode_value_in-Sorts (Document.float f) (Document.float g) fields o x y hv hw alike e ex ey =
    encode_number-Agrees f g o x y hv hw e ex ey
encode_value_in-Sorts (Document.string a) (Document.string b) fields o x y hv hw alike e ex ey =
    settle (is_whole (Document.string a) fields && is_whole (Document.string b) fields) _ _ _ _ _ _
      (text-Sorts tag_string (string_budget fields) a b) e ex ey
encode_value_in-Sorts (Document.binary a) (Document.binary b) fields o x y hv hw alike e ex ey =
    settle (is_whole (Document.binary a) fields && is_whole (Document.binary b) fields) _ _ _ _ _ _
      (text-Sorts tag_binary (string_budget fields) a b) e ex ey
encode_value_in-Sorts (Document.id a) (Document.id b) fields o x y hv hw alike e ex ey =
    settle true _ _ _ _ _ _
      (AgreesStrictly-cons tag_id _ a b (same_length-Agrees a b (hv ∙ sym hw))) e ex ey
encode_value_in-Sorts (Document.date_time a) (Document.date_time b) fields o x y hv hw alike e ex
      ey =
    settle true _ _ _ _ _ _ (AgreesStrictly-cons tag_datetime _ _ _ (time_bytes-Agrees a b hv hw)) e
      ex ey
encode_value_in-Sorts _ _ fields o x y hv hw alike e ex ey = cc
