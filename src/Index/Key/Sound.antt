-- ===== src/Index/Key/Sound.antt =====
-- src/index/key.rs: the range that a condition reads holds the key of every value it is true of.
use mathlib.Core.Option.{some-injective}
use trunkdb.Base.{
  ℕ, ◌≡◌, refl, sym, ◌∙◌, inl, inr, arith, Ordering, true, Option, none, some, [], ◌∷◌, ◌++◌,
  append-nil, take, All, if◌then◌else◌, Bytes, IsByte,
}
use trunkdb.Base.ByteString.{compare_bytes, leb_bytes, compare_bytes_prefix, to_be}
use trunkdb.Base.Options.{>>=-eq-some}
use trunkdb.Float.{is_zero, from_i64}
use trunkdb.Document.{Document}
use trunkdb.Query.{Op, holds, compare_values}
use trunkdb.Index.Key.Before.{SortsBefore, Agrees}
use trunkdb.Index.Key.Contains.{
  is_prefix, end_after, onto_end, prefixed_lem, prefix_end-end_after, is_prefix_append,
}
use trunkdb.Index.Key.Defs.{encode_escaped, encode_number, encode_value_in, sortable_bits}
use trunkdb.Index.Key.Order.{IsKeyable, IsAlike, encode_value_in-Sorts}
use trunkdb.Index.Key.Whole.{Sorts-Agrees}
use trunkdb.Index.Key.Range.{
  KeyRange, prefix_end, prefixed, below_end, contains_key, range_of, range_for_in,
}

below_end_of_lt :
    (y key : Bytes) → compare_bytes key y ≡ Ordering.lt → below_end (end_after y) key ≡ true
unfolding compare_bytes below_end end_after
below_end_of_lt [] [] h = cc
below_end_of_lt [] (c ∷ key) h = cc
below_end_of_lt (b ∷ y) key h = by_end (end_after y) key h (below_end_of_lt y)
  where
    by_end :
        (e : Option Bytes) (key : Bytes)
        → compare_bytes key (b ∷ y) ≡ Ordering.lt
        → ((k : Bytes) → compare_bytes k y ≡ Ordering.lt → below_end e k ≡ true)
        → below_end (onto_end b e) key ≡ true
    by_end e [] h ih = ground arith
    by_end e (c ∷ key) h ih = ground (arith, ih key)

abbrev tag_of : Document → ℕ
tag_of Document.null = 0
tag_of (Document.bool b) = 1
tag_of (Document.int n) = 2
tag_of (Document.float f) = 2
tag_of (Document.string s) = 3
tag_of (Document.id i) = 4
tag_of (Document.date_time t) = 5
tag_of (Document.binary b) = 6
tag_of _ = 7

abbrev Tagged : ℕ → Bytes → Type 0
Tagged tag x = (body : Bytes) × (x ≡ tag ∷ body)

none-some : {x : Bytes} → ◌≡◌ {A = Option Bytes} none (some x) → ⊥
none-some e = cc

encode_number-Tagged : (f : ℕ) (x : Bytes) → encode_number f ≡ some x → Tagged 2 x
unfolding encode_number
encode_number-Tagged f x e = (to_be 8 (sortable_bits (if is_zero f then 0 else f)), ground arith)

encode_value_in-Tagged :
    (v : Document) (fields : ℕ) (x : Bytes)
    → encode_value_in v fields ≡ some x
    → Tagged (tag_of v) x
unfolding encode_value_in encode_escaped
encode_value_in-Tagged (Document.int n) fields x e = encode_number-Tagged (from_i64 n) x e
encode_value_in-Tagged (Document.float f) fields x e = encode_number-Tagged f x e
encode_value_in-Tagged (Document.array a) fields x e = absurd (none-some e)
encode_value_in-Tagged (Document.object a) fields x e = absurd (none-some e)
encode_value_in-Tagged _ fields x e = (_, sym (some-injective _ _ e))

compare_values-tag :
    (v w : Document) (o : Ordering) → compare_values v w ≡ some o → tag_of v ≡ tag_of w
unfolding compare_values
compare_values-tag Document.null Document.null o e = refl
compare_values-tag (Document.int x) (Document.int y) o e = refl
compare_values-tag (Document.float x) (Document.float y) o e = refl
compare_values-tag (Document.int x) (Document.float y) o e = refl
compare_values-tag (Document.float x) (Document.int y) o e = refl
compare_values-tag (Document.string x) (Document.string y) o e = refl
compare_values-tag (Document.bool x) (Document.bool y) o e = refl
compare_values-tag (Document.id x) (Document.id y) o e = refl
compare_values-tag (Document.date_time x) (Document.date_time y) o e = refl
compare_values-tag (Document.binary x) (Document.binary y) o e = refl
compare_values-tag _ _ o e = cc

first_byte : (tag : ℕ) (x : Bytes) → Tagged tag x → take 1 x ≡ tag ∷ []
first_byte tag x (body, e) = rw e refl

in_tag :
    (tag : ℕ) (x rest : Bytes)
    → Tagged tag x
    → All IsByte (x ++ rest)
    → (leb_bytes (tag ∷ []) (x ++ rest) ≡ true)
      × (below_end (prefix_end (tag ∷ [])) (x ++ rest) ≡ true)
unfolding contains_key prefixed
in_tag tag x rest (body, e) h =
    let whole = prefixed_lem (tag ∷ []) (x ++ rest) h in
    let prefix : is_prefix (tag ∷ []) (x ++ rest) ≡ true =
      rw e (is_prefix_append (tag ∷ []) (body ++ rest)) in
    (ground arith, ground arith)

-- A key that sorts before `y`, or begins with it, lies below the end of `y`'s prefix.
below_prefix_end :
    (x y rest : Bytes)
    → SortsBefore x y
    → All IsByte (x ++ rest)
    → below_end (prefix_end y) (x ++ rest) ≡ true
unfolding contains_key prefixed
below_prefix_end x y rest (inl e) h =
    let whole = prefixed_lem y (x ++ rest) h in
    let prefix : is_prefix y (x ++ rest) ≡ true = rw e (is_prefix_append y rest) in ground arith
below_prefix_end x y rest (inr f) h =
    let less : compare_bytes (x ++ rest) y ≡ Ordering.lt = rw append-nil at (f.before rest []) in
    rw prefix_end-end_after (below_end_of_lt y (x ++ rest) less)

above_start : (x y rest : Bytes) → SortsBefore y x → leb_bytes y (x ++ rest) ≡ true
above_start x y rest (inl e) = rw (← e) (ground (arith, compare_bytes_prefix y rest))
above_start x y rest (inr f) =
    let less : compare_bytes y (x ++ rest) ≡ Ordering.lt = rw append-nil at (f.before [] rest) in
    ground arith

-- What a condition's ordering says of the two encodings.
Agrees-le :
    (o : Ordering) (x y : Bytes) → Agrees o x y → holds Op.lte (some o) ≡ true → SortsBefore x y
unfolding holds
Agrees-le Ordering.lt x y a h = a
Agrees-le Ordering.eq x y a h = inl a
Agrees-le Ordering.gt x y a h = cc

Agrees-ge :
    (o : Ordering) (x y : Bytes) → Agrees o x y → holds Op.gte (some o) ≡ true → SortsBefore y x
unfolding holds
Agrees-ge Ordering.lt x y a h = cc
Agrees-ge Ordering.eq x y a h = inl (sym a)
Agrees-ge Ordering.gt x y a h = a

module _ (x y rest : Bytes) (tag : ℕ) (tx : Tagged tag x) (ty : Tagged tag y)
    (bytes : All IsByte (x ++ rest)) where
  below_range :
      (o : Ordering) (w : Document) (r : KeyRange)
      → Agrees o x y
      → holds Op.lte (some o) ≡ true
      → range_of Op.lte w y ≡ some r
      → contains_key r (x ++ rest) ≡ true
  unfolding range_of prefixed contains_key
  below_range o w r a h e = rw (← some-injective _ _ e) (
      rw (first_byte tag y ty) (
        rw ((in_tag tag x rest tx bytes).0, below_prefix_end x y rest (Agrees-le o x y a h) bytes)
          refl))

  above_range :
      (o : Ordering) (w : Document) (r : KeyRange)
      → Agrees o x y
      → holds Op.gte (some o) ≡ true
      → range_of Op.gte w y ≡ some r
      → contains_key r (x ++ rest) ≡ true
  unfolding range_of prefixed contains_key
  above_range o w r a h e = rw (← some-injective _ _ e) (
      rw (first_byte tag y ty) (
        ground (arith, above_start x y rest (Agrees-ge o x y a h), (in_tag tag x rest tx bytes).1)))

  equal_range :
      (w : Document) (r : KeyRange)
      → x ≡ y
      → range_of Op.eq w y ≡ some r
      → contains_key r (x ++ rest) ≡ true
  unfolding range_of
  equal_range w r a e =
      rw (← some-injective _ _ e)
        (prefixed_lem y (x ++ rest) bytes ∙ rw a (is_prefix_append y rest))

holds-none :
    (op : Op) (w : Document) (y : Bytes) (r : KeyRange)
    → holds op none ≡ true
    → range_of op w y ≡ some r
    → ⊥
unfolding holds range_of
holds-none Op.eq w y r h e = cc
holds-none Op.ne w y r h e = cc
holds-none _ w y r h e = cc

-- What the operators of ranges say of an ordering.
module _ (x y rest : Bytes) (tag : ℕ) (tx : Tagged tag x) (ty : Tagged tag y)
    (bytes : All IsByte (x ++ rest)) where
  op_range :
      (op : Op) (o : Ordering) (w : Document) (r : KeyRange)
      → Agrees o x y
      → holds op (some o) ≡ true
      → range_of op w y ≡ some r
      → contains_key r (x ++ rest) ≡ true
  op_range Op.eq Ordering.eq w r a h e = equal_range x y rest tag tx ty bytes w r a e
  op_range Op.eq Ordering.lt w r a h e = unfold holds in cc
  op_range Op.eq Ordering.gt w r a h e = unfold holds in cc
  op_range Op.lt o w r a h e =
      below_range x y rest tag tx ty bytes o w r a (lt-lte o h) (unfold range_of in e)
    where
      lt-lte : (o : Ordering) → holds Op.lt (some o) ≡ true → holds Op.lte (some o) ≡ true
      lt-lte Ordering.lt h = unfold holds in refl
      lt-lte Ordering.eq h = unfold holds in cc
      lt-lte Ordering.gt h = unfold holds in cc
  op_range Op.lte o w r a h e = below_range x y rest tag tx ty bytes o w r a h e
  op_range Op.gt o w r a h e =
      above_range x y rest tag tx ty bytes o w r a (gt-gte o h) (unfold range_of in e)
    where
      gt-gte : (o : Ordering) → holds Op.gt (some o) ≡ true → holds Op.gte (some o) ≡ true
      gt-gte Ordering.gt h = unfold holds in refl
      gt-gte Ordering.eq h = unfold holds in cc
      gt-gte Ordering.lt h = unfold holds in cc
  op_range Op.gte o w r a h e = above_range x y rest tag tx ty bytes o w r a h e
  op_range Op.ne o w r a h e = unfold range_of in cc
  op_range Op.contains o w r a h e = unfold range_of in cc
  op_range Op.starts_with o w r a h e = unfold holds in cc

-- Where a comparison (`=`, `<`, `<=`, `>` or `>=`) of a value with an operand is true, both as
-- the types of the source have them, and they are not an `Int` and a `Float`, every key of the
-- value, a string of bytes that begins with its encoding, is in the range that an index reads for
-- the comparison.
pub range_for_in_sound :
    (op : Op) (v w : Document) (fields : ℕ) (x rest : Bytes) (r : KeyRange)
    → IsKeyable v
    → IsKeyable w
    → IsAlike v w
    → holds op (compare_values v w) ≡ true
    → encode_value_in v fields ≡ some x
    → All IsByte (x ++ rest)
    → range_for_in op w fields ≡ some r
    → contains_key r (x ++ rest) ≡ true
range_for_in_sound op v w fields x rest r hv hw alike h ex bytes er =
    by_order (compare_values v w) refl
  where
    split : (y : Bytes) × (encode_value_in w fields ≡ some y) × (range_of op w y ≡ some r)
    split = >>=-eq-some (encode_value_in w fields) (range_of op w) (unfold range_for_in in er)

    by_order : (c : Option Ordering) → compare_values v w ≡ c → contains_key r (x ++ rest) ≡ true
    by_order none e = absurd (holds-none op w split.0 r (rw e at h) split.2)
    by_order (some o) e =
        let same = compare_values-tag v w o e in
        op_range x split.0 rest (tag_of w) (rw same at (encode_value_in-Tagged v fields x ex))
          (encode_value_in-Tagged w fields split.0 split.1) bytes op o w r
          (Sorts-Agrees _ o x split.0
            (encode_value_in-Sorts v w fields o x split.0 hv hw alike e ex split.1))
          (rw e at h) split.2
