-- ===== src/Tests/Keys.antt =====
-- src/index/key.rs at concrete values and keys.
use trunkdb.Base.{
  ◌≤◌, Ordering, true, ◌&&◌, some, List, [], ◌∷◌, ◌++◌, ◌≡◌, refl, length, replicate, All, Bytes,
  IsByte, arith, map,
}
use trunkdb.Base.ByteString.{compare_bytes}
use trunkdb.Base.Int.{pos}
use trunkdb.Float.{from_i64}
use trunkdb.Document.{Document}
use trunkdb.Query.{Op, holds, compare_values}
use trunkdb.Index.Key.Contains.{
  is_prefix, prefixed_lem, intersect_lem, under_append, primary_range_exact,
}
use trunkdb.Index.Key.Defs.{
  encode_value_in, compound, doc_id, value_part, parts, max_key_len, primary, encode_escaped,
  escape_up_to,
}
use trunkdb.Index.Key.Order.{encode_value_in-Sorts}
use trunkdb.Index.Key.Parts.{encoding_of, doc_id-compound, length-compound}
use trunkdb.Index.Key.Range.{
  KeyRange, contains_key, prefixed, intersect, under, primary_range, range_for_in,
}
use trunkdb.Index.Key.Whole.{is_whole, Sorts}
use trunkdb.Index.Key.Sound.{range_for_in_sound}
use trunkdb.Index.Key.StartsWith.{range_for_in-starts_with}

-- "ab" and "b"
abbrev ab : Document
ab = Document.string (0x61 ∷ 0x62 ∷ [])

abbrev b : Document
b = Document.string (0x62 ∷ [])

abbrev a : Document
a = Document.string (0x61 ∷ [])

abbrev ab_key : Bytes
ab_key = 3 ∷ 0x61 ∷ 0x62 ∷ 0 ∷ 0 ∷ []

abbrev b_key : Bytes
b_key = 3 ∷ 0x62 ∷ 0 ∷ 0 ∷ []

ab_encoded : encode_value_in ab 1 ≡ some ab_key
unfolding encode_value_in encode_escaped escape_up_to
ab_encoded = refl

b_encoded : encode_value_in b 1 ≡ some b_key
unfolding encode_value_in encode_escaped escape_up_to
b_encoded = refl

compared : compare_values ab b ≡ some Ordering.lt
unfolding compare_values compare_bytes
compared = refl

encode_value_in-Sorts_example : Sorts (is_whole ab 1 && is_whole b 1) Ordering.lt ab_key b_key
encode_value_in-Sorts_example =
    encode_value_in-Sorts ab b 1 Ordering.lt ab_key b_key tt tt tt compared ab_encoded b_encoded

-- Two `Int`s that one `f64` stands for have one key.
large_ints :
    encode_value_in (Document.int (pos 9007199254740992)) 1
    ≡ encode_value_in (Document.int (pos 9007199254740993)) 1
unfolding encode_value_in from_i64
large_ints = refl

-- Keys below "b".
abbrev below_b : KeyRange
below_b = record { start = 3 ∷ []; end = some (3 ∷ 0x62 ∷ 0 ∷ 1 ∷ []) }

below_b_read : range_for_in Op.lt b 1 ≡ some below_b
unfolding range_for_in encode_value_in encode_escaped
below_b_read = refl

ab_below : holds Op.lt (compare_values ab b) ≡ true
unfolding holds compare_values compare_bytes
ab_below = refl

abbrev two_bytes : Bytes
two_bytes = 9 ∷ 200 ∷ []

ab_bytes : All IsByte (ab_key ++ two_bytes)
ab_bytes = (
  omega arith,
  (omega arith, (omega arith, (omega arith, (omega arith, (omega arith, (omega arith, tt)))))),
)

range_for_in_sound_example : contains_key below_b (ab_key ++ two_bytes) ≡ true
range_for_in_sound_example =
    range_for_in_sound Op.lt ab b 1 ab_key two_bytes below_b tt tt tt ab_below ab_encoded ab_bytes
      below_b_read

-- Keys of what begins with "a".
abbrev from_a : KeyRange
from_a = record { start = 3 ∷ 0x61 ∷ []; end = some (3 ∷ 0x62 ∷ []) }

from_a_read : range_for_in Op.starts_with a 1 ≡ some from_a
unfolding range_for_in encode_value_in encode_escaped
from_a_read = refl

begins : is_prefix (0x61 ∷ []) (0x61 ∷ 0x62 ∷ []) ≡ true
unfolding is_prefix
begins = refl

range_for_in-starts_with_example : contains_key from_a (ab_key ++ two_bytes) ≡ true
range_for_in-starts_with_example =
    range_for_in-starts_with ab a 1 ab_key two_bytes from_a begins ab_encoded ab_bytes from_a_read

abbrev values : List Document
values = ab ∷ Document.null ∷ []

abbrev some_id : Bytes
some_id = replicate 16 7

doc_id-compound_example :
    (doc_id (compound values some_id) ≡ some_id)
    × (parts (value_part (compound values some_id)) ≡ map (encoding_of 2) values)
doc_id-compound_example = doc_id-compound values some_id (tt, (tt, tt)) refl

length-compound_example : length (compound values some_id) ≤ max_key_len
length-compound_example =
    length-compound values some_id (tt, (tt, tt)) refl (omega arith) (omega arith)

prefixed_lem_example :
    contains_key (prefixed (3 ∷ 255 ∷ [])) two_bytes ≡ is_prefix (3 ∷ 255 ∷ []) two_bytes
prefixed_lem_example = prefixed_lem (3 ∷ 255 ∷ []) two_bytes (omega arith, (omega arith, tt))

intersect_lem_example :
    contains_key (intersect below_b from_a) ab_key
    ≡ (contains_key below_b ab_key && contains_key from_a ab_key)
intersect_lem_example = intersect_lem below_b from_a ab_key

under_append_example :
    contains_key (under from_a two_bytes) (two_bytes ++ two_bytes) ≡ contains_key from_a two_bytes
under_append_example =
    under_append from_a two_bytes two_bytes (omega arith, (omega arith, tt))
      (omega arith, (omega arith, tt))

abbrev up_to_id : KeyRange
up_to_id = record { start = []; end = some (some_id ++ (0 ∷ [])) }

up_to_id_read : primary_range Op.lte some_id ≡ some up_to_id
unfolding primary_range primary
up_to_id_read = refl

primary_range_exact_example :
    contains_key up_to_id (primary some_id) ≡ holds Op.lte (some (compare_bytes some_id some_id))
primary_range_exact_example = primary_range_exact Op.lte some_id some_id up_to_id refl up_to_id_read
