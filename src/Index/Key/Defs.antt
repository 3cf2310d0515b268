-- ===== src/Index/Key/Defs.antt =====
-- src/index/key.rs: values encoded as keys, and keys taken apart. A `DocId` is its 16 bytes.
use trunkdb.Base.{
  ℕ, zero, suc, ◌+◌, ◌-◌, ◌/◌, ◌^◌, ◌%◌, min, Ordering, Bool, true, false, Option, none, some, List,
  [], ◌∷◌, ◌++◌, length, take, drop, replicate, ltb, ◌==◌, if◌then◌else◌, Bytes,
}
use trunkdb.Base.ByteString.{compare_bytes, to_be, from_be}
use trunkdb.Base.Int.{ℤ, pos, negsuc}
use trunkdb.Base.Options.{◌>>=◌, ◌>>◌, guard}
use trunkdb.Base.Utf8.{is_utf8}
use trunkdb.Float.{is_nan, is_zero, from_i64}
use trunkdb.DateTime.{from_unix}
use trunkdb.Document.{Document}

abbrev pub max_key_len : ℕ
max_key_len = 1024

abbrev pub tag_null : ℕ
tag_null = 0

abbrev pub tag_bool : ℕ
tag_bool = 1

abbrev pub tag_number : ℕ
tag_number = 2

abbrev pub tag_string : ℕ
tag_string = 3

abbrev pub tag_id : ℕ
tag_id = 4

abbrev pub tag_datetime : ℕ
tag_datetime = 5

abbrev pub tag_binary : ℕ
tag_binary = 6

abbrev pub tag_other : ℕ
tag_other = 0xFF

abbrev pub max_compound_fields : ℕ
max_compound_fields = 8

-- At most `max_compound_fields` fields, so the subtraction does not go below zero.
unfoldable pub string_budget : ℕ → ℕ
string_budget fields = (max_key_len - 16) / fields - 3

unfoldable pub primary : Bytes → Bytes
primary id = id

unfoldable pub doc_id : Bytes → Bytes
doc_id key = let tail = drop (length key - 16) key in replicate (16 - length tail) 0 ++ tail

unfoldable pub value_part : Bytes → Bytes
value_part key = take (length key - 16) key

-- The bits of a number's 8 bytes, `encode_number` backwards.
unfoldable pub number_bits : ℕ → ℕ
number_bits sortable = if sortable / 2 ^ 63 == 1 then sortable - 2 ^ 63 else 2 ^ 64 - 1 - sortable

-- 2^53 as an `f64`; an absolute value is compared by its bits, and NaN's are above.
abbrev two_pow_53 : ℕ
two_pow_53 = 0x4340_0000_0000_0000

number_is_exact : Bytes → Bool
unfolding number_bits
number_is_exact rest =
    if ltb (length rest) 8
    then false
    else ltb (number_bits (from_be (take 8 rest)) % 2 ^ 63) two_pow_53

text_is_exact : ℕ → ℕ → Bool
unfolding string_budget
text_is_exact part_len fields =
    if ltb part_len 3 then false else ltb (part_len - 3) (string_budget fields - 1)

unfoldable pub part_is_exact : Bytes → ℕ → Bool
unfolding number_is_exact text_is_exact
part_is_exact [] fields = false
part_is_exact (tag ∷ rest) fields =
    if tag == tag_number
    then number_is_exact rest
    else if (if tag == tag_string then true else tag == tag_binary)
    then text_is_exact (suc (length rest)) fields
    else if tag == tag_other
    then false
    else true

-- `rest.strip_suffix(&[0, 0])`
unfoldable pub strip_terminator : Bytes → Option Bytes
strip_terminator [] = none
strip_terminator (zero ∷ zero ∷ []) = some []
strip_terminator (b ∷ bs) = do rest ← strip_terminator bs; some (b ∷ rest)

unfoldable pub unescape : Bytes → Option Bytes
unescape [] = some []
unescape (zero ∷ []) = none
unescape (zero ∷ b ∷ rest) = do guard (b == 0xFF); bytes ← unescape rest; some (0 ∷ bytes)
unescape (suc b ∷ rest) = do bytes ← unescape rest; some (suc b ∷ bytes)

decode_bool : Bytes → Option Document
decode_bool (zero ∷ []) = some (Document.bool false)
decode_bool (suc zero ∷ []) = some (Document.bool true)
decode_bool _ = none

decode_text : Bytes → Option Document
unfolding strip_terminator unescape
decode_text rest = do
  escaped ← strip_terminator rest
  text ← unescape escaped
  guard (is_utf8 text)
  some (Document.string text)

-- `(seconds as u64) ^ (1 << 63)` and back: a number with its top bit flipped.
unfoldable pub flip_top : ℕ → ℕ
flip_top n = (n + 2 ^ 63) % 2 ^ 64

-- `n as u64` of an `i64`, and `n as i64` of a `u64`.
unfoldable pub to_u64 : ℤ → ℕ
to_u64 (pos n) = n
to_u64 (negsuc n) = 2 ^ 64 - 1 - n

unfoldable pub from_u64 : ℕ → ℤ
from_u64 n = if ltb n (2 ^ 63) then pos n else negsuc (2 ^ 64 - 1 - n)

decode_datetime : Bytes → Option Document
unfolding flip_top from_u64
decode_datetime rest = do
  guard (length rest == 12)
  let seconds = flip_top (from_be (take 8 rest))
  let nanos = from_be (drop 8 rest)
  time ← from_unix (from_u64 seconds) nanos
  some (Document.date_time time)

decode_null : Bytes → Option Document
decode_null [] = some Document.null
decode_null _ = none

-- The match of `decode_part_into` on tag and rest.
unfoldable pub decode_tagged : ℕ → Bytes → Option Document
unfolding decode_null decode_bool decode_text decode_datetime number_bits
decode_tagged tag rest =
    if tag == tag_null
    then decode_null rest
    else if tag == tag_bool
    then decode_bool rest
    else if tag == tag_number
    then (do guard (length rest == 8); some (Document.float (number_bits (from_be rest))))
    else if tag == tag_string
    then decode_text rest
    else if tag == tag_binary
    then (do
      escaped ← strip_terminator rest
      bytes ← unescape escaped
      some (Document.binary bytes))
    else if tag == tag_id
    then (do guard (length rest == 16); some (Document.id rest))
    else if tag == tag_datetime
    then decode_datetime rest
    else none

-- `decode_part`, and `decode_part_into` where it succeeds: that one reuses a string's buffer.
unfoldable pub decode_part : Bytes → ℕ → Option Document
unfolding decode_tagged part_is_exact
decode_part [] fields = none
decode_part (tag ∷ rest) fields = do
  guard (part_is_exact (tag ∷ rest) fields)
  decode_tagged tag rest

-- The terminator's end, `at` bytes having been read before.
unfoldable pub terminator_from : Bytes → ℕ → Option ℕ
terminator_from [] at = none
terminator_from (b ∷ []) at = none
terminator_from (zero ∷ zero ∷ rest) at = some (at + 2)
terminator_from (zero ∷ suc c ∷ rest) at = terminator_from rest (at + 2)
terminator_from (suc b ∷ c ∷ rest) at = terminator_from (c ∷ rest) (at + 1)

unfoldable pub string_len : Bytes → Option ℕ
unfolding terminator_from
string_len encoded = terminator_from (drop 1 encoded) 1

or_else : Option ℕ → ℕ → ℕ
or_else none d = d
or_else (some n) d = n

-- The length of the first part, `tag` being its first byte.
unfoldable pub part_len : ℕ → Bytes → ℕ
unfolding string_len or_else
part_len tag rest =
    if (if tag == tag_null then true else tag == tag_other)
    then 1
    else if tag == tag_bool
    then 2
    else if tag == tag_number
    then 9
    else if tag == tag_id
    then 17
    else if tag == tag_datetime
    then 13
    else or_else (string_len rest) (length rest)

-- `each_part`, collected. A part has a byte at least, so the bytes' number of rounds is enough.
unfoldable pub each_part : ℕ → Bytes → List Bytes
unfolding part_len
each_part fuel [] = []
each_part zero (tag ∷ rest) = []
each_part (suc fuel) (tag ∷ rest) =
    let whole = tag ∷ rest in
    let len = min (part_len tag whole) (length whole) in
    take len whole ∷ each_part fuel (drop len whole)

unfoldable pub parts : Bytes → List Bytes
unfolding each_part
parts value_part = each_part (length value_part) value_part

-- Bytes escaped up to the budget, `used` of it spent: the loop of `encode_escaped`.
unfoldable pub escape_up_to : Bytes → ℕ → ℕ → Bytes
escape_up_to [] used budget = []
escape_up_to (b ∷ bs) used budget =
    let width = if b == 0 then 2 else 1 in
    let rest = escape_up_to bs (used + width) budget in
    if ltb budget (used + width) then [] else if b == 0 then b ∷ 0xFF ∷ rest else b ∷ rest

unfoldable pub encode_escaped : ℕ → Bytes → ℕ → Bytes
unfolding escape_up_to
encode_escaped tag bytes budget = tag ∷ (escape_up_to bytes 0 budget ++ (0 ∷ 0 ∷ []))

-- `!bits` for a negative number, and the sign bit set for another.
unfoldable pub sortable_bits : ℕ → ℕ
sortable_bits bits = if bits / 2 ^ 63 == 1 then 2 ^ 64 - 1 - bits else bits + 2 ^ 63

unfoldable pub encode_number : ℕ → Option Bytes
unfolding is_nan is_zero sortable_bits
encode_number f =
    if is_nan f
    then none
    else let g = if is_zero f then 0 else f in some (tag_number ∷ to_be 8 (sortable_bits g))

unfoldable pub encode_value_in : Document → ℕ → Option Bytes
unfolding encode_number encode_escaped flip_top to_u64 string_budget
encode_value_in Document.null fields = some (tag_null ∷ [])
encode_value_in (Document.bool b) fields = some (tag_bool ∷ (if b then 1 else 0) ∷ [])
encode_value_in (Document.int n) fields = encode_number (from_i64 n)
encode_value_in (Document.float f) fields = encode_number f
encode_value_in (Document.string s) fields =
    some (encode_escaped tag_string s (string_budget fields))
encode_value_in (Document.binary bytes) fields =
    some (encode_escaped tag_binary bytes (string_budget fields))
encode_value_in (Document.id id) fields = some (tag_id ∷ id)
encode_value_in (Document.date_time time) fields =
    some (tag_datetime ∷ (to_be 8 (flip_top (to_u64 time.secs)) ++ to_be 4 time.nanos))
encode_value_in _ fields = none

unfoldable pub encode_value : Document → Option Bytes
encode_value value = encode_value_in value 1

unfoldable pub encoded_or_other : Option Bytes → Bytes
encoded_or_other none = tag_other ∷ []
encoded_or_other (some encoded) = encoded

-- The loop of `encode_values`, with the number of values in the key.
unfoldable pub encode_each : List Document → ℕ → Bytes
unfolding encoded_or_other
encode_each [] fields = []
encode_each (value ∷ values) fields =
    encoded_or_other (encode_value_in value fields) ++ encode_each values fields

unfoldable pub encode_values : List Document → Bytes
encode_values values = encode_each values (length values)

unfoldable pub compound : List Document → Bytes → Bytes
compound values id = encode_values values ++ id

unfoldable pub secondary : Document → Bytes → Option Bytes
secondary value id = do key ← encode_value value; some (key ++ id)

starts_with_tag : ℕ → Bytes → Bool
starts_with_tag tag [] = false
starts_with_tag tag (b ∷ bs) = b == tag

unfoldable pub is_other : Bytes → Bool
unfolding starts_with_tag
is_other part = starts_with_tag tag_other part

unfoldable pub is_string : Bytes → Bool
unfolding starts_with_tag
is_string part = starts_with_tag tag_string part

-- `part.cmp(encoded)`, with equal bytes meaning equal values only in an exact part.
compare_encoded : Bytes → Bytes → ℕ → Option (Option Ordering)
compare_encoded part encoded fields = elim (compare_bytes part encoded) [
  | Ordering.eq ↦ if part_is_exact part fields then some (some Ordering.eq) else none
  | Ordering.lt ↦ some (some Ordering.lt)
  | Ordering.gt ↦ some (some Ordering.gt)
]

unfoldable pub compare_part : Bytes → Option Bytes → ℕ → Option (Option Ordering)
unfolding compare_encoded starts_with_tag
compare_part [] encoded fields = none
compare_part (tag ∷ rest) none fields = some none
compare_part (tag ∷ rest) (some encoded) fields =
    if (if tag == tag_other then true else if starts_with_tag tag encoded then false else true)
    then some none
    else compare_encoded (tag ∷ rest) encoded fields

-- What is left of `body` behind the escaped `prefix`, or `none` at the first difference.
unfoldable pub behind_prefix : Bytes → Bytes → Option Bytes
behind_prefix [] body = some body
behind_prefix (zero ∷ bs) (zero ∷ c ∷ body) = if c == 0xFF then behind_prefix bs body else none
behind_prefix (zero ∷ bs) _ = none
behind_prefix (suc b ∷ bs) [] = none
behind_prefix (suc b ∷ bs) (c ∷ body) = if c == suc b then behind_prefix bs body else none

text_starts_with : ℕ → Bytes → Bytes → ℕ → Option Bool
unfolding behind_prefix
text_starts_with tag prefix [] fields = some false
text_starts_with tag prefix (t ∷ body) fields =
    if t == tag
    then elim (behind_prefix prefix body) [
      | some _ ↦ some true
      | none ↦ if part_is_exact (t ∷ body) fields then some false else none
    ]
    else some false

unfoldable pub part_starts_with : Bytes → Document → ℕ → Option Bool
unfolding text_starts_with
part_starts_with part (Document.string text) fields = text_starts_with tag_string text part fields
part_starts_with part (Document.binary bytes) fields = text_starts_with tag_binary bytes part fields
part_starts_with part _ fields = some false
