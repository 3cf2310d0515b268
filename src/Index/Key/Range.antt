-- ===== src/Index/Key/Range.antt =====
-- src/index/key.rs: half-open ranges of keys, and the range a condition reads.
use mathlib.Core.List.{reverse}
use trunkdb.Base.{
  ℕ, ◌+◌, ◌-◌, Bool, true, ◌&&◌, Option, none, some, [], ◌∷◌, ◌++◌, length, take, ltb,
  if◌then◌else◌, Bytes,
}
use trunkdb.Base.ByteString.{ltb_bytes, leb_bytes}
use trunkdb.Base.Options.{◌>>=◌}
use trunkdb.Document.{Document}
use trunkdb.Query.{Op}
use trunkdb.Index.Key.Defs.{encode_value_in, primary}

-- `start <= key < end`; no end is unbounded.
pub record KeyRange : Type 0 where
  pub start : Bytes
  pub end : Option Bytes

-- `prefix_end`'s loop: the last byte is popped while it is 0xFF.
unfoldable pub pop_full : Bytes → Option Bytes
pop_full [] = none
pop_full (last ∷ before) =
    if ltb last 0xFF then some (reverse ((last + 1) ∷ before)) else pop_full before

unfoldable pub prefix_end : Bytes → Option Bytes
unfolding pop_full
prefix_end prefix = pop_full (reverse prefix)

unfoldable pub everything : KeyRange
everything = record { start = []; end = none }

unfoldable pub prefixed : Bytes → KeyRange
prefixed prefix = record { start = prefix; end = prefix_end prefix }

unfoldable pub max_bytes : Bytes → Bytes → Bytes
max_bytes a b = if leb_bytes a b then b else a

unfoldable pub min_bytes : Bytes → Bytes → Bytes
min_bytes a b = if leb_bytes a b then a else b

unfoldable pub earlier_end : Option Bytes → Option Bytes → Option Bytes
earlier_end (some a) (some b) = some (min_bytes a b)
earlier_end (some a) none = some a
earlier_end none b = b

unfoldable pub intersect : KeyRange → KeyRange → KeyRange
unfolding max_bytes earlier_end min_bytes
intersect r s = record { start = max_bytes r.start s.start; end = earlier_end r.end s.end }

unfoldable pub below_end : Option Bytes → Bytes → Bool
below_end none key = true
below_end (some e) key = ltb_bytes key e

unfoldable pub contains_key : KeyRange → Bytes → Bool
unfolding below_end
contains_key r key = leb_bytes r.start key && below_end r.end key

unfoldable pub end_under : Bytes → Option Bytes → Option Bytes
end_under prefix none = prefix_end prefix
end_under prefix (some e) = some (prefix ++ e)

unfoldable pub under : KeyRange → Bytes → KeyRange
unfolding end_under
under r prefix = record { start = prefix ++ r.start; end = end_under prefix r.end }

unfoldable pub primary_range : Op → Bytes → Option KeyRange
primary_range op id =
    let at = primary id in
    let after = at ++ (0 ∷ []) in
    elim op [
      | Op.eq ↦ some (record { start = at; end = some after })
      | Op.gt ↦ some (record { start = after; end = none })
      | Op.gte ↦ some (record { start = at; end = none })
      | Op.lt ↦ some (record { start = []; end = some at })
      | Op.lte ↦ some (record { start = []; end = some after })
      | Op.ne ↦ none
      | Op.contains ↦ none
      | Op.starts_with ↦ none
    ]

-- The match of `range_for_in`, on the value's encoding.
unfoldable pub range_of : Op → Document → Bytes → Option KeyRange
range_of Op.eq value encoded = some (prefixed encoded)
range_of Op.gt value encoded =
    some (record { start = encoded; end = (prefixed (take 1 encoded)).end })
range_of Op.gte value encoded =
    some (record { start = encoded; end = (prefixed (take 1 encoded)).end })
range_of Op.lt value encoded =
    some (record { start = (prefixed (take 1 encoded)).start; end = (prefixed encoded).end })
range_of Op.lte value encoded =
    some (record { start = (prefixed (take 1 encoded)).start; end = (prefixed encoded).end })
range_of Op.starts_with (Document.string s) encoded =
    some (prefixed (take (length encoded - 2) encoded))
range_of Op.starts_with (Document.binary b) encoded =
    some (prefixed (take (length encoded - 2) encoded))
range_of _ value encoded = none

unfoldable pub range_for_in : Op → Document → ℕ → Option KeyRange
unfolding range_of prefixed prefix_end
range_for_in op value fields = do encoded ← encode_value_in value fields; range_of op value encoded

unfoldable pub range_for : Op → Document → Option KeyRange
range_for op value = range_for_in op value 1
