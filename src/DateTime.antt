-- ===== src/DateTime.antt =====
-- `DateTime` of src/datetime.rs: an instant in UTC as seconds since 1970 and nanoseconds.
pub mod Civil
use trunkdb.Base.{ℕ, ◌+◌, ◌^◌, ◌<◌, Option, none, some, ltb, if◌then◌else◌, compare, Ordering}
use trunkdb.Base.Int.{ℤ, pos_part, neg_part}

abbrev pub nanos_per_second : ℕ
nanos_per_second = 1_000_000_000

pub record DateTime : Type 0 where
  pub secs : ℤ
  pub nanos : ℕ

-- What the fields' types and `from_unix` promise of a `DateTime`.
pub record IsDateTime (t : DateTime) : Type 0 where
  pub secs_lt : pos_part t.secs < 2 ^ 63
  pub secs_ge : neg_part t.secs < 2 ^ 63 + 1
  pub nanos_lt : t.nanos < nanos_per_second

unfoldable pub from_unix : ℤ → ℕ → Option DateTime
from_unix secs nanos =
    if ltb nanos nanos_per_second then some (record { secs = secs; nanos = nanos }) else none

-- `i64`'s order.
abbrev pub compare_ℤ : ℤ → ℤ → Ordering
compare_ℤ a b = compare (pos_part a + neg_part b) (pos_part b + neg_part a)

-- The derived `Ord`: seconds first, then nanoseconds.
unfoldable pub compare_times : DateTime → DateTime → Ordering
compare_times a b = elim (compare_ℤ a.secs b.secs) [
  | Ordering.lt ↦ Ordering.lt
  | Ordering.eq ↦ compare a.nanos b.nanos
  | Ordering.gt ↦ Ordering.gt
]
