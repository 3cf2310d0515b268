-- ===== src/Tests/Values.antt =====
-- src/release.rs and src/datetime.rs at concrete values.
use trunkdb.Base.{some, none, [], ◌∷◌, ◌≡◌, refl, arith}
use trunkdb.Base.Int.{pos, negsuc}
use trunkdb.DateTime.Civil.{civil_from_days, days_from_civil, days_from_civil-civil_from_days}
use trunkdb.Release.{
  Release, to_bytes, from_bytes, parse, from_bytes-to_bytes, parse-part_of, part_of,
}

abbrev release : Release
release = record { major = 0; minor = 24; patch = 1 }

from_bytes-to_bytes_example : from_bytes (to_bytes release) ≡ some release
from_bytes-to_bytes_example =
    from_bytes-to_bytes release (omega arith, omega arith, omega arith, refl)

-- "24"
parsed : parse (0x32 ∷ 0x34 ∷ []) ≡ some 24
unfolding parse
parsed = refl

parse-part_of_example : parse (0x32 ∷ 0x34 ∷ []) ≡ part_of (0x32 ∷ 0x34 ∷ [])
parse-part_of_example = parse-part_of (0x32 ∷ 0x34 ∷ [])

part_of_too_large : parse (0x37 ∷ 0x30 ∷ 0x30 ∷ 0x30 ∷ 0x30 ∷ []) ≡ none
unfolding parse
part_of_too_large = refl

epoch : civil_from_days (pos 0) ≡ (pos 1970, 1, 1)
unfolding civil_from_days
epoch = refl

leap_day : civil_from_days (pos 11_016) ≡ (pos 2000, 2, 29)
unfolding civil_from_days
leap_day = refl

before_epoch : days_from_civil (pos 1969) 12 31 ≡ negsuc 0
unfolding days_from_civil
before_epoch = refl

days_from_civil-civil_from_days_example :
    days_from_civil
      (civil_from_days (negsuc 999)).0
      (civil_from_days (negsuc 999)).1
      (civil_from_days (negsuc 999)).2
    ≡ negsuc 999
days_from_civil-civil_from_days_example = days_from_civil-civil_from_days (negsuc 999)
