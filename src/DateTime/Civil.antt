-- ===== src/DateTime/Civil.antt =====
-- src/datetime.rs: dates of the proleptic Gregorian calendar and the days since 1970, both ways.
use trunkdb.DateTime.{DateTime}
use trunkdb.Base.{
  ◌^◌, Bool, ℕ, ◌+◌, ◌-◌, ◌*◌, ◌/◌, ◌%◌, ◌≤◌, ◌<◌, ◌≡◌, refl, ap, ◌∙◌, leb, ltb, if◌then◌else◌,
  arith,
}
use trunkdb.Base.Int.{ℤ, pos, negsuc, ◌+ℤ◌, ◌-ℤ◌, ◌*ℤ◌}

-- `div_euclid` and `rem_euclid` by a positive number.
unfoldable pub div_euclid : ℤ → ℕ → ℤ
div_euclid (pos n) k = pos (n / k)
div_euclid (negsuc n) k = negsuc (n / k)

unfoldable pub rem_euclid : ℤ → ℕ → ℕ
rem_euclid (pos n) k = n % k
rem_euclid (negsuc n) k = k - 1 - n % k

-- The day of its era of 400 years that starts in March.
unfoldable pub day_of_era : ℕ → ℕ → ℕ → ℕ
day_of_era year_of_era month day =
    let month_from_march = (month + 9) % 12 in
    let day_of_year = (153 * month_from_march + 2) / 5 + day - 1 in
    year_of_era * 365 + year_of_era / 4 - year_of_era / 100 + day_of_year

unfoldable pub days_from_civil : ℤ → ℕ → ℕ → ℤ
unfolding ◌+ℤ◌ ◌-ℤ◌ ◌*ℤ◌ div_euclid rem_euclid day_of_era
days_from_civil year month day =
    let year' = if leb month 2 then year -ℤ pos 1 else year in
    (div_euclid year' 400 *ℤ pos 146_097 +ℤ pos (day_of_era (rem_euclid year' 400) month day))
    -ℤ pos 719_468

-- A year of the era, a month and a day.
unfoldable pub year_of_era : ℕ → ℕ
year_of_era day_of_era =
    (day_of_era - day_of_era / 1460 + day_of_era / 36_524 - day_of_era / 146_096) / 365

unfoldable pub day_of_year : ℕ → ℕ
unfolding year_of_era
day_of_year day_of_era =
    let year = year_of_era day_of_era in day_of_era - (365 * year + year / 4 - year / 100)

abbrev pub month_of : ℕ → ℕ
month_of month_from_march =
    if ltb month_from_march 10 then month_from_march + 3 else month_from_march - 9

unfoldable pub civil_from_days : ℤ → ℤ × ℕ × ℕ
unfolding ◌+ℤ◌ ◌*ℤ◌ div_euclid rem_euclid day_of_year
civil_from_days days =
    let shifted = days +ℤ pos 719_468 in
    let in_era = rem_euclid shifted 146_097 in
    let in_year = day_of_year in_era in
    let month_from_march = (5 * in_year + 2) / 153 in
    let day = in_year - (153 * month_from_march + 2) / 5 + 1 in
    let month = month_of month_from_march in
    let year =
      (pos (year_of_era in_era) +ℤ div_euclid shifted 146_097 *ℤ pos 400)
      +ℤ pos (if leb month 2 then 1 else 0) in
    (year, month, day)

year_fits :
    (doe : ℕ)
    → doe < 146_097
    → 365 * year_of_era doe + year_of_era doe / 4 - year_of_era doe / 100 ≤ doe
unfolding year_of_era
year_fits doe h = omega arith

rem_euclid_bound : (z : ℤ) → rem_euclid z 146_097 < 146_097
unfolding rem_euclid
rem_euclid_bound (pos n) = omega arith
rem_euclid_bound (negsuc n) = omega arith

div_euclid-year : (y : ℕ) (e : ℤ) → y < 400 → div_euclid (pos y +ℤ e *ℤ pos 400) 400 ≡ e
unfolding div_euclid ◌+ℤ◌ ◌*ℤ◌
div_euclid-year y (pos n) h = ground arith
div_euclid-year y (negsuc n) h = ground arith

rem_euclid-year : (y : ℕ) (e : ℤ) → y < 400 → rem_euclid (pos y +ℤ e *ℤ pos 400) 400 ≡ y
unfolding rem_euclid ◌+ℤ◌ ◌*ℤ◌
rem_euclid-year y (pos n) h = ground arith
rem_euclid-year y (negsuc n) h = ground arith

div_rem_euclid : (z : ℤ) → div_euclid z 146_097 *ℤ pos 146_097 +ℤ pos (rem_euclid z 146_097) ≡ z
unfolding div_euclid rem_euclid ◌+ℤ◌ ◌*ℤ◌
div_rem_euclid (pos n) = ground arith
div_rem_euclid (negsuc n) = ground arith

year_of_era_bound : (doe : ℕ) → doe < 146_097 → year_of_era doe < 400
unfolding year_of_era
year_of_era_bound doe h = omega arith

day_of_year_bound : (doe : ℕ) → doe < 146_097 → day_of_year doe < 366
unfolding day_of_year
day_of_year_bound doe h = omega arith

-- The day of the era, from its year, month and day.
day_of_era_back :
    (doe : ℕ)
    → doe < 146_097
    → day_of_era
        (year_of_era doe)
        (month_of ((5 * day_of_year doe + 2) / 153))
        (day_of_year doe - (153 * ((5 * day_of_year doe + 2) / 153) + 2) / 5 + 1)
      ≡ doe
unfolding day_of_era day_of_year
day_of_era_back doe h =
    let fits = year_fits doe h in let short = day_of_year_bound doe h in ground (arith, fits, short)

add_sub : (z a : ℤ) → (z +ℤ a) -ℤ a ≡ z
unfolding ◌+ℤ◌ ◌-ℤ◌
add_sub z a = ground arith

abbrev extra : ℕ → ℤ
extra month = pos (if leb month 2 then 1 else 0)

year_back :
    (base : ℤ) (month : ℕ)
    → (if leb month 2 then (base +ℤ extra month) -ℤ pos 1 else base +ℤ extra month) ≡ base
unfolding ◌+ℤ◌ ◌-ℤ◌
year_back base month = ground arith

days_from_civil_in_era :
    (doe month day : ℕ) (era : ℤ)
    → year_of_era doe < 400
    → day_of_era (year_of_era doe) month day ≡ doe
    → days_from_civil ((pos (year_of_era doe) +ℤ era *ℤ pos 400) +ℤ extra month) month day
      ≡ (era *ℤ pos 146_097 +ℤ pos doe) -ℤ pos 719_468
unfolding days_from_civil
days_from_civil_in_era doe month day era h e =
    rw
      (
        year_back (pos (year_of_era doe) +ℤ era *ℤ pos 400) month,
        div_euclid-year (year_of_era doe) era h,
        rem_euclid-year (year_of_era doe) era h,
        e,
      )
      refl

-- The day number of the date that a day number stands for is that day number, before and after
-- 1970.
pub days_from_civil-civil_from_days :
    (days : ℤ)
    → days_from_civil (civil_from_days days).0 (civil_from_days days).1 (civil_from_days days).2
      ≡ days
unfolding civil_from_days
days_from_civil-civil_from_days days =
    let z = days +ℤ pos 719_468 in
    let doe = rem_euclid z 146_097 in
    let bound = rem_euclid_bound z in
    days_from_civil_in_era doe (month_of ((5 * day_of_year doe + 2) / 153))
      (day_of_year doe - (153 * ((5 * day_of_year doe + 2) / 153) + 2) / 5 + 1)
      (div_euclid z 146_097) (year_of_era_bound doe bound) (day_of_era_back doe bound)
    ∙ ap (λ t. t -ℤ pos 719_468) (div_rem_euclid z)
    ∙ add_sub days (pos 719_468)

-- The earliest time: the smallest `i64` of seconds.
abbrev pub earliest : DateTime
earliest = record { secs = negsuc (2 ^ 63 - 1); nanos = 0 }

-- What an `i64` holds.
abbrev pub fits_i64 : ℤ → Bool
fits_i64 (pos n) = ltb n (2 ^ 63)
fits_i64 (negsuc n) = ltb n (2 ^ 63)

-- `DateTime::back`, the duration in nanoseconds.
unfoldable pub back : DateTime → ℕ → DateTime
unfolding ◌+ℤ◌ ◌-ℤ◌ ◌*ℤ◌ div_euclid rem_euclid
back t duration =
    let nanos = (t.secs *ℤ pos 1_000_000_000 +ℤ pos t.nanos) -ℤ pos duration in
    let secs = div_euclid nanos 1_000_000_000 in
    if fits_i64 secs
    then record { secs = secs; nanos = rem_euclid nanos 1_000_000_000 }
    else earliest
