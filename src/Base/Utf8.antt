-- ===== src/Base/Utf8.antt =====
-- `std::str::from_utf8`: which bytes are UTF-8 (the well-formed sequences of Unicode's table 3-7).
use Prim.Native.Nat.{ℕ}
use mathlib.Core.Bool.{Bool, true, false, ◌&&◌}
use mathlib.Core.List.{[], ◌∷◌}
use trunkdb.Base.Tests.{ltb, leb, ◌==◌, if◌then◌else◌}
use trunkdb.Base.ByteString.{Bytes}

within : ℕ → ℕ → ℕ → Bool
within lo hi b = leb lo b && leb b hi

-- Where a sequence stands: at a start, or with continuation bytes to come, of which the first
-- lies between two bounds.
pub data Place : Type 0 where
  start : Place
  one : Place
  two three : ℕ → ℕ → Place
  bad : Place

first_byte : ℕ → Place
first_byte b =
    if ltb b 0x80
    then start
    else if within 0xC2 0xDF b
    then one
    else if b == 0xE0
    then two 0xA0 0xBF
    else if b == 0xED
    then two 0x80 0x9F
    else if within 0xE1 0xEF b
    then two 0x80 0xBF
    else if b == 0xF0
    then three 0x90 0xBF
    else if within 0xF1 0xF3 b
    then three 0x80 0xBF
    else if b == 0xF4
    then three 0x80 0x8F
    else bad

next_place : Place → ℕ → Place
next_place start b = first_byte b
next_place one b = if within 0x80 0xBF b then start else bad
next_place (two lo hi) b = if within lo hi b then one else bad
next_place (three lo hi) b = if within lo hi b then two 0x80 0xBF else bad
next_place bad b = bad

runs_to_start : Place → Bytes → Bool
unfolding next_place first_byte within
runs_to_start start [] = true
runs_to_start _ [] = false
runs_to_start p (b ∷ bs) = runs_to_start (next_place p b) bs

unfoldable pub is_utf8 : Bytes → Bool
unfolding runs_to_start
is_utf8 = runs_to_start start
