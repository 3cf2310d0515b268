-- ===== src/Release.antt =====
-- `Release` of src/release.rs: a release's numbers, and how the header holds them.
use trunkdb.Base.{
  ℕ, ◌+◌, ◌-◌, ◌*◌, ◌/◌, ◌%◌, ◌<◌, ◌^◌, Bool, false, not, ◌&&◌, Option, none, some, [], ◌∷◌, ◌++◌,
  ◌≡◌, refl, take, drop, leb, ◌==◌, if◌then◌else◌, Bytes, arith, Bool-cases, inl, inr, zero, suc,
  ◌≤◌, true, ltb, length,
}
use native.Mathlib.Nat.{add-mul, mul_assoc}
use trunkdb.Base.ByteString.{to_le, from_le}

pub record Release : Type 0 where
  pub major : ℕ
  pub minor : ℕ
  pub patch : ℕ

abbrev pub unknown : Release
unknown = record { major = 0; minor = 0; patch = 0 }

unfoldable pub to_bytes : Release → Bytes
to_bytes r = to_le 2 r.major ++ (to_le 2 r.minor ++ to_le 2 r.patch)

-- `u16::from_le_bytes` of the two bytes there.
abbrev pub part : Bytes → ℕ → ℕ
part bytes at = from_le (take 2 (drop at bytes))

abbrev pub is_unknown : Release → Bool
is_unknown r = r.major == 0 && (r.minor == 0 && r.patch == 0)

unfoldable pub from_bytes : Bytes → Option Release
from_bytes bytes =
    let release : Release = record {
      major = part bytes 0;
      minor = part bytes 2;
      patch = part bytes 4;
    } in
    if not (is_unknown release) then some release else none

-- A version part, as the build reads it, down to `value as u16`; `none` fails the build. The sum
-- is in 32 bits, which ten times 16 bits and a digit do not fill.
unfoldable pub parse_digits : ℕ → Bytes → Option ℕ
parse_digits value [] = some (value % 2 ^ 16)
parse_digits value (b ∷ bytes) =
    let value' = value * 10 + (b - b'0') in
    let rest = parse_digits value' bytes in
    if leb b'0' b && leb b b'9' then (if leb value' 65535 then rest else none) else none

unfoldable pub parse : Bytes → Option ℕ
unfolding parse_digits
parse [] = none
parse (b ∷ bytes) = parse_digits 0 (b ∷ bytes)

-- Numbers of 16 bits, of a release that is known.
abbrev pub IsRelease : Release → Type 0
IsRelease r = (r.major < 2 ^ 16) × (r.minor < 2 ^ 16) × (r.patch < 2 ^ 16) × (is_unknown r ≡ false)

-- A release of 16-bit numbers, not all zero, is read back from the header's six bytes.
pub from_bytes-to_bytes : (r : Release) → IsRelease r → from_bytes (to_bytes r) ≡ some r
unfolding from_bytes to_bytes to_le from_le
from_bytes-to_bytes r h =
    let number : (n : ℕ) → n < 2 ^ 16 → n % 256 + 256 * (n / 256 % 256 + 256 * 0) ≡ n =
      λ n small. omega arith in
    rw (number r.major h.0, number r.minor h.1, number r.patch h.2, h.3) refl

abbrev is_ascii_digit : ℕ → Bool
is_ascii_digit b = leb b'0' b && leb b b'9'

-- Only digits, and the number that they stand for: each digit times its place's power of ten.
abbrev pub all_digits : Bytes → Bool
all_digits [] = true
all_digits (b ∷ digits) = is_ascii_digit b && all_digits digits

abbrev pub decimal : Bytes → ℕ
decimal [] = 0
decimal (b ∷ digits) = (b - b'0') * 10 ^ length digits + decimal digits

abbrev pub part_of : Bytes → Option ℕ
part_of [] = none
part_of (b ∷ digits) =
    if all_digits (b ∷ digits) && ltb (decimal (b ∷ digits)) (2 ^ 16)
    then some (decimal (b ∷ digits))
    else none

power_pos : (n : ℕ) → 0 < 10 ^ n
power_pos zero = omega arith
power_pos (suc n) = omega (arith, power_pos n)

-- What is read so far moves up a place for every digit that follows.
shifted : (value d p rest : ℕ) → (value * 10 + d) * p + rest ≡ value * (10 * p) + (d * p + rest)
shifted value d p rest =
    let split = add-mul (value * 10) d p in
    let moved = mul_assoc value 10 p in omega (arith, split, moved)

grow : (p n : ℕ) → 0 < p → n ≤ n * p
grow p n h = grind arith

parse_digits-decimal :
    (value : ℕ) (digits : Bytes)
    → value < 2 ^ 16
    → parse_digits value digits ≡ (
        if all_digits digits && ltb (value * 10 ^ length digits + decimal digits) (2 ^ 16)
        then some (value * 10 ^ length digits + decimal digits)
        else none)
unfolding parse_digits
parse_digits-decimal value [] small = ground arith
parse_digits-decimal value (b ∷ digits) small =
    let value' : ℕ = value * 10 + (b - b'0') in
    let place : ℕ = 10 ^ length digits in
    let total = shifted value (b - b'0') place (decimal digits) in
    elim (Bool-cases (leb value' 65535)) [
      | inl fits ↦
          let later = parse_digits-decimal value' digits (ground arith) in
          ground (arith, later, total)
      | inr large ↦
          let more : value' ≤ value' * place = grow place value' (power_pos (length digits)) in
          ground (arith, more, total)
    ]

-- A version part is read just if it is one or more decimal digits that stand for less than 2^16,
-- and as the number they stand for.
pub parse-part_of : (digits : Bytes) → parse digits ≡ part_of digits
unfolding parse
parse-part_of [] = refl
parse-part_of (b ∷ digits) =
    let none_before : (p rest : ℕ) → 0 * p + rest ≡ rest = λ p rest. omega arith in
    ground (
      arith,
      parse_digits-decimal 0 (b ∷ digits),
      none_before (10 ^ length (b ∷ digits)) (decimal (b ∷ digits)),
    )
