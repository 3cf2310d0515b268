-- ===== src/Path/Plain.antt =====
-- src/path.rs: the steps of a path without `[*]`.
use trunkdb.Base.{
  ℕ, zero, suc, ◌-◌, ◌≡◌, refl, ap, arith, true, false, inl, inr, Bool-cases, List, [], ◌∷◌, ◌++◌,
  map, All, length, drop, ◌==◌, Bytes,
}
use trunkdb.Base.ByteString.{eq_bytes, eq_bytes→eq}
use trunkdb.Path.Defs.{PathStep, dot, star, starts_with, contains, split_dots, trim_end, step_of}

-- A text is its first part and what the others come from.
split_dots-prefix : (bytes : Bytes) → (rest : Bytes) × (bytes ≡ (split_dots bytes).0 ++ rest)
unfolding split_dots
split_dots-prefix [] = ([], refl)
split_dots-prefix (b ∷ bytes) = elim (Bool-cases (b == dot)) [
  | inl h ↦ (b ∷ bytes, rw h refl)
  | inr h ↦ let (rest, e) = split_dots-prefix bytes in (rest, rw h (ap (◌∷◌ b) e))
]

starts_with-append : (x y : Bytes) → starts_with star x ≡ true → starts_with star (x ++ y) ≡ true
unfolding eq_bytes
starts_with-append [] y h = absurd cc
starts_with-append (a ∷ []) y h = absurd (ground arith)
starts_with-append (a ∷ (b ∷ [])) y h = absurd (ground arith)
starts_with-append (a ∷ (b ∷ (c ∷ x))) y h = h

starts_with-split :
    (b : ℕ) (bytes : Bytes)
    → starts_with star (b ∷ (split_dots bytes).0) ≡ true
    → starts_with star (b ∷ bytes) ≡ true
starts_with-split b bytes h =
    let (rest, e) = split_dots-prefix bytes in
    rw e (starts_with-append (b ∷ (split_dots bytes).0) rest h)

-- What holds no `[*]` has no part that does.
abbrev IsFree : Bytes → Type 0
IsFree p = contains star p ≡ false

no_star : IsFree []
unfolding contains eq_bytes
no_star = refl

split_dots-IsFree :
    (bytes : Bytes) → IsFree bytes → IsFree (split_dots bytes).0 × All IsFree (split_dots bytes).1
unfolding split_dots contains
split_dots-IsFree [] h = (h, tt)
split_dots-IsFree (b ∷ bytes) h =
    let behind : IsFree bytes = ground (arith, h) in
    let (first, others) = split_dots-IsFree bytes behind in
    elim (Bool-cases (b == dot)) [
      | inl d ↦ rw d (no_star, (first, others))
      | inr d ↦
          let apart : starts_with star (b ∷ (split_dots bytes).0) ≡ false =
            elim (Bool-cases (starts_with star (b ∷ (split_dots bytes).0))) [
              | inl there ↦ absurd (ground (arith, h, starts_with-split b bytes there))
              | inr gone ↦ gone
            ] in
          rw d (rw (apart, first) refl, others)
    ]

star_there : contains star star ≡ true
unfolding contains eq_bytes
star_there = refl

no_text : eq_bytes [] star ≡ false
unfolding eq_bytes
no_text = refl

contains-drop : (n : ℕ) (p : Bytes) → eq_bytes (drop n p) star ≡ true → contains star p ≡ true
unfolding contains
contains-drop zero p h = rw (eq_bytes→eq p star h) star_there
contains-drop (suc n) [] h = absurd (ground (arith, h, no_text))
contains-drop (suc n) (b ∷ p) h = ground (arith, contains-drop n p h)

trim_end_lem : (fuel : ℕ) (p : Bytes) → IsFree p → trim_end fuel p ≡ p
unfolding trim_end
trim_end_lem zero p h = refl
trim_end_lem (suc fuel) p h = elim (Bool-cases (eq_bytes (drop (length p - 3) p) star)) [
  | inl ends ↦ absurd (ground (arith, h, contains-drop (length p - 3) p ends))
  | inr other ↦ rw other refl
]

-- A step as it is written.
abbrev pub IsPlain : PathStep → Type 0
IsPlain step = (step.name ≡ step.raw) × (step.fan_outs ≡ 0)

step_of-IsPlain : (p : Bytes) → IsFree p → IsPlain (step_of p)
unfolding step_of
step_of-IsPlain p h = let whole = trim_end_lem (length p) p h in (whole, rw whole (omega arith))

All-step_of : (ps : List Bytes) → All IsFree ps → All IsPlain (map step_of ps)
All-step_of [] h = tt
All-step_of (p ∷ ps) (h, hs) = (step_of-IsPlain p h, All-step_of ps hs)

-- The steps of a path without `[*]` are as they are written.
pub split_dots-IsPlain :
    (path : Bytes)
    → contains star path ≡ false
    → IsPlain (step_of (split_dots path).0) × All IsPlain (map step_of (split_dots path).1)
split_dots-IsPlain path h =
    let (first, others) = split_dots-IsFree path h in
    (step_of-IsPlain (split_dots path).0 first, All-step_of (split_dots path).1 others)
