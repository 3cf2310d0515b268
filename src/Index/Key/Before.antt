-- ===== src/Index/Key/Before.antt =====
-- src/index/key.rs: byte strings that sort one before the other whatever bytes follow them, and
-- escaped strings among them.
use trunkdb.Base.{
  ℕ, zero, suc, ◌+◌, ◌<◌, ◌≡◌, refl, ◌⊎◌, inl, inr, arith, Ordering, false, [], ◌∷◌, ◌++◌,
  Bool-cases, ltb, if◌then◌else◌, Bytes,
}
use trunkdb.Base.ByteString.{compare_bytes}
use trunkdb.Index.Key.Defs.{escape_up_to}

-- Less at a byte that both have: so no prefix of one another.
pub record StrictlyBefore (x y : Bytes) : Type 0 where
  pub before : (r s : Bytes) → compare_bytes (x ++ r) (y ++ s) ≡ Ordering.lt

abbrev pub SortsBefore : Bytes → Bytes → Type 0
SortsBefore x y = (x ≡ y) ⊎ StrictlyBefore x y

abbrev pub AgreesStrictly : Ordering → Bytes → Bytes → Type 0
AgreesStrictly Ordering.lt x y = StrictlyBefore x y
AgreesStrictly Ordering.eq x y = x ≡ y
AgreesStrictly Ordering.gt x y = StrictlyBefore y x

abbrev pub Agrees : Ordering → Bytes → Bytes → Type 0
Agrees Ordering.lt x y = SortsBefore x y
Agrees Ordering.eq x y = x ≡ y
Agrees Ordering.gt x y = SortsBefore y x

pub AgreesStrictly-Agrees : (o : Ordering) (x y : Bytes) → AgreesStrictly o x y → Agrees o x y
AgreesStrictly-Agrees Ordering.lt x y h = inr h
AgreesStrictly-Agrees Ordering.eq x y h = h
AgreesStrictly-Agrees Ordering.gt x y h = inr h

pub StrictlyBefore-cons :
    (c : ℕ) {x y : Bytes} → StrictlyBefore x y → StrictlyBefore (c ∷ x) (c ∷ y)
unfolding compare_bytes
StrictlyBefore-cons c f = record { before = λ r s. ground (arith, f.before r s) }

pub StrictlyBefore-lt : (c d : ℕ) {x y : Bytes} → c < d → StrictlyBefore (c ∷ x) (d ∷ y)
unfolding compare_bytes
StrictlyBefore-lt c d h = record { before = λ r s. ground arith }

pub AgreesStrictly-cons :
    (c : ℕ) (o : Ordering) (x y : Bytes) → AgreesStrictly o x y → AgreesStrictly o (c ∷ x) (c ∷ y)
AgreesStrictly-cons c Ordering.lt x y h = StrictlyBefore-cons c h
AgreesStrictly-cons c Ordering.eq x y h = cc
AgreesStrictly-cons c Ordering.gt x y h = StrictlyBefore-cons c h

pub SortsBefore-cons : (c : ℕ) {x y : Bytes} → SortsBefore x y → SortsBefore (c ∷ x) (c ∷ y)
SortsBefore-cons c (inl e) = inl (cc e)
SortsBefore-cons c (inr f) = inr (StrictlyBefore-cons c f)

SortsBefore-lt : (c d : ℕ) {x y : Bytes} → c < d → SortsBefore (c ∷ x) (d ∷ y)
SortsBefore-lt c d h = inr (StrictlyBefore-lt c d h)

abbrev pub terminated : Bytes → ℕ → ℕ → Bytes
terminated bytes used budget = escape_up_to bytes used budget ++ (0 ∷ 0 ∷ [])

pub escape_zero :
    (bs : Bytes) (used budget : ℕ)
    → escape_up_to (0 ∷ bs) used budget
      ≡ (if ltb budget (used + 2) then [] else 0 ∷ 0xFF ∷ escape_up_to bs (used + 2) budget)
unfolding escape_up_to
escape_zero bs used budget = refl

pub escape_suc :
    (b : ℕ) (bs : Bytes) (used budget : ℕ)
    → escape_up_to (suc b ∷ bs) used budget
      ≡ (if ltb budget (used + 1) then [] else suc b ∷ escape_up_to bs (used + 1) budget)
unfolding escape_up_to
escape_suc b bs used budget = ground arith

-- The end of one text against what another goes on with.
end_before :
    (y : ℕ) (ys : Bytes) (used budget : ℕ)
    → SortsBefore (0 ∷ 0 ∷ []) (terminated (y ∷ ys) used budget)
unfolding compare_bytes
end_before zero ys used budget = elim (Bool-cases (ltb budget (used + 2))) [
  | inl full ↦ rw (escape_zero, full) (inl refl)
  | inr room ↦ rw (escape_zero, room) (inr (record { before = λ r s. refl }))
]
end_before (suc y) ys used budget = elim (Bool-cases (ltb budget (used + 1))) [
  | inl full ↦ rw (escape_suc, full) (inl refl)
  | inr room ↦ rw (escape_suc, room) (inr (record { before = λ r s. ground arith }))
]

zero_before :
    (y : ℕ) (xs ys : Bytes) (used budget : ℕ)
    → SortsBefore (terminated (0 ∷ xs) used budget) (terminated (suc y ∷ ys) used budget)
zero_before y xs ys used budget = elim (Bool-cases (ltb budget (used + 2))) [
  | inl full ↦ rw (escape_zero, full) (end_before (suc y) ys used budget)
  | inr room ↦
      let more : ltb budget (used + 1) ≡ false = ground arith in
      rw (escape_zero, room, escape_suc, more) (SortsBefore-lt 0 (suc y) (omega arith))
]

suc_before :
    (x y : ℕ) (xs ys : Bytes) (used budget : ℕ)
    → x < y
    → SortsBefore (terminated (suc x ∷ xs) used budget) (terminated (suc y ∷ ys) used budget)
suc_before x y xs ys used budget h = elim (Bool-cases (ltb budget (used + 1))) [
  | inl full ↦ rw (escape_suc x, escape_suc y, full) (inl refl)
  | inr room ↦ rw (escape_suc x, escape_suc y, room) (SortsBefore-lt (suc x) (suc y) (omega arith))
]

same_before :
    (x : ℕ) (xs ys : Bytes) (used budget : ℕ)
    → ((u : ℕ) → SortsBefore (terminated xs u budget) (terminated ys u budget))
    → SortsBefore (terminated (x ∷ xs) used budget) (terminated (x ∷ ys) used budget)
same_before zero xs ys used budget rest = elim (Bool-cases (ltb budget (used + 2))) [
  | inl full ↦ rw (escape_zero xs, escape_zero ys, full) (inl refl)
  | inr room ↦
      rw (escape_zero xs, escape_zero ys, room)
        (SortsBefore-cons 0 (SortsBefore-cons 0xFF (rest (used + 2))))
]
same_before (suc x) xs ys used budget rest = elim (Bool-cases (ltb budget (used + 1))) [
  | inl full ↦ rw (escape_suc x xs, escape_suc x ys, full) (inl refl)
  | inr room ↦
      rw (escape_suc x xs, escape_suc x ys, room) (SortsBefore-cons (suc x) (rest (used + 1)))
]

pub compare_heads :
    (x y : ℕ) (xs ys : Bytes)
    → compare_bytes (x ∷ xs) (y ∷ ys) ≡ Ordering.lt
    → (x < y) ⊎ ((x ≡ y) × (compare_bytes xs ys ≡ Ordering.lt))
unfolding compare_bytes
compare_heads x y xs ys h = grind arith

less_before :
    (x y : ℕ) (xs ys : Bytes) (used budget : ℕ)
    → x < y
    → SortsBefore (terminated (x ∷ xs) used budget) (terminated (y ∷ ys) used budget)
less_before x zero xs ys used budget h = absurd (omega arith)
less_before zero (suc y) xs ys used budget h = zero_before y xs ys used budget
less_before (suc x) (suc y) xs ys used budget h = suc_before x y xs ys used budget (omega arith)

-- Escaping keeps the order of byte strings, cut to the budget or not.
pub terminated-SortsBefore :
    (a b : Bytes) (used budget : ℕ)
    → compare_bytes a b ≡ Ordering.lt
    → SortsBefore (terminated a used budget) (terminated b used budget)
terminated-SortsBefore [] [] used budget h = unfold compare_bytes in cc
terminated-SortsBefore (x ∷ xs) [] used budget h = unfold compare_bytes in cc
terminated-SortsBefore [] (y ∷ ys) used budget h =
    unfold escape_up_to in end_before y ys used budget
terminated-SortsBefore (x ∷ xs) (y ∷ ys) used budget h = elim (compare_heads x y xs ys h) [
  | inl less ↦ less_before x y xs ys used budget less
  | inr (same, later) ↦
      rw (← same)
        (same_before x xs ys used budget (λ u. terminated-SortsBefore xs ys u budget later))
]
