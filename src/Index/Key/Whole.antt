-- ===== src/Index/Key/Whole.antt =====
-- src/index/key.rs: strings and binary values in a key, cut to the budget and not.
use trunkdb.Base.{
  ℕ, zero, suc, ◌+◌, ◌^◌, ◌≤◌, ◌<◌, ◌≡◌, refl, ap, ◌∙◌, inl, inr, arith, Ordering, Bool, true,
  false, [], ◌∷◌, ◌&&◌, Bool-cases, ltb, leb, Bytes,
}
use trunkdb.Base.ByteString.{compare_bytes, compare_bytes_flip, compare_bytes-eq, flip_ordering}
use trunkdb.Base.Int.{ℤ, pos_part, neg_part}
use trunkdb.Document.{Document}
use trunkdb.Index.Key.Before.{
  StrictlyBefore, Agrees, AgreesStrictly, AgreesStrictly-Agrees, StrictlyBefore-cons,
  StrictlyBefore-lt, SortsBefore-cons, terminated, escape_zero, escape_suc, compare_heads,
  terminated-SortsBefore,
}
use trunkdb.Index.Key.Defs.{encode_escaped, escape_up_to, string_budget}

-- The bytes that a text takes in a key, its end left out: a zero takes two.
abbrev pub escaped_len : Bytes → ℕ
escaped_len [] = 0
escaped_len (zero ∷ bytes) = 2 + escaped_len bytes
escaped_len (suc b ∷ bytes) = 1 + escaped_len bytes

-- An `f64` holds an integer of 53 bits as it is.
abbrev pub is_whole_int : ℤ → Bool
is_whole_int n = ltb (pos_part n + neg_part n) (2 ^ 53)

-- Whether a key of so many fields holds all of a value: not of a text that is over the budget, nor
-- all the bits of a larger integer.
abbrev pub is_whole : Document → ℕ → Bool
is_whole (Document.string a) fields = leb (escaped_len a) (string_budget fields)
is_whole (Document.binary a) fields = leb (escaped_len a) (string_budget fields)
is_whole (Document.int n) fields = is_whole_int n
is_whole _ fields = true

-- Whole encodings sort strictly as their values do; cut ones may also be equal.
abbrev pub Sorts : Bool → Ordering → Bytes → Bytes → Type 0
Sorts true o x y = AgreesStrictly o x y
Sorts false o x y = Agrees o x y

pub Sorts-Agrees : (whole : Bool) (o : Ordering) (x y : Bytes) → Sorts whole o x y → Agrees o x y
Sorts-Agrees true o x y h = AgreesStrictly-Agrees o x y h
Sorts-Agrees false o x y h = h

module _ (budget : ℕ) where
  end_strictly :
      (y : ℕ) (ys : Bytes) (used : ℕ)
      → used + escaped_len (y ∷ ys) ≤ budget
      → StrictlyBefore (0 ∷ 0 ∷ []) (terminated (y ∷ ys) used budget)
  unfolding compare_bytes
  end_strictly zero ys used h =
      let room : ltb budget (used + 2) ≡ false = ground (arith, h) in
      rw (escape_zero, room) (record { before = λ r s. refl })
  end_strictly (suc y) ys used h =
      let room : ltb budget (used + 1) ≡ false = ground (arith, h) in
      rw (escape_suc, room) (record { before = λ r s. ground arith })

  less_strictly :
      (x y : ℕ) (xs ys : Bytes) (used : ℕ)
      → x < y
      → used + escaped_len (x ∷ xs) ≤ budget
      → used + escaped_len (y ∷ ys) ≤ budget
      → StrictlyBefore (terminated (x ∷ xs) used budget) (terminated (y ∷ ys) used budget)
  less_strictly x zero xs ys used less h k = absurd (omega arith)
  less_strictly zero (suc y) xs ys used less h k =
      let two : ltb budget (used + 2) ≡ false = ground (arith, h) in
      let one : ltb budget (used + 1) ≡ false = ground (arith, h) in
      rw (escape_zero, two, escape_suc, one) (StrictlyBefore-lt 0 (suc y) less)
  less_strictly (suc x) (suc y) xs ys used less h k =
      let room : ltb budget (used + 1) ≡ false = ground (arith, h) in
      rw (escape_suc x, escape_suc y, room) (StrictlyBefore-lt (suc x) (suc y) less)

  same_strictly :
      (x : ℕ) (xs ys : Bytes) (used : ℕ)
      → used + escaped_len (x ∷ xs) ≤ budget
      → used + escaped_len (x ∷ ys) ≤ budget
      → ((u : ℕ)
          → u + escaped_len xs ≤ budget
          → u + escaped_len ys ≤ budget
          → StrictlyBefore (terminated xs u budget) (terminated ys u budget))
      → StrictlyBefore (terminated (x ∷ xs) used budget) (terminated (x ∷ ys) used budget)
  same_strictly zero xs ys used h k rest =
      let room : ltb budget (used + 2) ≡ false = ground (arith, h) in
      rw (escape_zero xs, escape_zero ys, room)
        (StrictlyBefore-cons 0
          (StrictlyBefore-cons 0xFF (rest (used + 2) (omega arith) (omega arith))))
  same_strictly (suc x) xs ys used h k rest =
      let room : ltb budget (used + 1) ≡ false = ground (arith, h) in
      rw (escape_suc x xs, escape_suc x ys, room)
        (StrictlyBefore-cons (suc x) (rest (used + 1) (omega arith) (omega arith)))

  -- Escaping keeps the order of byte strings strictly, where neither is cut.
  terminated-StrictlyBefore :
      (a b : Bytes) (used : ℕ)
      → used + escaped_len a ≤ budget
      → used + escaped_len b ≤ budget
      → compare_bytes a b ≡ Ordering.lt
      → StrictlyBefore (terminated a used budget) (terminated b used budget)
  terminated-StrictlyBefore [] [] used h k less = unfold compare_bytes in cc
  terminated-StrictlyBefore (x ∷ xs) [] used h k less = unfold compare_bytes in cc
  terminated-StrictlyBefore [] (y ∷ ys) used h k less =
      unfold escape_up_to in end_strictly y ys used k
  terminated-StrictlyBefore (x ∷ xs) (y ∷ ys) used h k less = elim (compare_heads x y xs ys less) [
    | inl first ↦ less_strictly x y xs ys used first h k
    | inr (same, later) ↦ rw (← same) (
        same_strictly x xs ys used h (rw (← same) at k)
          (λ u hx hy. terminated-StrictlyBefore xs ys u hx hy later))
  ]

module _ (tag budget : ℕ) (a b : Bytes) where
  text-Agrees :
      Agrees (compare_bytes a b) (encode_escaped tag a budget) (encode_escaped tag b budget)
  unfolding encode_escaped
  text-Agrees = by_order (compare_bytes a b) refl
    where
      by_order :
          (o : Ordering)
          → compare_bytes a b ≡ o
          → Agrees o (encode_escaped tag a budget) (encode_escaped tag b budget)
      by_order Ordering.lt h = SortsBefore-cons tag (terminated-SortsBefore a b 0 budget h)
      by_order Ordering.eq h = rw (compare_bytes-eq a b h) refl
      by_order Ordering.gt h =
          let back : compare_bytes b a ≡ Ordering.lt =
            compare_bytes_flip a b ∙ ap flip_ordering h in
          SortsBefore-cons tag (terminated-SortsBefore b a 0 budget back)

  text-AgreesStrictly :
      escaped_len a ≤ budget
      → escaped_len b ≤ budget
      → AgreesStrictly
          (compare_bytes a b)
          (encode_escaped tag a budget)
          (encode_escaped tag b budget)
  unfolding encode_escaped
  text-AgreesStrictly ha hb = by_order (compare_bytes a b) refl
    where
      by_order :
          (o : Ordering)
          → compare_bytes a b ≡ o
          → AgreesStrictly o (encode_escaped tag a budget) (encode_escaped tag b budget)
      by_order Ordering.lt h =
          StrictlyBefore-cons tag
            (terminated-StrictlyBefore budget a b 0 (omega arith) (omega arith) h)
      by_order Ordering.eq h = rw (compare_bytes-eq a b h) refl
      by_order Ordering.gt h =
          let back : compare_bytes b a ≡ Ordering.lt =
            compare_bytes_flip a b ∙ ap flip_ordering h in
          StrictlyBefore-cons tag
            (terminated-StrictlyBefore budget b a 0 (omega arith) (omega arith) back)

  pub text-Sorts :
      Sorts
        (leb (escaped_len a) budget && leb (escaped_len b) budget)
        (compare_bytes a b)
        (encode_escaped tag a budget)
        (encode_escaped tag b budget)
  text-Sorts = elim (Bool-cases (leb (escaped_len a) budget && leb (escaped_len b) budget)) [
    | inl whole ↦ rw whole (text-AgreesStrictly (ground (arith, whole)) (ground (arith, whole)))
    | inr cut ↦ rw cut text-Agrees
  ]
