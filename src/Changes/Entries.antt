-- ===== src/Changes/Entries.antt =====
-- src/changes.rs: what a batch's entries say of one document.
use trunkdb.Base.{
  ℕ, suc, ◌≡◌, ◌≢◌, refl, sym, ap, ◌∙◌, ◌⊎◌, inl, inr, arith, Bool, true, false, ◌&&◌, Option, none,
  some, Option-cases, Bool-cases, List, [], ◌∷◌, ◌++◌, All, All-append, length, if◌then◌else◌,
  Bytes,
}
use trunkdb.Base.ByteString.{eq_bytes}
use trunkdb.Changes.Defs.{Entry, set_exists}

module _ (c d : Bytes) where
  abbrev is_id : Option Bytes → Bool
  is_id none = false
  is_id (some id) = eq_bytes id d

  abbrev concerns_id : Option Bytes → Bool
  concerns_id none = true
  concerns_id (some id) = eq_bytes id d

  -- The document's own entry, and the entries that say whether it is there.
  abbrev pub is_own : Entry → Bool
  is_own e = eq_bytes e.collection c && is_id e.id

  abbrev pub concerns : Entry → Bool
  concerns e = eq_bytes e.collection c && concerns_id e.id

  abbrev next : Option ℕ → Option ℕ
  next none = none
  next (some i) = some (suc i)

  unfoldable pub position : List Entry → Option ℕ
  position [] = none
  position (e ∷ es) = let rest = position es in if is_own e then some 0 else next rest

  abbrev pub after : Entry → Bool → Bool
  after e b = if concerns e then e.exists else b

  unfoldable pub value : List Entry → Bool → Bool
  value [] b = b
  value (e ∷ es) b = value es (after e b)

  -- No entry behind the document's own concerns it.
  abbrev pub IsSettled : List Entry → Type 0
  IsSettled [] = Unit
  IsSettled (e ∷ es) = (is_own e ≡ true → All (λ f. concerns f ≡ false) es) × IsSettled es

  -- Its own entry says what was there before it, and a drop leaves nothing.
  abbrev pub IsTold : List Entry → Bool → Type 0
  IsTold [] b = Unit
  IsTold (e ∷ es) b =
      (is_own e ≡ true → e.existed ≡ b) × (e.id ≡ none → e.exists ≡ false) × IsTold es (after e b)

  pub own-concerns : (e : Entry) → concerns e ≡ false → is_own e ≡ false
  own-concerns e h = elim (Option-cases e.id) [
    | inl n ↦ ground (arith, n, h)
    | inr (id, n) ↦ ground (arith, n, h)
  ]

  own_concerned : (e : Entry) → is_own e ≡ true → concerns e ≡ true
  own_concerned e h = elim (Option-cases e.id) [
    | inl n ↦ ground (arith, n, h)
    | inr (id, n) ↦ ground (arith, n, h)
  ]

  no_drop : (e : Entry) → is_own e ≡ true → e.id ≢ none
  no_drop e h n = ground (arith, n, h)

  pub value-none : (es : List Entry) (b : Bool) → All (λ f. concerns f ≡ false) es → value es b ≡ b
  unfolding value
  value-none [] b h = refl
  value-none (e ∷ es) b (h, hs) = rw h (value-none es b hs)

  pub IsTold-none :
      (es : List Entry) (a b : Bool) → All (λ f. concerns f ≡ false) es → IsTold es a → IsTold es b
  IsTold-none [] a b h t = tt
  IsTold-none (e ∷ es) a b (h, hs) (own, drop, rest) = (
    λ o. absurd (ground (arith, own-concerns e h, o)),
    drop,
    IsTold-none es (after e a) (after e b) hs rest,
  )

  -- An entry more at the end.
  pub value-snoc :
      (es : List Entry) (e : Entry) (b : Bool) → value (es ++ e ∷ []) b ≡ after e (value es b)
  unfolding value
  value-snoc [] e b = refl
  value-snoc (x ∷ es) e b = value-snoc es e (after x b)

  pub IsTold-snoc :
      (es : List Entry) (e : Entry) (b : Bool)
      → IsTold es b
      → (is_own e ≡ true → e.existed ≡ value es b)
      → (e.id ≡ none → e.exists ≡ false)
      → IsTold (es ++ e ∷ []) b
  unfolding value
  IsTold-snoc [] e b h own drop = (own, drop, tt)
  IsTold-snoc (x ∷ es) e b (o, r, rest) own drop =
      (o, r, IsTold-snoc es e (after x b) rest own drop)

  pub IsSettled-snoc :
      (es : List Entry) (e : Entry)
      → IsSettled es
      → (position es ≡ none) ⊎ (concerns e ≡ false)
      → IsSettled (es ++ e ∷ [])
  unfolding position
  IsSettled-snoc [] e h k = (λ o. tt, tt)
  IsSettled-snoc (x ∷ es) e (own, h) k = (
    λ o.
        All-append _ es (e ∷ []) (own o)
          (elim k [ inl gone ↦ absurd (ground (arith, o, gone)) | inr apart ↦ (apart, tt) ]),
    IsSettled-snoc es e h (elim k [ inl gone ↦ inl (later gone) | inr apart ↦ inr apart ]),
  )
    where
      later : position (x ∷ es) ≡ none → position es ≡ none
      later gone = elim (Option-cases (position es)) [
        | inl n ↦ n
        | inr (i, n) ↦ absurd (elim (Bool-cases (is_own x)) [
          | inl o ↦ ground (arith, o, gone)
          | inr o ↦ ground (arith, o, n, gone)
        ])
      ]

  pub position-snoc_own :
      (es : List Entry) (e : Entry)
      → position es ≡ none
      → is_own e ≡ true
      → position (es ++ e ∷ []) ≡ some (length es)
  unfolding position
  position-snoc_own [] e h o = rw o refl
  position-snoc_own (x ∷ es) e h o = elim (Bool-cases (is_own x)) [
    | inl own ↦ absurd (ground (arith, own, h))
    | inr own ↦ elim (Option-cases (position es)) [
      | inl n ↦ rw (own, position-snoc_own es e n o) refl
      | inr (i, n) ↦ absurd (ground (arith, own, n, h))
    ]
  ]

  pub position-snoc :
      (es : List Entry) (e : Entry) → is_own e ≡ false → position (es ++ e ∷ []) ≡ position es
  unfolding position
  position-snoc [] e o = rw o refl
  position-snoc (x ∷ es) e o = rw (position-snoc es e o) refl

-- The entry of a document is the one changed, wherever it stands.
module _ (c0 d0 : Bytes) (v : Bool) where
  unfoldable pub set_own : List Entry → List Entry
  set_own [] = []
  set_own (e ∷ es) =
      let rest = set_own es in if is_own c0 d0 e then record e { exists = v } ∷ es else e ∷ rest

  pub set_exists-set_own :
      (es : List Entry) (i : ℕ) → position c0 d0 es ≡ some i → set_exists i v es ≡ some (set_own es)
  unfolding position set_own set_exists
  set_exists-set_own [] i h = absurd cc
  set_exists-set_own (e ∷ es) i h = elim (Bool-cases (is_own c0 d0 e)) [
    | inl o ↦ let first : i ≡ 0 = ground (arith, o, h) in rw (o, first) refl
    | inr o ↦ elim (Option-cases (position c0 d0 es)) [
      | inl n ↦ absurd (ground (arith, o, n, h))
      | inr (j, n) ↦
          let behind : i ≡ suc j = ground (arith, o, n, h) in
          rw (o, behind, set_exists-set_own es j n) refl
    ]
  ]

  pub position-set_own :
      (c d : Bytes) (es : List Entry) → position c d (set_own es) ≡ position c d es
  unfolding position set_own
  position-set_own c d [] = refl
  position-set_own c d (e ∷ es) = elim (Bool-cases (is_own c0 d0 e)) [
    | inl o ↦ rw o refl
    | inr o ↦ rw (o, position-set_own c d es) refl
  ]

  apart-set_own :
      (c d : Bytes) (es : List Entry)
      → All (λ f. concerns c d f ≡ false) es
      → All (λ f. concerns c d f ≡ false) (set_own es)
  unfolding set_own
  apart-set_own c d [] h = tt
  apart-set_own c d (e ∷ es) (h, hs) = elim (Bool-cases (is_own c0 d0 e)) [
    | inl o ↦ rw o (h, hs)
    | inr o ↦ rw o (h, apart-set_own c d es hs)
  ]

  pub IsSettled-set_own :
      (c d : Bytes) (es : List Entry) → IsSettled c d es → IsSettled c d (set_own es)
  unfolding set_own
  IsSettled-set_own c d [] h = tt
  IsSettled-set_own c d (e ∷ es) (own, h) = elim (Bool-cases (is_own c0 d0 e)) [
    | inl o ↦ rw o (own, h)
    | inr o ↦ rw o (λ p. apart-set_own c d es (own p), IsSettled-set_own c d es h)
  ]

  pub value-set_own :
      (es : List Entry) (b : Bool) (i : ℕ)
      → position c0 d0 es ≡ some i
      → IsSettled c0 d0 es
      → value c0 d0 (set_own es) b ≡ v
  unfolding position set_own value
  value-set_own [] b i h settled = absurd cc
  value-set_own (e ∷ es) b i h (own, settled) = elim (Bool-cases (is_own c0 d0 e)) [
    | inl o ↦
        let mine : after c0 d0 (record e { exists = v }) b ≡ v =
          rw (own_concerned c0 d0 e o) refl in
        rw o (ap (value c0 d0 es) mine ∙ value-none c0 d0 es v (own o))
    | inr o ↦ elim (Option-cases (position c0 d0 es)) [
      | inl n ↦ absurd (ground (arith, o, n, h))
      | inr (j, n) ↦ rw o (value-set_own es (after c0 d0 e b) j n settled)
    ]
  ]

  pub IsTold-set_own :
      (es : List Entry) (b : Bool)
      → IsSettled c0 d0 es
      → IsTold c0 d0 es b
      → IsTold c0 d0 (set_own es) b
  unfolding set_own
  IsTold-set_own [] b settled told = tt
  IsTold-set_own (e ∷ es) b (own, settled) (told, drop, rest) = elim (Bool-cases (is_own c0 d0 e)) [
    | inl o ↦ rw o (told, λ n. absurd (no_drop c0 d0 e o n), IsTold-none c0 d0 es _ _ (own o) rest)
    | inr o ↦ rw o (told, drop, IsTold-set_own es (after c0 d0 e b) settled rest)
  ]

  -- What it does not concern is left.
  module _ (c d : Bytes)
      (other : (e : Entry) → is_own c0 d0 e ≡ true → concerns c d e ≡ false) where
    pub value-set_own_other :
        (es : List Entry) (b : Bool) → value c d (set_own es) b ≡ value c d es b
    unfolding set_own value
    value-set_own_other [] b = refl
    value-set_own_other (e ∷ es) b = elim (Bool-cases (is_own c0 d0 e)) [
      | inl o ↦
          let same : after c d e b ≡ b = rw (other e o) refl in
          let same' : after c d (record e { exists = v }) b ≡ b = rw (other e o) refl in
          rw o (ap (value c d es) (same' ∙ sym same))
      | inr o ↦ rw o (value-set_own_other es (after c d e b))
    ]

    pub IsTold-set_own_other :
        (es : List Entry) (b : Bool) → IsTold c d es b → IsTold c d (set_own es) b
    unfolding set_own
    IsTold-set_own_other [] b told = tt
    IsTold-set_own_other (e ∷ es) b (told, drop, rest) = elim (Bool-cases (is_own c0 d0 e)) [
      | inl o ↦
          let same : after c d e b ≡ b = rw (other e o) refl in
          let same' : after c d (record e { exists = v }) b ≡ b = rw (other e o) refl in
          rw o (told, λ n. absurd (no_drop c0 d0 e o n), rw same' (rw same at rest))
      | inr o ↦ rw o (told, drop, IsTold-set_own_other es (after c d e b) rest)
    ]
