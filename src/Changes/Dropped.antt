-- ===== src/Changes/Dropped.antt =====
-- src/changes.rs: the entries that a drop keeps, and their index.
use trunkdb.Base.{
  ℕ, suc, ◌+◌, ◌≡◌, refl, sym, ap, ◌∙◌, inl, inr, arith, Bool, true, false, Option, none, some,
  Option-cases, Bool-cases, List, [], ◌∷◌, All, if◌then◌else◌, Bytes,
}
use trunkdb.Base.ByteString.{eq_bytes, eq_bytes→eq}
use trunkdb.Changes.Defs.{Entry, retain_others, index_entry, index_entries}
use trunkdb.Changes.Entries.{
  is_own, concerns, own-concerns, position, after, value, IsSettled, IsTold,
}

-- A document of the collection dropped.
module _ (c d : Bytes) where
  pub retain_others-concerns :
      (es : List Entry) → All (λ f. concerns c d f ≡ false) (retain_others c es)
  unfolding retain_others
  retain_others-concerns [] = tt
  retain_others-concerns (e ∷ es) = elim (Bool-cases (eq_bytes e.collection c)) [
    | inl o ↦ rw o (retain_others-concerns es)
    | inr o ↦ rw o (rw o refl, retain_others-concerns es)
  ]

  pub IsTold-dropped :
      (es : List Entry) (a b : Bool) → IsTold c d es a → IsTold c d (retain_others c es) b
  unfolding retain_others
  IsTold-dropped [] a b told = tt
  IsTold-dropped (e ∷ es) a b (told, drop, rest) = elim (Bool-cases (eq_bytes e.collection c)) [
    | inl o ↦ rw o (IsTold-dropped es (after c d e a) b rest)
    | inr o ↦ rw o (
      λ p. absurd (ground (arith, o, p)),
      drop,
      IsTold-dropped es (after c d e a) (after c d e b) rest,
    )
  ]

  pub apart-none : (es : List Entry) → All (λ f. concerns c d f ≡ false) es → position c d es ≡ none
  unfolding position
  apart-none [] h = refl
  apart-none (e ∷ es) (h, hs) = rw (own-concerns c d e h, apart-none es hs) refl

  pub IsSettled-apart : (es : List Entry) → All (λ f. concerns c d f ≡ false) es → IsSettled c d es
  IsSettled-apart [] h = tt
  IsSettled-apart (e ∷ es) (h, hs) = (λ o. hs, IsSettled-apart es hs)

  index_entry-own :
      (e : Entry) (i : ℕ) (at : Bytes → Bytes → Option ℕ)
      → index_entry i e.collection e.id at c d ≡ (if is_own c d e then some i else at c d)
  index_entry-own e i at = elim (Option-cases e.id) [
    | inl n ↦ ground (arith, n)
    | inr (id, n) ↦ rw n refl
  ]

  -- The index of entries, where none comes twice.
  pub index_entries-position :
      (es : List Entry) (i : ℕ) (at : Bytes → Bytes → Option ℕ)
      → IsSettled c d es
      → index_entries i es at c d
        ≡ (elim (position c d es) [ none ↦ at c d | some k ↦ some (i + k) ])
  unfolding position index_entries
  index_entries-position [] i at h = refl
  index_entries-position (e ∷ es) i at (own, h) =
      let rest = index_entries-position es (suc i) (index_entry i e.collection e.id at) h in
      elim (Bool-cases (is_own c d e)) [
        | inl o ↦
            let first : i ≡ i + 0 = omega arith in
            let unseen : index_entries (suc i) es (index_entry i e.collection e.id at) c d
                ≡ index_entry i e.collection e.id at c d =
              rw (apart-none es (own o)) at rest in
            rw o (unseen ∙ index_entry-own e i at ∙ rw o (ap some first))
        | inr o ↦ elim (Option-cases (position c d es)) [
          | inl n ↦
              let unseen : index_entries (suc i) es (index_entry i e.collection e.id at) c d
                  ≡ index_entry i e.collection e.id at c d =
                rw n at rest in
              rw (o, n) (unseen ∙ index_entry-own e i at ∙ rw o refl)
          | inr (k, n) ↦
              let seen : index_entries (suc i) es (index_entry i e.collection e.id at) c d
                  ≡ some (suc i + k) =
                rw n at rest in
              rw (o, n) (seen ∙ ap some (omega arith))
        ]
      ]

  -- A document of another collection.
  module _ (gone : Bytes) (other : eq_bytes gone c ≡ false) where
    kept : (e : Entry) → eq_bytes e.collection gone ≡ true → concerns c d e ≡ false
    kept e h = ground (arith, eq_bytes→eq e.collection gone h)

    pub value-retain :
        (es : List Entry) (b : Bool) → value c d (retain_others gone es) b ≡ value c d es b
    unfolding value retain_others
    value-retain [] b = refl
    value-retain (e ∷ es) b = elim (Bool-cases (eq_bytes e.collection gone)) [
      | inl o ↦
          let same : after c d e b ≡ b = rw (kept e o) refl in
          rw o (value-retain es b ∙ ap (value c d es) (sym same))
      | inr o ↦ rw o (value-retain es (after c d e b))
    ]

    pub IsTold-retain :
        (es : List Entry) (b : Bool) → IsTold c d es b → IsTold c d (retain_others gone es) b
    unfolding retain_others
    IsTold-retain [] b told = tt
    IsTold-retain (e ∷ es) b (told, drop, rest) = elim (Bool-cases (eq_bytes e.collection gone)) [
      | inl o ↦
          let same : after c d e b ≡ b = rw (kept e o) refl in
          rw o (IsTold-retain es b (rw same at rest))
      | inr o ↦ rw o (told, drop, IsTold-retain es (after c d e b) rest)
    ]

    apart-retain :
        (es : List Entry)
        → All (λ f. concerns c d f ≡ false) es
        → All (λ f. concerns c d f ≡ false) (retain_others gone es)
    unfolding retain_others
    apart-retain [] h = tt
    apart-retain (e ∷ es) (h, hs) = elim (Bool-cases (eq_bytes e.collection gone)) [
      | inl o ↦ rw o (apart-retain es hs)
      | inr o ↦ rw o (h, apart-retain es hs)
    ]

    pub IsSettled-retain :
        (es : List Entry) → IsSettled c d es → IsSettled c d (retain_others gone es)
    unfolding retain_others
    IsSettled-retain [] h = tt
    IsSettled-retain (e ∷ es) (own, h) = elim (Bool-cases (eq_bytes e.collection gone)) [
      | inl o ↦ rw o (IsSettled-retain es h)
      | inr o ↦ rw o (λ p. apart-retain es (own p), IsSettled-retain es h)
    ]
