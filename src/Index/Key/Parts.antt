-- ===== src/Index/Key/Parts.antt =====
-- src/index/key.rs: a compound key's value part splits into the encodings it was made of, and no
-- key passes the longest that the B-tree takes.
use trunkdb.Base.{
  ℕ, zero, suc, ◌+◌, ◌-◌, ◌*◌, ◌/◌, ◌≤◌, ◌<◌, ◌≡◌, refl, sym, ap, ◌∙◌, ◌⊎◌, inl, inr, arith, min,
  Option-cases, some, List, [], ◌∷◌, ◌++◌, map, length, length-append, take-length_append,
  drop-length_append, All, ltb, Bool-cases, tests, if◌then◌else◌, Bytes,
}
use trunkdb.Base.ByteString.{to_be, length-to_be}
use trunkdb.Float.{from_i64, is_zero}
use trunkdb.Document.{Document}
use trunkdb.Index.Key.Defs.{
  escape_up_to, encode_escaped, encode_number, encode_value_in, encode_each, encode_values,
  encoded_or_other, terminator_from, part_len, each_part, parts, compound, doc_id, value_part,
  string_budget, max_compound_fields, max_key_len, tag_number, tag_string, tag_binary, tag_other,
  sortable_bits, flip_top, to_u64,
}
use trunkdb.Index.Key.Before.{terminated, escape_zero, escape_suc}

-- An id is 16 bytes, by its type in the source.
abbrev pub IsStored : Document → Type 0
IsStored (Document.id i) = length i ≡ 16
IsStored _ = Unit

terminator_from-suc :
    (b : ℕ) (t : Bytes) (at k : ℕ)
    → terminator_from t (at + 1) ≡ some k
    → terminator_from (suc b ∷ t) at ≡ some k
unfolding terminator_from
terminator_from-suc b [] at k h = cc
terminator_from-suc b (c ∷ t) at k h = h

terminator_from-escaped_zero :
    (t : Bytes) (at k : ℕ)
    → terminator_from t (at + 2) ≡ some k
    → terminator_from (0 ∷ 0xFF ∷ t) at ≡ some k
unfolding terminator_from
terminator_from-escaped_zero t at k h = h

-- The scan for the terminator ends at the one `encode_escaped` wrote.
terminator_from-terminated :
    (bs : Bytes) (used budget at : ℕ) (rest : Bytes)
    → terminator_from (terminated bs used budget ++ rest) at
      ≡ some (at + length (terminated bs used budget))
terminator_from-terminated [] used budget at rest = unfold escape_up_to terminator_from in refl
terminator_from-terminated (zero ∷ bs) used budget at rest =
    elim (Bool-cases (ltb budget (used + 2))) [
      | inl full ↦ rw (escape_zero, full) (unfold terminator_from in refl)
      | inr room ↦
          let later = terminator_from-terminated bs (used + 2) budget (at + 2) rest in
          rw (escape_zero, room)
            (terminator_from-escaped_zero _ at _ (later ∙ ap some (omega arith)))
    ]
terminator_from-terminated (suc b ∷ bs) used budget at rest =
    elim (Bool-cases (ltb budget (used + 1))) [
      | inl full ↦ rw (escape_suc, full) (unfold terminator_from in refl)
      | inr room ↦
          let later = terminator_from-terminated bs (used + 1) budget (at + 1) rest in
          rw (escape_suc, room) (terminator_from-suc b _ at _ (later ∙ ap some (omega arith)))
    ]

abbrev first_part_len : Bytes → ℕ
first_part_len [] = 0
first_part_len (tag ∷ rest) = part_len tag (tag ∷ rest)

-- Bytes that `part_len` measures whole, whatever follows them.
record IsPart (e : Bytes) : Type 0 where
  not_empty : 0 < length e
  measured : (rest : Bytes) → first_part_len (e ++ rest) ≡ length e

text-measured :
    (tag : ℕ) (bytes : Bytes) (budget : ℕ) (rest : Bytes)
    → (tag ≡ tag_string) ⊎ (tag ≡ tag_binary)
    → first_part_len (encode_escaped tag bytes budget ++ rest)
      ≡ length (encode_escaped tag bytes budget)
unfolding encode_escaped part_len
text-measured tag bytes budget rest (inl e) =
    rw (e, terminator_from-terminated bytes 0 budget 1 rest) (omega arith)
text-measured tag bytes budget rest (inr e) =
    rw (e, terminator_from-terminated bytes 0 budget 1 rest) (omega arith)

encode_escaped-IsPart :
    (tag : ℕ) (bytes : Bytes) (budget : ℕ)
    → (tag ≡ tag_string) ⊎ (tag ≡ tag_binary)
    → IsPart (encode_escaped tag bytes budget)
encode_escaped-IsPart tag bytes budget h = record {
  not_empty = unfold encode_escaped in omega arith;
  measured = λ rest. text-measured tag bytes budget rest h;
}

-- A part of a fixed length.
fixed-IsPart :
    (tag : ℕ) (body : Bytes) (n : ℕ)
    → length body ≡ n
    → ((rest : Bytes) → part_len tag rest ≡ suc n)
    → IsPart (tag ∷ body)
fixed-IsPart tag body n e h = record {
  not_empty = omega arith;
  measured = λ rest. h (tag ∷ (body ++ rest)) ∙ ap suc (sym e);
}

encode_number-shape :
    (f : ℕ) {x : Bytes} → encode_number f ≡ some x → (s : ℕ) × (x ≡ tag_number ∷ to_be 8 s)
unfolding encode_number
encode_number-shape f {x} e = (sortable_bits (if is_zero f then 0 else f), ground arith)

encode_number-IsPart : (f : ℕ) → IsPart (encoded_or_other (encode_number f))
unfolding encoded_or_other part_len
encode_number-IsPart f = elim (Option-cases (encode_number f)) [
  | inl e ↦ rw e (fixed-IsPart tag_other [] 0 refl (λ rest. refl))
  | inr (x, e) ↦
      let (s, shape) = encode_number-shape f e in
      rw (e, shape) (fixed-IsPart tag_number (to_be 8 s) 8 (length-to_be 8 s) (λ rest. refl))
]

encode_value_in-IsPart :
    (v : Document) (fields : ℕ) → IsStored v → IsPart (encoded_or_other (encode_value_in v fields))
unfolding encode_value_in encoded_or_other part_len
encode_value_in-IsPart Document.null fields h = fixed-IsPart _ [] 0 refl (λ rest. refl)
encode_value_in-IsPart (Document.bool b) fields h = fixed-IsPart _ _ 1 refl (λ rest. refl)
encode_value_in-IsPart (Document.int n) fields h = encode_number-IsPart (from_i64 n)
encode_value_in-IsPart (Document.float f) fields h = encode_number-IsPart f
encode_value_in-IsPart (Document.string s) fields h =
    encode_escaped-IsPart tag_string s _ (inl refl)
encode_value_in-IsPart (Document.binary b) fields h =
    encode_escaped-IsPart tag_binary b _ (inr refl)
encode_value_in-IsPart (Document.id i) fields h = fixed-IsPart _ i 16 h (λ rest. refl)
encode_value_in-IsPart (Document.date_time t) fields h =
    let lengths : length (to_be 8 (flip_top (to_u64 t.secs)) ++ to_be 4 t.nanos) ≡ 12 = omega (
      arith,
      length-append (to_be 8 (flip_top (to_u64 t.secs))) (to_be 4 t.nanos),
      length-to_be 8 (flip_top (to_u64 t.secs)),
      length-to_be 4 t.nanos,
    ) in
    fixed-IsPart _ _ 12 lengths (λ rest. refl)
encode_value_in-IsPart _ fields h = fixed-IsPart tag_other [] 0 refl (λ rest. refl)

each_part_step :
    (fuel : ℕ) (e rest : Bytes)
    → IsPart e
    → each_part (suc fuel) (e ++ rest) ≡ e ∷ each_part fuel rest
unfolding each_part
each_part_step fuel [] rest h = absurd (omega (arith, h.not_empty))
each_part_step fuel (tag ∷ e) rest h =
    let cut : min (part_len tag (tag ∷ (e ++ rest))) (length (tag ∷ (e ++ rest)))
        ≡ length (tag ∷ e) =
      omega (arith, h.measured rest, length-append e rest) in
    rw (cut, take-length_append (length e) e rest refl, drop-length_append (length e) e rest refl)
      refl

abbrev pub encoding_of : ℕ → Document → Bytes
encoding_of fields v = encoded_or_other (encode_value_in v fields)

each_part-encode_each :
    (values : List Document) (fields fuel : ℕ)
    → All IsStored values
    → length (encode_each values fields) ≤ fuel
    → each_part fuel (encode_each values fields) ≡ map (encoding_of fields) values
unfolding encode_each
each_part-encode_each [] fields fuel h k = unfold each_part in refl
each_part-encode_each (v ∷ values) fields zero (h, hs) k = absurd (
    omega (
      arith,
      (encode_value_in-IsPart v fields h).not_empty,
      length-append (encoding_of fields v) (encode_each values fields),
    ))
each_part-encode_each (v ∷ values) fields (suc fuel) (h, hs) k =
    let part = encode_value_in-IsPart v fields h in
    let enough : length (encode_each values fields) ≤ fuel =
      omega
        (arith, part.not_empty, length-append (encoding_of fields v) (encode_each values fields)) in
    each_part_step fuel (encoding_of fields v) (encode_each values fields) part
    ∙ ap (◌∷◌ (encoding_of fields v)) (each_part-encode_each values fields fuel hs enough)

-- The value part of a compound key splits into exactly the encodings of its values.
pub parts-encode_values :
    (values : List Document)
    → All IsStored values
    → parts (encode_values values) ≡ map (encoding_of (length values)) values
unfolding parts encode_values
parts-encode_values values h = each_part-encode_each values (length values) _ h (omega arith)

-- The id and the values' encodings of a compound key are read back from it.
pub doc_id-compound :
    (values : List Document) (id : Bytes)
    → All IsStored values
    → length id ≡ 16
    → (doc_id (compound values id) ≡ id)
      × (parts (value_part (compound values id)) ≡ map (encoding_of (length values)) values)
unfolding compound doc_id value_part
doc_id-compound values id h e =
    let n = length (encode_values values) in
    let cut : length (encode_values values ++ id) - 16 ≡ n =
      omega (arith, length-append (encode_values values) id) in
    let none_missing : 16 - length id ≡ 0 = omega arith in
    (
      rw (cut, drop-length_append n (encode_values values) id refl, none_missing) refl,
      rw (cut, take-length_append n (encode_values values) id refl) (parts-encode_values values h),
    )

length-terminated :
    (bs : Bytes) (used budget : ℕ)
    → used ≤ budget
    → used + length (escape_up_to bs used budget) ≤ budget
length-terminated [] used budget h = unfold escape_up_to in omega arith
length-terminated (zero ∷ bs) used budget h = elim (Bool-cases (ltb budget (used + 2))) [
  | inl full ↦ rw (escape_zero, full) (omega arith)
  | inr room ↦ rw (escape_zero, room) (omega (tests, length-terminated bs (used + 2) budget))
]
length-terminated (suc b ∷ bs) used budget h = elim (Bool-cases (ltb budget (used + 1))) [
  | inl full ↦ rw (escape_suc, full) (omega arith)
  | inr room ↦ rw (escape_suc, room) (omega (tests, length-terminated bs (used + 1) budget))
]

-- Each value's share of a key.
abbrev share : ℕ → ℕ
share fields = (max_key_len - 16) / fields

share_ge : (fields : ℕ) → 0 < fields → fields ≤ max_compound_fields → 126 ≤ share fields
share_ge fields p h = grind arith

length-encode_escaped :
    (tag : ℕ) (bs : Bytes) (fields : ℕ)
    → 126 ≤ share fields
    → length (encode_escaped tag bs (string_budget fields)) ≤ share fields
unfolding encode_escaped string_budget
length-encode_escaped tag bs fields h = omega (
  arith,
  length-terminated bs 0 (share fields - 3) (omega arith),
  length-append (escape_up_to bs 0 (share fields - 3)) (0 ∷ 0 ∷ []),
)

length-encode_number : (f : ℕ) → length (encoded_or_other (encode_number f)) ≤ 9
unfolding encoded_or_other
length-encode_number f = elim (Option-cases (encode_number f)) [
  | inl e ↦ rw e (omega arith)
  | inr (x, e) ↦
      let (s, shape) = encode_number-shape f e in rw (e, shape) (omega (arith, length-to_be 8 s))
]

length-encoding_of :
    (v : Document) (fields : ℕ)
    → IsStored v
    → 126 ≤ share fields
    → length (encoding_of fields v) ≤ share fields
unfolding encode_value_in encoded_or_other
length-encoding_of (Document.int n) fields h k = omega (arith, length-encode_number (from_i64 n))
length-encoding_of (Document.float f) fields h k = omega (arith, length-encode_number f)
length-encoding_of (Document.string s) fields h k = length-encode_escaped tag_string s fields k
length-encoding_of (Document.binary b) fields h k = length-encode_escaped tag_binary b fields k
length-encoding_of (Document.date_time t) fields h k = omega (
  arith,
  length-append (to_be 8 (flip_top (to_u64 t.secs))) (to_be 4 t.nanos),
  length-to_be 8 (flip_top (to_u64 t.secs)),
  length-to_be 4 t.nanos,
)
length-encoding_of _ fields h k = omega arith

length-encode_each :
    (values : List Document) (fields : ℕ)
    → All IsStored values
    → 126 ≤ share fields
    → length (encode_each values fields) ≤ length values * share fields
unfolding encode_each
length-encode_each [] fields h k = omega arith
length-encode_each (v ∷ values) fields (h, hs) k = omega (
  arith,
  length-append (encoding_of fields v) (encode_each values fields),
  length-encoding_of v fields h k,
  length-encode_each values fields hs k,
)

shares_fit : (fields : ℕ) → fields * share fields ≤ max_key_len - 16
shares_fit fields = grind arith

-- A key of one to eight values and an id of 16 bytes is no longer than the B-tree takes.
pub length-compound :
    (values : List Document) (id : Bytes)
    → All IsStored values
    → length id ≡ 16
    → 0 < length values
    → length values ≤ max_compound_fields
    → length (compound values id) ≤ max_key_len
unfolding compound encode_values
length-compound values id h e p q =
    let n = length values in
    omega (
      arith,
      length-append (encode_each values n) id,
      length-encode_each values n h (share_ge n p q),
      shares_fit n,
    )
