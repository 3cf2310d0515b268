-- ===== src/Index/Key/StartsWith.antt =====
-- src/index/key.rs: the range that `starts with` reads, and the test on a key's bytes.
use mathlib.Core.Option.{some-injective}
use trunkdb.Base.{
  ℕ, zero, suc, ◌+◌, ◌-◌, ◌≡◌, refl, ◌∙◌, inl, inr, arith, true, some, [], ◌∷◌, ◌++◌, append_assoc,
  length, length-append, take, take-length_append, All, ltb, Bytes, IsByte, Bool-cases,
}
use trunkdb.Document.{Document}
use trunkdb.Query.{Op}
use trunkdb.Index.Key.Before.{escape_zero, escape_suc}
use trunkdb.Index.Key.Contains.{is_prefix, prefixed_lem}
use trunkdb.Index.Key.Defs.{
  escape_up_to, encode_escaped, encode_value_in, string_budget, tag_string, tag_binary,
}
use trunkdb.Index.Key.Range.{KeyRange, prefixed, contains_key, range_for_in}

prefix_heads :
    (b c : ℕ) (p t : Bytes) → is_prefix (b ∷ p) (c ∷ t) ≡ true → (b ≡ c) × (is_prefix p t ≡ true)
unfolding is_prefix
prefix_heads b c p t h = (ground arith, ground arith)

prefix_cons : (b : ℕ) (p t : Bytes) → is_prefix (b ∷ p) (b ∷ t) ≡ is_prefix p t
unfolding is_prefix
prefix_cons b p t = ground arith

prefix_nil : (t : Bytes) → is_prefix [] t ≡ true
unfolding is_prefix
prefix_nil t = refl

-- The escaped bytes of a prefix begin the escaped bytes of what begins with it, cut or not.
escape-prefix :
    (p t rest : Bytes) (used budget : ℕ)
    → is_prefix p t ≡ true
    → is_prefix (escape_up_to p used budget) (escape_up_to t used budget ++ rest) ≡ true
escape-prefix [] t rest used budget h = unfold escape_up_to is_prefix in refl
escape-prefix (b ∷ p) [] rest used budget h = unfold is_prefix in cc
escape-prefix (zero ∷ p) (c ∷ t) rest used budget h =
    let (same, later) = prefix_heads zero c p t h in
    elim (Bool-cases (ltb budget (used + 2))) [
      | inl full ↦ rw (← same, escape_zero p, full) (prefix_nil _)
      | inr room ↦
          rw (← same, escape_zero p, escape_zero t, room)
            (prefix_cons 0 _ _
              ∙ prefix_cons 0xFF _ _
              ∙ escape-prefix p t rest (used + 2) budget later)
    ]
escape-prefix (suc b ∷ p) (c ∷ t) rest used budget h =
    let (same, later) = prefix_heads (suc b) c p t h in
    elim (Bool-cases (ltb budget (used + 1))) [
      | inl full ↦ rw (← same, escape_suc b p, full) (prefix_nil _)
      | inr room ↦
          rw (← same, escape_suc b p, escape_suc b t, room)
            (prefix_cons (suc b) _ _ ∙ escape-prefix p t rest (used + 1) budget later)
    ]

unterminated :
    (tag : ℕ) (p : Bytes) (budget : ℕ)
    → take (length (encode_escaped tag p budget) - 2) (encode_escaped tag p budget)
      ≡ tag ∷ escape_up_to p 0 budget
unfolding encode_escaped
unterminated tag p budget =
    let body = escape_up_to p 0 budget in
    let cut : length (tag ∷ (body ++ 0 ∷ 0 ∷ [])) - 2 ≡ length (tag ∷ body) =
      omega (arith, length-append body (0 ∷ 0 ∷ [])) in
    rw cut (take-length_append (length (tag ∷ body)) (tag ∷ body) (0 ∷ 0 ∷ []) refl)

text_in_prefix_range :
    (tag : ℕ) (p t rest : Bytes) (budget : ℕ)
    → is_prefix p t ≡ true
    → All IsByte (encode_escaped tag t budget ++ rest)
    → contains_key
        (prefixed (take (length (encode_escaped tag p budget) - 2) (encode_escaped tag p budget)))
        (encode_escaped tag t budget ++ rest)
      ≡ true
text_in_prefix_range tag p t rest budget h bytes = rw unterminated (
    prefixed_lem _ _ bytes
    ∙ unfold encode_escaped in
      (prefix_cons tag _ _ ∙ rw append_assoc (escape-prefix p t ((0 ∷ 0 ∷ []) ++ rest) 0 budget h)))

in_text_range :
    (tag : ℕ) (p t rest : Bytes) (budget : ℕ) (x : Bytes) (r : KeyRange)
    → is_prefix p t ≡ true
    → some (encode_escaped tag t budget) ≡ some x
    → All IsByte (x ++ rest)
    → some
        (prefixed (take (length (encode_escaped tag p budget) - 2) (encode_escaped tag p budget)))
      ≡ some r
    → contains_key r (x ++ rest) ≡ true
in_text_range tag p t rest budget x r h e bytes er =
    let ex = some-injective _ _ e in
    rw (← ex, ← some-injective _ _ er)
      (text_in_prefix_range tag p t rest budget h (rw (← ex) at bytes))

-- What `starts with` is of two values: of two strings, or of two binary values.
abbrev StartsWith : Document → Document → Type 0
StartsWith (Document.string t) (Document.string p) = is_prefix p t ≡ true
StartsWith (Document.binary t) (Document.binary p) = is_prefix p t ≡ true
StartsWith _ _ = ⊥

-- Every key of a string or binary value that begins with a condition's value is in the range that
-- an index reads for `starts with`.
pub range_for_in-starts_with :
    (v w : Document) (fields : ℕ) (x rest : Bytes) (r : KeyRange)
    → StartsWith v w
    → encode_value_in v fields ≡ some x
    → All IsByte (x ++ rest)
    → range_for_in Op.starts_with w fields ≡ some r
    → contains_key r (x ++ rest) ≡ true
unfolding range_for_in encode_value_in
range_for_in-starts_with (Document.string t) (Document.string p) fields x rest r h e bytes er =
    in_text_range tag_string p t rest (string_budget fields) x r h e bytes er
range_for_in-starts_with (Document.binary t) (Document.binary p) fields x rest r h e bytes er =
    in_text_range tag_binary p t rest (string_budget fields) x r h e bytes er
range_for_in-starts_with _ _ fields x rest r h e bytes er = elim h [ ]
