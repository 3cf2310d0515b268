-- ===== src/Path/Single.antt =====
-- src/path.rs: what a path without `[*]` reaches.
use trunkdb.Base.{
  ◌≡◌, refl, sym, ap, ◌∙◌, ◌⊎◌, Bool, true, false, ◌&&◌, not, Option, none, some, inl, inr,
  Option-cases, Bool-cases, List, [], ◌∷◌, map, All, ◌==◌, Bytes,
}
use trunkdb.Document.{Document}
use trunkdb.Path.Defs.{
  PathStep, FieldPath, field_path, steps_path, dot, star, contains, contains_byte, split_dots,
  step_of, new, is_empty, field_of, follow, follow_steps, field_value, or_null, value_or_null,
  or_missing, and_value, look_up, fan_outs_of, walk_steps, walk, values, present,
}
use trunkdb.Path.Plain.{IsPlain, split_dots-IsPlain}

-- The value, or what a missing one reads as.
abbrev one : Bool → Option Document → List Document
one missing_is_null o = and_value (or_missing missing_is_null o) []

one-some : (mn : Bool) (v : Document) → one mn (some v) ≡ v ∷ []
one-some true v = refl
one-some false v = refl

look_up-none : (mn : Bool) (name : Bytes) → look_up mn name (one mn none) ≡ one mn none
unfolding look_up
look_up-none true name = refl
look_up-none false name = refl

walk_steps-none :
    (mn : Bool) (steps : List PathStep)
    → All IsPlain steps
    → walk_steps mn false steps (one mn none) ≡ one mn none
unfolding walk_steps fan_outs_of
walk_steps-none mn [] h = refl
walk_steps-none mn (step ∷ steps) ((name, fans), hs) =
    rw (fans, look_up-none mn step.name) (walk_steps-none mn steps hs)

walk_steps-follow :
    (mn : Bool) (steps : List PathStep) (value : Document)
    → All IsPlain steps
    → walk_steps mn false steps (value ∷ []) ≡ one mn (follow steps value)
unfolding walk_steps fan_outs_of look_up follow
walk_steps-follow mn [] value h = sym (one-some mn value)
walk_steps-follow mn (step ∷ steps) value ((name, fans), hs) =
    elim (Option-cases (field_of step.raw value)) [
      | inl n ↦ rw (fans, name, n) (walk_steps-none mn steps hs)
      | inr (v, n) ↦ rw (fans, name, n, one-some mn v) (walk_steps-follow mn steps v hs)
    ]

-- A path that begins with a dot.
abbrev pub leads_empty : Bytes → Bool
leads_empty [] = false
leads_empty (b ∷ bytes) = b == dot

first_part :
    (path : Bytes)
    → leads_empty path ≡ false
    → (is_empty (split_dots path).0 ≡ false)
      ⊎ ((split_dots path).0 ≡ [] × ((split_dots path).1 ≡ []))
unfolding split_dots
first_part [] h = inr (refl, refl)
first_part (b ∷ bytes) h = inl (rw h refl)

raw_part :
    (path : Bytes)
    → leads_empty path ≡ false
    → (is_empty (step_of (split_dots path).0).raw ≡ false)
      ⊎ (((step_of (split_dots path).0).raw ≡ []) × (map step_of (split_dots path).1 ≡ []))
unfolding step_of
raw_part path h = elim (first_part path h) [
  | inl some_name ↦ inl some_name
  | inr (no_name, alone) ↦ inr (no_name, rw alone refl)
]

abbrev Walked : Bool → FieldPath → Document → Type 0
Walked mn path doc = walk mn path doc ≡ one mn (field_value path doc)

follow_steps-follow :
    (step : PathStep) (steps : List PathStep) (doc : Document)
    → is_empty step.raw ≡ false
    → follow_steps (step ∷ steps) doc ≡ follow (step ∷ steps) doc
unfolding follow_steps
follow_steps-follow step [] doc h = rw h refl
follow_steps-follow step (other ∷ steps) doc h = refl

steps-Walked :
    (mn multi : Bool) (step : PathStep) (steps : List PathStep) (doc : Document)
    → IsPlain step
    → All IsPlain steps
    → (is_empty step.raw ≡ false) ⊎ ((step.raw ≡ []) × (steps ≡ []))
    → Walked mn (steps_path (step ∷ steps) multi) doc
unfolding walk walk_steps field_value
steps-Walked mn multi step steps doc plain all (inl some_name) =
    let name : is_empty step.name ≡ false = rw plain.0 some_name in
    rw name (
      walk_steps-follow mn (step ∷ steps) doc (plain, all)
      ∙ ap (one mn) (sym (follow_steps-follow step steps doc some_name)))
steps-Walked mn multi step steps doc plain all (inr (no_name, alone)) =
    let name : step.name ≡ [] = plain.0 ∙ no_name in
    rw (alone, name, no_name, plain.1) (sym (one-some mn doc))

-- A path that is one name.
names-Walked : (mn : Bool) (name : Bytes) (doc : Document) → Walked mn (field_path name) doc
unfolding walk field_value
names-Walked mn name doc = refl

new-Walked :
    (mn : Bool) (path : Bytes) (doc : Document)
    → contains star path ≡ false
    → leads_empty path ≡ false
    → Walked mn (new path) doc
unfolding new
new-Walked mn path doc free leads =
    let (plain, all) = split_dots-IsPlain path free in
    elim (Bool-cases
      (not (is_empty path) && (not (contains_byte dot path) && not (contains star path)))) [
        | inl name ↦ rw name (names-Walked mn path doc)
        | inr steps ↦
            rw steps (steps-Walked mn (contains star path) _ _ doc plain all (raw_part path leads))
      ]

one_null : (o : Option Document) → (one true o ≡ or_null o ∷ []) × (one false o ≡ and_value o [])
one_null none = (refl, refl)
one_null (some v) = (refl, refl)

-- For a path without `[*]` that does not begin with a dot, the two ways to read it agree on every
-- document: `values` is the one value of `value_or_null`, and `present` is that of `field_value`,
-- or nothing.
pub values-value_or_null :
    (path : Bytes) (doc : Document)
    → contains star path ≡ false
    → leads_empty path ≡ false
    → (values (new path) doc ≡ value_or_null (new path) doc ∷ [])
      × (present (new path) doc ≡ and_value (field_value (new path) doc) [])
unfolding values present value_or_null
values-value_or_null path doc free leads = (
  new-Walked true path doc free leads ∙ (one_null (field_value (new path) doc)).0,
  new-Walked false path doc free leads ∙ (one_null (field_value (new path) doc)).1,
)
