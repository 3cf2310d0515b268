-- ===== src/Path/Slot.antt =====
-- src/path.rs: a path's slot changed, and the path read.
use trunkdb.Base.{
  ◌≡◌, ◌≢◌, refl, sym, ap, ◌∙◌, ◌⊎◌, Bool, false, not, ◌&&◌, ◌==◌, map, Option, none, some, inl,
  inr, Bool-cases, List, [], ◌∷◌, Bytes,
}
use trunkdb.Base.ByteString.{eq_bytes, eq_bytes_refl}
use trunkdb.Document.{
  Document, Fields, null, bool, int, float, string, binary, array, object, id, date_time, field,
  end,
}
use trunkdb.Path.Defs.{
  get, change_field, PathStep, field_path, steps_path, is_empty, or_stop, follow, follow_steps,
  field_value, or_null, value_or_null, slot_steps, slot, within, new, dot, star, contains,
  contains_byte, split_dots, step_of,
}

module _ (change : Document → Document) where
  get-change_field :
      (fields : Fields) (name : Bytes)
      → get (change_field change fields name) name ≡ some (change (or_null (get fields name)))
  unfolding get change_field
  get-change_field end name = rw (eq_bytes_refl name) refl
  get-change_field (field key value fields) name = elim (Bool-cases (eq_bytes key name)) [
    | inl same ↦ rw (same, same) refl
    | inr other ↦ rw (other, other) (get-change_field fields name)
  ]

abbrev or_end : Document → Fields
or_end (object fields) = fields
or_end _ = end

within-or_end : (g : Fields → Fields) (v : Document) → within g v ≡ object (g (or_end v))
within-or_end g null = refl
within-or_end g (bool x) = refl
within-or_end g (int x) = refl
within-or_end g (float x) = refl
within-or_end g (string x) = refl
within-or_end g (binary x) = refl
within-or_end g (array x) = refl
within-or_end g (object x) = refl
within-or_end g (id x) = refl
within-or_end g (date_time x) = refl

follow-or_end :
    (step : PathStep) (steps : List PathStep) (v : Document)
    → follow (step ∷ steps) (object (or_end v)) ≡ follow (step ∷ steps) v
unfolding follow get
follow-or_end step steps null = refl
follow-or_end step steps (bool x) = refl
follow-or_end step steps (int x) = refl
follow-or_end step steps (float x) = refl
follow-or_end step steps (string x) = refl
follow-or_end step steps (binary x) = refl
follow-or_end step steps (array x) = refl
follow-or_end step steps (object x) = refl
follow-or_end step steps (id x) = refl
follow-or_end step steps (date_time x) = refl

or_stop-some : (o : Option Document) → or_stop (λ (v : Document). some v) o ≡ o
or_stop-some none = refl
or_stop-some (some v) = refl

follow-slot_steps :
    (change : Document → Document) (step : PathStep) (steps : List PathStep) (fields : Fields)
    → follow (step ∷ steps) (object (slot_steps change (step ∷ steps) fields))
      ≡ some (change (or_null (follow (step ∷ steps) (object fields))))
unfolding follow slot_steps
follow-slot_steps change step [] fields = rw (get-change_field change fields step.raw) (
    ap (λ (o : Option Document). some (change (or_null o)))
      (sym (or_stop-some (get fields step.raw))))
follow-slot_steps change step (other ∷ steps) fields =
    let old = or_null (get fields step.raw) in
    let inner = slot_steps change (other ∷ steps) in
    ap (or_stop (follow (other ∷ steps))) (get-change_field (within inner) fields step.raw)
    ∙ ap (follow (other ∷ steps)) (within-or_end inner old)
    ∙ follow-slot_steps change other steps (or_end old)
    ∙ ap (λ (o : Option Document). some (change (or_null o))) (follow-or_end other steps old)
    ∙ ap (λ (v : Document). some (change v)) (missing (get fields step.raw))
  where
    missing :
        (o : Option Document)
        → or_null (follow (other ∷ steps) (or_null o))
          ≡ or_null (or_stop (follow (other ∷ steps)) o)
    missing none = refl
    missing (some v) = refl

steps_slot :
    (change : Document → Document) (step : PathStep) (steps : List PathStep) (multi : Bool)
    (fields : Fields)
    → (is_empty step.raw ≡ false) ⊎ (steps ≢ [])
    → field_value
        (steps_path (step ∷ steps) multi)
        (object (slot change (steps_path (step ∷ steps) multi) fields))
      ≡ some (change (value_or_null (steps_path (step ∷ steps) multi) (object fields)))
unfolding field_value slot value_or_null follow_steps
steps_slot change step [] multi fields (inl named) =
    rw named (follow-slot_steps change step [] fields)
steps_slot change step [] multi fields (inr more) = absurd (more refl)
steps_slot change step (other ∷ steps) multi fields h =
    follow-slot_steps change step (other ∷ steps) fields

split_named :
    (path : Bytes)
    → is_empty path ≡ false
    → (is_empty (split_dots path).0 ≡ false) ⊎ ((split_dots path).1 ≢ [])
unfolding split_dots
split_named [] h = absurd cc
split_named (b ∷ bytes) h = elim (Bool-cases (b == dot)) [
  | inl d ↦ inr (rw d (λ e. cc))
  | inr d ↦ inl (rw d refl)
]

named_step :
    (path : Bytes)
    → is_empty path ≡ false
    → (is_empty (step_of (split_dots path).0).raw ≡ false) ⊎ (map step_of (split_dots path).1 ≢ [])
unfolding step_of
named_step path h = elim (split_named path h) [
  | inl some_name ↦ inl some_name
  | inr more ↦ inr (mapped (split_dots path).1 more)
]
  where
    mapped : (ps : List Bytes) → ps ≢ [] → map step_of ps ≢ []
    mapped [] h = λ e. h refl
    mapped (p ∷ ps) h = λ e. cc

name_slot :
    (change : Document → Document) (name : Bytes) (fields : Fields)
    → field_value (field_path name) (object (slot change (field_path name) fields))
      ≡ some (change (value_or_null (field_path name) (object fields)))
unfolding field_value slot value_or_null
name_slot change name fields = get-change_field change fields name

-- In an object in which the slot of a path that is not empty was changed, objects made on the way
-- where there were none, `field_value` finds at the path what the change makes of the value that
-- `value_or_null` found there before.
pub field_value-slot :
    (change : Document → Document) (path : Bytes) (fields : Fields)
    → is_empty path ≡ false
    → field_value (new path) (object (slot change (new path) fields))
      ≡ some (change (value_or_null (new path) (object fields)))
unfolding new
field_value-slot change path fields h =
    elim (Bool-cases
      (not (is_empty path) && (not (contains_byte dot path) && not (contains star path)))) [
        | inl name ↦ rw name (name_slot change path fields)
        | inr steps ↦ rw steps (steps_slot change _ _ _ fields (named_step path h))
      ]
