-- ===== src/Path/Defs.antt =====
-- `Path` of src/path.rs, here `FieldPath`. An object's map is its fields in order; finding a name
-- by hash finds the field that finding it in order does. A slot to change is the change made in
-- it.
use trunkdb.Base.{
  ℕ, zero, suc, ◌-◌, ◌/◌, Bool, true, false, not, ◌&&◌, ◌||◌, Option, none, some, List, [], ◌∷◌,
  map, length, take, drop, ◌==◌, if◌then◌else◌, Bytes,
}
use trunkdb.Base.ByteString.{eq_bytes}
use trunkdb.Document.{Document, Elements, Fields, null, array, object, nil, cons, end, field}

-- `get`
unfoldable pub get : Fields → Bytes → Option Document
get end name = none
get (field key value fields) name =
    let rest = get fields name in if eq_bytes key name then some value else rest

-- `get_or_insert`, with what is then done to the field.
unfoldable pub change_field : (Document → Document) → Fields → Bytes → Fields
change_field change end name = field name (change null) end
change_field change (field key value fields) name =
    let rest = change_field change fields name in
    if eq_bytes key name then field key (change value) fields else field key value rest

pub record PathStep : Type 0 where
  pub raw : Bytes
  pub name : Bytes
  pub fan_outs : ℕ

pub data FieldPath : Type 0 where
  field_path : Bytes → FieldPath
  steps_path : List PathStep → Bool → FieldPath

-- `.` and `[*]`
abbrev pub dot : ℕ
dot = 46

abbrev pub star : Bytes
star = 91 ∷ 42 ∷ 93 ∷ []

abbrev pub starts_with : Bytes → Bytes → Bool
starts_with p bytes = eq_bytes (take (length p) bytes) p

-- `contains`, of a byte and of a text.
unfoldable pub contains_byte : ℕ → Bytes → Bool
contains_byte x [] = false
contains_byte x (b ∷ bytes) = b == x || contains_byte x bytes

unfoldable pub contains : Bytes → Bytes → Bool
contains p [] = starts_with p []
contains p (b ∷ bytes) = starts_with p (b ∷ bytes) || contains p bytes

-- `split('.')`: the first part, and those behind each dot.
unfoldable pub split_dots : Bytes → Bytes × List Bytes
split_dots [] = ([], [])
split_dots (b ∷ bytes) =
    let (first, others) = split_dots bytes in
    if b == dot then ([], first ∷ others) else (b ∷ first, others)

-- `trim_end_matches("[*]")`, on fuel that is the text's length.
unfoldable pub trim_end : ℕ → Bytes → Bytes
trim_end zero bytes = bytes
trim_end (suc fuel) bytes =
    let shorter = trim_end fuel (take (length bytes - 3) bytes) in
    if eq_bytes (drop (length bytes - 3) bytes) star then shorter else bytes

unfoldable pub step_of : Bytes → PathStep
unfolding trim_end
step_of raw =
    let name = trim_end (length raw) raw in
    record { raw = raw; name = name; fan_outs = (length raw - length name) / 3 }

abbrev pub parts_of : Bytes × List Bytes → List Bytes
parts_of (first, others) = first ∷ others

abbrev pub is_empty : Bytes → Bool
is_empty [] = true
is_empty (b ∷ bytes) = false

unfoldable pub new : Bytes → FieldPath
unfolding split_dots step_of contains contains_byte
new path =
    if not (is_empty path) && (not (contains_byte dot path) && not (contains star path))
    then field_path path
    else steps_path (map step_of (parts_of (split_dots path))) (contains star path)

unfoldable pub is_multi : FieldPath → Bool
is_multi (field_path name) = false
is_multi (steps_path steps multi) = multi

abbrev pub field_of : Bytes → Document → Option Document
field_of name (object fields) = get fields name
field_of name _ = none

abbrev pub or_stop : (Document → Option Document) → Option Document → Option Document
or_stop go none = none
or_stop go (some value) = go value

-- `try_fold`
unfoldable pub follow : List PathStep → Document → Option Document
follow [] value = some value
follow (step ∷ steps) value = or_stop (follow steps) (field_of step.raw value)

unfoldable pub follow_steps : List PathStep → Document → Option Document
unfolding follow
follow_steps (only ∷ []) doc = if is_empty only.raw then some doc else follow (only ∷ []) doc
follow_steps steps doc = follow steps doc

unfoldable pub field_value : FieldPath → Document → Option Document
unfolding follow_steps
field_value (field_path name) doc = field_of name doc
field_value (steps_path steps multi) doc = follow_steps steps doc

abbrev pub or_null : Option Document → Document
or_null none = null
or_null (some value) = value

unfoldable pub value_or_null : FieldPath → Document → Document
unfolding field_value
value_or_null path doc = or_null (field_value path doc)

-- What a missing field reads as.
abbrev pub or_missing : Bool → Option Document → Option Document
or_missing true none = some null
or_missing false none = none
or_missing missing_is_null (some value) = some value

abbrev pub and_value : Option Document → List Document → List Document
and_value none values = values
and_value (some value) values = value ∷ values

-- `filter_map` with the name, and `flat_map` with the elements.
unfoldable pub look_up : Bool → Bytes → List Document → List Document
look_up missing_is_null name [] = []
look_up missing_is_null name (value ∷ values) =
    and_value (or_missing missing_is_null (field_of name value))
      (look_up missing_is_null name values)

unfoldable pub elements_of : Elements → List Document → List Document
elements_of nil rest = rest
elements_of (cons value elements) rest = value ∷ elements_of elements rest

abbrev fan_one : Document → List Document → List Document
fan_one (array elements) rest = elements_of elements rest
fan_one _ rest = rest

unfoldable pub fan_out : List Document → List Document
unfolding elements_of
fan_out [] = []
fan_out (value ∷ values) = fan_one value (fan_out values)

unfoldable pub fan_outs_of : ℕ → List Document → List Document
unfolding fan_out
fan_outs_of zero values = values
fan_outs_of (suc n) values = fan_outs_of n (fan_out values)

-- The loop of `walk`; `first` is whether this is step 0.
unfoldable pub walk_steps : Bool → Bool → List PathStep → List Document → List Document
unfolding look_up fan_outs_of
walk_steps missing_is_null first [] values = values
walk_steps missing_is_null first (step ∷ steps) values =
    let named =
      if not first || not (is_empty step.name)
      then look_up missing_is_null step.name values
      else values in
    walk_steps missing_is_null false steps (fan_outs_of step.fan_outs named)

unfoldable pub walk : Bool → FieldPath → Document → List Document
unfolding walk_steps
walk missing_is_null (field_path name) doc =
    and_value (or_missing missing_is_null (field_of name doc)) []
walk missing_is_null (steps_path steps multi) doc = walk_steps missing_is_null true steps (doc ∷ [])

unfoldable pub values : FieldPath → Document → List Document
unfolding walk
values path doc = walk true path doc

unfoldable pub present : FieldPath → Document → List Document
unfolding walk
present path doc = walk false path doc

-- An object, or a new one, changed.
abbrev pub within : (Fields → Fields) → Document → Document
within change (object fields) = object (change fields)
within change _ = object (change end)

unfoldable pub slot_steps : (Document → Document) → List PathStep → Fields → Fields
unfolding change_field
slot_steps change [] fields = fields
slot_steps change (last ∷ []) fields = change_field change fields last.raw
slot_steps change (step ∷ (other ∷ steps)) fields =
    change_field (within (slot_steps change (other ∷ steps))) fields step.raw

unfoldable pub slot : (Document → Document) → FieldPath → Fields → Fields
unfolding change_field slot_steps
slot change (field_path name) fields = change_field change fields name
slot change (steps_path steps multi) fields = slot_steps change steps fields
