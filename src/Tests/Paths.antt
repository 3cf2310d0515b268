-- ===== src/Tests/Paths.antt =====
-- src/path.rs at `a.b` and a small document.
use trunkdb.Base.{◌≡◌, refl, false, some, [], ◌∷◌, Bytes}
use trunkdb.Base.ByteString.{eq_bytes}
use trunkdb.Base.Int.{pos}
use trunkdb.Document.{Fields, int, object, field, end}
use trunkdb.Path.Defs.{
  new, star, contains, values, present, value_or_null, field_value, and_value, slot,
}
use trunkdb.Path.Single.{values-value_or_null}
use trunkdb.Path.Slot.{field_value-slot}

abbrev a_b : Bytes
a_b = 97 ∷ 46 ∷ 98 ∷ []

abbrev inner : Fields
inner = field (98 ∷ []) (int (pos 5)) end

abbrev outer : Fields
outer = field (97 ∷ []) (object inner) end

one_value : contains star a_b ≡ false
unfolding contains eq_bytes
one_value = refl

values-value_or_null_example :
    (values (new a_b) (object outer) ≡ value_or_null (new a_b) (object outer) ∷ [])
    × (present (new a_b) (object outer) ≡ and_value (field_value (new a_b) (object outer)) [])
values-value_or_null_example = values-value_or_null a_b (object outer) one_value refl

field_value-slot_example :
    field_value (new a_b) (object (slot (λ v. int (pos 6)) (new a_b) outer)) ≡ some (int (pos 6))
field_value-slot_example = field_value-slot (λ v. int (pos 6)) a_b outer refl
