-- ===== src/Store/Lookup.antt =====
-- Properties of an object after a spread.
use bimo.Base.{String, ◌≡◌, refl, text_eq, if◌then◌else◌, eq_iff, arith}
use bimo.Js.{Value, Fields, field, end, find_field, set_field}

pub find_field-set_field :
    (j k : String) (v : Value) (fs : Fields)
    → find_field j (set_field k v fs) ≡ (if text_eq k j then v else find_field j fs)
find_field-set_field j k v end = refl
find_field-set_field j k v (field i w fs) =
    ground (arith, eq_iff i k, eq_iff i j, eq_iff k j, find_field-set_field j k v fs)
