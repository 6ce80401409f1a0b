-- ===== src/Prelude/Json.antt =====
-- `serde_json::Value`, as far as the code reads it: an object's keys are unique there, and a number
-- is kept as its text and as the i64 that it is, if it is one.
use polyrust.Prelude.{Bool, Option, none, some, List, [], ◌∷◌, and_then, if◌then◌else◌}
use polyrust.Prelude.Int.{ℤ}
use polyrust.Prelude.Text.{Text, text_eq}

mutual
  pub data Value : Type 0 where
    null : Value
    boolean : Bool → Value
    -- its text, and what `as_i64` reads of it
    number : Text → Option ℤ → Value
    string : Text → Value
    array : Values → Value
    object : Fields → Value

  pub data Values : Type 0 where
    no_values : Values
    value : Value → Values → Values

  pub data Fields : Type 0 where
    no_fields : Fields
    field : Text → Value → Fields → Fields

unfoldable pub get_field : Fields → Text → Option Value
get_field Fields.no_fields key = none
get_field (Fields.field k v rest) key =
    let r = get_field rest key in if text_eq k key then some v else r

-- `Value::get`, `as_bool` and `as_str`.
abbrev pub get : Value → Text → Option Value
get (Value.object fields) key = get_field fields key
get _ key = none

abbrev pub as_bool : Value → Option Bool
as_bool (Value.boolean b) = some b
as_bool _ = none

abbrev pub as_str : Value → Option Text
as_str (Value.string s) = some s
as_str _ = none

abbrev pub get_str : Value → Text → Option Text
get_str v key = and_then (get v key) as_str

-- `as_object().is_some()` and `contains_key`.
abbrev pub is_object : Value → Bool
is_object (Value.object _) = Bool.true
is_object _ = Bool.false

abbrev pub contains_key : Value → Text → Bool
contains_key v key = elim (get v key) [ none ↦ Bool.false | some _ ↦ Bool.true ]

-- `as_array`.
abbrev pub values_list : Values → List Value
values_list Values.no_values = []
values_list (Values.value v rest) = v ∷ values_list rest

abbrev pub as_array : Value → Option (List Value)
as_array (Value.array vs) = some (values_list vs)
as_array _ = none
