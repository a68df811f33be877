-- ===== src/Cjs/Json.antt =====
-- A JSON document: `serde_json::Value`, an object as its fields in the order of its iteration.
use nexide.Prelude.{Bool, Option, none, some, if◌then◌else◌}
use nexide.Prelude.Text.{Text, text_eq}

mutual
  pub data Value : Type 0 where
    null : Value
    boolean : Bool → Value
    number : Text → Value
    string : Text → Value
    array : Items → Value
    object : Fields → Value

  pub data Items : Type 0 where
    no_items : Items
    item : Value → Items → Items

  pub data Fields : Type 0 where
    no_fields : Fields
    field : Text → Value → Fields → Fields

-- `map.get(key)`
unfoldable pub get_field : Text → Fields → Option Value
get_field key no_fields = none
get_field key (field k v fs) = let rest = get_field key fs in if text_eq k key then some v else rest

-- `value.get(key)`
unfoldable pub get : Text → Value → Option Value
unfolding get_field
get key (object fs) = get_field key fs
get key _ = none

-- `value.as_str()`
unfoldable pub as_str : Value → Option Text
as_str (string s) = some s
as_str _ = none
