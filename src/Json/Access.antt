-- ===== src/Json/Access.antt =====
-- The accessors of `serde_json::Value` that the code calls.
use txodds_agent_desk.Prelude.{ℕ, Bool, Option, none, some, List, [], ◌∷◌, if◌then◌else◌}
use txodds_agent_desk.Prelude.Int.{ℤ}
use txodds_agent_desk.Text.{Text, text_eq}
use txodds_agent_desk.Decimal.Parse.{parse_u64, parse_i64}
use txodds_agent_desk.Json.{
  Value, bool, number, string, array, object, Items, nil, cons, Fields, end, field,
}

get_field : Text → Fields → Option Value
get_field key end = none
get_field key (field k v fs) = let rest = get_field key fs in if text_eq k key then some v else rest

unfoldable pub get : Text → Value → Option Value
unfolding get_field text_eq
get key (object fs) = get_field key fs
get key v = none

items_list : Items → List Value
items_list nil = []
items_list (cons v vs) = v ∷ items_list vs

unfoldable pub as_array : Value → Option (List Value)
unfolding items_list
as_array (array vs) = some (items_list vs)
as_array v = none

unfoldable pub as_str : Value → Option Text
as_str (string t) = some t
as_str v = none

unfoldable pub as_bool : Value → Option Bool
as_bool (bool b) = some b
as_bool v = none

unfoldable pub as_u64 : Value → Option ℕ
unfolding parse_u64
as_u64 (number t) = parse_u64 t
as_u64 v = none

unfoldable pub as_i64 : Value → Option ℤ
unfolding parse_i64
as_i64 (number t) = parse_i64 t
as_i64 v = none

-- The reading of a number is a parameter.
unfoldable pub as_f64 : {F : Type 0} → (Text → Option F) → Value → Option F
as_f64 parse (number t) = parse t
as_f64 parse v = none
