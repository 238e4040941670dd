-- ===== src/Access/Kinds.antt =====
-- json_is_null to json_is_object, and json_get_number.
use s_json.Base.{Bool, true, false, ◌||◌, Option, some, ℕ}
use s_json.Error.{Result}
use s_json.Number.{Fpu}
use s_json.Value.{JsonValue, null, boolean, integer, float, string, array, object}
use s_json.Access.{json_get_float}

-- JsonType
pub data JsonType : Type 0 where
  json_null json_bool json_integer json_float json_string json_array json_object : JsonType

abbrev pub type_of : JsonValue → JsonType
type_of null = json_null
type_of (boolean b) = json_bool
type_of (integer i) = json_integer
type_of (float f) = json_float
type_of (string s) = json_string
type_of (array items cap) = json_array
type_of (object pairs cap idx is_sorted) = json_object

-- The number of the enumerator.
abbrev pub code_of : JsonType → ℕ
code_of json_null = 0
code_of json_bool = 1
code_of json_integer = 2
code_of json_float = 3
code_of json_string = 4
code_of json_array = 5
code_of json_object = 6

unfoldable pub json_is_null : Option JsonValue → Bool
json_is_null (some null) = true
json_is_null _ = false

unfoldable pub json_is_bool : Option JsonValue → Bool
json_is_bool (some (boolean b)) = true
json_is_bool _ = false

unfoldable pub json_is_integer : Option JsonValue → Bool
json_is_integer (some (integer i)) = true
json_is_integer _ = false

unfoldable pub json_is_float : Option JsonValue → Bool
json_is_float (some (float f)) = true
json_is_float _ = false

unfoldable pub json_is_number : Option JsonValue → Bool
unfolding json_is_integer json_is_float
json_is_number v = json_is_integer v || json_is_float v

unfoldable pub json_is_string : Option JsonValue → Bool
json_is_string (some (string s)) = true
json_is_string _ = false

unfoldable pub json_is_array : Option JsonValue → Bool
json_is_array (some (array items cap)) = true
json_is_array _ = false

unfoldable pub json_is_object : Option JsonValue → Bool
json_is_object (some (object pairs cap idx is_sorted)) = true
json_is_object _ = false

unfoldable pub json_get_number : Fpu → Option JsonValue → Bool → Result ℕ
unfolding json_get_float
json_get_number fpu v has_out = json_get_float fpu v has_out
