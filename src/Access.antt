-- ===== src/Access.antt =====
-- The getters of src/sJson.c: json_get_bool to json_get_obj_len, json_arr_get, json_obj_get_n,
-- json_obj_get and json_obj_iter. An output pointer is a flag that says whether it is there.
pub mod Linear
pub mod Kinds
pub mod Binary
use s_json.Base.{
  ℕ, zero, suc, ◌+◌, ◌-◌, ◌/◌, ◌%◌, Bool, true, false, not, ◌&&◌, ◌||◌, List, [], ◌∷◌, Option, none,
  some, Bytes, ltb, leb, ◌==◌, if◌then◌else◌, length, get_elem?, u32_mod,
}
use s_json.Base.Int.{ℤ}
use s_json.Error.{Result, ok, err, null_param, type_mismatch, overflow, not_found}
use s_json.Text.Hash.{json_fnv1a}
use s_json.Text.Str.{JsonStr}
use s_json.Number.{Fpu, is_nan}
use s_json.Value.{
  Compared, before, same, after, is_same, memcmp, nth_pair, JsonValue, boolean, integer, float,
  string, array, object, Items, no_items, item, Pairs, no_pairs, pair, count_items, count_pairs,
}
use s_json.Parser.Run.{before_nul}

-- JSON__CHECK_V and JSON__CHECK_OUT
abbrev pub checked {ℓ} : {A : Type ℓ} → Option JsonValue → Bool → (JsonValue → Result A) → Result A
checked none has_out get = err null_param
checked (some v) has_out get = if has_out then get v else err null_param

abbrev bool_of : JsonValue → Result Bool
bool_of (boolean b) = ok b
bool_of _ = err type_mismatch

unfoldable pub json_get_bool : Option JsonValue → Bool → Result Bool
json_get_bool v has_out = checked v has_out bool_of

-- The doubles -2^63 and 2^63.
abbrev double_int64_min : ℕ
double_int64_min = 0xC3E0000000000000

abbrev double_int64_past : ℕ
double_int64_past = 0x43E0000000000000

-- A double is converted where it lies in the range of int64_t.
abbrev int_of : Fpu → JsonValue → Result ℤ
int_of fpu (integer i) = ok i
int_of fpu (float f) =
    if is_nan f || fpu.lt f double_int64_min || fpu.le double_int64_past f
    then err overflow
    else ok (fpu.to_int64 f)
int_of fpu _ = err type_mismatch

unfoldable pub json_get_int : Fpu → Option JsonValue → Bool → Result ℤ
json_get_int fpu v has_out = checked v has_out (int_of fpu)

abbrev float_of : Fpu → JsonValue → Result ℕ
float_of fpu (float f) = ok f
float_of fpu (integer i) = ok (fpu.of_int64 i)
float_of fpu _ = err type_mismatch

unfoldable pub json_get_float : Fpu → Option JsonValue → Bool → Result ℕ
json_get_float fpu v has_out = checked v has_out (float_of fpu)

abbrev string_of : JsonValue → Result (Bytes × ℕ)
string_of (string s) = ok (s.text, s.len)
string_of _ = err type_mismatch

unfoldable pub json_get_string : Option JsonValue → Bool → Result (Bytes × ℕ)
json_get_string v has_out = checked v has_out string_of

abbrev arr_len_of : JsonValue → Result ℕ
arr_len_of (array items cap) = ok (count_items items)
arr_len_of _ = err type_mismatch

unfoldable pub json_get_arr_len : Option JsonValue → Bool → Result ℕ
unfolding count_items
json_get_arr_len v has_out = checked v has_out arr_len_of

abbrev obj_len_of : JsonValue → Result ℕ
obj_len_of (object pairs cap idx is_sorted) = ok (count_pairs pairs)
obj_len_of _ = err type_mismatch

unfoldable pub json_get_obj_len : Option JsonValue → Bool → Result ℕ
unfolding count_pairs
json_get_obj_len v has_out = checked v has_out obj_len_of

-- `items[i]`, with the test of the index.
unfoldable pub nth_item : ℕ → Items → Result JsonValue
nth_item i no_items = err not_found
nth_item zero (item v items) = ok v
nth_item (suc i) (item v items) = nth_item i items

abbrev item_of : ℕ → JsonValue → Result JsonValue
item_of i (array items cap) = nth_item i items
item_of i _ = err type_mismatch

unfoldable pub json_arr_get : Option JsonValue → ℕ → Bool → Result JsonValue
unfolding nth_item
json_arr_get v i has_out = checked v has_out (item_of i)

-- The test of the linear scan.
unfoldable pub key_matches : ℕ → Bytes → ℕ → JsonStr → Bool
unfolding memcmp
key_matches hash key klen k =
    k.hash == hash && k.len == klen % u32_mod && (klen == 0 || is_same (memcmp klen k.text key))

-- The linear scan.
unfoldable pub linear_find : ℕ → Bytes → ℕ → Pairs → Result JsonValue
linear_find hash key klen no_pairs = err not_found
linear_find hash key klen (pair k v pairs) =
    let rest = linear_find hash key klen pairs in if key_matches hash key klen k then ok v else rest

-- The order of a stored key and the key that is looked for: by hash, then bytes, then length.
unfoldable pub compare_key : ℕ → Bytes → ℕ → JsonStr → Compared
unfolding memcmp
compare_key hash key klen k =
    let len = klen % u32_mod in
    let min_len : ℕ = if ltb k.len len then k.len else len in
    let by_bytes = memcmp min_len k.text key in
    if ltb k.hash hash
    then before
    else if ltb hash k.hash
    then after
    else if not (is_same by_bytes)
    then by_bytes
    else if ltb k.len len
    then before
    else if ltb len k.len
    then after
    else same

-- The entry that the index at `mid` names; `none` is an index out of range.
abbrev pub entry_at : List ℕ → Pairs → ℕ → Option (JsonStr × JsonValue)
entry_at idx pairs mid = elim (get_elem? idx mid) [ none ↦ none | some i ↦ nth_pair i pairs ]

-- The binary search between `lo` and `past`, which is `hi + 1`. `none` is an access out of range. The
-- range shrinks in each round, so the number of pairs is fuel enough.
unfoldable pub binary_find : ℕ → ℕ → Bytes → ℕ → List ℕ → Pairs → ℕ → ℕ → Option (Result JsonValue)
unfolding compare_key nth_pair
binary_find zero hash key klen idx pairs lo past = some (err not_found)
binary_find (suc fuel) hash key klen idx pairs lo past =
    let mid = lo + (past - 1 - lo) / 2 in
    let right = binary_find fuel hash key klen idx pairs (mid + 1) past in
    let left = binary_find fuel hash key klen idx pairs lo mid in
    if leb past lo then some (err not_found) else elim (entry_at idx pairs mid) [
      | none ↦ none
      | some (k, v) ↦ elim (compare_key hash key klen k) [
        | before ↦ right
        | after ↦ left
        | same ↦ some (ok v)
      ]
    ]

-- From the test of the type on.
unfoldable pub find_in : Bytes → ℕ → JsonValue → Option (Result JsonValue)
unfolding linear_find binary_find
find_in key klen (object pairs cap (some idx) true) =
    let hash = json_fnv1a (some key) klen in
    let len = count_pairs pairs in
    if len == 0 then some (err not_found) else binary_find len hash key klen idx pairs 0 len
find_in key klen (object pairs cap idx is_sorted) =
    if count_pairs pairs == 0
    then some (err not_found)
    else some (linear_find (json_fnv1a (some key) klen) key klen pairs)
find_in key klen _ = some (err type_mismatch)

-- json_obj_get_n: `none` for the key is NULL.
unfoldable pub json_obj_get_n :
    Option JsonValue → Option Bytes → ℕ → Bool → Option (Result JsonValue)
unfolding find_in
json_obj_get_n none key klen has_out = some (err null_param)
json_obj_get_n (some v) key klen false = some (err null_param)
json_obj_get_n (some v) none klen true =
    if not (klen == 0) then some (err null_param) else find_in [] klen v
json_obj_get_n (some v) (some key) klen true =
    if ltb (u32_mod - 1) klen then some (err overflow) else find_in key klen v

-- json_obj_get
unfoldable pub json_obj_get : Option JsonValue → Option Bytes → Bool → Option (Result JsonValue)
unfolding json_obj_get_n before_nul
json_obj_get v none has_out = some (err null_param)
json_obj_get v (some key) has_out =
    json_obj_get_n v (some (before_nul key)) (length (before_nul key)) has_out

abbrev entry_of : ℕ → JsonValue → Result (JsonStr × JsonValue)
entry_of i (object pairs cap idx is_sorted) = elim (nth_pair i pairs) [
  | none ↦ err not_found
  | some entry ↦ ok entry
]
entry_of i _ = err type_mismatch

-- json_obj_iter; the caller takes what it has pointers for.
unfoldable pub json_obj_iter : Option JsonValue → ℕ → Result (JsonStr × JsonValue)
unfolding nth_pair
json_obj_iter none i = err null_param
json_obj_iter (some v) i = entry_of i v
