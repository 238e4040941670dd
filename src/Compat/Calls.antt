-- ===== src/Compat/Calls.antt =====
-- The calls on items of sjson_cjson_compat.h: cJSON_IsInvalid to cJSON_Print.
use s_json.Base.{
  ℕ, ◌+◌, Bool, true, false, not, [], ◌∷◌, ◌++◌, Option, none, some, Bytes, ◌==◌, if◌then◌else◌,
  get_elem?, set, size_max,
}
use s_json.Base.Int.{ℤ, pos, negsuc}
use s_json.Error.{json_ok, Result, ok, err}
use s_json.Arena.{JsonAllocator, Arena, Region, arena_alloc}
use s_json.Number.{Fpu}
use s_json.Value.{JsonValue, boolean}
use s_json.Access.{json_arr_get, json_obj_get, json_get_string, json_get_arr_len}
use s_json.Access.Kinds.{
  json_is_null, json_is_bool, json_is_number, json_is_string, json_is_array, json_is_object,
  json_get_number,
}
use s_json.Writer.Value.{JsonWriteOpts}
use s_json.Writer.Calls.{Output, json_measure, json_write}
use s_json.Compat.{Owner, CJson, Heap, Got, sjson_cjson_wrap}

-- The value of an item, where neither is NULL.
abbrev pub value_of : Option CJson → Option JsonValue
value_of none = none
value_of (some item) = item.value

unfoldable pub cjson_is_invalid : Option CJson → Bool
cjson_is_invalid item = elim (value_of item) [ none ↦ true | some v ↦ false ]

abbrev is_boolean : Bool → Option JsonValue → Bool
is_boolean wanted (some (boolean b)) = if wanted then b else not b
is_boolean wanted _ = false

unfoldable pub cjson_is_false : Option CJson → Bool
cjson_is_false item = is_boolean false (value_of item)

unfoldable pub cjson_is_true : Option CJson → Bool
cjson_is_true item = is_boolean true (value_of item)

unfoldable pub cjson_is_bool : Option CJson → Bool
unfolding json_is_bool
cjson_is_bool item = json_is_bool (value_of item)

unfoldable pub cjson_is_null : Option CJson → Bool
unfolding json_is_null
cjson_is_null item = json_is_null (value_of item)

unfoldable pub cjson_is_number : Option CJson → Bool
unfolding json_is_number
cjson_is_number item = json_is_number (value_of item)

unfoldable pub cjson_is_string : Option CJson → Bool
unfolding json_is_string
cjson_is_string item = json_is_string (value_of item)

unfoldable pub cjson_is_array : Option CJson → Bool
unfolding json_is_array
cjson_is_array item = json_is_array (value_of item)

unfoldable pub cjson_is_object : Option CJson → Bool
unfolding json_is_object
cjson_is_object item = json_is_object (value_of item)

unfoldable pub cjson_get_array_size : Option CJson → ℕ
unfolding json_get_arr_len
cjson_get_array_size item = elim (json_get_arr_len (value_of item) true) [
  | err e ↦ 0
  | ok len ↦ len
]

unfoldable pub cjson_get_number_value : Fpu → Option CJson → ℕ
unfolding json_get_number
cjson_get_number_value fpu item = elim (json_get_number fpu (value_of item) true) [
  | err e ↦ 0
  | ok d ↦ d
]

-- The item of a value that a lookup found.
abbrev pub wrapped : Fpu → Bool → Heap → Result JsonValue → Got
wrapped fpu has_memory heap (err e) = some (none, heap)
wrapped fpu has_memory heap (ok v) = sjson_cjson_wrap fpu has_memory heap (some v) false

-- A lookup in an item, which may be NULL; one that is not there is a use of freed memory.
abbrev pub in_item : Heap → Option ℕ → (CJson → Got) → Got
in_item heap none get = some (none, heap)
in_item heap (some i) get = elim (get_elem? heap.items i) [ none ↦ none | some item ↦ get item ]

abbrev pub at_index : Fpu → Bool → Heap → ℤ → CJson → Got
at_index fpu has_memory heap (negsuc n) item = some (none, heap)
at_index fpu has_memory heap (pos n) item =
    wrapped fpu has_memory heap (json_arr_get item.value n true)

unfoldable pub cjson_get_array_item : Fpu → Bool → Heap → Option ℕ → ℤ → Got
unfolding json_arr_get sjson_cjson_wrap
cjson_get_array_item fpu has_memory heap i index =
    in_item heap i (at_index fpu has_memory heap index)

abbrev pub found : Fpu → Bool → Heap → Option (Result JsonValue) → Got
found fpu has_memory heap none = none
found fpu has_memory heap (some r) = wrapped fpu has_memory heap r

abbrev pub at_key : Fpu → Bool → Heap → Option Bytes → CJson → Got
at_key fpu has_memory heap none item = some (none, heap)
at_key fpu has_memory heap (some key) item =
    found fpu has_memory heap (json_obj_get item.value (some key) true)

-- cJSON_GetObjectItem and cJSON_GetObjectItemCaseSensitive
unfoldable pub cjson_get_object_item : Fpu → Bool → Heap → Option ℕ → Option Bytes → Got
unfolding json_obj_get sjson_cjson_wrap
cjson_get_object_item fpu has_memory heap i key = in_item heap i (at_key fpu has_memory heap key)

-- A text that the call returns, and the memory after; outside, `none` is a use of freed memory.
abbrev pub GotText : Type 0
GotText = Option (Option Bytes × Heap)

-- The copy with a NUL, which the item keeps.
abbrev pub kept_text : Heap → ℕ → CJson → Owner → Bytes → Option Region × Arena → GotText
kept_text heap i item o text (none, a) =
    some (none, record heap { owner = some (record o { arena = a }) })
kept_text heap i item o text (some _, a) =
    let copy = text ++ (0 ∷ []) in
    some (
      some copy,
      record {
        owner = some (record o { arena = a });
        items = set heap.items i (record item { valuestring = some copy });
      },
    )

abbrev pub copied_text : Heap → ℕ → CJson → Option Bytes → Option Owner → Bytes × ℕ → GotText
copied_text heap i item (some text) owner (bytes, len) = some (some text, heap)
copied_text heap i item none none (bytes, len) = none
copied_text heap i item none (some o) (bytes, len) =
    kept_text heap i item o bytes (arena_alloc o.arena (len + 1))

abbrev pub string_in : Heap → ℕ → CJson → Result (Bytes × ℕ) → GotText
string_in heap i item (err e) = some (none, heap)
string_in heap i item (ok bytes) = copied_text heap i item item.valuestring heap.owner bytes

abbrev pub string_at : Heap → ℕ → Option CJson → GotText
string_at heap i none = none
string_at heap i (some item) = string_in heap i item (json_get_string item.value true)

unfoldable pub cjson_get_string_value : Heap → Option ℕ → GotText
unfolding json_get_string arena_alloc
cjson_get_string_value heap none = some (none, heap)
cjson_get_string_value heap (some i) = string_at heap i (get_elem? heap.items i)

-- The text that json_write wrote, or NULL where it failed and the buffer is freed again.
abbrev pub printed : Output → Option Bytes
printed out = elim out.status [ json_ok ↦ some out.text | e ↦ none ]

abbrev pub buffered :
    Fpu → JsonAllocator → Bool → JsonValue → Option JsonWriteOpts → Option ℕ → Option Bytes
buffered fpu libc has_memory v opts none = none
buffered fpu libc has_memory v opts (some len) =
    if len == size_max
    then none
    else if has_memory
    then printed (json_write fpu libc (some v) true (len + 1) opts)
    else none

abbrev pub after_measure :
    Fpu → JsonAllocator → Bool → JsonValue → Option JsonWriteOpts → Output → Option Bytes
after_measure fpu libc has_memory v opts measured = elim measured.status [
  | json_ok ↦ buffered fpu libc has_memory v opts measured.written
  | e ↦ none
]

-- What cJSON_Print and cJSON_PrintUnformatted share: the measuring call, the buffer and the writing call.
unfoldable pub print_with :
    Fpu → JsonAllocator → Bool → Option JsonValue → Option JsonWriteOpts → Option Bytes
print_with fpu libc has_memory none opts = none
print_with fpu libc has_memory (some v) opts =
    after_measure fpu libc has_memory v opts (json_measure fpu libc (some v) true opts)

abbrev pub pretty_opts : JsonWriteOpts
pretty_opts = record {
  pretty = true;
  indent = 2;
  sort_keys = false;
  ascii_only = false;
  trailing_nl = false;
}

unfoldable pub cjson_print_unformatted : Fpu → JsonAllocator → Bool → Option CJson → Option Bytes
unfolding print_with
cjson_print_unformatted fpu libc has_memory item =
    print_with fpu libc has_memory (value_of item) none

unfoldable pub cjson_print : Fpu → JsonAllocator → Bool → Option CJson → Option Bytes
unfolding print_with
cjson_print fpu libc has_memory item =
    print_with fpu libc has_memory (value_of item) (some pretty_opts)
