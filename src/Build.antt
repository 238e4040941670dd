-- ===== src/Build.antt =====
-- json_make_null to json_make_object, json_arr_push, json_obj_set, json_obj_setz, json__obj_sort and
-- json_obj_finalize. A call that stores through a pointer gives the value after it.
pub mod Clone
pub mod Equal
pub mod Set
pub mod Lookup
pub mod Copy
pub mod CloneEqual
pub mod Finalize
use s_json.Base.{
  ℕ, zero, suc, ◌*◌, ◌-◌, ◌%◌, Bool, true, false, not, ◌&&◌, ◌||◌, List, [], ◌∷◌, Option, none,
  some, Bytes, ltb, leb, ◌==◌, if◌then◌else◌, length, take, u32_mod, u64_mod,
}
use s_json.Base.Int.{ℤ}
use s_json.Error.{
  JsonError, json_ok, null_param, type_mismatch, overflow, invalid_utf8, oom, Result, ok, err,
}
use s_json.Text.Hash.{json_fnv1a}
use s_json.Text.Utf8.{valid_utf8}
use s_json.Text.Str.{JsonStr, max_string_len}
use s_json.Arena.{Arena, Region, new_node, arena_alloc}
use s_json.Number.{is_special}
use s_json.Value.{
  JsonValue, null, boolean, integer, float, string, array, object, Items, no_items, Pairs, no_pairs,
  pair, count_items, count_pairs, append_item, append_pair, arr_grow, obj_grow,
}
use s_json.Access.{key_matches}
use s_json.Sort.{key_cmp}
use s_json.Sort.Introsort.{sort_indices, indices_from}
use s_json.Parser.Run.{before_nul}

-- The value that a call returns, `none` for NULL, and the arena after.
abbrev pub Node : Type 0
Node = Option JsonValue × Arena

abbrev pub made : JsonValue → Bool × Arena → Node
made v (true, a) = (some v, a)
made v (false, a) = (none, a)

unfoldable pub json_make_null : Arena → Node
json_make_null arena = made null (new_node arena)

unfoldable pub json_make_bool : Arena → Bool → Node
json_make_bool arena val = made (boolean val) (new_node arena)

unfoldable pub json_make_int : Arena → ℤ → Node
json_make_int arena val = made (integer val) (new_node arena)

-- A NaN or an infinity is refused.
unfoldable pub json_make_float : Arena → ℕ → Node
json_make_float arena val =
    if is_special val then (none, arena) else made (float val) (new_node arena)

unfoldable pub json_make_array : Arena → Node
json_make_array arena = made (array no_items 0) (new_node arena)

unfoldable pub json_make_object : Arena → Node
json_make_object arena = made (object no_pairs 0 none false) (new_node arena)

-- `len > 0 && (s == NULL || !json__valid_utf8(s, len))`
abbrev is_bad_text : Option Bytes → ℕ → Bool
is_bad_text none len = ltb 0 len
is_bad_text (some s) len = ltb 0 len && not (valid_utf8 (take len s))

abbrev text_of : Option Bytes → ℕ → Bytes
text_of none len = []
text_of (some s) len = take len s

abbrev made_string : Bytes → ℕ → Option Region × Arena → Node
made_string text len (none, a) = (none, a)
made_string text len (some _, a) =
    (some (string (record { text = text; len = len; hash = json_fnv1a (some text) len })), a)

-- The node of a string, and its copy of the text.
unfoldable pub string_node : Bytes → ℕ → Bool × Arena → Node
unfolding json_fnv1a arena_alloc
string_node text len (false, a) = (none, a)
string_node text len (true, a) =
    if len == 0
    then (some (string (record { text = []; len = 0; hash = json_fnv1a none 0 })), a)
    else made_string text len (arena_alloc a len)

-- json_make_string: `none` for the text is NULL.
unfoldable pub json_make_string : Option Arena → Option Bytes → ℕ → Option JsonValue × Option Arena
unfolding string_node
json_make_string none s len = (none, none)
json_make_string (some arena) s len =
    let (v, a) = string_node (text_of s len) len (new_node arena) in
    if ltb max_string_len len || is_bad_text s len then (none, some arena) else (v, some a)

-- json_make_stringz
unfoldable pub json_make_stringz : Option Arena → Option Bytes → Option JsonValue × Option Arena
unfolding json_make_string before_nul
json_make_stringz arena none = json_make_string arena none 0
json_make_stringz arena (some s) =
    let text = before_nul s in
    if ltb (u32_mod - 1) (length text)
    then (none, arena)
    else json_make_string arena (some text) (length text)

-- The status of a call, the value that it changes, and the arena after.
abbrev pub Changed : Type 0
Changed = JsonError × (JsonValue × Arena)

abbrev pushed : JsonValue → Items → ℕ → Result ℕ × Arena → Changed
pushed v items cap (err e, a) = (e, (array items cap, a))
pushed v items cap (ok new_cap, a) = (json_ok, (array (append_item items v) new_cap, a))

-- json_arr_push, on parameters that are not NULL.
unfoldable pub arr_push : JsonValue → Arena → JsonValue → Changed
unfolding append_item arr_grow count_items
arr_push (array items cap) arena v =
    if leb cap (count_items items)
    then pushed v items cap (arr_grow arena cap)
    else (json_ok, (array (append_item items v) cap, arena))
arr_push arr arena v = (type_mismatch, (arr, arena))

-- The outcome of a call whose pointers may be NULL.
abbrev pub Stored : Type 0
Stored = JsonError × (Option JsonValue × Option Arena)

abbrev pub stored : Changed → Stored
stored (e, (v, a)) = (e, (some v, some a))

-- json_arr_push
unfoldable pub json_arr_push : Option JsonValue → Option Arena → Option JsonValue → Stored
unfolding arr_push
json_arr_push (some arr) (some arena) (some v) = stored (arr_push arr arena v)
json_arr_push arr arena v = (null_param, (arr, arena))

-- The loop that looks for the key, and the update in place: `none` where the key is not there.
unfoldable pub replace : ℕ → Bytes → ℕ → JsonValue → Pairs → Option Pairs
replace hash key klen val no_pairs = none
replace hash key klen val (pair k v pairs) =
    let later : Option Pairs = elim (replace hash key klen val pairs) [
      | none ↦ none
      | some changed ↦ some (pair k v changed)
    ] in
    if key_matches hash key klen k then some (pair k val pairs) else later

-- The copy of a key.
abbrev pub key_copy : Bytes → ℕ → JsonStr
key_copy key klen = record {
  text = key;
  len = klen;
  hash = json_fnv1a (if klen == 0 then none else some key) klen;
}

abbrev with_copy :
    JsonStr → JsonValue → Pairs → ℕ → Option (List ℕ) → Bool → Option Region × Arena → Changed
with_copy k val pairs cap idx is_sorted (none, a) = (oom, (object pairs cap idx is_sorted, a))
with_copy k val pairs cap idx is_sorted (some _, a) =
    (json_ok, (object (append_pair pairs k val) cap idx false, a))

-- From the copy of the key on, with room for the pair.
unfoldable pub insert_pair :
    Bytes → ℕ → JsonValue → Pairs → Option (List ℕ) → Bool → ℕ → Arena → Changed
unfolding json_fnv1a append_pair arena_alloc
insert_pair key klen val pairs idx is_sorted cap a =
    if klen == 0
    then (json_ok, (object (append_pair pairs (key_copy key klen) val) cap idx false, a))
    else with_copy (key_copy key klen) val pairs cap idx is_sorted (arena_alloc a klen)

abbrev insert_grown :
    Bytes → ℕ → JsonValue → Pairs → ℕ → Option (List ℕ) → Bool → Result ℕ × Arena → Changed
insert_grown key klen val pairs cap idx is_sorted (err e, a) =
    (e, (object pairs cap idx is_sorted, a))
insert_grown key klen val pairs cap idx is_sorted (ok new_cap, a) =
    insert_pair key klen val pairs none false new_cap a

-- From the search for the key on; `key` has the `klen` bytes.
unfoldable pub set_pair :
    Bytes → ℕ → JsonValue → Pairs → ℕ → Option (List ℕ) → Bool → Arena → Changed
unfolding replace insert_pair obj_grow count_pairs
set_pair key klen val pairs cap idx is_sorted arena =
    elim (replace (json_fnv1a (some key) klen) key klen val pairs) [
      | some changed ↦ (json_ok, (object changed cap idx is_sorted, arena))
      | none ↦
          if leb cap (count_pairs pairs)
          then insert_grown key klen val pairs cap idx is_sorted (obj_grow arena cap)
          else insert_pair key klen val pairs idx is_sorted cap arena
    ]

-- json_obj_set, on an object and parameters that are not NULL.
unfoldable pub obj_set : JsonValue → Arena → Bytes → ℕ → JsonValue → Changed
unfolding set_pair
obj_set (object pairs cap idx is_sorted) arena key klen val =
    let bytes = take klen key in
    if ltb max_string_len klen
    then (overflow, (object pairs cap idx is_sorted, arena))
    else if not (valid_utf8 bytes)
    then (invalid_utf8, (object pairs cap idx is_sorted, arena))
    else set_pair bytes klen val pairs cap idx is_sorted arena
obj_set v arena key klen val = (type_mismatch, (v, arena))

-- json_obj_set
unfoldable pub json_obj_set :
    Option JsonValue → Option Arena → Option Bytes → ℕ → Option JsonValue → Stored
unfolding obj_set
json_obj_set (some obj) (some arena) (some key) klen (some val) =
    stored (obj_set obj arena key klen val)
json_obj_set (some obj) (some arena) none klen (some val) =
    if klen == 0
    then stored (obj_set obj arena [] klen val)
    else (null_param, (some obj, some arena))
json_obj_set obj arena key klen val = (null_param, (obj, arena))

-- json_obj_setz
unfoldable pub json_obj_setz :
    Option JsonValue → Option Arena → Option Bytes → Option JsonValue → Stored
unfolding json_obj_set before_nul
json_obj_setz obj arena none val = (null_param, (obj, arena))
json_obj_setz obj arena (some key) val =
    let text = before_nul key in
    if ltb (u32_mod - 1) (length text)
    then (overflow, (obj, arena))
    else json_obj_set obj arena (some text) (length text) val

-- The indices in the order of hash, bytes and length. The sort always returns (Sort/IntroPerm).
unfoldable pub hash_order : Pairs → List ℕ
unfolding sort_indices indices_from
hash_order pairs = elim (sort_indices (key_cmp false pairs) (count_pairs pairs)) [
  | none ↦ indices_from (count_pairs pairs) 0
  | some idx ↦ idx
]

-- The memory for the indices, allocated where it is not there yet.
unfoldable pub idx_room : Arena → ℕ → Option (List ℕ) → Bool × Arena
unfolding arena_alloc
idx_room arena cap (some idx) = (true, arena)
idx_room arena cap none =
    let (region, a) = arena_alloc arena (cap * 4 % u64_mod) in
    elim region [ none ↦ (false, a) | some _ ↦ (true, a) ]

abbrev pub sorted_in : Pairs → ℕ → Option (List ℕ) → Bool × Arena → Changed
sorted_in pairs cap idx (false, a) = (oom, (object pairs cap idx false, a))
sorted_in pairs cap idx (true, a) = (json_ok, (object pairs cap (some (hash_order pairs)) true, a))

-- json__obj_sort, and the test of the type in json_obj_finalize.
unfoldable pub obj_sort : JsonValue → Arena → Changed
unfolding hash_order idx_room
obj_sort (object pairs cap idx is_sorted) arena =
    if is_sorted || count_pairs pairs == 0
    then (json_ok, (object pairs cap idx is_sorted, arena))
    else sorted_in pairs cap idx (idx_room arena cap idx)
obj_sort v arena = (type_mismatch, (v, arena))

-- json_obj_finalize
unfoldable pub json_obj_finalize : Option Arena → Option JsonValue → Stored
unfolding obj_sort
json_obj_finalize (some arena) (some obj) = stored (obj_sort obj arena)
json_obj_finalize arena obj = (null_param, (obj, arena))
