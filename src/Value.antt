-- ===== src/Value.antt =====
-- JsonValue, JsonArr, JsonPair and JsonObj of src/sJson.c, with json__arr_grow and json__obj_grow.
use s_json.Base.{
  ℕ, zero, suc, ◌*◌, ◌/◌, ◌%◌, Bool, true, false, List, [], ◌∷◌, Bytes, not, ◌||◌, Option, none,
  some, ltb, leb, ◌==◌, if◌then◌else◌, u32_mod, u64_mod,
}
use s_json.Base.Int.{ℤ}
use s_json.Error.{Result, ok, err, overflow, oom}
use s_json.Text.Str.{JsonStr}
use s_json.Arena.{Arena, arena_alloc}

-- An array has its items and its capacity; an object its pairs in the order of insertion, its
-- capacity, the sorted indices where they are built, and is_sorted. `len` is the count of the items.
mutual
  pub data JsonValue : Type 0 where
    null : JsonValue
    boolean : Bool → JsonValue
    integer : ℤ → JsonValue
    float : ℕ → JsonValue
    string : JsonStr → JsonValue
    array : Items → ℕ → JsonValue
    object : Pairs → ℕ → Option (List ℕ) → Bool → JsonValue

  pub data Items : Type 0 where
    no_items : Items
    item : JsonValue → Items → Items

  pub data Pairs : Type 0 where
    no_pairs : Pairs
    pair : JsonStr → JsonValue → Pairs → Pairs

unfoldable pub count_items : Items → ℕ
count_items no_items = 0
count_items (item v items) = suc (count_items items)

unfoldable pub count_pairs : Pairs → ℕ
count_pairs no_pairs = 0
count_pairs (pair k v pairs) = suc (count_pairs pairs)

-- `arr->items[arr->len++] = v`
unfoldable pub append_item : Items → JsonValue → Items
append_item no_items v = item v no_items
append_item (item w items) v = item w (append_item items v)

-- The key and the value of `obj->pairs[obj->len]`, and `obj->len++`.
unfoldable pub append_pair : Pairs → JsonStr → JsonValue → Pairs
append_pair no_pairs k v = pair k v no_pairs
append_pair (pair l w pairs) k v = pair l w (append_pair pairs k v)

abbrev pub max_array_len : ℕ
max_array_len = 1024 * 1024

-- sizeof(JsonValue*) and sizeof(JsonPair) on a 64-bit target.
abbrev pub sizeof_pointer : ℕ
sizeof_pointer = 8

abbrev pub sizeof_pair : ℕ
sizeof_pair = 24

-- The capacity that is asked for, in uint32_t.
unfoldable pub doubled : ℕ → ℕ
doubled cap = if cap == 0 then 8 else cap * 2 % u32_mod

unfoldable pub capped : ℕ → ℕ
capped new_cap = if ltb max_array_len new_cap then max_array_len else new_cap

-- What json__arr_grow and json__obj_grow share: the guards and the allocation, for entries of `size`
-- bytes. The result is the new capacity.
unfoldable pub grow : ℕ → Arena → ℕ → Result ℕ × Arena
unfolding doubled capped
grow size arena cap =
    let new_cap = capped (doubled cap) in
    let bytes = new_cap * size % u64_mod in
    let (region, a) = arena_alloc arena bytes in
    if ltb (doubled cap) cap || leb max_array_len cap || not (bytes / size == new_cap)
    then (err overflow, arena)
    else elim region [ none ↦ (err oom, a) | some _ ↦ (ok new_cap, a) ]

-- json__arr_grow
unfoldable pub arr_grow : Arena → ℕ → Result ℕ × Arena
unfolding grow
arr_grow arena cap = grow sizeof_pointer arena cap

-- json__obj_grow, which also drops the sorted indices: its callers store them as none and false.
unfoldable pub obj_grow : Arena → ℕ → Result ℕ × Arena
unfolding grow
obj_grow arena cap = grow sizeof_pair arena cap

-- The pair at an index.
unfoldable pub nth_pair : ℕ → Pairs → Option (JsonStr × JsonValue)
nth_pair i no_pairs = none
nth_pair zero (pair k v pairs) = some (k, v)
nth_pair (suc i) (pair k v pairs) = nth_pair i pairs

-- The result of JSON_MEMCMP.
pub data Compared : Type 0 where
  before same after : Compared

-- JSON_MEMCMP on `n` bytes; the callers give no more than both sides have.
unfoldable pub memcmp : ℕ → Bytes → Bytes → Compared
memcmp zero a b = same
memcmp (suc n) [] b = same
memcmp (suc n) (x ∷ a) [] = same
memcmp (suc n) (x ∷ a) (y ∷ b) =
    let rest = memcmp n a b in if ltb x y then before else if ltb y x then after else rest

abbrev pub is_same : Compared → Bool
is_same before = false
is_same same = true
is_same after = false
