-- ===== src/Compat.antt =====
-- The items of src/compat/cjson/sjson_cjson_compat.h: the items of one parsed text share an owner, which
-- counts them and holds the arena.
pub mod Calls
pub mod Owned
pub mod Prints
use s_json.Base.{
  ℕ, zero, suc, ◌+◌, ◌-◌, ◌*◌, ◌/◌, ◌%◌, Bool, true, false, not, ◌&&◌, List, [], ◌∷◌, ◌++◌, Option,
  none, some, Bytes, ltb, ◌==◌, if◌then◌else◌, length, get_elem?, set, size_max, u64_mod,
}
use s_json.Base.Int.{ℤ, pos, negsuc}
use s_json.Error.{JsonError, json_ok, Result, ok, err}
use s_json.Arena.{JsonAllocator, Arena, arena_alloc, json_arena_create}
use s_json.Number.{Fpu}
use s_json.Value.{JsonValue, null, boolean, integer, float, string, array, object}
use s_json.Parser.Run.{Parsed, returned, undefined, json_parse, before_nul}
use s_json.Access.{json_arr_get, json_obj_get, json_get_string}

-- sjson_cjson_owner
pub record Owner : Type 0 where
  pub arena : Arena
  pub references : ℕ

pub record CJson : Type 0 where
  pub value : Option JsonValue
  pub owns_arena : Bool
  pub kind : ℕ
  pub valueint : ℤ
  pub valuedouble : ℕ
  pub valuestring : Option Bytes

-- What one parsed text has in memory: its owner, `none` once the arena is destroyed and the owner freed,
-- and the items that are not deleted. An item is named by its index.
pub record Heap : Type 0 where
  pub owner : Option Owner
  pub items : List CJson

-- INT_MAX or INT_MIN where the value lies beyond.
unfoldable pub clamp_int : ℤ → ℤ
clamp_int (pos n) = if ltb 2147483647 n then pos 2147483647 else pos n
clamp_int (negsuc n) = if ltb 2147483647 n then negsuc 2147483647 else negsuc n

-- 1.0 and 0.0
abbrev pub double_of : Bool → ℕ
double_of true = 0x3FF0000000000000
double_of false = 0

abbrev int_of : Bool → ℤ
int_of true = pos 1
int_of false = pos 0

abbrev blank_item : Option JsonValue → Bool → CJson
blank_item value owns_arena = record {
  value = value;
  owns_arena = owns_arena;
  kind = 0;
  valueint = pos 0;
  valuedouble = 0;
  valuestring = none;
}

-- The doubles INT_MAX and INT_MIN.
abbrev double_int_max : ℕ
double_int_max = 0x41DFFFFFFFC00000

abbrev double_int_min : ℕ
double_int_min = 0xC1E0000000000000

-- INT_MAX or INT_MIN where a double lies beyond, or else its integer part.
unfoldable pub clamp_double : Fpu → ℕ → ℤ
clamp_double fpu f =
    if fpu.le double_int_max f
    then pos 2147483647
    else if fpu.le f double_int_min
    then negsuc 2147483647
    else fpu.to_int64 f

-- The fields of an item.
unfoldable pub filled_item : Fpu → Option JsonValue → Bool → CJson
unfolding clamp_int clamp_double
filled_item fpu none owns = blank_item none owns
filled_item fpu (some null) owns = record (blank_item (some null) owns) { kind = 2 }
filled_item fpu (some (boolean b)) owns = record (blank_item (some (boolean b)) owns) {
  kind = if b then 1 else 0;
  valueint = int_of b;
  valuedouble = double_of b;
}
filled_item fpu (some (integer i)) owns = record (blank_item (some (integer i)) owns) {
  kind = 3;
  valueint = clamp_int i;
  valuedouble = fpu.of_int64 i;
}
filled_item fpu (some (float f)) owns = record (blank_item (some (float f)) owns) {
  kind = 3;
  valueint = clamp_double fpu f;
  valuedouble = f;
}
filled_item fpu (some (string s)) owns = record (blank_item (some (string s)) owns) { kind = 4 }
filled_item fpu (some (array items cap)) owns = record (blank_item (some (array items cap)) owns) {
  kind = 5;
}
filled_item fpu (some (object pairs cap idx is_sorted)) owns =
    record (blank_item (some (object pairs cap idx is_sorted)) owns) { kind = 6 }

-- The item that a call returns, `none` for NULL, and the memory after; outside, `none` is a use of memory
-- that is freed, or another access that C does not define.
abbrev pub Got : Type 0
Got = Option (Option CJson × Heap)

-- Whether malloc grants an item. Each item takes memory, so that fewer than 2^64 are there at a time.
abbrev pub granted : Bool → Heap → Bool
granted has_memory heap = has_memory && ltb (suc (length heap.items)) u64_mod

abbrev pub added : CJson → Heap → Option Owner → Got
added item heap none = none
added item heap (some o) = some (
  some item,
  record {
    owner = some (record o { references = (o.references + 1) % u64_mod });
    items = heap.items ++ (item ∷ []);
  },
)

-- sjson_cjson_wrap
unfoldable pub sjson_cjson_wrap : Fpu → Bool → Heap → Option JsonValue → Bool → Got
unfolding filled_item
sjson_cjson_wrap fpu has_memory heap value owns =
    if granted has_memory heap
    then added (filled_item fpu value owns) heap heap.owner
    else some (none, heap)

unfoldable pub remove : List CJson → ℕ → List CJson
remove [] i = []
remove (x ∷ items) zero = items
remove (x ∷ items) (suc i) = x ∷ remove items i

-- `references` counted down; at 0, the arena is destroyed and the owner freed.
abbrev pub counted_down : Owner → Option Owner
counted_down o =
    let left = (o.references + size_max) % u64_mod in
    if left == 0 then none else some (record o { references = left })

abbrev pub deleted : Heap → ℕ → Option CJson → Option Owner → Option Heap
deleted heap i (some item) (some o) =
    some (record { owner = counted_down o; items = remove heap.items i })
deleted heap i _ _ = none

-- cjson_delete; `none` for the item is NULL. An item that is not there, or an owner that is freed, is a
-- use of freed memory.
unfoldable pub cjson_delete : Heap → Option ℕ → Option Heap
unfolding remove
cjson_delete heap none = some heap
cjson_delete heap (some i) = deleted heap i (get_elem? heap.items i) heap.owner

-- The memory after the item of the root is there; NULL with the arena destroyed and the owner freed where
-- it is not.
abbrev pub kept_root : Got → Option (Option Heap)
kept_root none = none
kept_root (some (none, heap)) = some none
kept_root (some (some item, heap)) = some (some heap)

-- After json_parse: the owner, which counts no item yet, and the item of the root. `has_memory` is what
-- malloc grants, the owner and then the item.
abbrev pub rooted : Fpu → Bool × Bool → Parsed → Arena → Option (Option Heap)
rooted fpu has_memory undefined before = none
rooted fpu has_memory (returned (err e) arena) before = some none
rooted fpu has_memory (returned (ok root) arena) before =
    if has_memory.0
    then kept_root (
        sjson_cjson_wrap fpu has_memory.1
          (record {
            owner =
                some (record { arena = elim arena [ none ↦ before | some a ↦ a ]; references = 0 });
            items = [];
          })
          (some root) true)
    else some none

abbrev pub parsed_in : Fpu → Bool × Bool → Bytes → ℕ → Option Arena → Option (Option Heap)
parsed_in fpu has_memory value length none = some none
parsed_in fpu has_memory value length (some arena) =
    rooted fpu has_memory (json_parse fpu (some arena) (some value) length) arena

-- One byte less where the last is a NUL.
unfoldable pub without_nul : Bytes → ℕ → ℕ
without_nul value length = elim (get_elem? value (length - 1)) [
  | none ↦ length
  | some c ↦ if not (length == 0) && c == 0 then length - 1 else length
]

-- cjson_parse_with_length; `has_memory` is what malloc grants, the owner and then the item.
unfoldable pub cjson_parse_with_length :
    Fpu → JsonAllocator → Bool × Bool → Option Bytes → ℕ → Option (Option Heap)
unfolding without_nul json_parse json_arena_create sjson_cjson_wrap
cjson_parse_with_length fpu libc has_memory none buffer_length = some none
cjson_parse_with_length fpu libc has_memory (some value) buffer_length =
    let len = without_nul value buffer_length in
    if ltb ((size_max - 65536) / 3) len
    then some none
    else parsed_in fpu has_memory value len (json_arena_create libc none (len * 3 + 65536))

-- cjson_parse
unfoldable pub cjson_parse : Fpu → JsonAllocator → Bool × Bool → Option Bytes → Option (Option Heap)
unfolding cjson_parse_with_length before_nul
cjson_parse fpu libc has_memory none = some none
cjson_parse fpu libc has_memory (some value) =
    cjson_parse_with_length fpu libc has_memory (some (before_nul value))
      (length (before_nul value))
