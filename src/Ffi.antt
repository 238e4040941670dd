-- ===== src/Ffi.antt =====
-- The C interface of src/bindings/ffi/sjson_ffi.c: a document is a parsed value with its arena.
pub mod Opens
use s_json.Base.{ℕ, Bool, true, false, not, Option, none, some, Bytes, if◌then◌else◌, codes}
use s_json.Base.Int.{ℤ}
use s_json.Error.{JsonError, json_ok, null_param, oom, Result, ok, err}
use s_json.Arena.{JsonAllocator, Arena, json_arena_create}
use s_json.Text.Str.{JsonStr}
use s_json.Number.{Fpu}
use s_json.Value.{
  JsonValue, null, boolean, integer, float, string, array, object, count_items, count_pairs,
}
use s_json.Parser.Run.{Parsed, returned, undefined, json_parse}
use s_json.Access.{
  json_obj_get_n, json_arr_get, json_get_bool, json_get_int, json_get_string, json_obj_iter,
}
use s_json.Access.Kinds.{type_of, code_of, json_get_number}
use s_json.Writer.Calls.{Output, json_write}

pub record SJsonDocument : Type 0 where
  pub arena : Arena
  pub root : JsonValue

-- What sjson_document_parse ends with: a document; or NULL, with the status in `*error` and the arena that
-- it destroyed; or an access that C does not define.
pub data Opened : Type 0 where
  opened : SJsonDocument → Opened
  closed : JsonError → Option Arena → Opened
  undefined_access : Opened

-- The outcome of json_parse in the document, whose arena was this one before.
unfoldable pub in_document : Arena → Parsed → Opened
in_document before (returned (ok root) (some arena)) =
    opened (record { arena = arena; root = root })
in_document before (returned (ok root) none) = opened (record { arena = before; root = root })
in_document before (returned (err e) arena) = closed e arena
in_document before undefined = undefined_access

abbrev pub parsed_in : Fpu → Bytes → ℕ → Option Arena → Opened
parsed_in fpu bytes length none = closed oom none
parsed_in fpu bytes length (some arena) =
    in_document arena (json_parse fpu (some arena) (some bytes) length)

-- sjson_document_parse; `has_doc` says whether calloc grants the document.
unfoldable pub sjson_document_parse : Fpu → JsonAllocator → Bool → Option Bytes → ℕ → Opened
unfolding in_document json_parse json_arena_create
sjson_document_parse fpu libc has_doc none length = closed null_param none
sjson_document_parse fpu libc has_doc (some bytes) length =
    if has_doc
    then parsed_in fpu bytes length (json_arena_create libc none 4096)
    else closed oom none

-- sjson_document_free: the arena that is destroyed.
unfoldable pub sjson_document_free : Option SJsonDocument → Option Arena
sjson_document_free none = none
sjson_document_free (some doc) = some doc.arena

unfoldable pub sjson_document_root : Option SJsonDocument → Option JsonValue
sjson_document_root none = none
sjson_document_root (some doc) = some doc.root

-- `status == JSON_OK ? result : NULL`
abbrev pub or_null {ℓ} : {A : Type ℓ} → Result A → Option A
or_null (err e) = none
or_null (ok x) = some x

-- sjson_value_member: the outer `none` is an access out of range in the binary search.
unfoldable pub sjson_value_member : Option JsonValue → Option Bytes → ℕ → Option (Option JsonValue)
unfolding json_obj_get_n
sjson_value_member v key length = elim (json_obj_get_n v key length true) [
  | none ↦ none
  | some r ↦ some (or_null r)
]

unfoldable pub sjson_value_at : Option JsonValue → ℕ → Option JsonValue
unfolding json_arr_get
sjson_value_at v index = or_null (json_arr_get v index true)

-- sjson_value_kind: `none` is -1.
unfoldable pub sjson_value_kind : Option JsonValue → Option ℕ
sjson_value_kind none = none
sjson_value_kind (some v) = some (code_of (type_of v))

unfoldable pub sjson_value_size : Option JsonValue → ℕ
unfolding count_items count_pairs
sjson_value_size (some (array items cap)) = count_items items
sjson_value_size (some (object pairs cap idx is_sorted)) = count_pairs pairs
sjson_value_size (some (string s)) = s.len
sjson_value_size _ = 0

unfoldable pub sjson_value_bool : Option JsonValue → Bool → Result Bool
unfolding json_get_bool
sjson_value_bool v has_out = if has_out then json_get_bool v true else err null_param

unfoldable pub sjson_value_int : Fpu → Option JsonValue → Bool → Result ℤ
unfolding json_get_int
sjson_value_int fpu v has_out = json_get_int fpu v has_out

unfoldable pub sjson_value_number : Fpu → Option JsonValue → Bool → Result ℕ
unfolding json_get_number
sjson_value_number fpu v has_out = json_get_number fpu v has_out

unfoldable pub sjson_value_string : Option JsonValue → Bool → Bool → Result (Bytes × ℕ)
unfolding json_get_string
sjson_value_string v has_out has_length =
    if has_length then json_get_string v has_out else err null_param

unfoldable pub sjson_value_entry : Option JsonValue → ℕ → Bool → Result (JsonStr × JsonValue)
unfolding json_obj_iter
sjson_value_entry v index has_outs = if has_outs then json_obj_iter v index else err null_param

unfoldable pub sjson_value_write : Fpu → JsonAllocator → Option JsonValue → Bool → ℕ → Output
unfolding json_write
sjson_value_write fpu libc v has_output capacity = json_write fpu libc v has_output capacity none
