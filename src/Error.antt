-- ===== src/Error.antt =====
-- JsonError and json_error_str of src/sJson.c.
use s_json.Base.{◌≡◌, refl, Bytes, codes}

pub data JsonError : Type 0 where
  json_ok null_param oom invalid_json unexpected_eof depth_exceeded invalid_string : JsonError
  invalid_number invalid_utf8 overflow not_found type_mismatch buffer_too_small : JsonError
  node_limit : JsonError

-- A call that returns JSON_OK and its output parameter, or an error.
pub data Result {u} (Out : Type u) : Type u where
  err : JsonError → Result Out
  ok : Out → Result Out

infixl 5 ◌>>=◌
abbrev pub ◌>>=◌ {u v} : {In : Type u} {Out : Type v} → Result In → (In → Result Out) → Result Out
err status >>= next = err status
ok value >>= next = next value

pub >>=-eq-ok {u v} :
    {In : Type u} {Out : Type v} (first : Result In) (next : In → Result Out) {out : Out}
    → (first >>= next) ≡ ok out
    → (value : In) × (first ≡ ok value) × (next value ≡ ok out)
>>=-eq-ok (ok value) next h = (value, refl, h)
>>=-eq-ok (err status) next h = cc

json_error_str : JsonError → Bytes
json_error_str json_ok = codes "OK"
json_error_str null_param = codes "NULL parameter"
json_error_str oom = codes "Out of memory"
json_error_str invalid_json = codes "Invalid JSON"
json_error_str unexpected_eof = codes "Unexpected end of input"
json_error_str depth_exceeded = codes "Nesting depth exceeded"
json_error_str invalid_string = codes "Invalid string / escape sequence"
json_error_str invalid_number = codes "Invalid number"
json_error_str invalid_utf8 = codes "Invalid UTF-8 sequence"
json_error_str overflow = codes "Arithmetic or buffer overflow"
json_error_str not_found = codes "Key or index not found"
json_error_str type_mismatch = codes "Type mismatch"
json_error_str buffer_too_small = codes "Output buffer too small"
json_error_str node_limit = codes "Node count limit exceeded"
