-- ===== src/Path.antt =====
-- json_path. A position in the path is the list of the bytes from there up to the NUL.
pub mod Segments
use s_json.Base.{
  ℕ, zero, suc, ◌+◌, ◌-◌, ◌*◌, ◌/◌, Bool, true, false, not, ◌&&◌, ◌||◌, List, [], ◌∷◌, Option, none,
  some, Bytes, ltb, leb, within, ◌==◌, if◌then◌else◌, length, u32_mod,
}
use s_json.Error.{JsonError, null_param, invalid_json, overflow, Result, ok, err}
use s_json.Value.{JsonValue}
use s_json.Access.{json_obj_get_n, json_arr_get}
use s_json.Parser.Run.{before_nul}

-- What one round looks up.
pub data Segment : Type 0 where
  by_key : Bytes → Segment
  by_index : ℕ → Segment

-- A segment, and what follows it.
abbrev pub Read : Type 0
Read = Result (Segment × Bytes)

-- The bytes before the first that stops the loop, and those from it on.
unfoldable pub span : (ℕ → Bool) → Bytes → Bytes × Bytes
span stops [] = ([], [])
span stops (c ∷ rest) =
    let (before, from) = span stops rest in if stops c then ([], c ∷ rest) else (c ∷ before, from)

-- `if (*p != ']')` and what follows it.
abbrev closing : Segment → Bytes → Read
closing segment [] = err invalid_json
closing segment (c ∷ rest) = if c == b']' then ok (segment, rest) else err invalid_json

-- After the opening quote; `from` starts with the closing one.
abbrev quoted_to : Bytes → Bytes → Read
quoted_to key [] = err invalid_json
quoted_to key (_ ∷ from) = closing (by_key key) from

unfoldable pub quoted_key : Bytes → Read
unfolding span
quoted_key p = let (key, from) = span (λ c. c == b'"') p in quoted_to key from

-- The loop over the digits of an index, in uint32_t.
unfoldable pub index_digits : ℕ → Bytes → Result (ℕ × Bytes)
index_digits idx [] = ok (idx, [])
index_digits idx (c ∷ rest) =
    let digit = c - b'0' in
    let more = index_digits (idx * 10 + digit) rest in
    if within b'0' b'9' c
    then (if ltb ((u32_mod - 1 - digit) / 10) idx then err overflow else more)
    else ok (idx, c ∷ rest)

abbrev pub indexed : Result (ℕ × Bytes) → Read
indexed (err e) = err e
indexed (ok (idx, from)) = closing (by_index idx) from

-- After the opening bracket.
unfoldable pub bracket : Bytes → Read
unfolding quoted_key index_digits
bracket [] = err invalid_json
bracket (c ∷ rest) =
    let index = indexed (index_digits 0 (c ∷ rest)) in
    if c == b'"' then quoted_key rest else if within b'0' b'9' c then index else err invalid_json

abbrev pub starts_name : ℕ → Bool
starts_name c = within b'a' b'z' c || within b'A' b'Z' c || c == b'_' || leb 0x80 c

-- sizeof(key_buf)
abbrev pub key_buf_size : ℕ
key_buf_size = 512

-- A key in dot notation.
unfoldable pub name : Bytes → Read
unfolding span
name p =
    let (key, from) = span (λ c. c == b'.' || c == b'[') p in
    if leb key_buf_size (length key) then err overflow else ok (by_key key, from)

-- A segment, behind the dot that may stand before it.
unfoldable pub segment : Bytes → Read
unfolding bracket name
segment [] = err invalid_json
segment (c ∷ rest) =
    if c == b'[' then bracket rest else if starts_name c then name (c ∷ rest) else err invalid_json

abbrev pub after_dot : Bytes → Bytes
after_dot [] = []
after_dot (c ∷ rest) = if c == b'.' then rest else c ∷ rest

-- The lookup of a round: `none` is an access out of range in the binary search for a key.
unfoldable pub follow : JsonValue → Segment → Option (Result JsonValue)
unfolding json_obj_get_n json_arr_get
follow cur (by_key key) = json_obj_get_n (some cur) (some key) (length key) true
follow cur (by_index idx) = some (json_arr_get (some cur) idx true)

abbrev pub and_on :
    Option (Result JsonValue) → (JsonValue → Option (Result JsonValue)) → Option (Result JsonValue)
and_on none next = none
and_on (some (err e)) next = some (err e)
and_on (some (ok v)) next = next v

-- `goto fail` where the segment is bad.
abbrev pub resume : Read → (Segment → Bytes → Option (Result JsonValue)) → Option (Result JsonValue)
resume (err e) next = some (err e)
resume (ok (seg, rest)) next = next seg rest

-- The loop: a round takes a byte at least, so the length is fuel enough.
unfoldable pub walk : ℕ → JsonValue → Bytes → Option (Result JsonValue)
unfolding segment follow
walk fuel cur [] = some (ok cur)
walk zero cur (c ∷ p) = none
walk (suc fuel) cur (c ∷ p) =
    resume (segment (after_dot (c ∷ p))) λ seg rest. and_on (follow cur seg) λ v. walk fuel v rest

-- json_path
unfoldable pub json_path : Option JsonValue → Option Bytes → Option (Result JsonValue)
unfolding walk before_nul
json_path none path = some (err null_param)
json_path (some root) none = some (err null_param)
json_path (some root) (some path) = walk (length (before_nul path)) root (before_nul path)
