-- ===== src/Writer.antt =====
-- JsonWriter and its primitives: jw_put, jw_puts, jw_indent, jw_int64, jw_double, jw_u16 and
-- jw_string_content.
pub mod Decimal
pub mod Integer
pub mod Value
pub mod Calls
pub mod Render
pub mod Puts
pub mod PutsString
pub mod PutsValue
pub mod Refines
pub mod Within
pub mod WithinValue
pub mod Bounded
pub mod Tight
pub mod TightPuts
pub mod TightString
pub mod TightEntries
pub mod TightValue
pub mod Refuses
use s_json.Base.{
  ℕ, zero, suc, ◌+◌, ◌-◌, ◌*◌, ◌/◌, ◌%◌, Bool, true, false, not, ◌&&◌, ◌||◌, List, [], ◌∷◌, ◌++◌,
  Option, none, some, Bytes, ltb, leb, within, ◌==◌, if◌then◌else◌, length, take, drop, replicate,
  u64_mod, u32_mod, size_max, codes,
}
use s_json.Base.Int.{ℤ, pos, negsuc}
use s_json.Error.{JsonError, json_ok, overflow, buffer_too_small, invalid_number, Result, ok, err}
use s_json.Text.Utf8.{utf8_decode}
use s_json.Arena.{Arena}
use s_json.Number.{Fpu, is_special}

-- `buf` is what stands in the buffer before position `used`; a measuring writer has no buffer. `err` is
-- json_ok until something fails.
pub record JsonWriter : Type 0 where
  pub buf : Bytes
  pub cap : ℕ
  pub used : ℕ
  pub measure_only : Bool
  pub err : JsonError
  pub sort_arena : Option Arena

abbrev pub Written : Type 0
Written = JsonWriter × JsonError

abbrev pub failed : JsonWriter → JsonError → Written
failed w e = (record w { err = e }, e)

unfoldable pub jw_put : JsonWriter → ℕ → Written
jw_put w c =
    if w.used == size_max
    then failed w overflow
    else if w.measure_only
    then (record w { used = w.used + 1 }, json_ok)
    else if w.cap == 0 || leb (w.cap - 1) w.used
    then failed w buffer_too_small
    else (record w { buf = w.buf ++ (c ∷ []); used = w.used + 1 }, json_ok)

-- `if (status != JSON_OK) { return status; }` and the rest.
infixl 5 ◌then_write◌
abbrev pub ◌then_write◌ : Written → (JsonWriter → Written) → Written
(w, e) then_write next = elim e [ json_ok ↦ next w | other ↦ (w, other) ]

-- The same with buffer_too_small for the status.
infixl 5 ◌or_too_small◌
abbrev pub ◌or_too_small◌ : Written → (JsonWriter → Written) → Written
(w, e) or_too_small next = elim e [ json_ok ↦ next w | other ↦ (w, buffer_too_small) ]

-- The loop of jw_puts.
unfoldable pub put_all : JsonWriter → Bytes → Written
put_all w [] = (w, json_ok)
put_all w (c ∷ bytes) = jw_put w c or_too_small λ w'. put_all w' bytes

unfoldable pub jw_puts : JsonWriter → Bytes → Written
jw_puts w bytes =
    if ltb (size_max - w.used) (length bytes)
    then failed w overflow
    else if w.measure_only
    then (record w { used = w.used + length bytes }, json_ok)
    else put_all w bytes

-- The count of blanks, in `size_t`; two 32-bit factors do not overflow it.
unfoldable pub jw_indent : JsonWriter → ℕ → ℕ → Written
jw_indent w depth indent_sz =
    let count = depth * indent_sz % u64_mod in
    if (not (depth == 0) && not (count / depth == indent_sz)) || ltb (size_max - w.used) count
    then failed w overflow
    else if w.measure_only
    then (record w { used = w.used + count }, json_ok)
    else if w.cap == 0 || leb w.cap w.used || leb (w.cap - w.used) count
    then failed w buffer_too_small
    else (record w { buf = w.buf ++ replicate count b' '; used = w.used + count }, json_ok)

-- The loop that divides by ten: the digits from the last to the first. Each round at least halves the
-- value, so 64 rounds are fuel enough for a 64-bit value.
unfoldable pub tmp_digits : ℕ → ℕ → Bytes
tmp_digits zero v = []
tmp_digits (suc fuel) v =
    let more = (b'0' + v % 10) ∷ tmp_digits fuel (v / 10) in if v == 0 then [] else more

-- The loop that writes `tmp` in reverse: from index `len - 1 - i`.
unfoldable pub reverse_onto : Bytes → Bytes → Bytes
reverse_onto [] out = out
reverse_onto (c ∷ tmp) out = reverse_onto tmp (c ∷ out)

-- The loop that puts each digit.
unfoldable pub put_digits : JsonWriter → Bytes → Written
put_digits w digits = put_all w digits

unfoldable pub put_abs : JsonWriter → ℕ → Written
put_abs w abs_v =
    if abs_v == 0 then jw_put w b'0' else put_digits w (reverse_onto (tmp_digits 64 abs_v) [])

unfoldable pub jw_int64 : JsonWriter → ℤ → Written
jw_int64 w (pos n) = put_abs w n
jw_int64 w (negsuc n) = jw_put w b'-' or_too_small λ w'. put_abs w' (suc n)

-- Whether the text has a point or an exponent.
unfoldable pub has_dot : Bytes → Bool
has_dot [] = false
has_dot (c ∷ rest) = c == b'.' || c == b'e' || c == b'E' || has_dot rest

-- snprintf with "%.17g" into 32 bytes: `none` is a negative result.
abbrev pub print_double : Option Bytes → JsonWriter → Written
print_double none w = (w, overflow)
print_double (some text) w =
    if leb 32 (length text)
    then (w, overflow)
    else if not (has_dot text) && ltb (length text + 2) 32
    then jw_puts w (text ++ (b'.' ∷ b'0' ∷ []))
    else jw_puts w text

unfoldable pub jw_double : Fpu → JsonWriter → ℕ → Written
unfolding has_dot jw_puts
jw_double fpu w v = if is_special v then (w, invalid_number) else print_double (fpu.print_17g v) w

-- `hex[n]`
unfoldable pub hex_digit : ℕ → ℕ
hex_digit n = if ltb n 10 then b'0' + n else b'a' + (n - 10)

unfoldable pub u16_escape : ℕ → Bytes
unfolding hex_digit
u16_escape code =
    b'\\'
    ∷ b'u'
    ∷ hex_digit (code / 4096 % 16)
    ∷ hex_digit (code / 256 % 16)
    ∷ hex_digit (code / 16 % 16)
    ∷ hex_digit (code % 16)
    ∷ []

abbrev pub jw_u16 : JsonWriter → ℕ → Written
jw_u16 w code = jw_puts w (u16_escape code)

-- The escape of one byte below 0x80 that needs one.
unfoldable pub byte_escape : ℕ → Bytes
unfolding hex_digit
byte_escape c =
    if c == b'"'
    then b'\\' ∷ b'"' ∷ []
    else if c == b'\\'
    then b'\\' ∷ b'\\' ∷ []
    else if c == 10
    then b'\\' ∷ b'n' ∷ []
    else if c == 13
    then b'\\' ∷ b'r' ∷ []
    else if c == 9
    then b'\\' ∷ b't' ∷ []
    else if c == 8
    then b'\\' ∷ b'b' ∷ []
    else if c == 12
    then b'\\' ∷ b'f' ∷ []
    else b'\\' ∷ b'u' ∷ b'0' ∷ b'0' ∷ hex_digit (c / 16 % 16) ∷ hex_digit (c % 16) ∷ []

-- A decoded character of several bytes, as it stands or as one or two escapes.
unfoldable pub put_char : Bool → JsonWriter → Bytes → ℕ → Written
unfolding u16_escape
put_char ascii_only w bytes code =
    if not ascii_only
    then jw_puts w bytes
    else if leb code 0xFFFF
    then jw_u16 w code
    else jw_u16 w (0xD800 + (code - 0x10000) / 1024) then_write λ w'.
        jw_u16 w' (0xDC00 + (code - 0x10000) % 1024)

-- A byte below 0x80; the status is not looked at.
unfoldable pub put_byte : JsonWriter → ℕ → JsonWriter
unfolding byte_escape
put_byte w c =
    if ltb c 0x20 || c == b'"' || c == b'\\' then (jw_puts w (byte_escape c)).0 else (jw_put w c).0

-- The loop of jw_string_content: each round takes a byte at least, so the length is fuel enough.
unfoldable pub string_content : ℕ → JsonWriter → Bytes → Bool → Written
unfolding put_char put_byte
string_content fuel w [] ascii_only = (w, w.err)
string_content zero w (c ∷ rest) ascii_only = (w, w.err)
string_content (suc fuel) w (c ∷ rest) ascii_only =
    let high : Written = elim (utf8_decode (c ∷ rest)) [
      | err status ↦ failed w status
      | ok (code, count) ↦ put_char ascii_only w (take count (c ∷ rest)) code then_write λ w'.
          string_content fuel w' (drop count (c ∷ rest)) ascii_only
    ] in
    let low = string_content fuel (put_byte w c) rest ascii_only in if leb 0x80 c then high else low

unfoldable pub jw_string_content : JsonWriter → Bytes → Bool → Written
unfolding string_content
jw_string_content w bytes ascii_only = string_content (length bytes) w bytes ascii_only
