-- ===== src/Text/Str.antt =====
-- JsonStr and json__parse_string. A position in the input is the list of the bytes from there on; the
-- copy of the error in the lexer is not kept, since nothing reads it.
pub mod Loop
pub mod Shorter
pub mod Escape
pub mod Unit
pub mod Passes
pub mod Sound
use s_json.Base.{
  ℕ, zero, suc, ◌+◌, ◌-◌, ◌*◌, ◌%◌, Bool, true, false, not, ◌||◌, List, [], ◌∷◌, ◌++◌, Option, none,
  some, Bytes, ltb, leb, within, ◌==◌, if◌then◌else◌, length, take, drop, u32_mod, ◌≡◌, refl, codes,
}
use s_json.Error.{
  Result, ok, err, ◌>>=◌, unexpected_eof, invalid_string, invalid_utf8, overflow, oom,
}
use s_json.Text.Hex.{parse_hex4}
use s_json.Text.Utf8.{utf8_decode, encode_utf8}
use s_json.Text.Hash.{fnv_offset, fnv_step, fnv_from, json_fnv1a, fnv1a}
use s_json.Arena.{Arena, Region, arena_alloc}

-- `text` is what `data` points to; the pointer is null where there are no bytes.
pub record JsonStr : Type 0 where
  pub text : Bytes
  pub len : ℕ
  pub hash : ℕ

abbrev pub max_string_len : ℕ
max_string_len = 1024 * 1024

abbrev pub quote : ℕ
quote = b'"'

abbrev pub backslash : ℕ
backslash = b'\\'

-- The first pass: the variables of the loop besides the position.
pub record Scan : Type 0 where
  pub out_len : ℕ
  pub has_escape : Bool
  pub raw_hash : ℕ

-- The eight escapes of one letter, by the byte that each stands for.
unfoldable pub simple_escape : ℕ → Option ℕ
simple_escape e =
    if e == b'"' || e == b'\\' || e == b'/'
    then some e
    else if e == b'b'
    then some 8
    else if e == b'f'
    then some 12
    else if e == b'n'
    then some 10
    else if e == b'r'
    then some 13
    else if e == b't'
    then some 9
    else none

-- The second half of a surrogate pair: four bytes of output, and what follows.
unfoldable pub scan_low : Bytes → Result (ℕ × Bytes)
scan_low (b ∷ u ∷ rest) =
    if not (b == backslash) || not (u == b'u') then err invalid_string else elim (parse_hex4 rest) [
      | none ↦ err invalid_string
      | some lo ↦ if ltb lo 0xDC00 || ltb 0xDFFF lo then err invalid_string else ok (4, drop 4 rest)
    ]
scan_low _ = err invalid_string

unfoldable pub scan_code : ℕ → Bytes → Result (ℕ × Bytes)
unfolding scan_low
scan_code hi rest =
    if within 0xD800 0xDBFF hi
    then scan_low rest
    else if within 0xDC00 0xDFFF hi
    then err invalid_string
    else ok (if ltb hi 0x80 then 1 else if ltb hi 0x800 then 2 else 3, rest)

unfoldable pub scan_unicode : Bytes → Result (ℕ × Bytes)
unfolding scan_code
scan_unicode rest = elim (parse_hex4 rest) [
  | none ↦ err invalid_string
  | some hi ↦ scan_code hi (drop 4 rest)
]

-- Behind a backslash.
unfoldable pub scan_escape : Bytes → Result (ℕ × Bytes)
unfolding scan_unicode
scan_escape [] = err unexpected_eof
scan_escape (e ∷ rest) = elim (simple_escape e) [
  | some _ ↦ ok (1, rest)
  | none ↦ if e == b'u' then scan_unicode rest else err invalid_string
]

abbrev count_escape : Scan → ℕ × Bytes → Result (Scan × Bytes)
count_escape s (n, rest) = ok (record s { out_len = s.out_len + n; has_escape = true }, rest)

-- A character of several bytes.
unfoldable pub scan_multi : Scan → Bytes → Result (ℕ × ℕ) → Result (Scan × Bytes)
scan_multi s bytes (err _) = err invalid_utf8
scan_multi s bytes (ok (code, count)) = ok (
  record s { out_len = s.out_len + count; raw_hash = fnv_from s.raw_hash (take count bytes) },
  drop count bytes,
)

-- One round of the first loop, at a byte that is not the closing quote.
unfoldable pub scan_unit : Scan → ℕ → Bytes → Result (Scan × Bytes)
unfolding scan_escape scan_multi
scan_unit s c rest =
    if c == backslash
    then (scan_escape rest >>= count_escape s)
    else if ltb c 0x20
    then err invalid_string
    else if leb 0x80 c
    then scan_multi s (c ∷ rest) (utf8_decode (c ∷ rest))
    else ok (record s { out_len = s.out_len + 1; raw_hash = fnv_step s.raw_hash c }, rest)

-- The first loop, up to the closing quote. Each round takes a byte at least, so the length of the
-- input is fuel enough.
unfoldable pub scan : ℕ → Scan → Bytes → Result (Scan × Bytes)
scan fuel s [] = err unexpected_eof
scan zero s (c ∷ rest) = err unexpected_eof
scan (suc fuel) s (c ∷ rest) =
    let more = scan_unit s c rest >>= λ (s', rest'). scan fuel s' rest' in
    if c == quote then ok (s, c ∷ rest) else more

-- The second pass reads the digits again; a failure would leave the variable unset.
unfoldable pub hex4_again : Bytes → ℕ
hex4_again rest = elim (parse_hex4 rest) [ none ↦ 0 | some v ↦ v ]

unfoldable pub write_code : Bytes → ℕ → ℕ → Bytes × Bytes
write_code rest hi lo =
    if within 0xD800 0xDBFF hi
    then (
      encode_utf8 (0x10000 + (hi - 0xD800) * 1024 + (lo - 0xDC00)),
      drop 4 (drop 2 (drop 4 rest)),
    )
    else (encode_utf8 hi, drop 4 rest)

-- The low half is read behind the six bytes of the high half and the two of its own escape.
unfoldable pub write_unicode : Bytes → Bytes × Bytes
unfolding write_code hex4_again
write_unicode rest = write_code rest (hex4_again rest) (hex4_again (drop 2 (drop 4 rest)))

unfoldable pub write_escape : Bytes → Bytes × Bytes
unfolding write_unicode
write_escape [] = ([], [])
write_escape (e ∷ rest) = elim (simple_escape e) [
  | some v ↦ (v ∷ [], rest)
  | none ↦ if e == b'u' then write_unicode rest else ([], rest)
]

-- One round of the second loop: the bytes that it writes, and what follows.
unfoldable pub write_unit : ℕ → Bytes → Bytes × Bytes
unfolding write_escape
write_unit c rest = if c == backslash then write_escape rest else (c ∷ [], rest)

unfoldable pub write_loop : ℕ → Bytes → Bytes × Bytes
write_loop fuel [] = ([], [])
write_loop zero (c ∷ rest) = ([], c ∷ rest)
write_loop (suc fuel) (c ∷ rest) =
    let (written, rest') = write_unit c rest in
    let (more, end) = write_loop fuel rest' in
    if c == quote then ([], c ∷ rest) else (written ++ more, end)

-- The second pass, into a buffer of `out_len` bytes.
unfoldable pub copy_out : Scan → Bytes → Bytes × Bytes
copy_out s start =
    if not s.has_escape
    then (take s.out_len start, drop s.out_len start)
    else write_loop (length start) start

-- The hash of the buffer, whose pointer is null where it has no bytes; or the one made on the way.
unfoldable pub final_hash : Scan → Bytes → ℕ
final_hash s text =
    if s.has_escape
    then json_fnv1a (if s.out_len == 0 then none else some text) s.out_len
    else s.raw_hash

-- The last test, the closing quote, and the string.
unfoldable pub close_string : Scan → Bytes × Bytes → Result (JsonStr × Bytes)
close_string s (text, []) = err unexpected_eof
close_string s (text, q ∷ rest) =
    ok (record { text = text; len = s.out_len % u32_mod; hash = final_hash s text }, rest)

-- From the first pass on: the length test, the allocation and the second pass.
unfoldable pub build_string : Arena → Bytes → Scan → Result (JsonStr × Bytes) × Arena
build_string arena start s =
    let (region, a) = arena_alloc arena s.out_len in
    if ltb max_string_len s.out_len
    then (err overflow, arena)
    else if s.out_len == 0
    then (close_string s (copy_out s start), arena)
    else elim region [ none ↦ (err oom, a) | some _ ↦ (close_string s (copy_out s start), a) ]

abbrev pub scan_start : Scan
scan_start = record { out_len = 0; has_escape = false; raw_hash = fnv_offset }

unfoldable pub after_scan : Arena → Bytes → Result (Scan × Bytes) → Result (JsonStr × Bytes) × Arena
after_scan arena start (err e) = (err e, arena)
after_scan arena start (ok (s, _)) = build_string arena start s

-- json__parse_string, behind the opening quote: the string, what follows its closing quote, and the
-- arena after.
unfoldable pub parse_string : Arena → Bytes → Result (JsonStr × Bytes) × Arena
unfolding after_scan
parse_string arena start = after_scan arena start (scan (length start) scan_start start)
