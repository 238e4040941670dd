-- ===== src/Writer/PutsString.antt =====
-- What jw_string_content, jw_double and the pieces of json__write_value put.
use s_json.Base.{
  ℕ, zero, suc, ◌+◌, ◌-◌, ◌*◌, ◌/◌, ◌%◌, sym, ap₂, Bool, not, ◌&&◌, ◌||◌, [], ◌∷◌, ◌++◌, Bytes, ltb,
  leb, ◌==◌, if◌then◌else◌, Option, none, some, length, take, drop, replicate, ◌>>=?◌,
}
use s_json.Error.{JsonError, Result, ok, err}
use s_json.Text.Utf8.{utf8_decode}
use s_json.Text.Str.{JsonStr}
use s_json.Number.{Fpu, is_special}
use s_json.Writer.{
  JsonWriter, Written, failed, print_double, ◌then_write◌, jw_put, jw_puts, jw_indent, jw_double,
  jw_u16, u16_escape, byte_escape, put_char, put_byte, string_content, jw_string_content, has_dot,
}
use s_json.Writer.Integer.{emitted-nil}
use s_json.Writer.Value.{JsonWriteOpts, line_break, comma_if, put_key, put_string, close_bracket}
use s_json.Writer.Render.{
  char_text, byte_text, content_text, string_text, printed_double, double_text, break_text,
  comma_text, colon_text, close_text,
}
use s_json.Writer.Puts.{
  Puts, Leaves, Writes, Writes-bind, Puts-then, Leaves-then, Leaves-Puts, Puts-Leaves, Puts-on,
  Leaves-on, Writes-on, nothing-Leaves, jw_put-Puts, jw_puts-Puts, jw_indent-Puts,
}

put_char-Puts :
    (ascii_only : Bool) (bytes : Bytes) (code : ℕ)
    → Puts (λ w. put_char ascii_only w bytes code) (char_text ascii_only bytes code)
unfolding put_char
put_char-Puts ascii_only bytes code =
    let high = u16_escape (0xD800 + (code - 0x10000) / 1024) in
    let low = u16_escape (0xDC00 + (code - 0x10000) % 1024) in
    Puts-on (not ascii_only) (λ w. jw_puts w bytes) _ bytes _ (jw_puts-Puts bytes)
      (Puts-on (leb code 0xFFFF) (λ w. jw_u16 w code) _ (u16_escape code) _
        (jw_puts-Puts (u16_escape code))
        (Puts-then (λ w. jw_puts w high) (λ w. jw_puts w low) high low (jw_puts-Puts high)
          (jw_puts-Puts low)))

put_byte-Leaves : (c : ℕ) → Leaves (λ w. put_byte w c) (byte_text c)
unfolding put_byte
put_byte-Leaves c =
    Leaves-on (ltb c 0x20 || c == b'"' || c == b'\\') (λ w. (jw_puts w (byte_escape c)).0)
      (λ w. (jw_put w c).0) (byte_escape c) (c ∷ [])
      (Puts-Leaves (λ w. jw_puts w (byte_escape c)) (byte_escape c) (jw_puts-Puts (byte_escape c)))
      (Puts-Leaves (λ w. jw_put w c) (c ∷ []) (jw_put-Puts c))

pub ends_clean : Puts (λ w. (w, w.err)) []
ends_clean w room clean =
    ap₂ (λ (w' : JsonWriter) (e : JsonError). (w', e)) (sym (emitted-nil w)) clean

string_content-Writes :
    (fuel : ℕ) (ascii_only : Bool) (bytes : Bytes)
    → Writes (λ w. string_content fuel w bytes ascii_only) (content_text fuel ascii_only bytes)
unfolding string_content content_text
string_content-Writes zero ascii_only [] = ends_clean
string_content-Writes (suc fuel) ascii_only [] = ends_clean
string_content-Writes zero ascii_only (c ∷ rest) = tt
string_content-Writes (suc fuel) ascii_only (c ∷ rest) =
    Writes-on (leb 0x80 c) _ (λ w. string_content fuel (put_byte w c) rest ascii_only) _
      (content_text fuel ascii_only rest >>=? λ more. some (byte_text c ++ more))
      (char (utf8_decode (c ∷ rest)) (string_content-Writes fuel ascii_only))
      (Writes-bind _ (λ w. string_content fuel w rest ascii_only)
        (content_text fuel ascii_only rest) _ (string_content-Writes fuel ascii_only rest)
        λ more puts.
          Leaves-Puts (λ w. put_byte w c) (λ w. string_content fuel w rest ascii_only) (byte_text c)
            more (put_byte-Leaves c) puts)
  where
    char :
        (d : Result (ℕ × ℕ))
        → ((bytes : Bytes)
            → Writes
                (λ w. string_content fuel w bytes ascii_only)
                (content_text fuel ascii_only bytes))
        → Writes
            (λ w. elim d [
              | err status ↦ failed w status
              | ok (code, count) ↦
                  put_char ascii_only w (take count (c ∷ rest)) code then_write λ w'.
                  string_content fuel w' (drop count (c ∷ rest)) ascii_only
            ])
            (elim d [
              | err status ↦ none
              | ok (code, count) ↦ content_text fuel ascii_only (drop count (c ∷ rest)) >>=? λ more.
                  some (char_text ascii_only (take count (c ∷ rest)) code ++ more)
            ])
    char (err status) ih = tt
    char (ok (code, count)) ih =
        let here = take count (c ∷ rest) in
        let after = drop count (c ∷ rest) in
        Writes-bind _ (λ w. string_content fuel w after ascii_only)
          (content_text fuel ascii_only after) _ (ih after)
          λ more puts.
            Puts-then (λ w. put_char ascii_only w here code)
              (λ w. string_content fuel w after ascii_only) (char_text ascii_only here code) more
              (put_char-Puts ascii_only here code) puts

pub put_string-Writes :
    (opts : JsonWriteOpts) (s : JsonStr)
    → Writes (λ w. put_string opts s w) (string_text opts.ascii_only s.text)
unfolding put_string jw_string_content
put_string-Writes opts s =
    let content : JsonWriter → Written =
      λ w. string_content (length s.text) w s.text opts.ascii_only in
    Writes-bind _ content (content_text (length s.text) opts.ascii_only s.text) _
      (string_content-Writes (length s.text) opts.ascii_only s.text)
      λ text puts.
        Puts-then (λ w. jw_put w b'"' then_write content) (λ w. jw_put w b'"') (b'"' ∷ text)
          (b'"' ∷ [])
          (Puts-then (λ w. jw_put w b'"') content (b'"' ∷ []) text (jw_put-Puts b'"') puts)
          (jw_put-Puts b'"')

-- The quoted key, whose statuses are not looked at.
abbrev pub put_name : JsonWriteOpts → JsonStr → JsonWriter → Written
put_name opts key w = jw_put (jw_string_content (jw_put w b'"').0 key.text opts.ascii_only).0 b'"'

pub put_name-Writes :
    (opts : JsonWriteOpts) (key : JsonStr)
    → Writes (λ w. put_name opts key w) (string_text opts.ascii_only key.text)
unfolding jw_string_content
put_name-Writes opts key =
    let content : JsonWriter → Written =
      λ w. string_content (length key.text) w key.text opts.ascii_only in
    let quote = jw_put-Puts b'"' in
    Writes-bind _ content (content_text (length key.text) opts.ascii_only key.text) _
      (string_content-Writes (length key.text) opts.ascii_only key.text)
      λ text puts.
        Leaves-Puts (λ w. (content (jw_put w b'"').0).0) (λ w. jw_put w b'"') (b'"' ∷ text)
          (b'"' ∷ [])
          (Leaves-then (λ w. (jw_put w b'"').0) (λ w. (content w).0) (b'"' ∷ []) text
            (Puts-Leaves (λ w. jw_put w b'"') (b'"' ∷ []) quote) (Puts-Leaves content text puts))
          quote

pub put_key-Leaves :
    (opts : JsonWriteOpts) (key : JsonStr) (name : Bytes)
    → Puts (λ w. put_name opts key w) name
    → Leaves (λ w. put_key opts key w) (name ++ colon_text opts)
unfolding put_key
put_key-Leaves opts key name puts =
    let blank = Puts-Leaves (λ w. jw_put w b' ') (b' ' ∷ []) (jw_put-Puts b' ') in
    Leaves-then (λ w. (put_name opts key w).0)
      (λ w. if opts.pretty then (jw_put (jw_put w b':').0 b' ').0 else (jw_put w b':').0) name
      (colon_text opts) (Puts-Leaves (λ w. put_name opts key w) name puts)
      (Leaves-then (λ w. (jw_put w b':').0) (λ w. if opts.pretty then (jw_put w b' ').0 else w)
        (b':' ∷ []) _ (Puts-Leaves (λ w. jw_put w b':') (b':' ∷ []) (jw_put-Puts b':'))
        (Leaves-on opts.pretty (λ w. (jw_put w b' ').0) (λ w. w) (b' ' ∷ []) [] blank
          nothing-Leaves))

pub jw_double-Writes : (fpu : Fpu) (v : ℕ) → Writes (λ w. jw_double fpu w v) (double_text fpu v)
unfolding jw_double
jw_double-Writes fpu v =
    Writes-on (is_special v) _ _ none (printed_double (fpu.print_17g v)) tt (go (fpu.print_17g v))
  where
    go : (printed : Option Bytes) → Writes (λ w. print_double printed w) (printed_double printed)
    go none = tt
    go (some text) = Writes-on (leb 32 (length text)) _ _ none _ tt (
        Writes-on (not (has_dot text) && ltb (length text + 2) 32) _ _
          (some (text ++ (b'.' ∷ b'0' ∷ []))) (some text)
          (jw_puts-Puts (text ++ (b'.' ∷ b'0' ∷ []))) (jw_puts-Puts text))

pub line_break-Leaves :
    (opts : JsonWriteOpts) (depth : ℕ)
    → Leaves (λ w. line_break opts depth w) (break_text opts depth)
unfolding line_break
line_break-Leaves opts depth =
    let blanks = replicate (depth * opts.indent) b' ' in
    Leaves-on opts.pretty _ (λ w. w) (10 ∷ blanks) []
      (Leaves-then (λ w. (jw_put w 10).0) (λ w. (jw_indent w depth opts.indent).0) (10 ∷ []) blanks
        (Puts-Leaves (λ w. jw_put w 10) (10 ∷ []) (jw_put-Puts 10))
        (Puts-Leaves (λ w. jw_indent w depth opts.indent) blanks
          (jw_indent-Puts depth opts.indent)))
      nothing-Leaves

pub comma_if-Leaves : (more : Bool) → Leaves (λ w. comma_if more w) (comma_text more)
comma_if-Leaves more =
    Leaves-on more (λ w. (jw_put w b',').0) (λ w. w) (b',' ∷ []) []
      (Puts-Leaves (λ w. jw_put w b',') (b',' ∷ []) (jw_put-Puts b',')) nothing-Leaves

pub close_bracket-Puts :
    (opts : JsonWriteOpts) (depth : ℕ) (is_empty : Bool) (bracket : ℕ)
    → Puts
        (λ w. close_bracket opts depth is_empty bracket w)
        (close_text opts depth is_empty bracket)
unfolding close_bracket
close_bracket-Puts opts depth is_empty bracket =
    Leaves-Puts (λ w. if is_empty then w else line_break opts depth w) (λ w. jw_put w bracket) _
      (bracket ∷ [])
      (Leaves-on is_empty (λ w. w) (λ w. line_break opts depth w) [] (break_text opts depth)
        nothing-Leaves (line_break-Leaves opts depth))
      (jw_put-Puts bracket)
