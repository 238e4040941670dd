-- ===== src/Writer/TightString.antt =====
-- What jw_string_content, strings and keys do where there is no room.
use s_json.Base.{
  ℕ, zero, suc, ◌+◌, ◌-◌, ◌/◌, ◌%◌, ◌≡◌, Bool, true, false, not, ◌||◌, [], ◌∷◌, ◌++◌, Bytes, ltb,
  leb, ◌==◌, if◌then◌else◌, Option, none, some, ◌>>=?◌, length, take, drop, arith,
}
use s_json.Error.{Result, ok, err}
use s_json.Text.Utf8.{utf8_decode}
use s_json.Text.Str.{JsonStr}
use s_json.Writer.{
  JsonWriter, Written, failed, ◌then_write◌, jw_put, jw_puts, jw_u16, u16_escape, byte_escape,
  put_char, put_byte, string_content, jw_string_content,
}
use s_json.Writer.Value.{JsonWriteOpts, put_string, put_key}
use s_json.Writer.Render.{char_text, byte_text, content_text, string_text, colon_text}
use s_json.Writer.PutsString.{ends_clean, put_name}
use s_json.Writer.Tight.{
  Tight, TightLeaves, Sure, Tight-then, TightLeaves-then, Tight-TightLeaves, Sure-Tight, Tight-Sure,
  TightLeaves-Sure, then-Sure,
}
use s_json.Writer.TightPuts.{TightWrites, jw_put-Tight, jw_puts-Tight}

pub Tight-on :
    (test : Bool) (f g : JsonWriter → Written) (a b : Bytes)
    → Tight f a
    → Tight g b
    → Tight (λ w. if test then f w else g w) (if test then a else b)
Tight-on true f g a b p q = p
Tight-on false f g a b p q = q

put_char-Tight :
    (ascii_only : Bool) (bytes : Bytes) (code : ℕ)
    → Tight (λ w. put_char ascii_only w bytes code) (char_text ascii_only bytes code)
unfolding put_char
put_char-Tight ascii_only bytes code =
    let high = u16_escape (0xD800 + (code - 0x10000) / 1024) in
    let low = u16_escape (0xDC00 + (code - 0x10000) % 1024) in
    Tight-on (not ascii_only) (λ w. jw_puts w bytes) _ bytes _ (jw_puts-Tight bytes)
      (Tight-on (leb code 0xFFFF) (λ w. jw_u16 w code) _ (u16_escape code) _
        (jw_puts-Tight (u16_escape code))
        (Tight-then (λ w. jw_puts w high) (λ w. jw_puts w low) high low (jw_puts-Tight high)
          (jw_puts-Tight low)))

put_byte-Tight : (c : ℕ) → TightLeaves (λ w. put_byte w c) (byte_text c)
unfolding put_byte
put_byte-Tight c = go (ltb c 0x20 || c == b'"' || c == b'\\')
  where
    go :
        (test : Bool)
        → TightLeaves
            (λ w. if test then (jw_puts w (byte_escape c)).0 else (jw_put w c).0)
            (if test then byte_escape c else c ∷ [])
    go true =
        Tight-TightLeaves (λ w. jw_puts w (byte_escape c)) (byte_escape c)
          (jw_puts-Tight (byte_escape c))
    go false = Tight-TightLeaves (λ w. jw_put w c) (c ∷ []) (jw_put-Tight c)

-- Where the content is described, the code puts it, or stops, and never reports success on a full buffer.
abbrev pub SureWrites : (JsonWriter → Written) → Option Bytes → Type 0
SureWrites f none = Unit
SureWrites f (some text) = Sure f text

SureWrites-on :
    (test : Bool) (f g : JsonWriter → Written) (a b : Option Bytes)
    → SureWrites f a
    → SureWrites g b
    → SureWrites (λ w. if test then f w else g w) (if test then a else b)
SureWrites-on true f g a b p q = p
SureWrites-on false f g a b p q = q

pub SureWrites-bind :
    (f g : JsonWriter → Written) (r : Option Bytes) (k : Bytes → Option Bytes)
    → SureWrites g r
    → ((text : Bytes) → Sure g text → SureWrites f (k text))
    → SureWrites f (r >>=? k)
SureWrites-bind f g none k part whole = tt
SureWrites-bind f g (some text) k part whole = whole text part

ends-Sure : Sure (λ w. (w, w.err)) []
ends-Sure = (
  ends_clean,
  (
    (λ cap w (size, (writes, (clean, inside))) over small. absurd (omega arith)),
    λ cap w full. (full, full.1.1.0),
  ),
)

string_content-SureWrites :
    (fuel : ℕ) (ascii_only : Bool) (bytes : Bytes)
    → SureWrites (λ w. string_content fuel w bytes ascii_only) (content_text fuel ascii_only bytes)
unfolding string_content content_text
string_content-SureWrites zero ascii_only [] = ends-Sure
string_content-SureWrites (suc fuel) ascii_only [] = ends-Sure
string_content-SureWrites zero ascii_only (c ∷ rest) = tt
string_content-SureWrites (suc fuel) ascii_only (c ∷ rest) =
    SureWrites-on (leb 0x80 c) _ (λ w. string_content fuel (put_byte w c) rest ascii_only) _
      (content_text fuel ascii_only rest >>=? λ more. some (byte_text c ++ more))
      (char (utf8_decode (c ∷ rest)) (string_content-SureWrites fuel ascii_only))
      (SureWrites-bind _ (λ w. string_content fuel w rest ascii_only)
        (content_text fuel ascii_only rest) _ (string_content-SureWrites fuel ascii_only rest)
        λ more puts.
          TightLeaves-Sure (λ w. put_byte w c) (λ w. string_content fuel w rest ascii_only)
            (byte_text c) more (put_byte-Tight c) puts)
  where
    char :
        (d : Result (ℕ × ℕ))
        → ((bytes : Bytes)
            → SureWrites
                (λ w. string_content fuel w bytes ascii_only)
                (content_text fuel ascii_only bytes))
        → SureWrites
            (λ w. elim d [
              | err status ↦ failed w status
              | ok (code, count) ↦
                  put_char ascii_only w (take count (c ∷ rest)) code then_write λ w'.
                  string_content fuel w' (drop count (c ∷ rest)) ascii_only
            ])
            (elim d [
              | err status ↦ none
              | ok (code, count) ↦ content_text fuel ascii_only (drop count (c ∷ rest)) >>=? λ more.
                  some (char_text ascii_only (take count (c ∷ rest)) code ++ more)
            ])
    char (err status) ih = tt
    char (ok (code, count)) ih =
        let here = take count (c ∷ rest) in
        let after = drop count (c ∷ rest) in
        SureWrites-bind _ (λ w. string_content fuel w after ascii_only)
          (content_text fuel ascii_only after) _ (ih after)
          λ more puts.
            then-Sure (λ w. put_char ascii_only w here code)
              (λ w. string_content fuel w after ascii_only) (char_text ascii_only here code) more
              (put_char-Tight ascii_only here code) puts

pub TightWrites-string :
    (f g : JsonWriter → Written) (r : Option Bytes) (k : Bytes → Option Bytes)
    → SureWrites g r
    → ((text : Bytes) → Sure g text → TightWrites f (k text))
    → TightWrites f (r >>=? k)
TightWrites-string f g none k part whole = tt
TightWrites-string f g (some text) k part whole = whole text part

pub put_string-TightWrites :
    (opts : JsonWriteOpts) (s : JsonStr)
    → TightWrites (λ w. put_string opts s w) (string_text opts.ascii_only s.text)
unfolding put_string jw_string_content
put_string-TightWrites opts s =
    let content : JsonWriter → Written =
      λ w. string_content (length s.text) w s.text opts.ascii_only in
    TightWrites-string _ content (content_text (length s.text) opts.ascii_only s.text) _
      (string_content-SureWrites (length s.text) opts.ascii_only s.text)
      λ text puts. (
        Tight-then (λ w. jw_put w b'"' then_write content) (λ w. jw_put w b'"') (b'"' ∷ text)
            (b'"' ∷ [])
            (Tight-then (λ w. jw_put w b'"') content (b'"' ∷ []) text (jw_put-Tight b'"')
              (Sure-Tight content text puts))
            (jw_put-Tight b'"'),
        omega arith,
      )

pub put_name-SureWrites :
    (opts : JsonWriteOpts) (key : JsonStr)
    → SureWrites (λ w. put_name opts key w) (string_text opts.ascii_only key.text)
unfolding jw_string_content
put_name-SureWrites opts key =
    let content : JsonWriter → Written =
      λ w. string_content (length key.text) w key.text opts.ascii_only in
    let quote = jw_put-Tight b'"' in
    SureWrites-bind _ content (content_text (length key.text) opts.ascii_only key.text) _
      (string_content-SureWrites (length key.text) opts.ascii_only key.text)
      λ text puts.
        TightLeaves-Sure (λ w. (content (jw_put w b'"').0).0) (λ w. jw_put w b'"') (b'"' ∷ text)
          (b'"' ∷ [])
          (TightLeaves-then (λ w. (jw_put w b'"').0) (λ w. (content w).0) (b'"' ∷ []) text
            (Tight-TightLeaves (λ w. jw_put w b'"') (b'"' ∷ []) quote)
            (Tight-TightLeaves content text (Sure-Tight content text puts)))
          (Tight-Sure (λ w. jw_put w b'"') (b'"' ∷ []) (omega arith) quote)

-- A key on one line.
pub put_key-TightLeaves :
    (opts : JsonWriteOpts) (key : JsonStr) (name : Bytes)
    → opts.pretty ≡ false
    → Sure (λ w. put_name opts key w) name
    → TightLeaves (λ w. put_key opts key w) (name ++ colon_text opts)
unfolding put_key
put_key-TightLeaves opts key name compact puts = rw compact (
    TightLeaves-then (λ w. (put_name opts key w).0) (λ w. (jw_put w b':').0) name (b':' ∷ [])
      (Tight-TightLeaves (λ w. put_name opts key w) name
        (Sure-Tight (λ w. put_name opts key w) name puts))
      (Tight-TightLeaves (λ w. jw_put w b':') (b':' ∷ []) (jw_put-Tight b':')))
