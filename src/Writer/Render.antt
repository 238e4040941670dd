-- ===== src/Writer/Render.antt =====
-- The text of a value, described without a buffer: what json__write_value is to write.
use s_json.Base.{
  ℕ, zero, suc, ◌+◌, ◌-◌, ◌*◌, ◌/◌, ◌%◌, Bool, true, false, not, ◌&&◌, ◌||◌, [], ◌∷◌, ◌++◌, Option,
  none, some, Bytes, ltb, leb, ◌==◌, if◌then◌else◌, length, take, drop, replicate, codes, ◌>>=?◌,
}
use s_json.Error.{ok, err}
use s_json.Text.Utf8.{utf8_decode}
use s_json.Number.{Fpu, is_special}
use s_json.Value.{
  JsonValue, null, boolean, integer, float, string, array, object, Items, no_items, item, Pairs,
  no_pairs, pair,
}
use s_json.Writer.{has_dot, u16_escape, byte_escape}
use s_json.Writer.Integer.{int_text}
use s_json.Writer.Value.{JsonWriteOpts, is_no_items}
use s_json.Parser.{max_depth}

-- A character of several bytes: as it is, or as one or two escapes.
abbrev pub char_text : Bool → Bytes → ℕ → Bytes
char_text ascii_only bytes code =
    if not ascii_only
    then bytes
    else if leb code 0xFFFF
    then u16_escape code
    else u16_escape (0xD800 + (code - 0x10000) / 1024)
      ++ u16_escape (0xDC00 + (code - 0x10000) % 1024)

abbrev pub byte_text : ℕ → Bytes
byte_text c = if ltb c 0x20 || c == b'"' || c == b'\\' then byte_escape c else c ∷ []

-- The content of a string, where it is valid UTF-8.
unfoldable pub content_text : ℕ → Bool → Bytes → Option Bytes
content_text fuel ascii_only [] = some []
content_text zero ascii_only (c ∷ rest) = none
content_text (suc fuel) ascii_only (c ∷ rest) =
    let high : Option Bytes = elim (utf8_decode (c ∷ rest)) [
      | err status ↦ none
      | ok (code, count) ↦ content_text fuel ascii_only (drop count (c ∷ rest)) >>=? λ more.
          some (char_text ascii_only (take count (c ∷ rest)) code ++ more)
    ] in
    let low = content_text fuel ascii_only rest >>=? λ more. some (byte_text c ++ more) in
    if leb 0x80 c then high else low

abbrev pub quoted : Bytes → Bytes
quoted content = b'"' ∷ (content ++ (b'"' ∷ []))

abbrev pub string_text : Bool → Bytes → Option Bytes
string_text ascii_only bytes =
    content_text (length bytes) ascii_only bytes >>=? λ content. some (quoted content)

-- A double as "%.17g" prints it, with a point added where it would read as an integer.
abbrev pub printed_double : Option Bytes → Option Bytes
printed_double none = none
printed_double (some text) =
    if leb 32 (length text)
    then none
    else if not (has_dot text) && ltb (length text + 2) 32
    then some (text ++ (b'.' ∷ b'0' ∷ []))
    else some text

abbrev pub double_text : Fpu → ℕ → Option Bytes
double_text fpu v = if is_special v then none else printed_double (fpu.print_17g v)

abbrev pub break_text : JsonWriteOpts → ℕ → Bytes
break_text opts depth = if opts.pretty then 10 ∷ replicate (depth * opts.indent) b' ' else []

abbrev pub comma_text : Bool → Bytes
comma_text more = if more then b',' ∷ [] else []

-- The colon behind a key.
abbrev pub colon_text : JsonWriteOpts → Bytes
colon_text opts = b':' ∷ (if opts.pretty then b' ' ∷ [] else [])

-- The line break before a closing bracket, where there are entries.
abbrev pub close_text : JsonWriteOpts → ℕ → Bool → ℕ → Bytes
close_text opts depth is_empty bracket =
    (if is_empty then [] else break_text opts depth) ++ (bracket ∷ [])

abbrev pub has_pairs : Pairs → Bool
has_pairs no_pairs = false
has_pairs (pair k v pairs) = true

abbrev pub limited : ℕ → Option Bytes → Option Bytes
limited depth text = if leb max_depth depth then none else text

module _ (fpu : Fpu) (opts : JsonWriteOpts) where
  -- The text of a value at a depth; `none` where it is nested too deep, holds a NaN or an infinity, or
  -- text that is not UTF-8.
  unfoldable mutual
    pub render : JsonValue → ℕ → Option Bytes
    render null depth = limited depth (some (codes "null"))
    render (boolean b) depth = limited depth (some (if b then codes "true" else codes "false"))
    render (integer i) depth = limited depth (some (int_text i))
    render (float f) depth = limited depth (double_text fpu f)
    render (string s) depth = limited depth (string_text opts.ascii_only s.text)
    render (array items cap) depth = limited depth (
        render_items items depth >>=? λ entries.
        some (b'[' ∷ (entries ++ close_text opts depth (is_no_items items) b']')))
    render (object pairs cap idx is_sorted) depth = limited depth (
        render_pairs pairs depth >>=? λ entries.
        some (b'{' ∷ (entries ++ close_text opts depth (not (has_pairs pairs)) b'}')))

    -- The items of an array at `depth`.
    pub render_items : Items → ℕ → Option Bytes
    render_items no_items depth = some []
    render_items (item v items) depth = render v (depth + 1) >>=? λ text.
        render_items items depth >>=? λ more.
        some
          (break_text opts (depth + 1) ++ (text ++ (comma_text (not (is_no_items items)) ++ more)))

    -- The pairs of an object at `depth`, in the order of insertion.
    pub render_pairs : Pairs → ℕ → Option Bytes
    render_pairs no_pairs depth = some []
    render_pairs (pair key v pairs) depth = string_text opts.ascii_only key.text >>=? λ name.
        render v (depth + 1) >>=? λ text. render_pairs pairs depth >>=? λ more. some (
          (break_text opts (depth + 1) ++ (name ++ colon_text opts))
          ++ (text ++ (comma_text (has_pairs pairs) ++ more)))
