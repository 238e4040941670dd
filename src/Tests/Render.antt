-- ===== src/Tests/Render.antt =====
-- Witnesses on the text of a value.
use Prim.Native.String.{String}
use s_json.Base.{
  Bytes, true, false, none, some, ◌≡◌, ◌≢◌, ◌≤◌, refl, [], ◌∷◌, ◌++◌, codes, length, arith,
}
use s_json.Base.Int.{pos}
use s_json.Error.{json_ok}
use s_json.Text.Str.{JsonStr}
use s_json.Arena.{arena_alloc}
use s_json.Value.{JsonValue, null, boolean, integer, array, object, no_items, item, no_pairs, pair}
use s_json.Writer.Value.{
  JsonWriteOpts, write_value, write_items, members_of, line_break, close_bracket, put_object,
  put_members, put_key, order_for,
}
use s_json.Writer.{
  jw_indent, jw_put, jw_puts, jw_int64, put_abs, put_digits, put_all, tmp_digits, reverse_onto,
  jw_string_content, string_content,
}
use s_json.Writer.Decimal.{decimal}
use s_json.Text.Utf8.{utf8_decode}
use s_json.Writer.Calls.{json_write, json_measure, json_write_arena, put_trailing, terminate}
use s_json.Writer.Render.{render, render_items, render_pairs, content_text}
use s_json.Writer.Bounded.{json_write-length}
use s_json.Writer.Refuses.{json_write-Refuses}
use s_json.Writer.Refines.{
  document, handed_over, json_write-render, json_measure-render, json_write_arena-render,
}
use s_json.Tests.Data.{demo_arena, blank_fpu, libc}

abbrev str : String → JsonStr
str text = record { text = codes text; len = length (codes text); hash = 0 }

-- {"k":[1,true],"e":{}}
abbrev sample : JsonValue
sample =
    object
      (pair (str "k") (array (item (integer (pos 1)) (item (boolean true) no_items)) 8)
        (pair (str "e") (object no_pairs 0 none false) no_pairs))
      8 none false

abbrev compact : JsonWriteOpts
compact = record {
  pretty = false;
  indent = 2;
  sort_keys = false;
  ascii_only = false;
  trailing_nl = true;
}

abbrev sample_text : Bytes
sample_text = codes "{\"k\":[1,true],\"e\":{}}"

rendered : render blank_fpu compact sample 0 ≡ some sample_text
unfolding render render_items render_pairs content_text decimal tmp_digits reverse_onto
rendered = refl

json_write-render_example :
    json_write blank_fpu libc (some sample) true 64 (some compact)
    ≡ record { status = json_ok; written = some 22; text = sample_text ++ (10 ∷ 0 ∷ []) }
json_write-render_example =
    json_write-render blank_fpu libc sample compact sample_text refl rendered 64 (omega arith)
      (omega arith)

json_measure-render_example :
    json_measure blank_fpu libc (some sample) true (some compact)
    ≡ record { status = json_ok; written = some 22; text = [] }
json_measure-render_example =
    json_measure-render blank_fpu libc sample compact sample_text refl rendered (omega arith)

json_write_arena-render_example :
    json_write_arena blank_fpu libc (some sample) (some demo_arena) true (some compact) ≡ (
      let (region, a) = arena_alloc demo_arena 23 in
      (handed_over region (document compact sample_text), some a))
json_write_arena-render_example =
    json_write_arena-render blank_fpu libc sample compact sample_text refl rendered demo_arena
      (omega arith)

-- Into a buffer of 8 bytes, which is too small.
json_write-length_example :
    length (json_write blank_fpu libc (some sample) true 8 (some compact)).text ≤ 8
json_write-length_example = json_write-length blank_fpu libc (some sample) true 8 (some compact)

json_write-Refuses_example :
    (json_write blank_fpu libc (some sample) true 8 (some compact)).status ≢ json_ok
json_write-Refuses_example =
    json_write-Refuses blank_fpu libc sample compact sample_text 8 refl refl rendered (omega arith)
      (omega arith) (omega arith)

-- With an indentation of 100 into a buffer of 8 bytes, the call reports success without the blanks.
abbrev wide : JsonWriteOpts
wide = record {
  pretty = true;
  indent = 100;
  sort_keys = false;
  ascii_only = false;
  trailing_nl = false;
}

lost_indentation :
    json_write blank_fpu libc (some (array (item (integer (pos 1)) no_items) 8)) true 8 (some wide)
    ≡ record { status = json_ok; written = some 5; text = codes "[\n1\n]" ++ (0 ∷ []) }
unfolding json_write write_value write_items line_break close_bracket jw_indent jw_put jw_int64
    put_abs put_digits put_all tmp_digits reverse_onto put_trailing terminate
lost_indentation = refl

-- A key that is not UTF-8 is cut, and the call reports success.
lost_key :
    json_write blank_fpu libc
      (some
        (object (pair (record { text = 0xff ∷ []; len = 1; hash = 0 }) null no_pairs) 8 none false))
      true
      64
      (some compact)
    ≡ record { status = json_ok; written = some 10; text = codes "{\"\":null}" ++ (10 ∷ 0 ∷ []) }
unfolding json_write write_value put_object put_members put_key order_for close_bracket line_break
    jw_put jw_puts put_all put_trailing terminate jw_string_content string_content utf8_decode
    members_of
lost_key = refl
