-- ===== src/Tests/Text.antt =====
-- Witnesses on UTF-8, hexadecimal digits and strings.
use s_json.Base.{true, ◌≡◌, refl, inr, [], ◌∷◌, ◌++◌, Bytes, length, codes, arith}
use s_json.Error.{ok}
use s_json.Arena.{arena_alloc}
use s_json.Text.Hash.{fnv1a, fnv_from, fnv_step, json_fnv1a, fnv_offset}
use s_json.Text.Hex.{parse_hex4}
use s_json.Text.Hex.Value.{digit_of, four_digits, parse_hex4-four_digits}
use s_json.Text.Utf8.{encode_utf8, utf8_decode}
use s_json.Text.Utf8.Canonical.{IsCanonical, utf8_decode-encode_utf8, encode_utf8-utf8_decode}
use s_json.Text.Str.{
  JsonStr, Scan, scan, scan_start, parse_string, build_string, scan_unit, write_loop, write_unit,
  simple_escape, copy_out, close_string, final_hash,
}
use s_json.Text.Str.Passes.{Agree, scan-Agree}
use s_json.Tests.Data.{demo_arena}
use s_json.Text.Str.Sound.{IsString, Allocated, parse_string-IsString}

parse_hex4-four_digits_example :
    parse_hex4 (codes "00e9!")
    ≡ four_digits (digit_of b'0') (digit_of b'0') (digit_of b'e') (digit_of b'9')
parse_hex4-four_digits_example = parse_hex4-four_digits (codes "00e9!")

utf8_decode-encode_utf8_example :
    utf8_decode (encode_utf8 0x1F600 ++ codes "x") ≡ ok (0x1F600, length (encode_utf8 0x1F600))
utf8_decode-encode_utf8_example = utf8_decode-encode_utf8 0x1F600 (codes "x") (inr (omega arith))

abbrev euro_sign : Bytes
euro_sign = 0xE2 ∷ 0x82 ∷ 0xAC ∷ 0x21 ∷ []

euro_decoded : utf8_decode euro_sign ≡ ok (0x20AC, 3)
unfolding utf8_decode
euro_decoded = refl

encode_utf8-utf8_decode_example : IsCanonical euro_sign 0x20AC 3
encode_utf8-utf8_decode_example =
    encode_utf8-utf8_decode euro_sign 0x20AC 3 (omega arith) euro_decoded

-- The text a, \n, \u00e9, behind its opening quote.
abbrev escaped_text : Bytes
escaped_text = codes "a\\n\\u00e9\","

abbrev decoded_text : Bytes
decoded_text = b'a' ∷ 10 ∷ 0xC3 ∷ 0xA9 ∷ []

abbrev scanned : Scan
scanned = record { out_len = 4; has_escape = true; raw_hash = fnv_step fnv_offset b'a' }

escaped_scanned : scan 20 scan_start escaped_text ≡ ok (scanned, codes "\",")
unfolding scan scan_unit simple_escape parse_hex4
escaped_scanned = refl

scan-Agree_example : (text : Bytes) × Agree escaped_text text (codes "\",") scan_start scanned
scan-Agree_example =
    scan-Agree 20 escaped_text (codes "\",") scan_start scanned (omega arith) escaped_scanned

abbrev parsed_string : JsonStr
parsed_string = record { text = decoded_text; len = 4; hash = fnv1a decoded_text }

escaped_parsed :
    parse_string demo_arena escaped_text
    ≡ (ok (parsed_string, codes ","), (arena_alloc demo_arena 4).1)
unfolding parse_string scan build_string arena_alloc parse_hex4 utf8_decode encode_utf8 fnv_from
    fnv_step json_fnv1a write_loop scan_unit write_unit simple_escape copy_out close_string
    final_hash
escaped_parsed = refl

parse_string-IsString_example :
    IsString parsed_string × Allocated demo_arena (arena_alloc demo_arena 4).1 4
parse_string-IsString_example =
    parse_string-IsString demo_arena (arena_alloc demo_arena 4).1 escaped_text parsed_string
      (codes ",") (omega arith) escaped_parsed
