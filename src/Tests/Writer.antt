-- ===== src/Tests/Writer.antt =====
-- Witnesses on the writer.
use s_json.Base.{Bytes, ◌≤◌, length, none, ◌≡◌, refl, [], ◌++◌, false, codes, arith}
use s_json.Base.Int.{negsuc}
use s_json.Error.{json_ok, ok}
use s_json.Number.{ival, parse_number}
use s_json.Writer.{JsonWriter, jw_int64, tmp_digits, reverse_onto}
use s_json.Writer.Integer.{Denotes, emitted, jw_int64-Denotes, parse_number-jw_int64}
use s_json.Writer.Decimal.{decimal}
use s_json.Tests.Data.{demo_arena, blank_fpu}

-- A buffer of 32 bytes that holds a bracket.
abbrev small_writer : JsonWriter
small_writer = record {
  buf = codes "[";
  cap = 32;
  used = 1;
  measure_only = false;
  err = json_ok;
  sort_arena = none;
}

jw_int64-Denotes_example :
    (text : Bytes) × ((Denotes (negsuc 41) text × (length text ≤ 20))
      × (jw_int64 small_writer (negsuc 41) ≡ (emitted small_writer text, json_ok)))
jw_int64-Denotes_example =
    jw_int64-Denotes small_writer (negsuc 41) (omega arith) (omega arith, λ m. omega arith)

-- An empty buffer of 8 bytes.
abbrev empty_writer : JsonWriter
empty_writer = record {
  buf = [];
  cap = 8;
  used = 0;
  measure_only = false;
  err = json_ok;
  sort_arena = none;
}

parse_number-jw_int64_example :
    let (w, status) = jw_int64 empty_writer (negsuc 41) in
    (status ≡ json_ok)
    × (parse_number blank_fpu demo_arena (w.buf ++ codes "]")
        ≡ (ok (ival (negsuc 41), codes "]"), demo_arena))
unfolding decimal tmp_digits reverse_onto
parse_number-jw_int64_example =
    parse_number-jw_int64 blank_fpu demo_arena empty_writer (negsuc 41) (codes "]") refl refl
      (omega arith, λ _. omega arith) (omega arith) (refl, omega arith, omega arith, omega arith)
