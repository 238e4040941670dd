-- ===== src/Tests/Parser.antt =====
-- Runs of json_parse, and witnesses.
use s_json.Base.{
  ◌≡◌, refl, true, false, [], ◌∷◌, Option, none, some, Bytes, length, replicate, ◌++◌, codes, arith,
}
use s_json.Base.Int.{pos}
use s_json.Error.{Result, ok, err, depth_exceeded, invalid_json, unexpected_eof}
use s_json.Text.Str.{JsonStr}
use s_json.Value.{
  JsonValue, integer, string, array, object, boolean, null, count_items, no_items, item, no_pairs,
  pair,
}
use s_json.Parser.Run.{Parsed, returned, undefined, json_parse}
use s_json.Parser.Total.{Returns, json_parse-Returns}
use s_json.Parser.ArenaAfter.{IsSound, ArenaIsSound, json_parse-ArenaIsSound}
use s_json.Parser.Invariant.{IsValid, IsSafe}
use s_json.Parser.{Parser, value_frame, ps_arr_item}
use s_json.Parser.Round.{step}
use s_json.Parser.SafeRound.{step-Safe}
use s_json.Tests.Data.{demo_arena, blank_fpu}

abbrev key : JsonStr
key = record { text = codes "a"; len = 1; hash = 3826002220 }

abbrev outcome : Parsed → Option (Result JsonValue)
outcome (returned r a) = some r
outcome undefined = none

abbrev parse : Bytes → Option (Result JsonValue)
parse text = outcome (json_parse blank_fpu (some demo_arena) (some text) (length text))

parse_array :
    parse (codes "[1, true]")
    ≡ some (ok (array (item (integer (pos 1)) (item (boolean true) no_items)) 8))
unfolding json_parse step s_json.Arena.arena_alloc s_json.Arena.new_node s_json.Number.parse_number
    s_json.Number.finish_number s_json.Number.number_parts s_json.Number.int_part
    s_json.Number.frac_part s_json.Number.int_digits s_json.Number.exp_part s_json.Number.int_number
    s_json.Number.fast_digit s_json.Value.count_items s_json.Value.arr_grow s_json.Value.append_item
parse_array = refl

trailing_comma : parse (codes "[true,]") ≡ some (err invalid_json)
unfolding json_parse step s_json.Arena.arena_alloc s_json.Arena.new_node s_json.Number.parse_number
    s_json.Number.finish_number s_json.Number.number_parts s_json.Number.int_part
    s_json.Number.frac_part s_json.Number.int_digits s_json.Number.exp_part s_json.Number.int_number
    s_json.Number.fast_digit s_json.Value.count_items s_json.Value.arr_grow s_json.Value.append_item
trailing_comma = refl

cut_off : parse (codes "[[], true") ≡ some (err unexpected_eof)
unfolding json_parse step s_json.Arena.arena_alloc s_json.Arena.new_node s_json.Number.parse_number
    s_json.Number.finish_number s_json.Number.number_parts s_json.Number.int_part
    s_json.Number.frac_part s_json.Number.int_digits s_json.Number.exp_part s_json.Number.int_number
    s_json.Number.fast_digit s_json.Value.count_items s_json.Value.arr_grow s_json.Value.append_item
cut_off = refl

-- 63 arrays in each other are read, and no more.
depth_63 : parse (replicate 62 b'[' ++ codes "[]x") ≡ some (err invalid_json)
unfolding json_parse step s_json.Arena.arena_alloc s_json.Arena.new_node s_json.Number.parse_number
    s_json.Number.finish_number s_json.Number.number_parts s_json.Number.int_part
    s_json.Number.frac_part s_json.Number.int_digits s_json.Number.exp_part s_json.Number.int_number
    s_json.Number.fast_digit s_json.Value.count_items s_json.Value.arr_grow s_json.Value.append_item
depth_63 = refl

depth_64 : parse (replicate 63 b'[' ++ codes "[]x") ≡ some (err depth_exceeded)
unfolding json_parse step s_json.Arena.arena_alloc s_json.Arena.new_node s_json.Number.parse_number
    s_json.Number.finish_number s_json.Number.number_parts s_json.Number.int_part
    s_json.Number.frac_part s_json.Number.int_digits s_json.Number.exp_part s_json.Number.int_number
    s_json.Number.fast_digit s_json.Value.count_items s_json.Value.arr_grow s_json.Value.append_item
depth_64 = refl

duplicate_keys :
    parse (codes "{\"a\":true, \"a\":null}")
    ≡ some (ok (object (pair key (boolean true) (pair key null no_pairs)) 8 none false))
unfolding json_parse step s_json.Arena.arena_alloc s_json.Arena.new_node s_json.Number.parse_number
    s_json.Number.finish_number s_json.Number.number_parts s_json.Number.int_part
    s_json.Number.frac_part s_json.Number.int_digits s_json.Number.exp_part s_json.Number.int_number
    s_json.Number.fast_digit s_json.Value.count_items s_json.Value.arr_grow s_json.Value.append_item
    s_json.Value.count_pairs s_json.Value.obj_grow s_json.Value.append_pair
    s_json.Text.Str.parse_string s_json.Text.Str.scan s_json.Text.Str.scan_unit
    s_json.Text.Str.build_string s_json.Text.Str.copy_out s_json.Text.Str.close_string
    s_json.Text.Str.final_hash s_json.Text.Hash.fnv_step s_json.Arena.take_from
duplicate_keys = refl

-- In an array, behind `[true, `, with `false]` to come.
abbrev in_array : Parser
in_array = record {
  frame = value_frame;
  below =
      record {
        container = some (array (item (boolean true) no_items) 8);
        state = ps_arr_item;
        pending_key = none;
      }
      ∷ [];
  rest = codes "false]";
  arena = demo_arena;
}

in_array-IsValid : IsValid in_array
unfolding count_items
in_array-IsValid = record { top = tt; under = (omega arith, tt); shallow = omega arith }

step-Safe_example : IsSafe 6 (step blank_fpu in_array)
step-Safe_example = step-Safe blank_fpu in_array in_array-IsValid

json_parse-Returns_example :
    Returns (json_parse blank_fpu (some demo_arena) (some (codes "[1, true]")) 9)
json_parse-Returns_example =
    json_parse-Returns blank_fpu (some demo_arena) (some (codes "[1, true]")) 9

demo-IsSound : IsSound demo_arena
demo-IsSound = record {
  valid = record {
    blocks = (omega arith, tt);
    counted = omega arith;
    bounded = omega arith;
    block_size_le = omega arith;
  };
  nodes = omega arith;
}

json_parse-ArenaIsSound_example :
    ArenaIsSound (json_parse blank_fpu (some demo_arena) (some (codes "[1, true]")) 9)
json_parse-ArenaIsSound_example =
    json_parse-ArenaIsSound blank_fpu demo_arena (some (codes "[1, true]")) 9 demo-IsSound
