-- ===== src/Parser/Run.antt =====
-- The loop of json_parse, what comes before and after it, and json_parse_cstr.
use s_json.Base.{
  ℕ, zero, suc, [], ◌∷◌, Option, none, some, Bytes, ltb, ◌==◌, if◌then◌else◌, length, take,
}
use s_json.Error.{JsonError, json_ok, null_param, invalid_json, Result, ok, err}
use s_json.Arena.{Arena}
use s_json.Number.{Fpu}
use s_json.Value.{JsonValue}
use s_json.Parser.{skip_ws, Parser, Step, running, finished, failing, fault, value_frame}
use s_json.Parser.Round.{step}

-- At most `fuel` rounds of the loop.
unfoldable pub run : Fpu → ℕ → Step → Step
run fpu zero s = s
run fpu (suc fuel) (running p) = run fpu fuel (step fpu p)
run fpu (suc fuel) (finished root rest arena) = finished root rest arena
run fpu (suc fuel) (failing e arena) = failing e arena
run fpu (suc fuel) fault = fault

-- What is stored in `*err_out` at the error exit.
unfoldable pub reported : JsonError → JsonError
reported json_ok = invalid_json
reported e = e

-- What a call of json_parse gives: a value or an error with the arena after, or behaviour that C does
-- not define.
pub data Parsed : Type 0 where
  returned : Result JsonValue → Option Arena → Parsed
  undefined : Parsed

-- Behind the loop and the blanks after the value, no byte may follow.
unfoldable pub trailing : JsonValue → Arena → Bytes → Parsed
unfolding reported
trailing root arena [] = returned (ok root) (some arena)
trailing root arena (_ ∷ _) = returned (err (reported invalid_json)) (some arena)

-- What the loop ends with. A loop that still runs would return nothing.
unfoldable pub finish : Step → Parsed
unfolding skip_ws reported trailing
finish (running p) = undefined
finish fault = undefined
finish (failing e arena) = returned (err (reported e)) (some arena)
finish (finished root rest arena) = trailing root arena (skip_ws rest)

-- The stack at the start: one frame that expects a value.
abbrev pub start_parser : Arena → Bytes → Parser
start_parser arena text = record { frame = value_frame; below = []; rest = text; arena = arena }

-- The loop takes a byte in every round, so that one round more than the bytes is fuel enough.
unfoldable pub parse_text : Fpu → Arena → Bytes → Parsed
unfolding run finish
parse_text fpu arena text = finish (run fpu (suc (length text)) (running (start_parser arena text)))

-- json_parse: `none` is a NULL pointer.
unfoldable pub json_parse : Fpu → Option Arena → Option Bytes → ℕ → Parsed
unfolding parse_text
json_parse fpu none src len = returned (err null_param) none
json_parse fpu (some arena) (some src) len = parse_text fpu arena (take len src)
json_parse fpu (some arena) none len =
    if ltb 0 len then returned (err null_param) (some arena) else parse_text fpu arena []

-- strlen and the bytes before the NUL.
unfoldable pub before_nul : Bytes → Bytes
before_nul [] = []
before_nul (c ∷ rest) = if c == 0 then [] else c ∷ before_nul rest

-- json_parse_cstr
unfoldable pub json_parse_cstr : Fpu → Option Arena → Option Bytes → Parsed
unfolding json_parse before_nul
json_parse_cstr fpu arena none = returned (err null_param) arena
json_parse_cstr fpu arena (some src) =
    json_parse fpu arena (some (before_nul src)) (length (before_nul src))
