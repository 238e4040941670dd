-- ===== src/Parser/Total.antt =====
-- json_parse returns, and makes no undefined access.
use s_json.Base.{
  ℕ, zero, suc, ◌≤◌, ◌≢◌, [], ◌∷◌, Option, none, some, Bytes, length, take, arith, ltb, if-cases,
}
use s_json.Error.{JsonError, json_ok, ok, err, invalid_json}
use s_json.Arena.{Arena}
use s_json.Number.{Fpu}
use s_json.Value.{JsonValue}
use s_json.Parser.{Step, running, finished, failing, fault, skip_ws}
use s_json.Parser.Round.{step}
use s_json.Parser.Run.{
  run, reported, Parsed, returned, undefined, trailing, finish, start_parser, parse_text,
  json_parse,
}
use s_json.Parser.Invariant.{IsValid, IsSafe}
use s_json.Parser.SafeRound.{step-Safe}

-- The loop is over, without undefined behaviour.
abbrev pub HasEnded : Step → Type 0
HasEnded (running p) = ⊥
HasEnded (finished root rest arena) = Unit
HasEnded (failing e arena) = Unit
HasEnded fault = ⊥

run-HasEnded :
    (fpu : Fpu) (fuel n : ℕ) (s : Step) → n ≤ fuel → IsSafe n s → HasEnded (run fpu fuel s)
unfolding run
run-HasEnded fpu zero n (running p) le (v, lt) = absurd (omega arith)
run-HasEnded fpu (suc fuel) n (running p) le (v, lt) =
    run-HasEnded fpu fuel (length p.rest) (step fpu p) (omega arith) (step-Safe fpu p v)
run-HasEnded fpu zero n (finished root rest arena) le h = tt
run-HasEnded fpu zero n (failing e arena) le h = tt
run-HasEnded fpu zero n fault le h = h
run-HasEnded fpu (suc fuel) n (finished root rest arena) le h = tt
run-HasEnded fpu (suc fuel) n (failing e arena) le h = tt
run-HasEnded fpu (suc fuel) n fault le h = h

-- A value or an error is returned, and the error is none other than JSON_OK.
abbrev pub Returns : Parsed → Type 0
Returns (returned (ok root) arena) = Unit
Returns (returned (err e) arena) = e ≢ json_ok
Returns undefined = ⊥

reported-json_ok : (e : JsonError) → reported e ≢ json_ok
unfolding reported
reported-json_ok e = ground arith

trailing-Returns :
    (root : JsonValue) (arena : Arena) (bytes : Bytes) → Returns (trailing root arena bytes)
unfolding trailing
trailing-Returns root arena [] = tt
trailing-Returns root arena (_ ∷ _) = reported-json_ok invalid_json

finish-Returns : (s : Step) → HasEnded s → Returns (finish s)
unfolding finish
finish-Returns (running p) h = h
finish-Returns fault h = h
finish-Returns (failing e arena) h = reported-json_ok e
finish-Returns (finished root rest arena) h = trailing-Returns root arena (skip_ws rest)

parse_text-Returns :
    (fpu : Fpu) (arena : Arena) (text : Bytes) → Returns (parse_text fpu arena text)
unfolding parse_text
parse_text-Returns fpu arena text =
    finish-Returns (run fpu fuel (running (start_parser arena text))) (
      run-HasEnded fpu fuel fuel (running (start_parser arena text)) (omega arith)
        (start, omega arith))
  where
    fuel : ℕ
    fuel = suc (length text)

    start : IsValid (start_parser arena text)
    start = record { top = tt; under = tt; shallow = omega arith }

-- json_parse returns on every input, whatever the arena and the operations on doubles, and even where
-- pointers are NULL: with a value, or with an error other than JSON_OK. It never follows a NULL container,
-- takes an array for an object, uses a key that was not read, or writes behind the room of a container.
pub json_parse-Returns :
    (fpu : Fpu) (arena : Option Arena) (src : Option Bytes) (len : ℕ)
    → Returns (json_parse fpu arena src len)
unfolding json_parse
json_parse-Returns fpu none src len = ground arith
json_parse-Returns fpu (some arena) (some src) len = parse_text-Returns fpu arena (take len src)
json_parse-Returns fpu (some arena) none len =
    if-cases Returns (ltb 0 len) _ _ (λ h. ground arith) (λ h. parse_text-Returns fpu arena [])
