-- ===== src/Text/Str/Shorter.antt =====
-- json__parse_string takes the closing quote at least.
use s_json.Base.{ℕ, zero, suc, ◌≤◌, ◌<◌, ◌≡◌, [], ◌∷◌, Bytes, length, length-drop, arith}
use s_json.Error.{Result, ok, err}
use s_json.Arena.{Arena}
use s_json.Text.Str.{
  JsonStr, Scan, write_unit, write_loop, copy_out, close_string, build_string, after_scan,
  parse_string, scan, scan_start,
}
use s_json.Text.Str.Loop.{length-write_unit}

length-write_loop : (f : ℕ) (bytes : Bytes) → length (write_loop f bytes).1 ≤ length bytes
unfolding write_loop
length-write_loop zero [] = ground arith
length-write_loop zero (c ∷ rest) = ground arith
length-write_loop (suc f) [] = ground arith
length-write_loop (suc f) (c ∷ rest) =
    ground (arith, length-write_unit c rest, length-write_loop f (write_unit c rest).1)

length-copy_out : (s : Scan) (start : Bytes) → length (copy_out s start).1 ≤ length start
unfolding copy_out
length-copy_out s start =
    ground (arith, length-drop s.out_len start, length-write_loop (length start) start)

close_string-shorter :
    (s : Scan) (out : Bytes × Bytes) {str : JsonStr} {rest : Bytes}
    → close_string s out ≡ ok (str, rest)
    → length rest < length out.1
unfolding close_string
close_string-shorter s (text, []) h = absurd (ground arith)
close_string-shorter s (text, q ∷ end) h = ground arith

build_string-shorter :
    (arena a : Arena) (start : Bytes) (s : Scan) {str : JsonStr} {rest : Bytes}
    → build_string arena start s ≡ (ok (str, rest), a)
    → length rest < length start
build_string-shorter arena a start s {str} {rest} h =
    let closed : close_string s (copy_out s start) ≡ ok (str, rest) =
      unfold build_string in ground arith in
    omega (arith, close_string-shorter s (copy_out s start) closed, length-copy_out s start)

after_scan-shorter :
    (arena a : Arena) (start : Bytes) (r : Result (Scan × Bytes)) {str : JsonStr} {rest : Bytes}
    → after_scan arena start r ≡ (ok (str, rest), a)
    → length rest < length start
unfolding after_scan
after_scan-shorter arena a start (err e) h = absurd (ground arith)
after_scan-shorter arena a start (ok (s, end)) h = build_string-shorter arena a start s h

pub parse_string-shorter :
    (arena a : Arena) (start : Bytes) {str : JsonStr} {rest : Bytes}
    → parse_string arena start ≡ (ok (str, rest), a)
    → length rest < length start
unfolding parse_string
parse_string-shorter arena a start h =
    after_scan-shorter arena a start (scan (length start) scan_start start) h
