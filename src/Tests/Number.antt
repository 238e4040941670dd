-- ===== src/Tests/Number.antt =====
-- Witnesses on numbers.
use s_json.Base.{◌≡◌, refl, true, ◌++◌, codes, arith}
use s_json.Number.{parse_number}
use s_json.Number.Integer.{sign_text, integer_outcome, parse_number-numeral}
use s_json.Number.Digits.{value_from}
use s_json.Tests.Data.{demo_arena, blank_fpu}

parse_number-numeral_example :
    parse_number blank_fpu demo_arena (sign_text true ++ (codes "9223372036854775808" ++ codes ","))
    ≡ integer_outcome demo_arena true (value_from 0 (codes "9223372036854775808")) (codes ",")
parse_number-numeral_example =
    parse_number-numeral blank_fpu demo_arena true (codes "9223372036854775808") (codes ",")
      (omega arith, omega arith, λ z. absurd (omega (arith, z)))
      (refl, omega arith, omega arith, omega arith)
