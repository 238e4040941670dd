-- ===== src/Number.antt =====
-- json__fast_float_from_parts and json__parse_number. A double is its bit pattern; what the C library
-- and the processor compute with doubles is a parameter.

pub mod Digits
pub mod Shorter
pub mod Integer
use s_json.Base.{
  ℕ, zero, suc, ◌+◌, ◌-◌, ◌*◌, ◌/◌, ◌%◌, ◌^◌, Bool, true, false, not, ◌&&◌, ◌||◌, List, [], ◌∷◌,
  Option, none, some, Bytes, ltb, leb, within, ◌==◌, if◌then◌else◌, length, take, u64_mod,
}
use s_json.Base.Int.{ℤ, pos, negsuc, pos_part, neg_part, signed, ◌+ℤ◌}
use s_json.Error.{Result, ok, err, ◌>>=◌, unexpected_eof, invalid_number, overflow, oom}
use s_json.Arena.{Arena, Region, arena_alloc}

-- Operations on doubles, by their bit patterns. `strtod` gives the value and the characters read.
pub record Fpu : Type 0 where
  pub of_uint64 : ℕ → ℕ
  pub of_int64 : ℤ → ℕ
  pub to_int64 : ℕ → ℤ
  pub mul : ℕ → ℕ → ℕ
  pub pow10_pos : ℕ → ℕ
  pub pow10_neg : ℕ → ℕ
  pub eq : ℕ → ℕ → Bool
  pub lt : ℕ → ℕ → Bool
  pub le : ℕ → ℕ → Bool
  pub strtod : Bytes → ℕ × ℕ
  pub print_17g : ℕ → Option Bytes

abbrev pub sign_bit : ℕ
sign_bit = 2 ^ 63

-- `-v`
abbrev pub negate : ℕ → ℕ
negate bits = (bits + sign_bit) % u64_mod

-- `isnan(v) || isinf(v)`: all bits of the exponent are set.
abbrev pub is_special : ℕ → Bool
is_special bits = bits / 2 ^ 52 % 2048 == 2047

-- `isnan(v)`
abbrev pub is_nan : ℕ → Bool
is_nan bits = is_special bits && not (bits % 2 ^ 52 == 0)

-- The int64_t or the double that a number literal gives.
pub data Number : Type 0 where
  ival : ℤ → Number
  fval : ℕ → Number

-- The digits kept for the fast way: whether it is still open, the mantissa, its significant digits.
pub record Fast : Type 0 where
  pub open_yet : Bool
  pub mant : ℕ
  pub sig : ℕ

-- JSON__FAST_DIGIT
unfoldable pub fast_digit : Fast → ℕ → Fast
fast_digit f d =
    if not (f.sig == 0) || not (d == 0)
    then (if leb 19 f.sig
        then record f { open_yet = false }
        else record f { mant = (f.mant * 10 + d) % u64_mod; sig = f.sig + 1 })
    else f

abbrev pub is_digit : ℕ → Bool
is_digit c = within b'0' b'9' c

-- The loop over the digits of the integer part.
unfoldable pub int_digits : Fast → Bytes → Fast × Bytes
int_digits f [] = (f, [])
int_digits f (c ∷ rest) =
    if is_digit c then int_digits (fast_digit f (c - b'0')) rest else (f, c ∷ rest)

-- The loop over the digits of the fraction; each also lowers the exponent, an int32_t of the source, which
-- is the integer here as long as there are fewer than 2^31 of them.
unfoldable pub frac_digits : Fast → ℤ → Bytes → Fast × ℤ × Bytes
frac_digits f e [] = (f, e, [])
frac_digits f e (c ∷ rest) =
    if is_digit c
    then frac_digits (fast_digit f (c - b'0')) (e +ℤ negsuc 0) rest
    else (f, e, c ∷ rest)

-- The loop over the digits of the exponent; past 1000 it only closes the fast way.
unfoldable pub exp_digits : Bool → ℕ → Bytes → Bool × ℕ × Bytes
exp_digits fast v [] = (fast, v, [])
exp_digits fast v (c ∷ rest) =
    if is_digit c
    then exp_digits (fast && not (ltb 1000 v)) (if ltb 1000 v then v else v * 10 + (c - b'0')) rest
    else (fast, v, c ∷ rest)

abbrev pub fast_start : Fast
fast_start = record { open_yet = true; mant = 0; sig = 0 }

abbrev pub starts_digit : Bytes → Bool
starts_digit [] = false
starts_digit (c ∷ _) = is_digit c

unfoldable pub int_part : Bytes → Result (Fast × Bytes)
int_part [] = err unexpected_eof
int_part (c ∷ rest) =
    if c == b'0'
    then (if starts_digit rest then err invalid_number else ok (fast_start, rest))
    else if within b'1' b'9' c
    then ok (int_digits fast_start (c ∷ rest))
    else err invalid_number

-- What the parts before have found.
pub record Parts : Type 0 where
  pub fast : Fast
  pub exp10 : ℤ
  pub is_float : Bool

abbrev frac_found : Fast × ℤ × Bytes → Parts × Bytes
frac_found (f, e, rest) = (record { fast = f; exp10 = e; is_float = true }, rest)

unfoldable pub frac_part : Fast → Bytes → Result (Parts × Bytes)
frac_part f [] = ok (record { fast = f; exp10 = pos 0; is_float = false }, [])
frac_part f (c ∷ rest) =
    if c == b'.'
    then (if starts_digit rest
        then ok (frac_found (frac_digits f (pos 0) rest))
        else err invalid_number)
    else ok (record { fast = f; exp10 = pos 0; is_float = false }, c ∷ rest)

-- The sign of an exponent: whether it is negative, and what follows.
abbrev exp_sign : Bytes → Bool × Bytes
exp_sign [] = (false, [])
exp_sign (c ∷ rest) = if c == b'+' || c == b'-' then (c == b'-', rest) else (false, c ∷ rest)

abbrev exp_found : Parts → Bool → Bool × ℕ × Bytes → Parts × Bytes
exp_found p minus (fast, v, rest) = (
  record {
    fast = record p.fast { open_yet = fast };
    exp10 = p.exp10 +ℤ signed minus v;
    is_float = true;
  },
  rest,
)

unfoldable pub exp_part : Parts → Bytes → Result (Parts × Bytes)
exp_part p [] = ok (p, [])
exp_part p (c ∷ rest) =
    let (minus, digits) = exp_sign rest in
    if c == b'e' || c == b'E'
    then (if starts_digit digits
        then ok (exp_found p minus (exp_digits p.fast.open_yet 0 digits))
        else err invalid_number)
    else ok (p, c ∷ rest)

-- `none` is the result `false`: the exact way is needed.
unfoldable pub fast_float_from_parts : Fpu → ℕ → ℕ → ℤ → Bool → Option ℕ
fast_float_from_parts fpu mant sig exp10 neg =
    let v = fpu.of_uint64 mant in
    let scaled : ℕ =
      if ltb 0 (neg_part exp10)
      then fpu.mul v (fpu.pow10_neg (neg_part exp10))
      else if ltb 0 (pos_part exp10)
      then fpu.mul v (fpu.pow10_pos (pos_part exp10))
      else v in
    if sig == 0
    then some (if neg then sign_bit else 0)
    else if ltb 22 (neg_part exp10) || ltb 22 (pos_part exp10)
    then none
    else some (if neg then negate scaled else scaled)

-- The call of strtod on the text of the literal, and the tests on what it gives.
unfoldable pub exact_float : Fpu → Bytes → Result Number
exact_float fpu text =
    let (value, read) = fpu.strtod text in
    if not (read == length text)
    then err invalid_number
    else if is_special value
    then err invalid_number
    else ok (fval value)

-- A literal that does not fit the buffer of 64 bytes is copied to the arena.
unfoldable pub float_number : Fpu → Arena → Bool → Parts → Bytes → Result Number × Arena
unfolding exact_float
float_number fpu arena neg p text =
    let fast : Option ℕ =
      if p.fast.open_yet
      then fast_float_from_parts fpu p.fast.mant p.fast.sig p.exp10 neg
      else none in
    let (region, a) = arena_alloc arena (length text + 1) in
    let exact : Result Number × Arena =
      if leb 64 (length text)
      then elim region [ none ↦ (err oom, a) | some _ ↦ (exact_float fpu text, a) ]
      else (exact_float fpu text, arena) in
    elim fast [ some value ↦ (ok (fval value), arena) | none ↦ exact ]

abbrev pub pos_limit : ℕ
pos_limit = 9223372036854775807

abbrev pub neg_limit : ℕ
neg_limit = 9223372036854775808

unfoldable pub int_number : Bool → Fast → Result Number
int_number neg f =
    if not f.open_yet || ltb (if neg then neg_limit else pos_limit) f.mant
    then err overflow
    else ok (ival (signed neg f.mant))

-- From the integer part on, behind the sign.
unfoldable pub number_parts : Bytes → Result (Parts × Bytes)
number_parts bytes =
    int_part bytes
    >>= (λ (f, after_int). frac_part f after_int)
    >>= (λ (p, after_frac). exp_part p after_frac)

-- The bytes of `start` before `rest`.
abbrev pub consumed : Bytes → Bytes → Bytes
consumed start rest = take (length start - length rest) start

abbrev pub with_rest : Bytes → Result Number × Arena → Result (Number × Bytes) × Arena
with_rest rest (ok n, a) = (ok (n, rest), a)
with_rest rest (err e, a) = (err e, a)

unfoldable pub finish_number :
    Fpu → Arena → Bytes → Bool → Result (Parts × Bytes) → Result (Number × Bytes) × Arena
finish_number fpu arena start neg (err e) = (err e, arena)
finish_number fpu arena start neg (ok (p, rest)) =
    if p.is_float
    then with_rest rest (float_number fpu arena neg p (consumed start rest))
    else with_rest rest (int_number neg p.fast, arena)

abbrev pub minus_sign : Bytes → Bool × Bytes
minus_sign [] = (false, [])
minus_sign (c ∷ rest) = if c == b'-' then (true, rest) else (false, c ∷ rest)

-- json__parse_number: the number, what follows it, and the arena after.
unfoldable pub parse_number : Fpu → Arena → Bytes → Result (Number × Bytes) × Arena
parse_number fpu arena start =
    let (neg, bytes) = minus_sign start in finish_number fpu arena start neg (number_parts bytes)
