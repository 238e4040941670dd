-- ===== src/Number/Shorter.antt =====
-- json__parse_number takes a byte at least.
use s_json.Base.{
  ℕ, ◌≤◌, ◌<◌, ◌≡◌, ap, Bool, [], ◌∷◌, ◌-◌, ◌+◌, ◌*◌, not, ◌&&◌, ltb, if◌then◌else◌, Bytes, length,
  arith,
}
use s_json.Base.Int.{ℤ, pos, negsuc, ◌+ℤ◌}
use s_json.Error.{Result, ok, err, >>=-eq-ok}
use s_json.Arena.{Arena}
use s_json.Number.{
  Fpu, Number, Fast, fast_digit, fast_start, Parts, int_digits, frac_digits, exp_digits, int_part,
  frac_part, exp_part, number_parts, finish_number, float_number, int_number, with_rest, consumed,
  parse_number, minus_sign,
}

length-int_digits : (f : Fast) (bytes : Bytes) → length (int_digits f bytes).1 ≤ length bytes
unfolding int_digits
length-int_digits f [] = ground arith
length-int_digits f (c ∷ rest) = ground (arith, length-int_digits (fast_digit f (c - b'0')) rest)

length-frac_digits :
    (f : Fast) (e : ℤ) (bytes : Bytes) → length (frac_digits f e bytes).2 ≤ length bytes
unfolding frac_digits
length-frac_digits f e [] = ground arith
length-frac_digits f e (c ∷ rest) =
    ground (arith, length-frac_digits (fast_digit f (c - b'0')) (e +ℤ negsuc 0) rest)

length-exp_digits :
    (fast : Bool) (v : ℕ) (bytes : Bytes) → length (exp_digits fast v bytes).2 ≤ length bytes
unfolding exp_digits
length-exp_digits fast v [] = ground arith
length-exp_digits fast v (c ∷ rest) = ground (
  arith,
  length-exp_digits (fast && not (ltb 1000 v)) (if ltb 1000 v then v else v * 10 + (c - b'0')) rest,
)

int_part-shorter :
    (bytes : Bytes) {f : Fast} {rest : Bytes}
    → int_part bytes ≡ ok (f, rest)
    → length rest < length bytes
unfolding int_part
int_part-shorter [] h = absurd (ground arith)
int_part-shorter (c ∷ rest) h =
    unfold int_digits in ground (arith, length-int_digits (fast_digit fast_start (c - b'0')) rest)

frac_part-shorter :
    (f : Fast) (bytes : Bytes) {p : Parts} {rest : Bytes}
    → frac_part f bytes ≡ ok (p, rest)
    → length rest ≤ length bytes
unfolding frac_part
frac_part-shorter f [] h = ground arith
frac_part-shorter f (c ∷ rest) h = ground (arith, length-frac_digits f (pos 0) rest)

exp_part-shorter :
    (p : Parts) (bytes : Bytes) {q : Parts} {rest : Bytes}
    → exp_part p bytes ≡ ok (q, rest)
    → length rest ≤ length bytes
unfolding exp_part
exp_part-shorter p [] h = ground arith
exp_part-shorter p (c ∷ []) h = ground arith
exp_part-shorter p (c ∷ d ∷ rest) h = ground (
  arith,
  length-exp_digits p.fast.open_yet 0 rest,
  length-exp_digits p.fast.open_yet 0 (d ∷ rest),
)

number_parts-shorter :
    (bytes : Bytes) {p : Parts} {rest : Bytes}
    → number_parts bytes ≡ ok (p, rest)
    → length rest < length bytes
unfolding number_parts
number_parts-shorter bytes h =
    let ((q, after_frac), two, three) = >>=-eq-ok _ _ h in
    let ((f, after_int), first, second) = >>=-eq-ok (int_part bytes) _ two in
    omega (
      arith,
      int_part-shorter bytes first,
      frac_part-shorter f after_int second,
      exp_part-shorter q after_frac three,
    )

rest-with_rest :
    (after : Bytes) (r : Result Number × Arena) {n : Number} {rest : Bytes} {a : Arena}
    → with_rest after r ≡ (ok (n, rest), a)
    → after ≡ rest
rest-with_rest after (ok n, a) h = ground arith
rest-with_rest after (err e, a) h = absurd (ground arith)

finish_number-shorter :
    (fpu : Fpu) (arena a : Arena) (start : Bytes) (neg : Bool) (r : Result (Parts × Bytes))
    {n : Number} {rest : Bytes}
    → finish_number fpu arena start neg r ≡ (ok (n, rest), a)
    → (p : Parts) × (r ≡ ok (p, rest))
unfolding finish_number
finish_number-shorter fpu arena a start neg (err e) h = absurd (ground arith)
finish_number-shorter fpu arena a start neg (ok (p, after)) h = (
  p,
  ap (λ (bytes : Bytes). ok (p, bytes))
      (ground (
        arith,
        rest-with_rest after (float_number fpu arena neg p (consumed start after)),
        rest-with_rest after (int_number neg p.fast, arena),
      )),
)

length-minus_sign : (bytes : Bytes) → length (minus_sign bytes).1 ≤ length bytes
length-minus_sign [] = ground arith
length-minus_sign (c ∷ rest) = ground arith

pub parse_number-shorter :
    (fpu : Fpu) (arena a : Arena) (start : Bytes) {n : Number} {rest : Bytes}
    → parse_number fpu arena start ≡ (ok (n, rest), a)
    → length rest < length start
unfolding parse_number
parse_number-shorter fpu arena a start h =
    let (p, parts) =
      finish_number-shorter fpu arena a start (minus_sign start).0
        (number_parts (minus_sign start).1) h in
    omega (arith, number_parts-shorter (minus_sign start).1 parts, length-minus_sign start)
