-- ===== src/Number/Integer.antt =====
-- json__parse_number on the literals of integers.
use s_json.Base.{
  ℕ, ◌≡◌, ◌≢◌, inl, inr, refl, ap, subst, Bool, true, false, Bool-cases, [], ◌∷◌, ◌++◌, Bytes, ◌==◌,
  leb, if◌then◌else◌, All, arith,
}
use native.Mathlib.Decide.{ℕ_discrete}
use s_json.Base.Int.{pos, signed}
use s_json.Error.{Result, ok, err, overflow}
use s_json.Arena.{Arena}
use s_json.Number.{
  Fpu, Number, ival, Fast, fast_start, Parts, is_digit, starts_digit, int_part, frac_part, exp_part,
  number_parts, int_number, finish_number, parse_number, pos_limit, neg_limit,
}
use s_json.Number.Digits.{IsDigit, value_from, Exact, Tracks, fast_start-Exact, int_digits-Tracks}

-- One or more digits, with no zero in front of others.
abbrev pub IsNumeral : Bytes → Type 0
IsNumeral [] = ⊥
IsNumeral (c ∷ digits) = IsDigit c × All IsDigit digits × (c ≡ b'0' → digits ≡ [])

-- The literal cannot go on with this input.
abbrev pub Ends : Bytes → Type 0
Ends [] = Unit
Ends (c ∷ _) = (is_digit c ≡ false) × (c ≢ b'.') × (c ≢ b'e') × (c ≢ b'E')

abbrev pub sign_text : Bool → Bytes
sign_text neg = if neg then b'-' ∷ [] else []

abbrev pub limit_of : Bool → ℕ
limit_of neg = if neg then neg_limit else pos_limit

Ends-starts_digit : (rest : Bytes) → Ends rest → starts_digit rest ≡ false
Ends-starts_digit [] h = refl
Ends-starts_digit (c ∷ rest) h = h.0

int_part-numeral :
    (digits rest : Bytes)
    → IsNumeral digits
    → Ends rest
    → (f : Fast) × (int_part (digits ++ rest) ≡ ok (f, rest)) × Tracks f (value_from 0 digits)
int_part-numeral [] rest h n = absurd h
int_part-numeral (c ∷ digits) rest (d, ds, z) n = elim (ℕ_discrete c b'0') [
  | yes e ↦
      let alone = z e in
      (
        fast_start,
        rw alone (unfold int_part in ground (arith, Ends-starts_digit rest n)),
        inl (rw alone (subst (Exact fast_start) (omega arith) fast_start-Exact)),
      )
  | no ne ↦
      let (f, loop, t) =
        int_digits-Tracks (c ∷ digits) rest fast_start 0 (d, ds) (Ends-starts_digit rest n)
          (inl fast_start-Exact) in
      (f, unfold int_part in ground (arith, ap (λ (r : Fast × Bytes). ok r) loop), t)
]

frac_part_none :
    (f : Fast) (rest : Bytes)
    → Ends rest
    → frac_part f rest ≡ ok (record { fast = f; exp10 = pos 0; is_float = false }, rest)
unfolding frac_part
frac_part_none f [] h = refl
frac_part_none f (c ∷ rest) h = ground arith

exp_part_none : (p : Parts) (rest : Bytes) → Ends rest → exp_part p rest ≡ ok (p, rest)
unfolding exp_part
exp_part_none p [] h = refl
exp_part_none p (c ∷ rest) h = ground arith

number_parts-numeral :
    (digits rest : Bytes)
    → IsNumeral digits
    → Ends rest
    → (f : Fast) × (number_parts (digits ++ rest)
        ≡ ok (record { fast = f; exp10 = pos 0; is_float = false }, rest))
      × Tracks f (value_from 0 digits)
unfolding number_parts
number_parts-numeral digits rest h n =
    let (f, e, t) = int_part-numeral digits rest h n in
    (f, rw (e, frac_part_none f rest n) (exp_part_none _ rest n), t)

-- The mantissa decides alone: it is the value, or the value is out of range.
int_number-Tracks :
    (neg : Bool) (f : Fast) (v : ℕ)
    → Tracks f v
    → int_number neg f ≡ (if leb v (limit_of neg) then ok (ival (signed neg v)) else err overflow)
unfolding int_number
int_number-Tracks true f v (inl x) = ground (arith, x.is_open, x.mant_is)
int_number-Tracks false f v (inl x) = ground (arith, x.is_open, x.mant_is)
int_number-Tracks true f v (inr t) = ground (arith, t.is_closed, t.long)
int_number-Tracks false f v (inr t) = ground (arith, t.is_closed, t.long)

-- The outcome that the value calls for.
unfoldable pub integer_outcome : Arena → Bool → ℕ → Bytes → Result (Number × Bytes) × Arena
integer_outcome arena neg v rest =
    if leb v (limit_of neg) then (ok (ival (signed neg v), rest), arena) else (err overflow, arena)

finish-Tracks :
    (fpu : Fpu) (arena : Arena) (start : Bytes) (neg : Bool) (f : Fast) (v : ℕ) (rest : Bytes)
    → Tracks f v
    → finish_number fpu arena start neg
        (ok (record { fast = f; exp10 = pos 0; is_float = false }, rest))
      ≡ integer_outcome arena neg v rest
unfolding finish_number integer_outcome
finish-Tracks fpu arena start neg f v rest t =
    rw (int_number-Tracks neg f v t)
      (elim (Bool-cases (leb v (limit_of neg))) [ inl h ↦ rw h refl | inr h ↦ rw h refl ])

-- An integer literal, with or without a minus sign, is read exactly: the result is the integer that its
-- digits spell where that fits an int64_t, and an overflow error where it does not, however long the
-- literal is; the arena is not touched.
pub parse_number-numeral :
    (fpu : Fpu) (arena : Arena) (neg : Bool) (digits rest : Bytes)
    → IsNumeral digits
    → Ends rest
    → parse_number fpu arena (sign_text neg ++ (digits ++ rest))
      ≡ integer_outcome arena neg (value_from 0 digits) rest
unfolding parse_number
parse_number-numeral fpu arena true digits rest h n =
    let (f, e, t) = number_parts-numeral digits rest h n in
    rw e (finish-Tracks fpu arena _ true f _ rest t)
parse_number-numeral fpu arena false [] rest h n = absurd h
parse_number-numeral fpu arena false (c ∷ digits) rest h n =
    let (f, e, t) = number_parts-numeral (c ∷ digits) rest h n in
    let no_minus : (c == b'-') ≡ false = ground (arith, h.0) in
    rw (no_minus, e) (finish-Tracks fpu arena _ false f _ rest t)
