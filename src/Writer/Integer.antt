-- ===== src/Writer/Integer.antt =====
-- The text that jw_int64 puts, and how json__parse_number reads it.
use s_json.Base.{
  ℕ, zero, suc, ◌+◌, ◌≤◌, ◌<◌, ◌≡◌, refl, sym, subst, ◌∙◌, ap, ap₂, length-append, Bool, true,
  false, [], ◌∷◌, ◌++◌, append-nil, append_assoc, Bytes, ◌==◌, leb, length, arith, size_max,
  if◌then◌else◌,
}
use s_json.Base.Int.{ℤ, pos, negsuc}
use s_json.Error.{json_ok, ok}
use s_json.Arena.{Arena}
use s_json.Number.{Fpu, ival, parse_number, pos_limit, neg_limit}
use s_json.Number.Digits.{value_from}
use s_json.Number.Integer.{IsNumeral, Ends, integer_outcome, parse_number-numeral}
use s_json.Writer.{
  JsonWriter, jw_put, put_all, put_digits, put_abs, jw_int64, tmp_digits, reverse_onto,
}
use s_json.Writer.Decimal.{decimal, decimal_lem, length-decimal, decimal-zero, decimal-suc}

abbrev pub int_text : ℤ → Bytes
int_text (pos n) = decimal n
int_text (negsuc n) = b'-' ∷ decimal (suc n)

abbrev pub IsInt64 : ℤ → Type 0
IsInt64 (pos n) = n ≤ pos_limit
IsInt64 (negsuc n) = suc n ≤ neg_limit

-- The buffer after these bytes are put: a measuring writer has none.
abbrev pub kept : Bool → Bytes → Bytes → Bytes
kept measuring buf bytes = if measuring then buf else buf ++ bytes

-- The writer after these bytes are put.
abbrev pub emitted : JsonWriter → Bytes → JsonWriter
emitted w bytes = record w { buf = kept w.measure_only w.buf bytes; used = w.used + length bytes }

pub emitted-nil : (w : JsonWriter) → emitted w [] ≡ w
emitted-nil w =
    ap₂ (λ (b : Bytes) (n : ℕ). record w { buf = b; used = n }) (go w.measure_only) (omega arith)
  where
    go : (m : Bool) → kept m w.buf [] ≡ w.buf
    go true = refl
    go false = append-nil w.buf

pub emitted-append :
    (w : JsonWriter) (first second : Bytes)
    → emitted (emitted w first) second ≡ emitted w (first ++ second)
emitted-append w first second =
    ap₂ (λ (b : Bytes) (n : ℕ). record w { buf = b; used = n }) (go w.measure_only)
      (omega (arith, length-append first second))
  where
    go : (m : Bool) → kept m (kept m w.buf first) second ≡ kept m w.buf (first ++ second)
    go true = refl
    go false = append_assoc w.buf first second

-- There is room for `n` bytes and the NUL behind them; in measuring mode, in size_t.
abbrev pub HasRoom : JsonWriter → ℕ → Type 0
HasRoom w n = (w.used + n < size_max) × (w.measure_only ≡ false → w.used + n < w.cap)

pub jw_put-emitted :
    (w : JsonWriter) (c : ℕ) → HasRoom w 1 → jw_put w c ≡ (emitted w (c ∷ []), json_ok)
unfolding jw_put
jw_put-emitted w c room = ground arith

pub put_all-emitted :
    (w : JsonWriter) (bytes : Bytes)
    → HasRoom w (length bytes)
    → put_all w bytes ≡ (emitted w bytes, json_ok)
unfolding put_all
put_all-emitted w [] room = ap (λ (w' : JsonWriter). (w', json_ok)) (sym (emitted-nil w))
put_all-emitted w (c ∷ bytes) room =
    rw (jw_put-emitted w c (omega arith, λ m. omega (arith, room.1 m))) (
      put_all-emitted (emitted w (c ∷ [])) bytes (omega arith, λ m. omega (arith, room.1 m))
      ∙ ap (λ (w' : JsonWriter). (w', json_ok)) (emitted-append w (c ∷ []) bytes))

put_abs-emitted :
    (w : JsonWriter) (v : ℕ)
    → HasRoom w (length (decimal v))
    → put_abs w v ≡ (emitted w (decimal v), json_ok)
unfolding put_abs put_digits
put_abs-emitted w zero room =
    rw decimal-zero
      (jw_put-emitted w b'0' (subst (λ (d : Bytes). HasRoom w (length d)) decimal-zero room))
put_abs-emitted w (suc v) room =
    let text = decimal-suc v in
    let no_zero : (suc v == 0) ≡ false = ground arith in
    rw text (
      rw no_zero (
        put_all-emitted w (reverse_onto (tmp_digits 64 (suc v)) [])
          (subst (λ (d : Bytes). HasRoom w (length d)) text room)))

pub jw_int64-emitted :
    (w : JsonWriter) (v : ℤ)
    → HasRoom w (length (int_text v))
    → jw_int64 w v ≡ (emitted w (int_text v), json_ok)
unfolding jw_int64
jw_int64-emitted w (pos n) room = put_abs-emitted w n room
jw_int64-emitted w (negsuc n) room =
    rw (jw_put-emitted w b'-' (omega arith, λ m. omega (arith, room.1 m))) (
      put_abs-emitted (emitted w (b'-' ∷ [])) (suc n) (omega arith, λ m. omega (arith, room.1 m))
      ∙ ap (λ (w' : JsonWriter). (w', json_ok)) (emitted-append w (b'-' ∷ []) (decimal (suc n))))

-- The decimal text of an integer: a sign where it is negative, and a numeral, without leading zeros, of
-- its absolute value.
abbrev pub Denotes : ℤ → Bytes → Type 0
Denotes (pos n) text = IsNumeral text × (value_from 0 text ≡ n)
Denotes (negsuc n) [] = ⊥
Denotes (negsuc n) (c ∷ digits) = (c ≡ b'-') × (IsNumeral digits × (value_from 0 digits ≡ suc n))

int_text-Denotes : (v : ℤ) → IsInt64 v → Denotes v (int_text v) × (length (int_text v) ≤ 20)
int_text-Denotes (pos n) h =
    (decimal_lem n (omega arith), omega (arith, length-decimal n (omega arith)))
int_text-Denotes (negsuc n) h =
    ((refl, decimal_lem (suc n) (omega arith)), omega (arith, length-decimal (suc n) (omega arith)))

-- On every int64_t, where there is room for twenty bytes, jw_int64 reports success and puts, behind what
-- the buffer holds, the decimal text of the integer, which has twenty bytes at most: a minus if it is
-- negative, then the digits of its absolute value without a leading zero. A measuring writer counts the
-- same bytes.
pub jw_int64-Denotes :
    (w : JsonWriter) (v : ℤ)
    → IsInt64 v
    → HasRoom w 20
    → (text : Bytes) × ((Denotes v text × (length text ≤ 20))
        × (jw_int64 w v ≡ (emitted w text, json_ok)))
jw_int64-Denotes w v h room =
    let (denotes, short) = int_text-Denotes v h in
    (
      int_text v,
      (
        (denotes, short),
        jw_int64-emitted w v (omega (arith, short), λ m. omega (arith, room.1 m, short)),
      ),
    )

parse_number-int_text :
    (fpu : Fpu) (arena : Arena) (v : ℤ) (rest : Bytes)
    → IsInt64 v
    → Ends rest
    → parse_number fpu arena (int_text v ++ rest) ≡ (ok (ival v, rest), arena)
unfolding integer_outcome
parse_number-int_text fpu arena (pos n) rest h e =
    let (numeral, value) = decimal_lem n (omega arith) in
    let small : leb n pos_limit ≡ true = ground arith in
    parse_number-numeral fpu arena false (decimal n) rest numeral e ∙ rw (value, small) refl
parse_number-int_text fpu arena (negsuc n) rest h e =
    let (numeral, value) = decimal_lem (suc n) (omega arith) in
    let small : leb (suc n) neg_limit ≡ true = ground arith in
    parse_number-numeral fpu arena true (decimal (suc n)) rest numeral e
    ∙ rw (value, small) (ground arith)

-- Into a buffer that holds nothing before it and has room, jw_int64 puts any int64_t with success, and
-- json__parse_number reads what then stands in the buffer as that integer, to its last digit, before
-- any byte that cannot go on a number; the arena is not touched.
pub parse_number-jw_int64 :
    (fpu : Fpu) (arena : Arena) (w : JsonWriter) (v : ℤ) (rest : Bytes)
    → w.buf ≡ []
    → w.measure_only ≡ false
    → HasRoom w (length (int_text v))
    → IsInt64 v
    → Ends rest
    → let (w', status) = jw_int64 w v in
      (status ≡ json_ok) × (parse_number fpu arena (w'.buf ++ rest) ≡ (ok (ival v, rest), arena))
parse_number-jw_int64 fpu arena w v rest none_yet writes room h e =
    rw (jw_int64-emitted w v room, writes, none_yet)
      (refl, parse_number-int_text fpu arena v rest h e)
