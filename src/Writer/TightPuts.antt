-- ===== src/Writer/TightPuts.antt =====
-- The primitives of the writer with room for their text and without.
use s_json.Base.{
  ℕ, zero, suc, ◌+◌, ◌-◌, ◌≤◌, ◌<◌, ◌≡◌, ◌≢◌, refl, sym, subst, Bool, true, false, not, ◌&&◌, ◌||◌,
  [], ◌∷◌, ◌++◌, Bytes, ltb, leb, ◌==◌, if◌then◌else◌, Option, none, some, inl, inr, if-cases,
  Bool-cases, length, length-append, size_max, arith,
}
use s_json.Base.Int.{ℤ, pos, negsuc}
use s_json.Error.{json_ok, overflow, buffer_too_small}
use s_json.Number.{Fpu, is_special}
use s_json.Writer.{
  JsonWriter, Written, print_double, ◌or_too_small◌, jw_put, jw_puts, put_all, put_digits, put_abs,
  jw_int64, jw_double, tmp_digits, reverse_onto, has_dot,
}
use s_json.Writer.Decimal.{decimal, decimal-zero, decimal-suc}
use s_json.Writer.Integer.{emitted, int_text, jw_put-emitted, put_all-emitted, jw_int64-emitted}
use s_json.Writer.Render.{printed_double, double_text}
use s_json.Writer.Puts.{jw_put-Puts, jw_puts-Puts}
use s_json.Writer.Tight.{Full, Stopped, Stops, Sticks, Tight}

full_put :
    (cap c : ℕ) (w : JsonWriter)
    → w.cap ≡ cap
    → w.measure_only ≡ false
    → cap ≤ w.used + 1
    → Stopped cap (jw_put w c)
unfolding jw_put
full_put cap c w size writes full =
    if-cases (Stopped cap) (w.used == size_max) _ _
      (λ _. ((size, (writes, (overflow_bad, full))), overflow_bad))
      λ _. rw writes (
        if-cases (Stopped cap) (w.cap == 0 || leb (w.cap - 1) w.used) _ _
          (λ _. ((size, (refl, (small_bad, full))), small_bad))
          (λ room. absurd (no_room w.cap w.used cap size room full)))
  where
    overflow_bad : overflow ≢ json_ok
    overflow_bad e = cc

    small_bad : buffer_too_small ≢ json_ok
    small_bad e = cc

    no_room :
        (have used cap : ℕ)
        → have ≡ cap
        → (have == 0 || leb (have - 1) used) ≡ false
        → cap ≤ used + 1
        → ⊥
    no_room have used cap e room full = ground arith

pub jw_put-Tight : (c : ℕ) → Tight (λ w. jw_put w c) (c ∷ [])
jw_put-Tight c = (
  jw_put-Puts c,
  (
    (λ cap w (size, (writes, (clean, inside))) over small. full_put cap c w size writes over),
    λ cap w (size, (writes, (bad, full))).
        let (after, failed_put) = full_put cap c w size writes full in (after, λ _. failed_put),
  ),
)

too_small :
    (cap : ℕ) (r : Written) (g : JsonWriter → Written)
    → Stopped cap r
    → Stopped cap (r or_too_small g)
too_small cap (w, json_ok) g (full, bad) = absurd (bad refl)
too_small cap (w, _) g (full, bad) = (full, λ e. cc)

put_all-Stops : (bytes : Bytes) → Stops (λ w. put_all w bytes) bytes
unfolding put_all
put_all-Stops [] cap w (size, (writes, (clean, inside))) over small = absurd (omega arith)
put_all-Stops (c ∷ bytes) cap w (size, (writes, (clean, inside))) over small =
    elim (Bool-cases (ltb (w.used + 1) cap)) [
      | inl fits ↦
          let space : w.used + 1 < cap = ground arith in
          rw (jw_put-emitted w c (omega arith, λ _. omega (arith, size))) (
            put_all-Stops bytes cap (emitted w (c ∷ [])) (size, (writes, (clean, space)))
              (omega arith) (omega arith))
      | inr tight ↦
          too_small cap (jw_put w c) (λ w'. put_all w' bytes)
            (full_put cap c w size writes (ground arith))
    ]

put_all-Sticks : (bytes : Bytes) → Sticks (λ w. put_all w bytes) bytes
unfolding put_all
put_all-Sticks [] cap w full = (full, λ none_there. absurd (omega arith))
put_all-Sticks (c ∷ bytes) cap w (size, (writes, (bad, full))) =
    let (after, failed_put) =
      too_small cap (jw_put w c) (λ w'. put_all w' bytes) (full_put cap c w size writes full) in
    (after, λ _. failed_put)

put_all-Tight : (bytes : Bytes) → Tight (λ w. put_all w bytes) bytes
put_all-Tight bytes =
    ((λ w room clean. put_all-emitted w bytes room), (put_all-Stops bytes, put_all-Sticks bytes))

pub jw_puts-Tight : (bytes : Bytes) → Tight (λ w. jw_puts w bytes) bytes
unfolding jw_puts
jw_puts-Tight bytes = (
  jw_puts-Puts bytes,
  (
    (λ cap w (size, (writes, clean)) over small.
        if-cases (Stopped cap) (ltb (size_max - w.used) (length bytes)) _ _
          (λ long. absurd (ground arith))
          λ _.
            if-cases (Stopped cap) w.measure_only _ _
              (λ m. absurd (measures w.measure_only m writes))
              λ _. put_all-Stops bytes cap w (size, (writes, clean)) over small),
    λ cap w (size, (writes, (bad, full))).
        if-cases (λ (r : Written). Full cap r.0 × (1 ≤ length bytes → r.1 ≢ json_ok))
          (ltb (size_max - w.used) (length bytes)) _ _
          (λ _. ((size, (writes, ((λ e. cc), full))), λ _ e. cc))
          λ _.
            if-cases (λ (r : Written). Full cap r.0 × (1 ≤ length bytes → r.1 ≢ json_ok))
              w.measure_only _ _ (λ m. absurd (measures w.measure_only m writes))
              (λ _. put_all-Sticks bytes cap w (size, (writes, (bad, full)))),
  ),
)
  where
    measures : (b : Bool) → b ≡ true → b ≡ false → ⊥
    measures b t f = cc

put_abs-Tight : (v : ℕ) → Tight (λ w. put_abs w v) (decimal v)
unfolding put_abs put_digits
put_abs-Tight zero = subst (Tight (λ w. jw_put w b'0')) (sym decimal-zero) (jw_put-Tight b'0')
put_abs-Tight (suc v) =
    let no_zero : (suc v == 0) ≡ false = ground arith in
    rw no_zero (
      subst (Tight (λ w. put_all w (reverse_onto (tmp_digits 64 (suc v)) []))) (sym (decimal-suc v))
        (put_all-Tight (reverse_onto (tmp_digits 64 (suc v)) [])))

or_too_small-Stops :
    (c : ℕ) (g : JsonWriter → Written) (b : Bytes)
    → Stops g b
    → Stops (λ w. jw_put w c or_too_small g) (c ∷ b)
or_too_small-Stops c g b stops cap w (size, (writes, (clean, inside))) over small =
    elim (Bool-cases (ltb (w.used + 1) cap)) [
      | inl fits ↦
          let space : w.used + 1 < cap = ground arith in
          rw (jw_put-emitted w c (omega arith, λ _. omega (arith, size))) (
            stops cap (emitted w (c ∷ [])) (size, (writes, (clean, space))) (omega arith)
              (omega arith))
      | inr tight ↦ too_small cap (jw_put w c) g (full_put cap c w size writes (ground arith))
    ]

pub jw_int64-Tight : (v : ℤ) → Tight (λ w. jw_int64 w v) (int_text v)
unfolding jw_int64
jw_int64-Tight (pos n) = put_abs-Tight n
jw_int64-Tight (negsuc n) =
    let digits = put_abs-Tight (suc n) in
    (
      (λ w room clean. jw_int64-emitted w (negsuc n) room),
      (
        or_too_small-Stops b'-' (λ w. put_abs w (suc n)) (decimal (suc n)) digits.1.0,
        λ cap w (size, (writes, (bad, full))).
            let (after, failed_put) =
              too_small cap (jw_put w b'-') (λ w'. put_abs w' (suc n))
                (full_put cap b'-' w size writes full) in
            (after, λ _. failed_put),
      ),
    )

-- Where a text is described, the code puts it, or stops where there is no room.
abbrev pub TightWrites : (JsonWriter → Written) → Option Bytes → Type 0
TightWrites f none = Unit
TightWrites f (some text) = Tight f text × (1 ≤ length text)

TightWrites-on :
    (test : Bool) (f g : JsonWriter → Written) (a b : Option Bytes)
    → TightWrites f a
    → TightWrites g b
    → TightWrites (λ w. if test then f w else g w) (if test then a else b)
TightWrites-on true f g a b p q = p
TightWrites-on false f g a b p q = q

pub jw_double-TightWrites :
    (fpu : Fpu) (v : ℕ) → TightWrites (λ w. jw_double fpu w v) (double_text fpu v)
unfolding jw_double has_dot
jw_double-TightWrites fpu v =
    TightWrites-on (is_special v) _ _ none (printed_double (fpu.print_17g v)) tt
      (go (fpu.print_17g v))
  where
    dotted : (text : Bytes) → 1 ≤ length (text ++ (b'.' ∷ b'0' ∷ []))
    dotted text = omega (arith, length-append text (b'.' ∷ b'0' ∷ []))

    go : (text : Option Bytes) → TightWrites (λ w. print_double text w) (printed_double text)
    go none = tt
    go (some []) = (jw_puts-Tight (b'.' ∷ b'0' ∷ []), omega arith)
    go (some (c ∷ rest)) =
        let text = c ∷ rest in
        TightWrites-on (leb 32 (length text)) _ _ none _ tt (
          TightWrites-on (not (has_dot text) && ltb (length text + 2) 32) _ _
            (some (text ++ (b'.' ∷ b'0' ∷ []))) (some text)
            (jw_puts-Tight (text ++ (b'.' ∷ b'0' ∷ [])), dotted text)
            (jw_puts-Tight text, omega arith))
