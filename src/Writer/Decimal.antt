-- ===== src/Writer/Decimal.antt =====
-- The digits that jw_int64 puts.
use native.Mathlib.Nat.{pow-suc}
use s_json.Base.{
  ℕ, zero, suc, ◌+◌, ◌-◌, ◌*◌, ◌/◌, ◌%◌, ◌^◌, ◌≤◌, ◌<◌, ◌≡◌, ◌≢◌, refl, ap, ◌∙◌, [], ◌∷◌, Bytes,
  ◌==◌, if◌then◌else◌, if-cases, length, All, arith,
}
use native.Mathlib.Decide.{ℕ_discrete}
use s_json.Writer.{tmp_digits, reverse_onto}
use s_json.Number.Digits.{IsDigit, value_from}
use s_json.Number.Integer.{IsNumeral}

-- The decimal text of a number.
unfoldable pub decimal : ℕ → Bytes
decimal v = if v == 0 then b'0' ∷ [] else reverse_onto (tmp_digits 64 v) []

tmp_digits_zero : (fuel : ℕ) → tmp_digits fuel 0 ≡ []
unfolding tmp_digits
tmp_digits_zero zero = refl
tmp_digits_zero (suc fuel) = refl

tmp_digits_pos :
    (fuel v : ℕ) → v ≢ 0 → tmp_digits (suc fuel) v ≡ (b'0' + v % 10) ∷ tmp_digits fuel (v / 10)
unfolding tmp_digits
tmp_digits_pos fuel v h = ground arith

half_fuel : (fuel v : ℕ) → v < 2 ^ suc fuel → v / 10 < 2 ^ fuel
half_fuel fuel v h = omega (arith, pow-suc 2 fuel)

-- Reading the digits back gives the number.
value_from-digits :
    (fuel v : ℕ) (out : Bytes)
    → v < 2 ^ fuel
    → value_from 0 (reverse_onto (tmp_digits fuel v) out) ≡ value_from v out
unfolding reverse_onto
value_from-digits zero v out h = let z : v ≡ 0 = omega arith in unfold tmp_digits in rw z refl
value_from-digits (suc fuel) v out h = go (ℕ_discrete v 0) (value_from-digits fuel)
  where
    go :
        Dec (v ≡ 0)
        → ((w : ℕ) (end : Bytes)
            → w < 2 ^ fuel
            → value_from 0 (reverse_onto (tmp_digits fuel w) end) ≡ value_from w end)
        → value_from 0 (reverse_onto (tmp_digits (suc fuel) v) out) ≡ value_from v out
    go (yes z) ih = rw (z, tmp_digits_zero) refl
    go (no n) ih =
        let last : v / 10 * 10 + (b'0' + v % 10 - b'0') ≡ v = omega arith in
        rw (tmp_digits_pos fuel v n) (
          ih (v / 10) ((b'0' + v % 10) ∷ out) (half_fuel fuel v h)
          ∙ ap (λ (x : ℕ). value_from x out) last)

abbrev Leads : Bytes → Type 0
Leads [] = ⊥
Leads (c ∷ digits) = IsDigit c × (c ≢ b'0') × All IsDigit digits

Leads-digits :
    (fuel v : ℕ) (out : Bytes)
    → v < 2 ^ fuel
    → v ≢ 0
    → All IsDigit out
    → Leads (reverse_onto (tmp_digits fuel v) out)
unfolding reverse_onto
Leads-digits zero v out h n a = absurd (n (omega arith))
Leads-digits (suc fuel) v out h n a = go (ℕ_discrete (v / 10) 0) (Leads-digits fuel)
  where
    go :
        Dec (v / 10 ≡ 0)
        → ((w : ℕ) (end : Bytes)
            → w < 2 ^ fuel
            → w ≢ 0
            → All IsDigit end
            → Leads (reverse_onto (tmp_digits fuel w) end))
        → Leads (reverse_onto (tmp_digits (suc fuel) v) out)
    go (yes z) ih = rw (tmp_digits_pos fuel v n, z, tmp_digits_zero) (omega arith, omega arith, a)
    go (no m) ih =
        rw (tmp_digits_pos fuel v n)
          (ih (v / 10) ((b'0' + v % 10) ∷ out) (half_fuel fuel v h) m (omega arith, a))

Leads-IsNumeral : (digits : Bytes) → Leads digits → IsNumeral digits
Leads-IsNumeral [] h = h
Leads-IsNumeral (c ∷ digits) h = (h.0, h.2, λ z. absurd (h.1 z))

-- The text is a numeral that spells the number.
pub decimal_lem : (v : ℕ) → v < 2 ^ 64 → IsNumeral (decimal v) × (value_from 0 (decimal v) ≡ v)
decimal_lem v h = elim (ℕ_discrete v 0) [
  | yes z ↦ rw z (unfold decimal in ((omega arith, tt, λ _. refl), refl))
  | no n ↦
      let text : decimal v ≡ reverse_onto (tmp_digits 64 v) [] = unfold decimal in ground arith in
      rw text (Leads-IsNumeral _ (Leads-digits 64 v [] h n tt), value_from-digits 64 v [] h)
]

pub decimal-zero : decimal 0 ≡ b'0' ∷ []
unfolding decimal
decimal-zero = refl

pub decimal-suc : (v : ℕ) → decimal (suc v) ≡ reverse_onto (tmp_digits 64 (suc v)) []
unfolding decimal
decimal-suc v = ground arith

length-tmp_digits : (fuel v k : ℕ) → v < 10 ^ k → length (tmp_digits fuel v) ≤ k
length-tmp_digits zero v k h = unfold tmp_digits in omega arith
length-tmp_digits (suc fuel) v k h = go (ℕ_discrete v 0) k h (length-tmp_digits fuel (v / 10))
  where
    go :
        Dec (v ≡ 0)
        → (k : ℕ) → v < 10 ^ k
        → ((j : ℕ) → v / 10 < 10 ^ j → length (tmp_digits fuel (v / 10)) ≤ j)
        → length (tmp_digits (suc fuel) v) ≤ k
    go (yes z) k h ih = rw (z, tmp_digits_zero (suc fuel)) (omega arith)
    go (no n) zero h ih = absurd (n (omega arith))
    go (no n) (suc k) h ih =
        let fewer = ih k (omega (arith, pow-suc 10 k)) in
        rw (tmp_digits_pos fuel v n) (omega (arith, fewer))

length-reverse_onto : (xs out : Bytes) → length (reverse_onto xs out) ≡ length xs + length out
unfolding reverse_onto
length-reverse_onto [] out = omega arith
length-reverse_onto (x ∷ xs) out = omega (arith, length-reverse_onto xs (x ∷ out))

-- At most 19 digits.
pub length-decimal : (v : ℕ) → v < 10 ^ 19 → length (decimal v) ≤ 19
unfolding decimal
length-decimal v h =
    if-cases (λ (d : Bytes). length d ≤ 19) (v == 0) _ _ (λ _. omega arith)
      λ _. omega (arith, length-reverse_onto (tmp_digits 64 v) [], length-tmp_digits 64 v 19 h)
