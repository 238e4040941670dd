-- ===== src/Number/Digits.antt =====
-- The mantissa of JSON__FAST_DIGIT: exact while the fast way is open, and no 64-bit overflow.
use native.Mathlib.Nat.{pow-suc, pow-le-pow_right}
use native.Mathlib.Numerals.{add-one}
use s_json.Base.{
  ℕ, ◌+◌, ◌-◌, ◌*◌, ◌%◌, ◌^◌, ◌≤◌, ◌<◌, ◌≡◌, ◌≢◌, ◌⊎◌, inl, inr, refl, ◌∙◌, subst, true, false, [],
  ◌∷◌, ◌++◌, Bytes, All, arith, u64_mod,
}
use native.Mathlib.Decide.{dec_lt, ℕ_discrete}
use s_json.Number.{Fast, fast_digit, fast_start, int_digits, starts_digit}

abbrev pub IsDigit : ℕ → Type 0
IsDigit c = (b'0' ≤ c) × (c ≤ b'9')

-- The number that digits spell behind `n`, with no bound.
abbrev pub value_from : ℕ → Bytes → ℕ
value_from n [] = n
value_from n (c ∷ rest) = value_from (n * 10 + (c - b'0')) rest

-- The mantissa is the value, with its number of digits in `sig`.
pub record Exact (f : Fast) (v : ℕ) : Type 0 where
  pub is_open : f.open_yet ≡ true
  pub mant_is : f.mant ≡ v
  pub sig_le : f.sig ≤ 19
  pub below : v < 10 ^ f.sig
  pub above : (f.sig ≡ 0) ⊎ (10 ^ f.sig ≤ 10 * v)

-- The fast way is closed, and the value has more than nineteen digits.
pub record TooLong (f : Fast) (v : ℕ) : Type 0 where
  pub is_closed : f.open_yet ≡ false
  pub long : 10 ^ 19 ≤ v

abbrev pub Tracks : Fast → ℕ → Type 0
Tracks f v = Exact f v ⊎ TooLong f v

int_digits_step :
    (f : Fast) (c : ℕ) (rest : Bytes)
    → IsDigit c
    → int_digits f (c ∷ rest) ≡ int_digits (fast_digit f (c - b'0')) rest
unfolding int_digits
int_digits_step f c rest h = ground arith

pow_step : (k : ℕ) → 10 ^ (k + 1) ≡ 10 ^ k * 10
pow_step k = rw add-one (pow-suc 10 k)

pow_le_19 : (k : ℕ) → k ≤ 19 → 10 ^ k ≤ 10 ^ 19
pow_le_19 k h = pow-le-pow_right (omega arith) h

fast_digit_skip : (f : Fast) → f.sig ≡ 0 → fast_digit f 0 ≡ f
unfolding fast_digit
fast_digit_skip f z = ground arith

fast_digit_room :
    (f : Fast) (d : ℕ)
    → f.sig < 19
    → (f.sig ≢ 0) ⊎ (d ≢ 0)
    → fast_digit f d ≡ record f { mant = (f.mant * 10 + d) % u64_mod; sig = f.sig + 1 }
unfolding fast_digit
fast_digit_room f d r (inl h) = ground arith
fast_digit_room f d r (inr h) = ground arith

fast_digit_full : (f : Fast) (d : ℕ) → 19 ≤ f.sig → fast_digit f d ≡ record f { open_yet = false }
unfolding fast_digit
fast_digit_full f d r = ground arith

Exact-room :
    (f : Fast) (v d : ℕ)
    → d ≤ 9
    → f.sig < 19
    → (f.sig ≢ 0) ⊎ (d ≢ 0)
    → Exact f v
    → Exact (record f { mant = (f.mant * 10 + d) % u64_mod; sig = f.sig + 1 }) (v * 10 + d)
Exact-room f v d h r n x =
    let grown : 10 ^ (f.sig + 1) ≡ 10 ^ f.sig * 10 = pow_step f.sig in
    let bound : 10 ^ (f.sig + 1) ≤ 10 ^ 19 = pow_le_19 (f.sig + 1) (omega arith) in
    let fits : v * 10 + d < 10 ^ (f.sig + 1) = omega (arith, x.below) in
    record {
      is_open = x.is_open;
      mant_is = omega (arith, x.mant_is);
      sig_le = omega arith;
      below = fits;
      above = inr (lower n x.above);
    }
  where
    lower :
        (f.sig ≢ 0) ⊎ (d ≢ 0)
        → (f.sig ≡ 0) ⊎ (10 ^ f.sig ≤ 10 * v)
        → 10 ^ (f.sig + 1) ≤ 10 * (v * 10 + d)
    lower (inl m) (inl z) = absurd (m z)
    lower (inr m) (inl z) = rw z (omega arith)
    lower _ (inr a) = omega (arith, pow_step f.sig)

fast_digit-Exact : (f : Fast) (v d : ℕ) → d ≤ 9 → Exact f v → Tracks (fast_digit f d) (v * 10 + d)
fast_digit-Exact f v d h x = elim (dec_lt f.sig 19) [
  | yes r ↦ elim (ℕ_discrete f.sig 0) [
    | no n ↦ rw (fast_digit_room f d r (inl n)) (inl (Exact-room f v d h r (inl n) x))
    | yes z ↦ elim (ℕ_discrete d 0) [
      | no n ↦ rw (fast_digit_room f d r (inr n)) (inl (Exact-room f v d h r (inr n) x))
      | yes e ↦
          rw (e, fast_digit_skip f z)
            (inl (let none_yet : v < 10 ^ 0 = rw z at x.below in subst (Exact f) (omega arith) x))
    ]
  ]
  | no n ↦
      rw (fast_digit_full f d (omega arith))
        (inr (record { is_closed = refl; long = long_at f.sig (omega arith) x.above }))
]
  where
    long_at : (k : ℕ) → k ≡ 19 → (k ≡ 0) ⊎ (10 ^ k ≤ 10 * v) → 10 ^ 19 ≤ v * 10 + d
    long_at k e (inl z) = absurd (omega arith)
    long_at k e (inr a) = let a' : 10 ^ 19 ≤ 10 * v = rw e at a in omega arith

fast_digit-TooLong : (f : Fast) (v d : ℕ) → TooLong f v → TooLong (fast_digit f d) (v * 10 + d)
fast_digit-TooLong f v d t = record {
  is_closed = unfold fast_digit in ground (arith, t.is_closed);
  long = omega (arith, t.long);
}

pub fast_digit-Tracks :
    (f : Fast) (v d : ℕ) → d ≤ 9 → Tracks f v → Tracks (fast_digit f d) (v * 10 + d)
fast_digit-Tracks f v d h (inl x) = fast_digit-Exact f v d h x
fast_digit-Tracks f v d h (inr t) = inr (fast_digit-TooLong f v d t)

pub fast_start-Exact : Exact fast_start 0
fast_start-Exact = record {
  is_open = refl;
  mant_is = refl;
  sig_le = omega arith;
  below = omega arith;
  above = inl refl;
}

-- The loop over the digits stops behind them, and its mantissa tracks their value.
pub int_digits-Tracks :
    (digits rest : Bytes) (f : Fast) (v : ℕ)
    → All IsDigit digits
    → starts_digit rest ≡ false
    → Tracks f v
    → (f' : Fast) × (int_digits f (digits ++ rest) ≡ (f', rest)) × Tracks f' (value_from v digits)
unfolding int_digits
int_digits-Tracks [] [] f v h n t = (f, refl, t)
int_digits-Tracks [] (c ∷ rest) f v h n t = (f, rw n refl, t)
int_digits-Tracks (c ∷ digits) rest f v h n t =
    let (f', e, t') =
      int_digits-Tracks digits rest (fast_digit f (c - b'0')) (v * 10 + (c - b'0')) h.1 n
        (fast_digit-Tracks f v (c - b'0') (omega arith) t) in
    (f', int_digits_step f c (digits ++ rest) h.0 ∙ e, t')
