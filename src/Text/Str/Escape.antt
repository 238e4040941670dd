-- ===== src/Text/Str/Escape.antt =====
-- The escapes of json__parse_string: both passes read the same character.
use s_json.Base.{
  ℕ, ◌+◌, ◌-◌, ◌*◌, ◌≤◌, ◌<◌, ◌≡◌, refl, sym, ap, ◌∙◌, subst, inl, inr, true, false, Bool-cases, [],
  ◌∷◌, none, some, Option-cases, Bytes, IsByte, if◌then◌else◌, length, drop, length-drop, All,
  All-drop, arith, ltb, within,
}
use s_json.Error.{ok}
use s_json.Text.Hex.{parse_hex4}
use s_json.Text.Hex.Value.{parse_hex4_bounds}
use s_json.Text.Utf8.{encode_utf8}
use s_json.Text.Utf8.Canonical.{IsScalar}
use s_json.Text.Str.{
  scan_escape, scan_unicode, scan_code, scan_low, simple_escape, write_escape, write_unicode,
  hex4_again,
}

-- The escapes, behind the backslash.
pub record Escape (rest rest' : Bytes) (n : ℕ) : Type 0 where
  pub cp : ℕ
  pub scalar : IsScalar cp
  pub writes : write_escape rest ≡ (encode_utf8 cp, rest')
  pub counts : length (encode_utf8 cp) ≡ n
  pub shorter : length rest' < length rest
  pub in_bytes : All IsByte rest → All IsByte rest'

scan_low-Pair :
    (hi : ℕ) (rest rest' : Bytes) (n : ℕ)
    → 0xD800 ≤ hi
    → hi ≤ 0xDBFF
    → scan_low rest ≡ ok (n, rest')
    → (lo : ℕ) × (parse_hex4 (drop 2 rest) ≡ some lo)
      × (0xDC00 ≤ lo)
      × (lo ≤ 0xDFFF)
      × (n ≡ 4)
      × (rest' ≡ drop 4 (drop 2 rest))
      × (6 ≤ length rest)
unfolding scan_low
scan_low-Pair hi [] rest' n p q e = cc
scan_low-Pair hi (b ∷ []) rest' n p q e = cc
scan_low-Pair hi (b ∷ u ∷ rest) rest' n p q e = elim (Option-cases (parse_hex4 rest)) [
  | inl h ↦ ground arith
  | inr (lo, h) ↦ (
    lo,
    h,
    ground arith,
    ground arith,
    ground arith,
    ground arith,
    ground (arith, parse_hex4_bounds rest h),
  )
]

-- The second pass reads the same digits as the first.
hex4_again-some : (rest : Bytes) (v : ℕ) → parse_hex4 rest ≡ some v → hex4_again rest ≡ v
unfolding hex4_again
hex4_again-some rest v h = rw (h, hex4_again) refl

length-single :
    (hi : ℕ)
    → hi < 0x10000
    → length (encode_utf8 hi) ≡ (if ltb hi 0x80 then 1 else if ltb hi 0x800 then 2 else 3)
unfolding encode_utf8
length-single hi h = ground arith

length-pair : (cp : ℕ) → 0x10000 ≤ cp → cp ≤ 0x10FFFF → length (encode_utf8 cp) ≡ 4
unfolding encode_utf8
length-pair cp p q = ground arith

record Unicode (rest rest' : Bytes) (n : ℕ) : Type 0 where
  cp : ℕ
  scalar : IsScalar cp
  writes : write_unicode rest ≡ (encode_utf8 cp, rest')
  counts : length (encode_utf8 cp) ≡ n
  shorter : length rest' ≤ length rest
  in_bytes : All IsByte rest → All IsByte rest'

scan_code-single :
    (rest rest' : Bytes) (hi n : ℕ)
    → parse_hex4 rest ≡ some hi
    → within 0xD800 0xDBFF hi ≡ false
    → scan_code hi (drop 4 rest) ≡ ok (n, rest')
    → Unicode rest rest' n
unfolding scan_code write_unicode
scan_code-single rest rest' hi n h k e =
    let bound = (parse_hex4_bounds rest h).0 in
    record {
      cp = hi;
      scalar = ground arith;
      writes = ground (arith, hex4_again-some rest hi h);
      counts = length-single hi bound ∙ ground arith;
      shorter = ground (arith, length-drop 4 rest);
      in_bytes = λ b. subst (All IsByte) (ground arith) (All-drop IsByte 4 rest b);
    }

scan_code-paired :
    (hi : ℕ) (rest : Bytes) → within 0xD800 0xDBFF hi ≡ true → scan_code hi rest ≡ scan_low rest
unfolding scan_code
scan_code-paired hi rest k = rw k refl

scan_code-pair :
    (rest rest' : Bytes) (hi n : ℕ)
    → parse_hex4 rest ≡ some hi
    → within 0xD800 0xDBFF hi ≡ true
    → scan_code hi (drop 4 rest) ≡ ok (n, rest')
    → Unicode rest rest' n
scan_code-pair rest rest' hi n h k e =
    let low = sym (scan_code-paired hi (drop 4 rest) k) ∙ e in
    let (lo, l, lo_ge, lo_le, n_is, rest_is, _) =
      scan_low-Pair hi (drop 4 rest) rest' n (ground arith) (ground arith) low in
    record {
      cp = 0x10000 + (hi - 0xD800) * 1024 + (lo - 0xDC00);
      scalar = inr (ground arith);
      writes =
          unfold write_unicode in
          ground (arith, hex4_again-some rest hi h, hex4_again-some (drop 2 (drop 4 rest)) lo l);
      counts = length-pair _ (ground arith) (ground arith) ∙ sym n_is;
      shorter = omega (
        arith,
        ap (λ (x : Bytes). length x) rest_is,
        length-drop 4 rest,
        length-drop 2 (drop 4 rest),
        length-drop 4 (drop 2 (drop 4 rest)),
      );
      in_bytes = λ b.
          subst (All IsByte) (sym rest_is)
            (All-drop IsByte 4 _ (All-drop IsByte 2 _ (All-drop IsByte 4 rest b)));
    }

scan_unicode-Unicode :
    (rest rest' : Bytes) (n : ℕ) → scan_unicode rest ≡ ok (n, rest') → Unicode rest rest' n
scan_unicode-Unicode rest rest' n e = elim (Option-cases (parse_hex4 rest)) [
  | inl h ↦ absurd (unfold scan_unicode in ground arith)
  | inr (hi, h) ↦
      let code : scan_code hi (drop 4 rest) ≡ ok (n, rest') = unfold scan_unicode in ground arith in
      elim (Bool-cases (within 0xD800 0xDBFF hi)) [
        | inl k ↦ scan_code-pair rest rest' hi n h k code
        | inr k ↦ scan_code-single rest rest' hi n h k code
      ]
]

simple_escape-lt : (e v : ℕ) → simple_escape e ≡ some v → v < 0x80
unfolding simple_escape
simple_escape-lt e v h = ground arith

pub encode_low : (v : ℕ) → v < 0x80 → encode_utf8 v ≡ v ∷ []
unfolding encode_utf8
encode_low v h = ground arith

scan_escape-simple :
    (e : ℕ) (rest rest' : Bytes) (n v : ℕ)
    → simple_escape e ≡ some v
    → scan_escape (e ∷ rest) ≡ ok (n, rest')
    → Escape (e ∷ rest) rest' n
unfolding scan_escape write_escape
scan_escape-simple e rest rest' n v h k =
    let low = simple_escape-lt e v h in
    record {
      cp = v;
      scalar = inl (omega arith);
      writes = rw (encode_low v low) (ground arith);
      counts = rw (encode_low v low) (ground arith);
      shorter = ground arith;
      in_bytes = λ b. subst (All IsByte) (ground arith) b.1;
    }

scan_escape-unicode :
    (e : ℕ) (rest rest' : Bytes) (n : ℕ)
    → simple_escape e ≡ none
    → scan_escape (e ∷ rest) ≡ ok (n, rest')
    → (scan_unicode rest ≡ ok (n, rest')) × (write_escape (e ∷ rest) ≡ write_unicode rest)
scan_escape-unicode e rest rest' n h k =
    (unfold scan_escape in ground arith, unfold scan_escape write_escape in ground arith)

pub scan_escape-Escape :
    (rest rest' : Bytes) (n : ℕ) → scan_escape rest ≡ ok (n, rest') → Escape rest rest' n
scan_escape-Escape [] rest' n k = absurd (unfold scan_escape in ground arith)
scan_escape-Escape (e ∷ rest) rest' n k = elim (Option-cases (simple_escape e)) [
  | inr (v, h) ↦ scan_escape-simple e rest rest' n v h k
  | inl h ↦
      let (scanned, writes) = scan_escape-unicode e rest rest' n h k in
      let u = scan_unicode-Unicode rest rest' n scanned in
      record {
        cp = u.cp;
        scalar = u.scalar;
        writes = writes ∙ u.writes;
        counts = u.counts;
        shorter = omega (arith, u.shorter);
        in_bytes = λ b. u.in_bytes b.1;
      }
]
