-- ===== src/Text/Str/Unit.antt =====
-- One round of the first loop of json__parse_string, and what the second loop writes for it.
use s_json.Base.{
  ℕ, ◌+◌, ◌≤◌, ◌<◌, ◌≡◌, refl, sym, ap, ◌∙◌, subst, inl, inr, true, false, Bool-cases, [], ◌∷◌,
  ◌++◌, Bytes, IsByte, ◌==◌, length, take, drop, length-drop, take-append-drop, All, All-drop,
  arith,
}
use native.Mathlib.Decide.{dec_lt}
use s_json.Error.{Result, ok, err, ◌>>=◌, >>=-eq-ok}
use s_json.Text.Hash.{fnv_from}
use s_json.Text.Utf8.{utf8_decode, encode_utf8}
use s_json.Text.Utf8.Canonical.{IsScalar, encode_utf8-utf8_decode}
use s_json.Text.Str.{
  Scan, scan_unit, scan_escape, scan_multi, count_escape, write_unit, write_escape, quote,
  backslash,
}
use s_json.Text.Str.Loop.{written, before_rest, written_step, written_plain, written_high}
use s_json.Text.Str.Escape.{scan_escape-Escape, encode_low}

-- Between the inputs `bytes` and `rest` stands one character, which the second pass writes.
pub record Chunk (bytes rest chunk : Bytes) : Type 0 where
  pub cp : ℕ
  pub scalar : IsScalar cp
  pub encoded : chunk ≡ encode_utf8 cp
  pub writes : written bytes ≡ before_rest chunk (written rest)
  pub shorter : length rest < length bytes
  pub in_bytes : All IsByte bytes → All IsByte rest

-- A character that stands in the input as it is.
pub record Raw (bytes rest chunk : Bytes) (s s' : Scan) : Type 0 where
  pub splits : bytes ≡ chunk ++ rest
  pub hashed : s'.raw_hash ≡ fnv_from s.raw_hash chunk
  pub kept : s'.has_escape ≡ s.has_escape

pub record UnitStep (bytes rest chunk : Bytes) (s s' : Scan) : Type 0 where
  pub chunk_is : Chunk bytes rest chunk
  pub counts : s'.out_len ≡ s.out_len + length chunk
  pub raw : s'.has_escape ≡ false → Raw bytes rest chunk s s'

-- A round at a backslash.
scan_unit-escape :
    (s s' : Scan) (c : ℕ) (rest rest' : Bytes)
    → (c == backslash) ≡ true
    → scan_unit s c rest ≡ ok (s', rest')
    → (chunk : Bytes) × UnitStep (c ∷ rest) rest' chunk s s'
scan_unit-escape s s' c rest rest' h e =
    let bound : (scan_escape rest >>= count_escape s) ≡ ok (s', rest') =
      unfold scan_unit in ground arith in
    let ((n, r), scanned, done) = >>=-eq-ok (scan_escape rest) (count_escape s) bound in
    let x = scan_escape-Escape rest r n scanned in
    let unit : write_unit c rest ≡ write_escape rest = unfold write_unit in ground arith in
    let same : r ≡ rest' = ground arith in
    (
      encode_utf8 x.cp,
      record {
        chunk_is = record {
          cp = x.cp;
          scalar = x.scalar;
          encoded = refl;
          writes =
              written_step c rest (ground arith)
              ∙ ap (λ (p : Bytes × Bytes). before_rest p.0 (written p.1)) (unit ∙ x.writes)
              ∙ ap (λ (y : Bytes). before_rest (encode_utf8 x.cp) (written y)) same;
          shorter = ground (arith, x.shorter);
          in_bytes = λ b. subst (All IsByte) (ground arith) (x.in_bytes b.1);
        };
        counts = ground (arith, x.counts);
        raw = λ k. ground arith;
      },
    )

high_bytes : (cp : ℕ) → 0x80 ≤ cp → All (λ b. 0x80 ≤ b) (encode_utf8 cp)
unfolding encode_utf8
high_bytes cp h = ground arith

head_high :
    (cp c : ℕ) (rest rest' : Bytes) → 0x80 ≤ c → c ∷ rest ≡ encode_utf8 cp ++ rest' → 0x80 ≤ cp
unfolding encode_utf8
head_high cp c rest rest' h e = ground arith

-- A round at a character of several bytes.
scan_multi-step :
    (s s' : Scan) (c : ℕ) (rest rest' : Bytes) (cp count : ℕ)
    → 0x80 ≤ c
    → All IsByte (c ∷ rest)
    → utf8_decode (c ∷ rest) ≡ ok (cp, count)
    → scan_multi s (c ∷ rest) (ok (cp, count)) ≡ ok (s', rest')
    → (chunk : Bytes) × UnitStep (c ∷ rest) rest' chunk s s'
scan_multi-step s s' c rest rest' cp count h b d e =
    let bytes = c ∷ rest in
    let canonical = encode_utf8-utf8_decode bytes cp count b d in
    let rest_is : drop count bytes ≡ rest' = unfold scan_multi in ground arith in
    let splits : bytes ≡ encode_utf8 cp ++ rest' =
      rw (canonical.encoded, ← rest_is) (sym (take-append-drop count bytes)) in
    let high = high_bytes cp (head_high cp c rest rest' h splits) in
    let hash_is : s'.raw_hash ≡ fnv_from s.raw_hash (take count bytes) =
      unfold scan_multi in ground arith in
    (
      encode_utf8 cp,
      record {
        chunk_is = record {
          cp = cp;
          scalar = canonical.scalar;
          encoded = refl;
          writes = ap written splits ∙ written_high (encode_utf8 cp) rest' high;
          shorter = omega (
            arith,
            ap (λ (x : Bytes). length x) rest_is,
            length-drop count bytes,
            canonical.positive,
          );
          in_bytes = λ k. subst (All IsByte) rest_is (All-drop IsByte count bytes k);
        };
        counts = unfold scan_multi in ground (arith, canonical.measured);
        raw = λ k. record {
          splits = splits;
          hashed = hash_is ∙ ap (fnv_from s.raw_hash) (sym canonical.encoded);
          kept = unfold scan_multi in ground arith;
        };
      },
    )

-- A round at a character of one byte.
scan_unit-plain :
    (s s' : Scan) (c : ℕ) (rest rest' : Bytes)
    → (c == quote) ≡ false
    → (c == backslash) ≡ false
    → c < 0x80
    → scan_unit s c rest ≡ ok (s', rest')
    → (chunk : Bytes) × UnitStep (c ∷ rest) rest' chunk s s'
scan_unit-plain s s' c rest rest' q h low e =
    let rest_is : rest ≡ rest' = unfold scan_unit in ground arith in
    (
      c ∷ [],
      record {
        chunk_is = record {
          cp = c;
          scalar = inl (omega arith);
          encoded = sym (encode_low c low);
          writes =
              written_plain c rest q h
              ∙ ap (λ (y : Bytes). before_rest (c ∷ []) (written y)) rest_is;
          shorter = ground arith;
          in_bytes = λ b. subst (All IsByte) rest_is b.1;
        };
        counts = unfold scan_unit in ground arith;
        raw = λ k. record {
          splits = ap (◌∷◌ c) rest_is;
          hashed = unfold scan_unit fnv_from in ground arith;
          kept = unfold scan_unit in ground arith;
        };
      },
    )

scan_unit-multi :
    (s : Scan) (c : ℕ) (rest : Bytes)
    → (c == backslash) ≡ false
    → 0x80 ≤ c
    → scan_unit s c rest ≡ scan_multi s (c ∷ rest) (utf8_decode (c ∷ rest))
unfolding scan_unit
scan_unit-multi s c rest h high = ground arith

scan_multi-decoded :
    (s s' : Scan) (c : ℕ) (rest rest' : Bytes) (decoded : Result (ℕ × ℕ))
    → 0x80 ≤ c
    → All IsByte (c ∷ rest)
    → utf8_decode (c ∷ rest) ≡ decoded
    → scan_multi s (c ∷ rest) decoded ≡ ok (s', rest')
    → (chunk : Bytes) × UnitStep (c ∷ rest) rest' chunk s s'
scan_multi-decoded s s' c rest rest' (err x) h b d e = absurd (unfold scan_multi in ground arith)
scan_multi-decoded s s' c rest rest' (ok (cp, count)) h b d e =
    scan_multi-step s s' c rest rest' cp count h b d e

-- A round of the first loop that succeeds goes over one character, for which the second loop writes as
-- many bytes as the first has counted.
pub scan_unit-UnitStep :
    (s s' : Scan) (c : ℕ) (rest rest' : Bytes)
    → All IsByte (c ∷ rest)
    → (c == quote) ≡ false
    → scan_unit s c rest ≡ ok (s', rest')
    → (chunk : Bytes) × UnitStep (c ∷ rest) rest' chunk s s'
scan_unit-UnitStep s s' c rest rest' b q e = elim (Bool-cases (c == backslash)) [
  | inl h ↦ scan_unit-escape s s' c rest rest' h e
  | inr h ↦ elim (dec_lt c 0x80) [
    | yes low ↦ scan_unit-plain s s' c rest rest' q h low e
    | no high ↦
        scan_multi-decoded s s' c rest rest' _ (omega arith) b refl
          (sym (scan_unit-multi s c rest h (omega arith)) ∙ e)
  ]
]
