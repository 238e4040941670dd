-- ===== src/Text/Str/Passes.antt =====
-- The two passes of json__parse_string agree.
use s_json.Base.{
  ℕ, zero, suc, ◌+◌, ◌≡◌, refl, sym, ap, ◌∙◌, subst, ◌⊎◌, inl, inr, true, false, Bool-cases, [],
  ◌∷◌, ◌++◌, append_assoc, Bytes, IsByte, ◌==◌, length, length-append, All, arith,
}
use s_json.Error.{Result, ok, ◌>>=◌, >>=-eq-ok}
use s_json.Text.Hash.{fnv_from, fnv_from-append}
use s_json.Text.Utf8.{encode_utf8}
use s_json.Text.Utf8.Canonical.{IsScalar}
use s_json.Text.Str.{Scan, scan, scan_unit, quote}
use s_json.Text.Str.Loop.{written, before_rest, written-quote}
use s_json.Text.Str.Unit.{UnitStep, scan_unit-UnitStep}

-- A text that is a sequence of encoded scalar values.
pub data IsUtf8 : Bytes → Type 0 where
  no_text : IsUtf8 []
  char :
      {text bytes : Bytes} (cp : ℕ)
      → IsScalar cp
      → bytes ≡ encode_utf8 cp ++ text
      → IsUtf8 text
      → IsUtf8 bytes

-- The text stands in the input as it is, and the hash was made on the way.
pub record Verbatim (bytes text end : Bytes) (s s' : Scan) : Type 0 where
  pub splits : bytes ≡ text ++ end
  pub hashed : s'.raw_hash ≡ fnv_from s.raw_hash text
  pub kept : s'.has_escape ≡ s.has_escape

-- The first pass ran over `text`, up to a quote, and the second pass writes it.
pub record Agree (bytes text end : Bytes) (s s' : Scan) : Type 0 where
  pub writes : written bytes ≡ (text, end)
  pub counts : s'.out_len ≡ s.out_len + length text
  pub utf8 : IsUtf8 text
  pub rest : Bytes
  pub closed : end ≡ quote ∷ rest
  pub verbatim : s'.has_escape ≡ false → Verbatim bytes text end s s'

Agree-cons :
    (bytes mid end chunk text : Bytes) (s t s' : Scan)
    → UnitStep bytes mid chunk s t
    → Agree mid text end t s'
    → Agree bytes (chunk ++ text) end s s'
Agree-cons bytes mid end chunk text s t s' u a = record {
  writes = u.chunk_is.writes ∙ ap (before_rest chunk) a.writes;
  counts = omega (arith, u.counts, a.counts, length-append chunk text);
  utf8 =
      char u.chunk_is.cp u.chunk_is.scalar (ap (λ (c : Bytes). c ++ text) u.chunk_is.encoded)
        a.utf8;
  rest = a.rest;
  closed = a.closed;
  verbatim = λ k.
      let v = a.verbatim k in
      let r = u.raw (sym v.kept ∙ k) in
      record {
        splits =
            r.splits ∙ ap (λ (m : Bytes). chunk ++ m) v.splits ∙ sym (append_assoc chunk text end);
        hashed =
            v.hashed
            ∙ ap (λ (h : ℕ). fnv_from h text) r.hashed
            ∙ sym (fnv_from-append s.raw_hash chunk text);
        kept = v.kept ∙ r.kept;
      };
}

Agree-quote :
    (c : ℕ) (bytes end : Bytes) (s s' : Scan)
    → (c == quote) ≡ true
    → ◌≡◌ {A = Result (Scan × Bytes)} (ok (s, c ∷ bytes)) (ok (s', end))
    → Agree (c ∷ bytes) [] end s s'
Agree-quote c bytes end s s' h e =
    let same : c ≡ quote = ground arith in
    let end_is : c ∷ bytes ≡ end = ground arith in
    record {
      writes =
          subst (λ (x : ℕ). written (x ∷ bytes) ≡ ([], x ∷ bytes)) (sym same) (written-quote bytes)
          ∙ ap (λ (x : Bytes). ([], x)) end_is;
      counts = ground arith;
      utf8 = no_text;
      rest = bytes;
      closed = ground arith;
      verbatim = λ k. record {
        splits = end_is;
        hashed = unfold fnv_from in ground arith;
        kept = ground arith;
      };
    }

scan-quote :
    (fuel : ℕ) (s : Scan) (c : ℕ) (rest : Bytes)
    → (c == quote) ≡ true
    → scan (suc fuel) s (c ∷ rest) ≡ ok (s, c ∷ rest)
unfolding scan
scan-quote fuel s c rest h = rw h refl

scan-unit :
    (fuel : ℕ) (s : Scan) (c : ℕ) (rest : Bytes)
    → (c == quote) ≡ false
    → scan (suc fuel) s (c ∷ rest) ≡ (scan_unit s c rest >>= λ p. scan fuel p.0 p.1)
unfolding scan
scan-unit fuel s c rest h = rw h refl

-- Where the first pass succeeds, the second writes exactly the bytes that it counted, and both end at
-- the same closing quote; what is written is a sequence of encoded scalar values.
pub scan-Agree :
    (fuel : ℕ) (bytes end : Bytes) (s s' : Scan)
    → All IsByte bytes
    → scan fuel s bytes ≡ ok (s', end)
    → (text : Bytes) × Agree bytes text end s s'
scan-Agree fuel [] end s s' b e = absurd (unfold scan in ground arith)
scan-Agree zero (c ∷ bytes) end s s' b e = absurd (unfold scan in ground arith)
scan-Agree (suc fuel) (c ∷ bytes) end s s' b e = step (Bool-cases (c == quote)) (scan-Agree fuel)
  where
    step :
        ((c == quote) ≡ true) ⊎ ((c == quote) ≡ false)
        → ((mid end : Bytes) (t s' : Scan)
            → All IsByte mid
            → scan fuel t mid ≡ ok (s', end)
            → (text : Bytes) × Agree mid text end t s')
        → (text : Bytes) × Agree (c ∷ bytes) text end s s'
    step (inl h) ih = ([], Agree-quote c bytes end s s' h (sym (scan-quote fuel s c bytes h) ∙ e))
    step (inr h) ih =
        let bound = sym (scan-unit fuel s c bytes h) ∙ e in
        let ((t, mid), unit, later) =
          >>=-eq-ok (scan_unit s c bytes) (λ p. scan fuel p.0 p.1) bound in
        let (chunk, u) = scan_unit-UnitStep s t c bytes mid b h unit in
        let (text, a) = ih mid end t s' (u.chunk_is.in_bytes b) later in
        (chunk ++ text, Agree-cons _ _ _ _ _ _ _ _ u a)
