-- ===== src/Parser/Memory.antt =====
-- What every allocation keeps of the arena, json_parse keeps.
use s_json.Base.{
  ℕ, ◌+◌, ◌*◌, ◌/◌, ◌%◌, Bool, not, ◌||◌, Option, none, some, Bytes, length, ltb, leb, ◌==◌,
  if-cases, if◌then◌else◌, u64_mod,
}
use s_json.Error.{Result, ok, err}
use s_json.Arena.{Arena, Region, arena_alloc}
use s_json.Text.Str.{Scan, max_string_len, parse_string, scan, scan_start, after_scan, build_string}
use s_json.Number.{
  Fpu, Number, fval, Parts, parse_number, finish_number, float_number, with_rest, number_parts,
  minus_sign, int_number, consumed, fast_float_from_parts,
}
use s_json.Value.{grow, capped, doubled, max_array_len}

module _ {κ} (P : Arena → Type κ) (alloc : (a : Arena) (n : ℕ) → P a → P (arena_alloc a n).1) where
  -- The arena that a call leaves has the property.
  Kept : {A : Type 0} → A × Arena → Type κ
  Kept r = P r.1

  kept : {A : Type 0} (r : A × Arena) → P r.1 → Kept r
  unfolding Kept
  kept r h = h

  kept_arena : {A : Type 0} (r : A × Arena) → Kept r → P r.1
  unfolding Kept
  kept_arena r h = h

  -- A branch on what an allocation gives.
  region-Kept :
      {A : Type 0} (r : Option Region) (x y : A × Arena)
      → Kept x
      → Kept y
      → let out : A × Arena = elim r [ none ↦ x | some _ ↦ y ] in Kept out
  region-Kept none x y p q = p
  region-Kept (some _) x y p q = q

  build_string-Kept : (a : Arena) (start : Bytes) (s : Scan) → P a → Kept (build_string a start s)
  unfolding build_string
  build_string-Kept a start s h =
      if-cases Kept (ltb max_string_len s.out_len) _ _ (λ _. kept _ h)
        λ _.
          if-cases Kept (s.out_len == 0) _ _ (λ _. kept _ h)
            λ _.
              region-Kept (arena_alloc a s.out_len).0 _ _ (kept _ (alloc a s.out_len h))
                (kept _ (alloc a s.out_len h))

  after_scan-Kept :
      (a : Arena) (start : Bytes) (r : Result (Scan × Bytes)) → P a → Kept (after_scan a start r)
  unfolding after_scan
  after_scan-Kept a start (err e) h = kept _ h
  after_scan-Kept a start (ok (s, _)) h = build_string-Kept a start s h

  parse_string-Kept : (a : Arena) (start : Bytes) → P a → Kept (parse_string a start)
  unfolding parse_string
  parse_string-Kept a start h = after_scan-Kept a start (scan (length start) scan_start start) h

  fast-Kept :
      (a : Arena) (f : Option ℕ) (exact : Result Number × Arena)
      → P a
      → Kept exact
      → let out : Result Number × Arena = elim f [ some v ↦ (ok (fval v), a) | none ↦ exact ] in
        Kept out
  fast-Kept a none exact h q = q
  fast-Kept a (some v) exact h q = kept _ h

  float_number-Kept :
      (fpu : Fpu) (a : Arena) (neg : Bool) (p : Parts) (text : Bytes)
      → P a
      → Kept (float_number fpu a neg p text)
  unfolding float_number
  float_number-Kept fpu a neg p text h =
      fast-Kept a
        (if p.fast.open_yet
          then fast_float_from_parts fpu p.fast.mant p.fast.sig p.exp10 neg
          else none)
        _ h
        (if-cases Kept (leb 64 (length text)) _ _
          (λ _.
            region-Kept (arena_alloc a (length text + 1)).0 _ _ (kept _ (alloc a _ h))
              (kept _ (alloc a _ h)))
          (λ _. kept _ h))

  with_rest-Kept : (rest : Bytes) (r : Result Number × Arena) → Kept r → Kept (with_rest rest r)
  with_rest-Kept rest (ok n, a) h = kept _ (kept_arena (_, a) h)
  with_rest-Kept rest (err e, a) h = kept _ (kept_arena (_, a) h)

  finish_number-Kept :
      (fpu : Fpu) (a : Arena) (start : Bytes) (neg : Bool) (r : Result (Parts × Bytes))
      → P a
      → Kept (finish_number fpu a start neg r)
  unfolding finish_number
  finish_number-Kept fpu a start neg (err e) h = kept _ h
  finish_number-Kept fpu a start neg (ok (p, rest)) h =
      if-cases Kept p.is_float _ _
        (λ _. with_rest-Kept rest _ (float_number-Kept fpu a neg p (consumed start rest) h))
        (λ _. with_rest-Kept rest (int_number neg p.fast, a) (kept _ h))

  parse_number-Kept :
      (fpu : Fpu) (a : Arena) (start : Bytes) → P a → Kept (parse_number fpu a start)
  unfolding parse_number
  parse_number-Kept fpu a start h =
      finish_number-Kept fpu a start (minus_sign start).0 (number_parts (minus_sign start).1) h

  grow-Kept : (size : ℕ) (a : Arena) (cap : ℕ) → P a → Kept (grow size a cap)
  unfolding grow
  grow-Kept size a cap h =
      let new_cap = capped (doubled cap) in
      if-cases Kept
        (ltb (doubled cap) cap
          || leb max_array_len cap
          || not (new_cap * size % u64_mod / size == new_cap))
        _ _ (λ _. kept _ h)
        λ _.
          region-Kept (arena_alloc a (capped (doubled cap) * size % u64_mod)).0 _ _
            (kept _ (alloc a _ h)) (kept _ (alloc a _ h))

  pub parse_string-keeps : (a : Arena) (start : Bytes) → P a → P (parse_string a start).1
  parse_string-keeps a start h = kept_arena (parse_string a start) (parse_string-Kept a start h)

  pub parse_number-keeps :
      (fpu : Fpu) (a : Arena) (start : Bytes) → P a → P (parse_number fpu a start).1
  parse_number-keeps fpu a start h =
      kept_arena (parse_number fpu a start) (parse_number-Kept fpu a start h)

  pub grow-keeps : (size : ℕ) (a : Arena) (cap : ℕ) → P a → P (grow size a cap).1
  grow-keeps size a cap h = kept_arena (grow size a cap) (grow-Kept size a cap h)
