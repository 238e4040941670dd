-- ===== src/Text/Str/Loop.antt =====
-- The second loop of json__parse_string: it shortens the input, so its fuel does not matter.
use s_json.Base.{
  ℕ, zero, suc, ◌≤◌, ◌≡◌, refl, ap, ◌∙◌, false, [], ◌∷◌, ◌++◌, Bytes, ◌==◌, length, drop,
  length-drop, All, arith,
}
use s_json.Text.Str.{write_unit, write_escape, write_unicode, write_loop, quote, backslash}

length-write_unicode : (rest : Bytes) → length (write_unicode rest).1 ≤ length rest
unfolding write_unicode
length-write_unicode rest =
    ground
      (arith, length-drop 4 rest, length-drop 2 (drop 4 rest), length-drop 4 (drop 2 (drop 4 rest)))

pub length-write_unit : (c : ℕ) (rest : Bytes) → length (write_unit c rest).1 ≤ length rest
unfolding write_unit write_escape
length-write_unit c [] = ground arith
length-write_unit c (e ∷ rest) = ground (arith, length-write_unicode rest)

write_loop_fuel :
    (f g : ℕ) (bytes : Bytes)
    → length bytes ≤ f
    → length bytes ≤ g
    → write_loop f bytes ≡ write_loop g bytes
unfolding write_loop
write_loop_fuel zero zero bytes p q = refl
write_loop_fuel f g [] p q = ground arith
write_loop_fuel zero (suc g) (c ∷ rest) p q = absurd (omega arith)
write_loop_fuel (suc f) zero (c ∷ rest) p q = absurd (omega arith)
write_loop_fuel (suc f) (suc g) (c ∷ rest) p q =
    let short = length-write_unit c rest in
    let same = write_loop_fuel f g (write_unit c rest).1 (omega arith) (omega arith) in
    ground (arith, same)

-- What the second pass makes of an input.
abbrev pub written : Bytes → Bytes × Bytes
written bytes = write_loop (length bytes) bytes

-- A chunk of output in front of what the rest gives.
abbrev pub before_rest : Bytes → Bytes × Bytes → Bytes × Bytes
before_rest chunk (text, end) = (chunk ++ text, end)

pub written_step :
    (c : ℕ) (rest : Bytes)
    → (c == quote) ≡ false
    → written (c ∷ rest) ≡ before_rest (write_unit c rest).0 (written (write_unit c rest).1)
unfolding write_loop
written_step c rest h = rw h (
    ap (before_rest (write_unit c rest).0) (
      write_loop_fuel (length rest) _ (write_unit c rest).1 (length-write_unit c rest)
        (omega arith)))

pub written-quote : (rest : Bytes) → written (quote ∷ rest) ≡ ([], quote ∷ rest)
unfolding write_loop
written-quote rest = refl

write_unit_plain :
    (c : ℕ) (rest : Bytes) → (c == backslash) ≡ false → write_unit c rest ≡ (c ∷ [], rest)
unfolding write_unit
write_unit_plain c rest h = rw h refl

-- A byte that is no quote and no backslash is copied.
pub written_plain :
    (c : ℕ) (rest : Bytes)
    → (c == quote) ≡ false
    → (c == backslash) ≡ false
    → written (c ∷ rest) ≡ before_rest (c ∷ []) (written rest)
written_plain c rest q b = written_step c rest q ∙ rw (write_unit_plain c rest b) refl

-- Bytes of longer characters are copied as they are.
pub written_high :
    (high rest : Bytes)
    → All (λ b. 0x80 ≤ b) high
    → written (high ++ rest) ≡ before_rest high (written rest)
written_high [] rest h = refl
written_high (b ∷ high) rest h =
    written_plain b (high ++ rest) (ground arith) (ground arith)
    ∙ ap (before_rest (b ∷ [])) (written_high high rest h.1)
