-- ===== src/Writer/Within.antt =====
-- The primitives of the writer stay within the buffer.
use s_json.Base.{
  ℕ, zero, suc, ◌+◌, ◌-◌, ◌*◌, ◌%◌, ◌/◌, ◌≤◌, ◌≡◌, sym, subst, Bool, true, false, not, ◌&&◌, ◌||◌,
  [], ◌∷◌, ◌++◌, Option, none, some, Bytes, ltb, leb, ◌==◌, if◌then◌else◌, if-cases, length,
  length-append, length-replicate, replicate, take, drop, size_max, u64_mod, arith,
}
use s_json.Base.Int.{ℤ, pos, negsuc}
use s_json.Error.{json_ok, Result, ok, err}
use s_json.Text.Utf8.{utf8_decode}
use s_json.Number.{Fpu, is_special}
use s_json.Writer.{
  JsonWriter, Written, failed, print_double, ◌then_write◌, ◌or_too_small◌, jw_put, jw_puts,
  jw_indent, put_all, put_digits, put_abs, jw_int64, jw_double, u16_escape, byte_escape, put_char,
  put_byte, string_content, jw_string_content, has_dot, tmp_digits, reverse_onto,
}

-- The bytes written stand before `used`, with room for a NUL behind them; a measuring writer has none.
abbrev pub InBuffer : Bool → Bytes → ℕ → ℕ → Type 0
InBuffer true buf used cap = buf ≡ []
InBuffer false buf used cap = (length buf ≡ used) × (used ≤ cap - 1)

abbrev pub Within : ℕ → JsonWriter → Type 0
Within cap w = (w.cap ≡ cap) × InBuffer w.measure_only w.buf w.used cap

-- Code that leaves a writer within its buffer, whatever it reports.
abbrev pub Keeps : (JsonWriter → Written) → Type 0
Keeps f = (cap : ℕ) (w : JsonWriter) → Within cap w → Within cap (f w).0

abbrev pub Stays : (JsonWriter → JsonWriter) → Type 0
Stays f = (cap : ℕ) (w : JsonWriter) → Within cap w → Within cap (f w)

pub then_write-Within :
    (cap : ℕ) (r : Written) (g : JsonWriter → Written)
    → Within cap r.0
    → Keeps g
    → Within cap (r then_write g).0
then_write-Within cap (w, json_ok) g h k = k cap w h
then_write-Within cap (w, _) g h k = h

or_too_small-Within :
    (cap : ℕ) (r : Written) (g : JsonWriter → Written)
    → Within cap r.0
    → Keeps g
    → Within cap (r or_too_small g).0
or_too_small-Within cap (w, json_ok) g h k = k cap w h
or_too_small-Within cap (w, _) g h k = h

-- The bytes after what is there.
grows :
    (measuring : Bool) (buf bytes : Bytes) (used cap : ℕ)
    → InBuffer measuring buf used cap
    → measuring ≡ false
    → used + length bytes ≤ cap - 1
    → InBuffer measuring (buf ++ bytes) (used + length bytes) cap
grows true buf bytes used cap h m fits = cc
grows false buf bytes used cap (size, inside) m fits =
    (omega (arith, length-append buf bytes), fits)

counts :
    (measuring : Bool) (buf : Bytes) (used n cap : ℕ)
    → InBuffer measuring buf used cap
    → measuring ≡ true
    → InBuffer measuring buf (used + n) cap
counts true buf used n cap h m = h
counts false buf used n cap h m = cc

on_if :
    (cap : ℕ) (test : Bool) (x y : Written)
    → (test ≡ true → Within cap x.0)
    → (test ≡ false → Within cap y.0)
    → Within cap (if test then x else y).0
on_if cap test x y p q = if-cases (λ (r : Written). Within cap r.0) test x y p q

pub jw_put-Keeps : (c : ℕ) → Keeps (λ w. jw_put w c)
unfolding jw_put
jw_put-Keeps c cap w h =
    on_if cap (w.used == size_max) _ _ (λ _. h)
      λ _.
        on_if cap w.measure_only _ _ (λ m. (h.0, counts w.measure_only w.buf w.used 1 cap h.1 m))
          λ m.
            on_if cap (w.cap == 0 || leb (w.cap - 1) w.used) _ _ (λ _. h)
              λ room. (
                h.0,
                grows w.measure_only w.buf (c ∷ []) w.used cap h.1 m
                    (space w.cap w.used cap h.0 room),
              )
  where
    space :
        (have used cap : ℕ)
        → have ≡ cap
        → (have == 0 || leb (have - 1) used) ≡ false
        → used + 1 ≤ cap - 1
    space have used cap e room = ground arith

put_all-Keeps : (bytes : Bytes) → Keeps (λ w. put_all w bytes)
unfolding put_all
put_all-Keeps [] cap w h = h
put_all-Keeps (c ∷ bytes) cap w h =
    or_too_small-Within cap (jw_put w c) (λ w'. put_all w' bytes) (jw_put-Keeps c cap w h)
      (put_all-Keeps bytes)

pub jw_puts-Keeps : (bytes : Bytes) → Keeps (λ w. jw_puts w bytes)
unfolding jw_puts
jw_puts-Keeps bytes cap w h =
    on_if cap (ltb (size_max - w.used) (length bytes)) _ _ (λ _. h)
      λ _.
        on_if cap w.measure_only _ _
          (λ m. (h.0, counts w.measure_only w.buf w.used (length bytes) cap h.1 m))
          λ m. put_all-Keeps bytes cap w h

pub jw_indent-Keeps : (depth indent : ℕ) → Keeps (λ w. jw_indent w depth indent)
unfolding jw_indent
jw_indent-Keeps depth indent cap w h =
    let count = depth * indent % u64_mod in
    on_if cap ((not (depth == 0) && not (count / depth == indent)) || ltb (size_max - w.used) count)
      _ _ (λ _. h)
      λ _.
        on_if cap w.measure_only _ _
          (λ m. (h.0, counts w.measure_only w.buf w.used count cap h.1 m))
          λ m.
            on_if cap (w.cap == 0 || leb w.cap w.used || leb (w.cap - w.used) count) _ _ (λ _. h)
              λ room.
                let size = length-replicate count b' ' in
                let fits : w.used + length (replicate count b' ') ≤ cap - 1 =
                  subst (λ (n : ℕ). w.used + n ≤ cap - 1) (sym size)
                    (space w.cap w.used count cap h.0 room) in
                (
                  h.0,
                  subst
                      (λ (n : ℕ).
                        InBuffer w.measure_only (w.buf ++ replicate count b' ') (w.used + n) cap)
                      size
                      (grows w.measure_only w.buf (replicate count b' ') w.used cap h.1 m fits),
                )
  where
    space :
        (have used count cap : ℕ)
        → have ≡ cap
        → (have == 0 || leb have used || leb (have - used) count) ≡ false
        → used + count ≤ cap - 1
    space have used count cap e room = ground arith

put_abs-Keeps : (v : ℕ) → Keeps (λ w. put_abs w v)
unfolding put_abs put_digits
put_abs-Keeps v cap w h =
    on_if cap (v == 0) _ _ (λ _. jw_put-Keeps b'0' cap w h)
      (λ _. put_all-Keeps (reverse_onto (tmp_digits 64 v) []) cap w h)

pub jw_int64-Keeps : (v : ℤ) → Keeps (λ w. jw_int64 w v)
unfolding jw_int64
jw_int64-Keeps (pos n) cap w h = put_abs-Keeps n cap w h
jw_int64-Keeps (negsuc n) cap w h =
    or_too_small-Within cap (jw_put w b'-') (λ w'. put_abs w' (suc n)) (jw_put-Keeps b'-' cap w h)
      (put_abs-Keeps (suc n))

pub jw_double-Keeps : (fpu : Fpu) (v : ℕ) → Keeps (λ w. jw_double fpu w v)
unfolding jw_double
jw_double-Keeps fpu v cap w h =
    on_if cap (is_special v) _ _ (λ _. h) (λ _. printed_text (fpu.print_17g v))
  where
    printed_text : (text : Option Bytes) → Within cap (print_double text w).0
    printed_text none = h
    printed_text (some text) =
        on_if cap (leb 32 (length text)) _ _ (λ _. h)
          λ _.
            on_if cap (not (has_dot text) && ltb (length text + 2) 32) _ _
              (λ _. jw_puts-Keeps (text ++ (b'.' ∷ b'0' ∷ [])) cap w h)
              (λ _. jw_puts-Keeps text cap w h)

put_char-Keeps :
    (ascii_only : Bool) (bytes : Bytes) (code : ℕ) → Keeps (λ w. put_char ascii_only w bytes code)
unfolding put_char
put_char-Keeps ascii_only bytes code cap w h =
    let high = u16_escape (0xD800 + (code - 0x10000) / 1024) in
    let low = u16_escape (0xDC00 + (code - 0x10000) % 1024) in
    on_if cap (not ascii_only) _ _ (λ _. jw_puts-Keeps bytes cap w h)
      λ _.
        on_if cap (leb code 0xFFFF) _ _ (λ _. jw_puts-Keeps (u16_escape code) cap w h)
          λ _.
            then_write-Within cap (jw_puts w high) (λ w'. jw_puts w' low)
              (jw_puts-Keeps high cap w h) (jw_puts-Keeps low)

put_byte-Stays : (c : ℕ) → Stays (λ w. put_byte w c)
unfolding put_byte
put_byte-Stays c cap w h =
    if-cases (Within cap) (ltb c 0x20 || c == b'"' || c == b'\\') _ _
      (λ _. jw_puts-Keeps (byte_escape c) cap w h) (λ _. jw_put-Keeps c cap w h)

string_content-Keeps :
    (fuel : ℕ) (ascii_only : Bool) (bytes : Bytes)
    → Keeps (λ w. string_content fuel w bytes ascii_only)
unfolding string_content
string_content-Keeps zero ascii_only [] cap w h = h
string_content-Keeps (suc fuel) ascii_only [] cap w h = h
string_content-Keeps zero ascii_only (c ∷ rest) cap w h = h
string_content-Keeps (suc fuel) ascii_only (c ∷ rest) cap w h =
    on_if cap (leb 0x80 c) _ _
      (λ _. char (utf8_decode (c ∷ rest)) (string_content-Keeps fuel ascii_only))
      (λ _. string_content-Keeps fuel ascii_only rest cap (put_byte w c) (put_byte-Stays c cap w h))
  where
    char :
        (d : Result (ℕ × ℕ))
        → ((bytes : Bytes) → Keeps (λ w'. string_content fuel w' bytes ascii_only))
        → let out : Written = elim d [
          | err status ↦ failed w status
          | ok (code, count) ↦ put_char ascii_only w (take count (c ∷ rest)) code then_write λ w'.
              string_content fuel w' (drop count (c ∷ rest)) ascii_only
        ] in
          Within cap out.0
    char (err status) ih = h
    char (ok (code, count)) ih =
        then_write-Within cap (put_char ascii_only w (take count (c ∷ rest)) code)
          (λ w'. string_content fuel w' (drop count (c ∷ rest)) ascii_only)
          (put_char-Keeps ascii_only (take count (c ∷ rest)) code cap w h)
          (ih (drop count (c ∷ rest)))

pub jw_string_content-Keeps :
    (bytes : Bytes) (ascii_only : Bool) → Keeps (λ w. jw_string_content w bytes ascii_only)
unfolding jw_string_content
jw_string_content-Keeps bytes ascii_only cap w h =
    string_content-Keeps (length bytes) ascii_only bytes cap w h
