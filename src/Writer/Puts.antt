-- ===== src/Writer/Puts.antt =====
-- Rules for code that puts a text where there is room for it, and the primitives of the writer.
use native.Mathlib.Nat.{mul-div_cancel_left}
use s_json.Base.{
  ℕ, zero, suc, ◌+◌, ◌-◌, ◌*◌, ◌/◌, ◌%◌, ◌<◌, ◌≡◌, refl, sym, ap, ◌∙◌, subst, Bool, true, false,
  not, ◌&&◌, ◌||◌, [], ◌∷◌, ◌++◌, Bytes, ltb, leb, ◌==◌, if◌then◌else◌, Option, none, some, ◌>>=?◌,
  Bool-cases, inl, inr, length, length-append, length-replicate, replicate, size_max, u64_mod,
  arith,
}
use s_json.Error.{json_ok}
use s_json.Writer.{JsonWriter, Written, ◌then_write◌, jw_put, jw_puts, jw_indent}
use s_json.Writer.Integer.{
  emitted, emitted-append, emitted-nil, HasRoom, jw_put-emitted, put_all-emitted,
}

-- With room for the text and no error before, the code puts exactly the text, and reports success.
abbrev pub Puts : (JsonWriter → Written) → Bytes → Type 0
Puts f text =
    (w : JsonWriter) → HasRoom w (length text) → w.err ≡ json_ok → f w ≡ (emitted w text, json_ok)

-- The same for code whose status is not looked at.
abbrev pub Leaves : (JsonWriter → JsonWriter) → Bytes → Type 0
Leaves f text = (w : JsonWriter) → HasRoom w (length text) → w.err ≡ json_ok → f w ≡ emitted w text

HasRoom-split :
    (w : JsonWriter) (a b : Bytes)
    → HasRoom w (length (a ++ b))
    → HasRoom w (length a) × HasRoom (emitted w a) (length b)
HasRoom-split w a b (small, fits) =
    let size = length-append a b in
    ((omega arith, λ m. omega (arith, fits m)), (omega arith, λ m. omega (arith, fits m)))

pub Puts-then :
    (f g : JsonWriter → Written) (a b : Bytes)
    → Puts f a
    → Puts g b
    → Puts (λ w. f w then_write g) (a ++ b)
Puts-then f g a b p q w room clean =
    let (first, second) = HasRoom-split w a b room in
    rw (p w first clean) (
      q (emitted w a) second clean ∙ ap (λ (w' : JsonWriter). (w', json_ok)) (emitted-append w a b))

pub Leaves-then :
    (f g : JsonWriter → JsonWriter) (a b : Bytes)
    → Leaves f a
    → Leaves g b
    → Leaves (λ w. g (f w)) (a ++ b)
Leaves-then f g a b p q w room clean =
    let (first, second) = HasRoom-split w a b room in
    rw (p w first clean) (q (emitted w a) second clean ∙ emitted-append w a b)

pub Leaves-Puts :
    (f : JsonWriter → JsonWriter) (g : JsonWriter → Written) (a b : Bytes)
    → Leaves f a
    → Puts g b
    → Puts (λ w. g (f w)) (a ++ b)
Leaves-Puts f g a b p q w room clean =
    let (first, second) = HasRoom-split w a b room in
    rw (p w first clean) (
      q (emitted w a) second clean ∙ ap (λ (w' : JsonWriter). (w', json_ok)) (emitted-append w a b))

pub Puts-Leaves : (f : JsonWriter → Written) (a : Bytes) → Puts f a → Leaves (λ w. (f w).0) a
Puts-Leaves f a p w room clean = ap (λ (r : Written). r.0) (p w room clean)

pub nothing-Puts : Puts (λ w. (w, json_ok)) []
nothing-Puts w room clean = ap (λ (w' : JsonWriter). (w', json_ok)) (sym (emitted-nil w))

pub nothing-Leaves : Leaves (λ w. w) []
nothing-Leaves w room clean = sym (emitted-nil w)

pub jw_put-Puts : (c : ℕ) → Puts (λ w. jw_put w c) (c ∷ [])
jw_put-Puts c w room clean = jw_put-emitted w c room

pub jw_puts-Puts : (text : Bytes) → Puts (λ w. jw_puts w text) text
unfolding jw_puts
jw_puts-Puts text w (small, fits) clean =
    let short : ltb (size_max - w.used) (length text) ≡ false = ground arith in
    elim (Bool-cases w.measure_only) [
      | inl m ↦ rw (short, m) refl
      | inr m ↦
          rw (short, m)
            (put_all-emitted (record w { measure_only = false }) text (small, λ _. fits m))
    ]

no_overflow : (d n : ℕ) → not (d == 0) && not (d * n / d == n) ≡ false
no_overflow zero n = refl
no_overflow (suc d) n =
    let back : suc d * n / suc d ≡ n = mul-div_cancel_left n {n = suc d} (omega arith) in
    rw back (ground arith)

not_too_long : (used count : ℕ) → used + count < size_max → ltb (size_max - used) count ≡ false
not_too_long used count h = ground arith

has_space :
    (cap used count : ℕ)
    → used + count < cap
    → (cap == 0 || leb cap used || leb (cap - used) count) ≡ false
has_space cap used count h = ground arith

blank_count : (count used : ℕ) → used + count < size_max → count % u64_mod ≡ count
blank_count count used h = omega arith

pub jw_indent-Puts :
    (depth indent : ℕ) → Puts (λ w. jw_indent w depth indent) (replicate (depth * indent) b' ')
unfolding jw_indent
jw_indent-Puts depth indent w (small, fits) clean =
    let size : length (replicate (depth * indent) b' ') ≡ depth * indent =
      length-replicate (depth * indent) b' ' in
    let few = subst (λ (n : ℕ). w.used + n < size_max) size small in
    let count = blank_count (depth * indent) w.used few in
    let safe = no_overflow depth indent in
    let short = not_too_long w.used (depth * indent) few in
    elim (Bool-cases w.measure_only) [
      | inl m ↦ rw (count, safe, short, m, size) refl
      | inr m ↦
          let space =
            has_space w.cap w.used (depth * indent)
              (subst (λ (n : ℕ). w.used + n < w.cap) size (fits m)) in
          rw (count, safe, short, m, space, size) refl
    ]

-- Where a text is described, the code puts it.
abbrev pub Writes : (JsonWriter → Written) → Option Bytes → Type 0
Writes f none = Unit
Writes f (some text) = Puts f text

pub Writes-bind :
    (f g : JsonWriter → Written) (r : Option Bytes) (k : Bytes → Option Bytes)
    → Writes g r
    → ((text : Bytes) → Puts g text → Writes f (k text))
    → Writes f (r >>=? k)
Writes-bind f g none k part whole = tt
Writes-bind f g (some text) k part whole = whole text part

pub Puts-on :
    (test : Bool) (f g : JsonWriter → Written) (a b : Bytes)
    → Puts f a
    → Puts g b
    → Puts (λ w. if test then f w else g w) (if test then a else b)
Puts-on true f g a b p q = p
Puts-on false f g a b p q = q

pub Leaves-on :
    (test : Bool) (f g : JsonWriter → JsonWriter) (a b : Bytes)
    → Leaves f a
    → Leaves g b
    → Leaves (λ w. if test then f w else g w) (if test then a else b)
Leaves-on true f g a b p q = p
Leaves-on false f g a b p q = q

pub Writes-on :
    (test : Bool) (f g : JsonWriter → Written) (a b : Option Bytes)
    → Writes f a
    → Writes g b
    → Writes (λ w. if test then f w else g w) (if test then a else b)
Writes-on true f g a b p q = p
Writes-on false f g a b p q = q
