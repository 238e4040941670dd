-- ===== src/Writer/TightEntries.antt =====
-- The entries of a container with room for their text and without.
use s_json.Base.{
  ℕ, zero, suc, ◌+◌, ◌≤◌, ◌≡◌, ◌≢◌, refl, sym, ◌∙◌, subst, Bool, true, false, [], ◌∷◌, ◌++◌, Bytes,
  leb, ◌==◌, if◌then◌else◌, Option, none, some, ◌>>=?◌, length, length-append, arith,
}
use s_json.Error.{json_ok, depth_exceeded}
use s_json.Parser.{max_depth}
use s_json.Writer.{JsonWriter, Written, ◌then_write◌, jw_put, tmp_digits, reverse_onto}
use s_json.Base.Int.{ℤ, pos, negsuc}
use s_json.Writer.Decimal.{decimal, decimal-zero, decimal-suc}
use s_json.Writer.Integer.{int_text}
use s_json.Writer.Value.{comma_if, at_depth}
use s_json.Writer.Render.{comma_text, limited}
use s_json.Writer.Puts.{nothing-Puts, nothing-Leaves}
use s_json.Writer.Tight.{
  Full, Stopped, Tight, TightLeaves, Sure, Tight-then, TightLeaves-Tight, Tight-TightLeaves,
}
use s_json.Writer.TightPuts.{TightWrites, jw_put-Tight}
use s_json.Writer.TightString.{SureWrites}

pub nothing-TightLeaves : TightLeaves (λ w. w) []
nothing-TightLeaves = (
  nothing-Leaves,
  (
    (λ cap w (size, (writes, (clean, inside))) over small. absurd (omega arith)),
    λ cap w full. full,
  ),
)

pub nothing-Tight : Tight (λ w. (w, json_ok)) []
nothing-Tight = (
  nothing-Puts,
  (
    (λ cap w (size, (writes, (clean, inside))) over small. absurd (omega arith)),
    λ cap w full. (full, λ none_there. absurd (omega arith)),
  ),
)

pub limited-TightWrites :
    (depth : ℕ) (f : JsonWriter → Written) (text : Option Bytes)
    → TightWrites f text
    → TightWrites (λ w. at_depth depth w (f w)) (limited depth text)
limited-TightWrites depth f text h = go (leb max_depth depth)
  where
    go :
        (deep : Bool)
        → TightWrites (λ w. if deep then (w, depth_exceeded) else f w) (if deep then none else text)
    go true = tt
    go false = h

-- The entries of a container: there is a text where there are entries.
abbrev pub EntriesTight : (JsonWriter → Written) → Bool → Option Bytes → Type 0
EntriesTight f more none = Unit
EntriesTight f more (some text) = Tight f text × (more ≡ true → 1 ≤ length text)

pub TightWrites-entries :
    (f g : JsonWriter → Written) (more : Bool) (r : Option Bytes) (k : Bytes → Option Bytes)
    → EntriesTight g more r
    → ((text : Bytes) → Tight g text → TightWrites f (k text))
    → TightWrites f (r >>=? k)
TightWrites-entries f g more none k part whole = tt
TightWrites-entries f g more (some text) k (part, some_text) whole = whole text part

pub EntriesTight-bind :
    (f g : JsonWriter → Written) (flag more : Bool) (r : Option Bytes) (k : Bytes → Option Bytes)
    → EntriesTight g more r
    → ((text : Bytes)
        → Tight g text
        → (more ≡ true → 1 ≤ length text)
        → EntriesTight f flag (k text))
    → EntriesTight f flag (r >>=? k)
EntriesTight-bind f g flag more none k part whole = tt
EntriesTight-bind f g flag more (some text) k (part, some_text) whole = whole text part some_text

pub EntriesTight-value :
    (f g : JsonWriter → Written) (flag : Bool) (r : Option Bytes) (k : Bytes → Option Bytes)
    → TightWrites g r
    → ((text : Bytes) → Tight g text → 1 ≤ length text → EntriesTight f flag (k text))
    → EntriesTight f flag (r >>=? k)
EntriesTight-value f g flag none k part whole = tt
EntriesTight-value f g flag (some text) k (part, some_text) whole = whole text part some_text

pub EntriesTight-name :
    (f g : JsonWriter → Written) (flag : Bool) (r : Option Bytes) (k : Bytes → Option Bytes)
    → SureWrites g r
    → ((text : Bytes) → Sure g text → EntriesTight f flag (k text))
    → EntriesTight f flag (r >>=? k)
EntriesTight-name f g flag none k part whole = tt
EntriesTight-name f g flag (some text) k part whole = whole text part

-- An entry, what stands before it, and the rest.
pub entry-Tight :
    (f : JsonWriter → JsonWriter) (g h : JsonWriter → Written) (more : Bool) (a b c : Bytes)
    → TightLeaves f a
    → Tight g b
    → 1 ≤ length b
    → Tight h c
    → (more ≡ true → 1 ≤ length c)
    → Tight
        (λ w. g (f w) then_write λ w'. h (comma_if more w'))
        (a ++ (b ++ (comma_text more ++ c)))
      × (1 ≤ length (a ++ (b ++ (comma_text more ++ c))))
entry-Tight f g h more a b c lead value some_b rest some_c =
    let both : 1 ≤ length (b ++ (comma_text more ++ c)) =
      omega (arith, some_b, length-append b (comma_text more ++ c)) in
    (
      TightLeaves-Tight f (λ w. g w then_write λ w'. h (comma_if more w')) a
          (b ++ (comma_text more ++ c)) lead
          (Tight-then g (λ w. h (comma_if more w)) b (comma_text more ++ c) value
            (tail more some_c))
          both,
      omega (arith, both, length-append a (b ++ (comma_text more ++ c))),
    )
  where
    tail :
        (m : Bool) → (m ≡ true → 1 ≤ length c) → Tight (λ w. h (comma_if m w)) (comma_text m ++ c)
    tail true k =
        TightLeaves-Tight (λ w. (jw_put w b',').0) h (b',' ∷ []) c
          (Tight-TightLeaves (λ w. jw_put w b',') (b',' ∷ []) (jw_put-Tight b',')) rest (k refl)
    tail false k = rest

pub length-reverse_onto : (a b : Bytes) → length (reverse_onto a b) ≡ length a + length b
unfolding reverse_onto
length-reverse_onto [] b = omega arith
length-reverse_onto (c ∷ a) b = omega (arith, length-reverse_onto a (c ∷ b))

pub digits_some : (n : ℕ) → 1 ≤ length (tmp_digits 64 (suc n))
unfolding tmp_digits
digits_some n = let no_zero : (suc n == 0) ≡ false = ground arith in rw no_zero (omega arith)

pub decimal_some : (n : ℕ) → 1 ≤ length (decimal n)
decimal_some zero = rw decimal-zero (omega arith)
decimal_some (suc n) =
    rw (decimal-suc n)
      (omega (arith, length-reverse_onto (tmp_digits 64 (suc n)) [], digits_some n))

-- The same call, written otherwise.
pub Tight-same :
    (f g : JsonWriter → Written) (text : Bytes)
    → ((w : JsonWriter) → f w ≡ g w)
    → Tight g text
    → Tight f text
Tight-same f g text h (p, (stops, sticks)) = (
  (λ w room clean. h w ∙ p w room clean),
  (
    (λ cap w clean over small. subst (Stopped cap) (sym (h w)) (stops cap w clean over small)),
    λ cap w full.
        subst (λ (r : Written). Full cap r.0 × (1 ≤ length text → r.1 ≢ json_ok)) (sym (h w))
          (sticks cap w full),
  ),
)

pub int_text_some : (i : ℤ) → 1 ≤ length (int_text i)
int_text_some (negsuc n) = omega arith
int_text_some (pos n) = decimal_some n
