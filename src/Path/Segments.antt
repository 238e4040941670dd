-- ===== src/Path/Segments.antt =====
-- json_path on a path that is spelled from segments.
use s_json.Base.{
  ℕ, zero, suc, ◌+◌, ◌-◌, ◌*◌, ◌/◌, ◌≤◌, ◌<◌, ◌≡◌, ◌≢◌, refl, ap, ◌∙◌, Bool, true, false, ◌||◌,
  List, [], ◌∷◌, ◌++◌, Option, none, some, Bytes, ltb, leb, within, ◌==◌, if◌then◌else◌, length,
  length-append, All, u32_mod, arith,
}
use s_json.Error.{Result, ok, err}
use s_json.Value.{JsonValue}
use s_json.Access.{json_obj_get_n, json_arr_get}
use s_json.Number.Digits.{IsDigit, value_from}
use s_json.Number.Integer.{IsNumeral}
use s_json.Writer.Decimal.{decimal, decimal_lem}
use s_json.Parser.Run.{before_nul}
use s_json.Path.{
  Segment, by_key, by_index, Read, indexed, resume, span, quoted_key, index_digits, bracket,
  starts_name, key_buf_size, name, segment, after_dot, follow, and_on, walk, json_path,
}

-- A segment as the path spells it: ["key"], [N] or .key
pub data Spelled : Type 0 where
  quoted : Bytes → Spelled
  at : ℕ → Spelled
  dotted : Bytes → Spelled

abbrev pub target : Spelled → Segment
target (quoted key) = by_key key
target (at n) = by_index n
target (dotted key) = by_key key

-- The segment in front of the rest of the path.
abbrev pub spell : Spelled → Bytes → Bytes
spell (quoted key) rest = b'[' ∷ b'"' ∷ (key ++ (b'"' ∷ b']' ∷ rest))
spell (at n) rest = b'[' ∷ (decimal n ++ (b']' ∷ rest))
spell (dotted key) rest = b'.' ∷ (key ++ rest)

abbrev pub path_text : List Spelled → Bytes
path_text [] = []
path_text (s ∷ path) = spell s (path_text path)

-- What the getters find for one segment.
abbrev pub find_one : JsonValue → Spelled → Option (Result JsonValue)
find_one cur (quoted key) = json_obj_get_n (some cur) (some key) (length key) true
find_one cur (at n) = some (json_arr_get (some cur) n true)
find_one cur (dotted key) = json_obj_get_n (some cur) (some key) (length key) true

-- What they find for the segments one after the other, up to the first error.
abbrev pub follow_all : JsonValue → List Spelled → Option (Result JsonValue)
follow_all cur [] = some (ok cur)
follow_all cur (s ∷ path) = elim (find_one cur s) [
  | none ↦ none
  | some (err e) ↦ some (err e)
  | some (ok v) ↦ follow_all v path
]

abbrev StartsName : Bytes → Type 0
StartsName [] = ⊥
StartsName (c ∷ _) = (starts_name c ≡ true) × (c ≢ b'[')

-- A key in quotes has no quote in it; an index fits in 32 bits; a key behind a dot starts like a name, is
-- shorter than the buffer and has no dot and no bracket. No key has a NUL.
abbrev pub IsSpelled : Spelled → Type 0
IsSpelled (quoted key) = All (λ c. (c ≢ 0) × (c ≢ b'"')) key
IsSpelled (at n) = n < u32_mod
IsSpelled (dotted key) =
    StartsName key
    × ((length key < key_buf_size) × All (λ c. (c ≢ 0) × ((c ≢ b'.') × (c ≢ b'['))) key)

abbrev Stops : (ℕ → Bool) → Bytes → Type 0
Stops stops [] = Unit
Stops stops (c ∷ _) = stops c ≡ true

span_lem :
    (stops : ℕ → Bool) (P : ℕ → Type 0) (key rest : Bytes)
    → ((c : ℕ) → P c → stops c ≡ false)
    → All P key
    → Stops stops rest
    → span stops (key ++ rest) ≡ (key, rest)
unfolding span
span_lem stops P [] [] on keys here = refl
span_lem stops P [] (c ∷ rest) on keys here = rw here refl
span_lem stops P (c ∷ key) rest on (p, keys) here =
    rw (on c p, span_lem stops P key rest on keys here) refl

value_from_le : (n : ℕ) (digits : Bytes) → n ≤ value_from n digits
value_from_le n [] = omega arith
value_from_le n (c ∷ digits) = omega (arith, value_from_le (n * 10 + (c - b'0')) digits)

index_digits_lem :
    (n : ℕ) (digits rest : Bytes)
    → All IsDigit digits
    → value_from n digits < u32_mod
    → index_digits n (digits ++ (b']' ∷ rest)) ≡ ok (value_from n digits, b']' ∷ rest)
unfolding index_digits
index_digits_lem n [] rest ds small = refl
index_digits_lem n (c ∷ digits) rest (d, ds) small =
    let more = index_digits_lem (n * 10 + (c - b'0')) digits rest ds small in
    let grows = value_from_le (n * 10 + (c - b'0')) digits in
    let digit : within b'0' b'9' c ≡ true = ground arith in
    let fits : ltb ((u32_mod - 1 - (c - b'0')) / 10) n ≡ false = ground arith in
    rw (digit, fits, more) refl

quoted_key_lem :
    (key rest : Bytes)
    → All (λ c. (c ≢ 0) × (c ≢ b'"')) key
    → quoted_key (key ++ (b'"' ∷ b']' ∷ rest)) ≡ ok (by_key key, rest)
unfolding quoted_key
quoted_key_lem key rest h =
    rw
      (span_lem (λ c. c == b'"') (λ c. (c ≢ 0) × (c ≢ b'"')) key (b'"' ∷ b']' ∷ rest)
        (λ c p. ground (arith, p.1)) h refl)
      refl

name_lem :
    (key rest : Bytes)
    → length key < key_buf_size
    → All (λ c. (c ≢ 0) × ((c ≢ b'.') × (c ≢ b'['))) key
    → Stops (λ c. c == b'.' || c == b'[') rest
    → name (key ++ rest) ≡ ok (by_key key, rest)
unfolding name
name_lem key rest small h stop =
    let short : leb key_buf_size (length key) ≡ false = ground arith in
    rw
      (
        span_lem (λ c. c == b'.' || c == b'[') (λ c. (c ≢ 0) × ((c ≢ b'.') × (c ≢ b'['))) key rest
            (λ c p. ground (arith, p.1)) h stop,
        short,
      )
      refl

path_text-Stops : (path : List Spelled) → Stops (λ c. c == b'.' || c == b'[') (path_text path)
path_text-Stops [] = tt
path_text-Stops (quoted key ∷ path) = refl
path_text-Stops (at n ∷ path) = refl
path_text-Stops (dotted key ∷ path) = refl

if_true : {A : Type 0} (b : Bool) (x y : A) → b ≡ true → (if b then x else y) ≡ x
if_true true x y h = refl
if_true false x y h = cc

if_false : {A : Type 0} (b : Bool) (x y : A) → b ≡ false → (if b then x else y) ≡ y
if_false false x y h = refl
if_false true x y h = cc

bracket_index :
    (digits rest : Bytes)
    → IsNumeral digits
    → value_from 0 digits < u32_mod
    → bracket (digits ++ (b']' ∷ rest)) ≡ ok (by_index (value_from 0 digits), rest)
unfolding bracket
bracket_index [] rest h small = absurd h
bracket_index (c ∷ digits) rest (d, ds, z) small =
    let no_quote : (c == b'"') ≡ false = ground arith in
    let digit : within b'0' b'9' c ≡ true = ground arith in
    if_false (c == b'"') _ _ no_quote
    ∙ if_true (within b'0' b'9' c) _ _ digit
    ∙ ap indexed (index_digits_lem 0 (c ∷ digits) rest (d, ds) small)

-- The next segment is read, and no more.
segment-spell :
    (s : Spelled) (path : List Spelled)
    → IsSpelled s
    → segment (after_dot (spell s (path_text path))) ≡ ok (target s, path_text path)
unfolding segment
segment-spell (quoted key) path h = quoted_key_lem key (path_text path) h
segment-spell (at n) path h =
    let (numeral, value) = decimal_lem n (omega arith) in
    bracket_index (decimal n) (path_text path) numeral (omega (arith, value))
    ∙ ap (λ (v : ℕ). ok (by_index v, path_text path)) value
segment-spell (dotted []) path (start, (short, h)) = absurd start
segment-spell (dotted (c ∷ key)) path ((start, no_bracket), (short, h)) =
    let plain : (c == b'[') ≡ false = ground arith in
    if_false (c == b'[') _ _ plain
    ∙ if_true (starts_name c) _ _ start
    ∙ name_lem (c ∷ key) (path_text path) short h (path_text-Stops path)

walk_step :
    (fuel : ℕ) (cur : JsonValue) (s : Spelled) (path : List Spelled)
    → IsSpelled s
    → walk (suc fuel) cur (spell s (path_text path))
      ≡ and_on (follow cur (target s)) λ v. walk fuel v (path_text path)
unfolding walk
walk_step fuel cur (quoted key) path h =
    ap (λ (r : Read). resume r λ seg rest. and_on (follow cur seg) λ v. walk fuel v rest)
      (segment-spell (quoted key) path h)
walk_step fuel cur (at n) path h =
    ap (λ (r : Read). resume r λ seg rest. and_on (follow cur seg) λ v. walk fuel v rest)
      (segment-spell (at n) path h)
walk_step fuel cur (dotted key) path h =
    ap (λ (r : Read). resume r λ seg rest. and_on (follow cur seg) λ v. walk fuel v rest)
      (segment-spell (dotted key) path h)

spell-longer : (s : Spelled) (rest : Bytes) → length rest < length (spell s rest)
spell-longer (quoted key) rest = omega (arith, length-append key (b'"' ∷ b']' ∷ rest))
spell-longer (at n) rest = omega (arith, length-append (decimal n) (b']' ∷ rest))
spell-longer (dotted key) rest = omega (arith, length-append key rest)

follow-find_one : (cur : JsonValue) (s : Spelled) → follow cur (target s) ≡ find_one cur s
unfolding follow
follow-find_one cur (quoted key) = refl
follow-find_one cur (at n) = refl
follow-find_one cur (dotted key) = refl

and_on-follow_all :
    (r : Option (Result JsonValue)) (next : JsonValue → Option (Result JsonValue))
    (path : List Spelled)
    → ((v : JsonValue) → next v ≡ follow_all v path)
    → and_on r next
      ≡ elim r [ none ↦ none | some (err e) ↦ some (err e) | some (ok v) ↦ follow_all v path ]
and_on-follow_all none next path h = refl
and_on-follow_all (some (err e)) next path h = refl
and_on-follow_all (some (ok v)) next path h = h v

walk-path_text :
    (path : List Spelled) (fuel : ℕ) (cur : JsonValue)
    → All IsSpelled path
    → length (path_text path) ≤ fuel
    → walk fuel cur (path_text path) ≡ follow_all cur path
walk-path_text [] zero cur h enough = unfold walk in refl
walk-path_text [] (suc fuel) cur h enough = unfold walk in refl
walk-path_text (s ∷ path) zero cur h enough =
    absurd (omega (arith, spell-longer s (path_text path)))
walk-path_text (s ∷ path) (suc fuel) cur (h, hs) enough =
    walk_step fuel cur s path h
    ∙ ap (λ (r : Option (Result JsonValue)). and_on r λ v. walk fuel v (path_text path))
        (follow-find_one cur s)
    ∙ and_on-follow_all (find_one cur s) _ path
        λ v. walk-path_text path fuel v hs (omega (arith, spell-longer s (path_text path)))

NoNul-digits : (digits : Bytes) → All IsDigit digits → All (λ c. c ≢ 0) digits
NoNul-digits [] h = tt
NoNul-digits (c ∷ digits) (d, ds) = (omega arith, NoNul-digits digits ds)

NoNul-numeral : (digits : Bytes) → IsNumeral digits → All (λ c. c ≢ 0) digits
NoNul-numeral [] h = absurd h
NoNul-numeral (c ∷ digits) (d, ds, z) = (omega arith, NoNul-digits digits ds)

NoNul-append :
    (P : ℕ → Type 0) (key rest : Bytes)
    → ((c : ℕ) → P c → c ≢ 0)
    → All P key
    → before_nul rest ≡ rest
    → before_nul (key ++ rest) ≡ key ++ rest
unfolding before_nul
NoNul-append P [] rest none_is h e = e
NoNul-append P (c ∷ key) rest none_is (p, h) e =
    let nonzero = none_is c p in
    let goes_on : (c == 0) ≡ false = ground (arith, nonzero) in
    rw (goes_on, NoNul-append P key rest none_is h e) refl

before_nul-path_text :
    (path : List Spelled) → All IsSpelled path → before_nul (path_text path) ≡ path_text path
unfolding before_nul
before_nul-path_text [] h = refl
before_nul-path_text (quoted key ∷ path) (h, hs) =
    let rest = before_nul-path_text path hs in
    rw
      (NoNul-append (λ c. (c ≢ 0) × (c ≢ b'"')) key (b'"' ∷ b']' ∷ path_text path) (λ c p. p.0) h
        (rw rest refl))
      refl
before_nul-path_text (at n ∷ path) (h, hs) =
    let rest = before_nul-path_text path hs in
    let (numeral, value) = decimal_lem n (omega arith) in
    rw
      (NoNul-append (λ c. c ≢ 0) (decimal n) (b']' ∷ path_text path) (λ c p. p)
        (NoNul-numeral (decimal n) numeral) (rw rest refl))
      refl
before_nul-path_text (dotted key ∷ path) ((start, (short, h)), hs) =
    rw
      (NoNul-append (λ c. (c ≢ 0) × ((c ≢ b'.') × (c ≢ b'['))) key (path_text path) (λ c p. p.0) h
        (before_nul-path_text path hs))
      refl

-- A path that spells keys in quotes without a quote, indices below 2^32, and keys behind dots that start
-- like a name, have no dot and no bracket and are shorter than 512 bytes, no key with a NUL, makes
-- json_path return what json_obj_get_n finds for the keys and json_arr_get for the indices, one after
-- the other from the root, up to the first error; the empty path gives the root.
pub json_path-follow_all :
    (root : JsonValue) (path : List Spelled)
    → All IsSpelled path
    → json_path (some root) (some (path_text path)) ≡ follow_all root path
unfolding json_path
json_path-follow_all root path h =
    rw (before_nul-path_text path h)
      (walk-path_text path (length (path_text path)) root h (omega arith))
