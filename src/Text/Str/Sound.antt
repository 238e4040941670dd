-- ===== src/Text/Str/Sound.antt =====
-- What json__parse_string returns.
use s_json.Base.{
  ℕ, ◌%◌, ◌≤◌, ◌<◌, ◌≡◌, ◌⊎◌, refl, sym, ap, ap₂, ◌∙◌, subst, inl, inr, Bool-cases, [], ◌∷◌, Option,
  none, some, Bytes, IsByte, ltb, ◌==◌, if◌then◌else◌, length, take, All, arith, u32_mod,
  take-length, take-length_append, drop-length_append,
}
use s_json.Error.{Result, ok, err, overflow, oom}
use s_json.Text.Hash.{fnv_from, fnv_offset, fnv1a, json_fnv1a}
use s_json.Text.Str.{
  JsonStr, Scan, final_hash, scan, scan_start, copy_out, close_string, build_string, after_scan,
  parse_string, max_string_len,
}
use s_json.Text.Str.Passes.{IsUtf8, Agree, scan-Agree}
use s_json.Arena.{Arena, Region, arena_alloc}

-- The string has as many bytes as were counted, they are UTF-8, their number is in range,
-- and the hash is that of the bytes.
pub record IsString (str : JsonStr) : Type 0 where
  pub len_is : str.len ≡ length str.text
  pub len_le : length str.text ≤ max_string_len
  pub hash_is : str.hash ≡ fnv1a str.text
  pub utf8 : IsUtf8 str.text

-- Both ways of the second pass give the text.
copy_out-Agree :
    (start text end : Bytes) (s : Scan)
    → Agree start text end scan_start s
    → copy_out s start ≡ (text, end)
copy_out-Agree start text end s a = elim (Bool-cases s.has_escape) [
  | inl h ↦ unfold copy_out in rw h a.writes
  | inr h ↦
      let v = a.verbatim h in
      let size : s.out_len ≡ length text = a.counts ∙ omega arith in
      unfold copy_out in
      rw (h, size, v.splits)
        (ap₂ (λ (x y : Bytes). (x, y)) (take-length_append text end) (drop-length_append text end))
]

json_fnv1a-text :
    (text : Bytes) (n : ℕ)
    → n ≡ length text
    → json_fnv1a (if n == 0 then none else some text) n ≡ fnv1a text
unfolding json_fnv1a
json_fnv1a-text [] n e = unfold fnv_from in rw e refl
json_fnv1a-text (c ∷ text) n e =
    let whole : take n (c ∷ text) ≡ c ∷ text = rw e (take-length (c ∷ text)) in
    ground (arith, ap (fnv_from fnv_offset) whole)

hash-Agree :
    (start text end : Bytes) (s : Scan)
    → Agree start text end scan_start s
    → final_hash s text ≡ fnv1a text
hash-Agree start text end s a = elim (Bool-cases s.has_escape) [
  | inl h ↦ unfold final_hash in rw h (json_fnv1a-text text s.out_len (a.counts ∙ omega arith))
  | inr h ↦ unfold final_hash in rw h (a.verbatim h).hashed
]

-- The string that is closed after the two passes.
close_string-IsString :
    (start text end : Bytes) (s : Scan) (str : JsonStr) (rest : Bytes)
    → Agree start text end scan_start s
    → s.out_len ≤ max_string_len
    → close_string s (text, end) ≡ ok (str, rest)
    → IsString str
unfolding close_string
close_string-IsString start text [] s str rest a h e = absurd (ground arith)
close_string-IsString start text (q ∷ end) s str rest a h e =
    let str_is : record { text = text; len = s.out_len % u32_mod; hash = final_hash s text } ≡ str =
      ground arith in
    subst IsString str_is (record {
      len_is = omega (arith, a.counts);
      len_le = omega (arith, a.counts);
      hash_is = hash-Agree start text (q ∷ end) s a;
      utf8 = a.utf8;
    })

-- The arena after room for `n` bytes was taken from it: a region of the allocator for exactly so many,
-- and no call where there are none.
abbrev pub Allocated : Arena → Arena → ℕ → Type 0
Allocated arena a' n =
    ((n ≡ 0) × (a' ≡ arena))
    ⊎ ((0 < n) × ((region : Region) × (arena_alloc arena n ≡ (some region, a'))))

close_string-size :
    (start text end : Bytes) (s : Scan) (str : JsonStr) (rest : Bytes)
    → Agree start text end scan_start s
    → close_string s (text, end) ≡ ok (str, rest)
    → s.out_len ≡ length str.text
unfolding close_string
close_string-size start text [] s str rest a e = absurd (ground arith)
close_string-size start text (q ∷ end) s str rest a e =
    let text_is : text ≡ str.text = ground arith in
    let counted : s.out_len ≡ length text = omega (arith, a.counts) in counted ∙ ap length text_is

-- The rest of build_string, with what the allocator gave.
abbrev build_from : Arena → Bytes → Scan → Option Region × Arena → Result (JsonStr × Bytes) × Arena
build_from arena start s (region, a) =
    if ltb max_string_len s.out_len
    then (err overflow, arena)
    else if s.out_len == 0
    then (close_string s (copy_out s start), arena)
    else elim region [ none ↦ (err oom, a) | some _ ↦ (close_string s (copy_out s start), a) ]

build_string-Allocated :
    (arena a' : Arena) (start : Bytes) (s : Scan) (str : JsonStr) (rest : Bytes)
    → build_string arena start s ≡ (ok (str, rest), a')
    → Allocated arena a' s.out_len
unfolding build_string
build_string-Allocated arena a' start s str rest e = given (arena_alloc arena s.out_len) refl e
  where
    given :
        (made : Option Region × Arena)
        → arena_alloc arena s.out_len ≡ made
        → build_from arena start s made ≡ (ok (str, rest), a')
        → Allocated arena a' s.out_len
    given (none, a) served h = ground arith
    given (some region, a) served h = elim (Bool-cases (s.out_len == 0)) [
      | inl z ↦ inl (ground arith, ground arith)
      | inr f ↦
          let after : a ≡ a' = ground arith in
          inr (ground arith, (region, served ∙ ap (λ (x : Arena). (some region, x)) after))
    ]

build_string-IsString :
    (arena a' : Arena) (start text end : Bytes) (s : Scan) (str : JsonStr) (rest : Bytes)
    → Agree start text end scan_start s
    → build_string arena start s ≡ (ok (str, rest), a')
    → IsString str × Allocated arena a' (length str.text)
build_string-IsString arena a' start text end s str rest a e =
    let closed : (s.out_len ≤ max_string_len)
        × (close_string s (copy_out s start) ≡ ok (str, rest)) =
      unfold build_string in (ground arith, ground arith) in
    let passes = ap (close_string s) (sym (copy_out-Agree start text end s a)) ∙ closed.1 in
    (
      close_string-IsString start text end s str rest a closed.0 passes,
      subst (Allocated arena a') (close_string-size start text end s str rest a passes)
          (build_string-Allocated arena a' start s str rest e),
    )

after_scan-IsString :
    (arena a' : Arena) (start : Bytes) (str : JsonStr) (rest : Bytes)
    (scanned : Result (Scan × Bytes))
    → All IsByte start
    → scan (length start) scan_start start ≡ scanned
    → after_scan arena start scanned ≡ (ok (str, rest), a')
    → IsString str × Allocated arena a' (length str.text)
unfolding after_scan
after_scan-IsString arena a' start str rest (err x) b h e = absurd (ground arith)
after_scan-IsString arena a' start str rest (ok (s, end)) b h e =
    let (text, a) = scan-Agree (length start) start end scan_start s b h in
    build_string-IsString arena a' start text end s str rest a e

-- Whatever the arena and the input of bytes: a string that is returned has as many bytes as its stored
-- length says, no more than the limit; the arena served exactly so many bytes for them, or was not
-- called where there are none; they are the UTF-8 encodings of scalar values; and the stored hash is the
-- FNV-1a hash of these bytes, on the way with escapes and on the way without.
pub parse_string-IsString :
    (arena a' : Arena) (start : Bytes) (str : JsonStr) (rest : Bytes)
    → All IsByte start
    → parse_string arena start ≡ (ok (str, rest), a')
    → IsString str × Allocated arena a' (length str.text)
unfolding parse_string
parse_string-IsString arena a' start str rest b e =
    after_scan-IsString arena a' start str rest _ b refl e
