-- ===== src/Access/Linear.antt =====
-- The linear scan of json_obj_get_n finds the first pair of the key.
use s_json.Base.{
  ℕ, ◌<◌, ◌-◌, ◌≡◌, inl, inr, refl, ap, ◌∙◌, Bool, true, false, ◌&&◌, List, [], ◌∷◌, Option, none,
  some, Bytes, ◌==◌, ltb, if◌then◌else◌, length, take-length, Bool-cases, u32_mod, arith,
}
use s_json.Error.{Result, ok, err, not_found}
use s_json.Text.Hash.{json_fnv1a, fnv1a, fnv_from, fnv_offset}
use s_json.Text.Str.{JsonStr}
use s_json.Value.{memcmp, is_same, JsonValue, object, Pairs, no_pairs, pair, count_pairs}
use s_json.Access.{key_matches, linear_find, find_in, json_obj_get_n}

-- The key has its own length and hash, as every string of the parser has.
pub record IsKey (k : JsonStr) : Type 0 where
  pub len_is : k.len ≡ length k.text
  pub short : length k.text < u32_mod
  pub hash_is : k.hash ≡ fnv1a k.text

abbrev pub AllKeys : Pairs → Type 0
AllKeys no_pairs = Unit
AllKeys (pair k v pairs) = IsKey k × AllKeys pairs

-- Whether two texts are the same.
abbrev pub same_text : Bytes → Bytes → Bool
same_text [] [] = true
same_text [] (y ∷ b) = false
same_text (x ∷ a) [] = false
same_text (x ∷ a) (y ∷ b) = x == y && same_text a b

-- The value of the first pair whose key is this text.
abbrev pub first_named : Bytes → Pairs → Result JsonValue
first_named key no_pairs = err not_found
first_named key (pair k v pairs) = if same_text k.text key then ok v else first_named key pairs

pub memcmp-same_text :
    (a b : Bytes) → length a ≡ length b → is_same (memcmp (length b) a b) ≡ same_text a b
unfolding memcmp
memcmp-same_text [] [] h = refl
memcmp-same_text [] (y ∷ b) h = absurd (omega arith)
memcmp-same_text (x ∷ a) [] h = absurd (omega arith)
memcmp-same_text (x ∷ a) (y ∷ b) h = ground (arith, memcmp-same_text a b (omega arith))

pub same_text-eq : (a b : Bytes) → same_text a b ≡ true → a ≡ b
same_text-eq [] [] h = refl
same_text-eq [] (y ∷ b) h = absurd (ground arith)
same_text-eq (x ∷ a) [] h = absurd (ground arith)
same_text-eq (x ∷ a) (y ∷ b) h = ground (arith, same_text-eq a b)

same_text-empty : (a b : Bytes) → length a ≡ 0 → length b ≡ 0 → same_text a b ≡ true
same_text-empty [] [] p q = refl
same_text-empty (x ∷ a) b p q = absurd (omega arith)
same_text-empty [] (y ∷ b) p q = absurd (omega arith)

pub key_matches-same_text :
    (key : Bytes) (k : JsonStr)
    → length key < u32_mod
    → IsKey k
    → key_matches (fnv1a key) key (length key) k ≡ same_text k.text key
key_matches-same_text key k short is = elim (Bool-cases (same_text k.text key)) [
  | inl h ↦
      let e = same_text-eq k.text key h in
      let hash : k.hash ≡ fnv1a key = is.hash_is ∙ ap fnv1a e in
      let len : k.len ≡ length key = is.len_is ∙ ap length e in
      let compared : is_same (memcmp (length key) k.text key) ≡ true =
        memcmp-same_text k.text key (ap length e) ∙ h in
      unfold key_matches in rw h (ground (arith, hash, len, compared))
  | inr h ↦
      let compared : length k.text ≡ length key → is_same (memcmp (length key) k.text key) ≡ false =
        λ e. memcmp-same_text k.text key e ∙ h in
      let empty = same_text-empty k.text key in
      unfold key_matches in rw h (ground (arith, is.len_is, compared, empty, h))
]

linear_find-first_named :
    (key : Bytes) (pairs : Pairs)
    → length key < u32_mod
    → AllKeys pairs
    → linear_find (fnv1a key) key (length key) pairs ≡ first_named key pairs
unfolding linear_find
linear_find-first_named key no_pairs short keys = refl
linear_find-first_named key (pair k v pairs) short (is, keys) =
    rw (key_matches-same_text key k short is, linear_find-first_named key pairs short keys) refl

pub hash-key : (key : Bytes) → json_fnv1a (some key) (length key) ≡ fnv1a key
unfolding json_fnv1a
hash-key key = ap (fnv_from fnv_offset) (take-length key)

scan_or_empty :
    (pairs : Pairs) (key : Bytes)
    → AllKeys pairs
    → length key < u32_mod
    → (if count_pairs pairs == 0
        then some (err not_found)
        else some (linear_find (json_fnv1a (some key) (length key)) key (length key) pairs))
      ≡ some (first_named key pairs)
unfolding count_pairs
scan_or_empty no_pairs key keys short = refl
scan_or_empty (pair k v pairs) key keys short =
    let found = linear_find-first_named key (pair k v pairs) short keys in
    rw (hash-key key, found) (ground arith)

-- In an object whose keys have their own lengths and hashes and which is not marked as sorted,
-- json_obj_get_n with a key shorter than 2^32 bytes gives the value of the first pair whose key is the
-- same text, byte for byte, and JSON_ERR_NOT_FOUND where there is none: hashes never decide alone.
pub json_obj_get_n-first_named :
    (pairs : Pairs) (cap : ℕ) (idx : Option (List ℕ)) (key : Bytes)
    → AllKeys pairs
    → length key < u32_mod
    → json_obj_get_n (some (object pairs cap idx false)) (some key) (length key) true
      ≡ some (first_named key pairs)
unfolding json_obj_get_n find_in
json_obj_get_n-first_named pairs cap none key keys short =
    let fits : ltb (u32_mod - 1) (length key) ≡ false = ground arith in
    rw fits (scan_or_empty pairs key keys short)
json_obj_get_n-first_named pairs cap (some idx) key keys short =
    let fits : ltb (u32_mod - 1) (length key) ≡ false = ground arith in
    rw fits (scan_or_empty pairs key keys short)
