-- ===== src/Access/Binary.antt =====
-- The binary search of json_obj_get_n over indices that are in range.
use s_json.Base.{
  ℕ, zero, suc, ◌+◌, ◌-◌, ◌/◌, ◌%◌, ◌≤◌, ◌<◌, ◌≡◌, ◌⊎◌, refl, sym, ap, ◌∙◌, subst, true, false,
  List, [], ◌∷◌, Bytes, ltb, leb, if◌then◌else◌, Option, none, some, if-cases, Bool-cases, inl, inr,
  length, get_elem?, All, u32_mod, arith,
}
use s_json.Base.Arrays.{get_elem?-lt}
use s_json.Error.{Result, ok, err, not_found}
use s_json.Text.Str.{JsonStr}
use s_json.Value.{
  JsonValue, Pairs, no_pairs, pair, count_pairs, nth_pair, Compared, before, same, after, is_same,
  memcmp,
}
use s_json.Access.{entry_at, compare_key, binary_find}
use s_json.Access.Linear.{IsKey, AllKeys, same_text, same_text-eq, first_named, memcmp-same_text}

-- A pair with this key and value stands in the object.
abbrev pub IsIn : Bytes → JsonValue → Pairs → Type 0
IsIn key v no_pairs = ⊥
IsIn key v (pair k w pairs) = ((k.text ≡ key) × (w ≡ v)) ⊎ IsIn key v pairs

-- A defined answer, in which a value belongs to the key.
abbrev pub Answers : Bytes → Pairs → Option (Result JsonValue) → Type 0
Answers key pairs none = ⊥
Answers key pairs (some (err e)) = e ≡ not_found
Answers key pairs (some (ok v)) = IsIn key v pairs

pub first_named-Answers :
    (key : Bytes) (pairs : Pairs) → Answers key pairs (some (first_named key pairs))
first_named-Answers key no_pairs = refl
first_named-Answers key (pair k v pairs) = elim (Bool-cases (same_text k.text key)) [
  | inl t ↦ rw t (inl (same_text-eq k.text key t, refl))
  | inr f ↦ rw f (later (first_named key pairs) (first_named-Answers key pairs))
]
  where
    later :
        (r : Result JsonValue) → Answers key pairs (some r) → Answers key (pair k v pairs) (some r)
    later (err e) h = h
    later (ok w) h = inr h

differs : (c : Compared) → is_same c ≡ false → c ≡ same → ⊥
differs c f e = absurd (no_way (ap is_same e) f)
  where
    no_way : is_same c ≡ true → is_same c ≡ false → ⊥
    no_way t f' = cc

compare_key-same :
    (hash : ℕ) (key : Bytes) (k : JsonStr)
    → length key < u32_mod
    → IsKey k
    → compare_key hash key (length key) k ≡ same
    → k.text ≡ key
unfolding compare_key
compare_key-same hash key k short is h =
    let fits : length key % u32_mod ≡ length key = omega (arith, short) in
    let len : k.len ≡ length key = ground arith in
    let min : (if ltb k.len (length key % u32_mod) then k.len else length key % u32_mod)
        ≡ length key =
      ground arith in
    let compared : is_same (memcmp (length key) k.text key) ≡ true =
      elim (Bool-cases (
        is_same (
          memcmp (if ltb k.len (length key % u32_mod) then k.len else length key % u32_mod) k.text
            key))) [
              | inl t ↦ subst (λ (n : ℕ). is_same (memcmp n k.text key) ≡ true) min t
              | inr f ↦ absurd (
                  differs
                    (memcmp
                      (if ltb k.len (length key % u32_mod) then k.len else length key % u32_mod)
                      k.text key)
                    f (ground arith))
            ] in
    same_text-eq k.text key (sym (memcmp-same_text k.text key (sym is.len_is ∙ len)) ∙ compared)

nth_pair-IsIn :
    (pairs : Pairs) (i : ℕ)
    → i < count_pairs pairs
    → AllKeys pairs
    → (k : JsonStr) × (v : JsonValue) × (nth_pair i pairs ≡ some (k, v))
      × (IsKey k × IsIn k.text v pairs)
unfolding nth_pair count_pairs
nth_pair-IsIn no_pairs i h keys = absurd (omega arith)
nth_pair-IsIn (pair k v pairs) zero h (is, keys) = (k, v, refl, (is, inl (refl, refl)))
nth_pair-IsIn (pair k v pairs) (suc i) h (is, keys) =
    let (l, w, found, (good, there)) = nth_pair-IsIn pairs i (omega arith) keys in
    (l, w, found, (good, inr there))

get-All : (n : ℕ) (idx : List ℕ) (i j : ℕ) → All (λ x. x < n) idx → get_elem? idx j ≡ some i → i < n
get-All n [] i j h e = cc
get-All n (x ∷ idx) i zero (h, hs) e = let same_index : x ≡ i = cc in omega (arith, h, same_index)
get-All n (x ∷ idx) i (suc j) (h, hs) e = get-All n idx i j hs e

abbrev pub InRange : ℕ → List ℕ → Type 0
InRange n idx = All (λ x. x < n) idx

entry_at-IsIn :
    (idx : List ℕ) (pairs : Pairs) (mid : ℕ)
    → mid < length idx
    → InRange (count_pairs pairs) idx
    → AllKeys pairs
    → (k : JsonStr) × (v : JsonValue) × (entry_at idx pairs mid ≡ some (k, v))
      × (IsKey k × IsIn k.text v pairs)
entry_at-IsIn idx pairs mid inside ranged keys =
    let (i, e) = get_elem?-lt idx mid inside in
    let (k, v, found, good) =
      nth_pair-IsIn pairs i (get-All (count_pairs pairs) idx i mid ranged e) keys in
    (k, v, ap (λ (x : Option ℕ). entry_of_index x) e ∙ found, good)
  where
    entry_of_index : Option ℕ → Option (JsonStr × JsonValue)
    entry_of_index none = none
    entry_of_index (some i) = nth_pair i pairs

pub binary_find-Answers :
    (fuel hash : ℕ) (key : Bytes) (idx : List ℕ) (pairs : Pairs) (lo past : ℕ)
    → past ≤ length idx
    → InRange (count_pairs pairs) idx
    → AllKeys pairs
    → length key < u32_mod
    → Answers key pairs (binary_find fuel hash key (length key) idx pairs lo past)
unfolding binary_find
binary_find-Answers zero hash key idx pairs lo past inside ranged keys short = refl
binary_find-Answers (suc fuel) hash key idx pairs lo past inside ranged keys short =
    if-cases (Answers key pairs) (leb past lo) _ _ (λ _. refl)
      λ more.
        let mid = lo + (past - 1 - lo) / 2 in
        let within_past : mid < past = ground arith in
        let (k, v, e, (is, there)) = entry_at-IsIn idx pairs mid (omega arith) ranged keys in
        let right =
          binary_find-Answers fuel hash key idx pairs (mid + 1) past inside ranged keys short in
        let left =
          binary_find-Answers fuel hash key idx pairs lo mid (omega arith) ranged keys short in
        rw e (
          choose (compare_key hash key (length key) k) v
            (binary_find fuel hash key (length key) idx pairs (mid + 1) past)
            (binary_find fuel hash key (length key) idx pairs lo mid) right left
            λ c.
              subst (λ (t : Bytes). IsIn t v pairs) (compare_key-same hash key k short is c) there)
  where
    choose :
        (c : Compared) (v : JsonValue) (r l : Option (Result JsonValue))
        → Answers key pairs r
        → Answers key pairs l
        → (c ≡ same → IsIn key v pairs)
        → Answers key pairs (elim c [ before ↦ r | after ↦ l | same ↦ some (ok v) ])
    choose before v r l right left there = right
    choose after v r l right left there = left
    choose same v r l right left there = there refl
