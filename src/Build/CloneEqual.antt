-- ===== src/Build/CloneEqual.antt =====
-- json_equal on a value and its copy.
use s_json.Base.{
  ℕ, suc, ◌+◌, ◌<◌, ◌≡◌, ◌⊎◌, inl, inr, refl, sym, ap, ◌∙◌, subst, Bool, true, false, not, List, [],
  ◌∷◌, Option, none, some, leb, ◌==◌, if◌then◌else◌, arith,
}
use s_json.Base.Int.{ℤ, pos, negsuc}
use s_json.Error.{ok, err, not_found}
use s_json.Text.Str.{JsonStr}
use s_json.Arena.{Arena}
use s_json.Number.{Fpu, is_special}
use s_json.Value.{
  JsonValue, null, boolean, integer, float, string, array, object, Items, no_items, item, Pairs,
  no_pairs, pair, count_pairs, count_items, memcmp, is_same,
}
use s_json.Access.{json_obj_get_n}
use s_json.Access.Linear.{
  IsKey, AllKeys, same_text, first_named, memcmp-same_text, json_obj_get_n-first_named,
}
use s_json.Parser.{max_depth}
use s_json.Build.Set.{NoTwice, same_text_refl, same_text-sym, missing_split}
use s_json.Build.Clone.{json_clone}
use s_json.Build.Equal.{
  Shared, same_bool, same_int, same_str, unless_shared, equal_types, equal_items, equal_pairs,
  equal, json_equal,
}
use s_json.Build.Copy.{
  fresh, fresh_items, fresh_pairs, Texts, ItemTexts, PairTexts, json_clone-fresh,
}

-- A value at this depth as json_parse and the other calls build it: nested no deeper than the limit,
-- its doubles finite, its texts with their own lengths and hashes, no key twice in an object.
unfoldable mutual
  pub IsTree : ℕ → JsonValue → Type 0
  IsTree depth null = depth < max_depth
  IsTree depth (boolean b) = depth < max_depth
  IsTree depth (integer i) = depth < max_depth
  IsTree depth (float f) = (depth < max_depth) × (is_special f ≡ false)
  IsTree depth (string s) = (depth < max_depth) × IsKey s
  IsTree depth (array items cap) = (depth < max_depth) × AreTrees (depth + 1) items
  IsTree depth (object pairs cap idx is_sorted) =
      (depth < max_depth) × (NoTwice pairs × ArePairs (depth + 1) pairs)

  pub AreTrees : ℕ → Items → Type 0
  AreTrees depth no_items = Unit
  AreTrees depth (item v items) = IsTree depth v × AreTrees depth items

  pub ArePairs : ℕ → Pairs → Type 0
  ArePairs depth no_pairs = Unit
  ArePairs depth (pair k v pairs) = IsKey k × (IsTree depth v × ArePairs depth pairs)

mutual
  unfolding IsTree AreTrees ArePairs Texts ItemTexts PairTexts

  IsTree-Texts : (depth : ℕ) (v : JsonValue) → IsTree depth v → Texts v
  IsTree-Texts depth null t = tt
  IsTree-Texts depth (boolean b) t = tt
  IsTree-Texts depth (integer i) t = tt
  IsTree-Texts depth (float f) t = tt
  IsTree-Texts depth (string s) (d, t) = t.len_is
  IsTree-Texts depth (array items cap) (d, t) = AreTrees-ItemTexts (depth + 1) items t
  IsTree-Texts depth (object pairs cap idx is_sorted) (d, (once, t)) =
      ArePairs-PairTexts (depth + 1) pairs t

  AreTrees-ItemTexts : (depth : ℕ) (items : Items) → AreTrees depth items → ItemTexts items
  AreTrees-ItemTexts depth no_items t = tt
  AreTrees-ItemTexts depth (item v items) (t, ts) =
      (IsTree-Texts depth v t, AreTrees-ItemTexts depth items ts)

  ArePairs-PairTexts : (depth : ℕ) (pairs : Pairs) → ArePairs depth pairs → PairTexts pairs
  ArePairs-PairTexts depth no_pairs t = tt
  ArePairs-PairTexts depth (pair k v pairs) (is, (t, ts)) =
      (is.len_is, (IsTree-Texts depth v t, ArePairs-PairTexts depth pairs ts))

-- Each of these keys is found in the whole object, with the copy of its value.
abbrev Found : Pairs → Pairs → Type 0
Found whole no_pairs = Unit
Found whole (pair k v pairs) = (first_named k.text whole ≡ ok (fresh v)) × Found whole pairs

Found-pair :
    (k : JsonStr) (w : JsonValue) (whole pairs : Pairs)
    → first_named k.text pairs ≡ err not_found
    → Found whole pairs
    → Found (pair k w whole) pairs
Found-pair k w whole no_pairs missing found = tt
Found-pair k w whole (pair l v pairs) missing (here, found) =
    let (f, later) = missing_split (same_text l.text k.text) v (first_named k.text pairs) missing in
    (rw (same_text-sym k.text l.text, f) here, Found-pair k w whole pairs later found)

Found-fresh : (pairs : Pairs) → NoTwice pairs → Found (fresh_pairs pairs) pairs
unfolding fresh_pairs
Found-fresh no_pairs once = tt
Found-fresh (pair k v pairs) (absent, once) = (
  rw (same_text_refl k.text) refl,
  Found-pair k (fresh v) (fresh_pairs pairs) pairs absent (Found-fresh pairs once),
)

fresh-AllKeys : (depth : ℕ) (pairs : Pairs) → ArePairs depth pairs → AllKeys (fresh_pairs pairs)
unfolding fresh_pairs ArePairs
fresh-AllKeys depth no_pairs t = tt
fresh-AllKeys depth (pair k v pairs) (is, (t, ts)) = (is, fresh-AllKeys depth pairs ts)

count-fresh_items : (items : Items) → count_items (fresh_items items) ≡ count_items items
unfolding fresh_items count_items
count-fresh_items no_items = refl
count-fresh_items (item v items) = ap suc (count-fresh_items items)

count-fresh_pairs : (pairs : Pairs) → count_pairs (fresh_pairs pairs) ≡ count_pairs pairs
unfolding fresh_pairs count_pairs
count-fresh_pairs no_pairs = refl
count-fresh_pairs (pair k v pairs) = ap suc (count-fresh_pairs pairs)

same_bool_refl : (b : Bool) → same_bool b b ≡ true
same_bool_refl true = refl
same_bool_refl false = refl

same_int_refl : (i : ℤ) → same_int i i ≡ true
same_int_refl (pos n) = ground arith
same_int_refl (negsuc n) = ground arith

same_str_refl : (s : JsonStr) → IsKey s → same_str s s ≡ true
unfolding same_str
same_str_refl s is =
    let compared : is_same (memcmp s.len s.text s.text) ≡ true =
      subst (λ (n : ℕ). is_same (memcmp n s.text s.text) ≡ true) (sym is.len_is)
        (memcmp-same_text s.text s.text refl ∙ same_text_refl s.text) in
    ground (arith, compared)

not_same : (m n : ℕ) (x : Option Bool) → m ≡ n → (if not (n == m) then some false else x) ≡ x
not_same m n x h = ground arith

unless_shared_lem :
    (s : Bool) (depth : ℕ) (compared : Option Bool)
    → depth < max_depth
    → compared ≡ some true
    → unless_shared s depth compared ≡ some true
unless_shared_lem true depth compared d h = refl
unless_shared_lem false depth compared d h =
    let shallow : leb max_depth depth ≡ false = ground arith in rw shallow h

IsTree-depth : (depth : ℕ) (v : JsonValue) → IsTree depth v → depth < max_depth
unfolding IsTree
IsTree-depth depth null t = t
IsTree-depth depth (boolean b) t = t
IsTree-depth depth (integer i) t = t
IsTree-depth depth (float f) t = t.0
IsTree-depth depth (string s) t = t.0
IsTree-depth depth (array items cap) t = t.0
IsTree-depth depth (object pairs cap idx is_sorted) t = t.0

module _ (fpu : Fpu) (shared : Shared)
    (reflexive : (f : ℕ) → is_special f ≡ false → fpu.eq f f ≡ true) where
  mutual
    unfolding IsTree AreTrees ArePairs fresh fresh_items equal_types equal_items equal_pairs

    fresh-equal_types :
        (v : JsonValue) (path : List ℕ) (depth : ℕ)
        → IsTree depth v
        → equal_types fpu shared v (fresh v) path depth ≡ some true
    fresh-equal_types null path depth t = refl
    fresh-equal_types (boolean b) path depth t = ap some (same_bool_refl b)
    fresh-equal_types (integer i) path depth t = ap some (same_int_refl i)
    fresh-equal_types (float f) path depth (d, finite) = ap some (reflexive f finite)
    fresh-equal_types (string s) path depth (d, is) = ap some (same_str_refl s is)
    fresh-equal_types (array items cap) path depth (d, ts) =
        not_same (count_items (fresh_items items)) (count_items items) _ (count-fresh_items items)
        ∙ fresh-equal_items items 0 path depth ts
    fresh-equal_types (object pairs cap idx is_sorted) path depth (d, (once, ts)) =
        not_same (count_pairs (fresh_pairs pairs)) (count_pairs pairs) _ (count-fresh_pairs pairs)
        ∙ fresh-equal_pairs (fresh_pairs pairs) (count_pairs pairs) pairs 0 path depth
            (fresh-AllKeys (depth + 1) pairs ts) (Found-fresh pairs once) ts

    fresh-equal_items :
        (items : Items) (i : ℕ) (path : List ℕ) (depth : ℕ)
        → AreTrees (depth + 1) items
        → equal_items fpu shared items (fresh_items items) i path depth ≡ some true
    fresh-equal_items no_items i path depth ts = refl
    fresh-equal_items (item v items) i path depth (t, ts) =
        rw
          (unless_shared_lem (shared (i ∷ path)) (depth + 1) _ (IsTree-depth (depth + 1) v t)
            (fresh-equal_types v (i ∷ path) (depth + 1) t))
          (fresh-equal_items items (i + 1) path depth ts)

    fresh-equal_pairs :
        (whole : Pairs) (cap : ℕ) (pairs : Pairs) (i : ℕ) (path : List ℕ) (depth : ℕ)
        → AllKeys whole
        → Found whole pairs
        → ArePairs (depth + 1) pairs
        → equal_pairs fpu shared pairs (object whole cap none false) i path depth ≡ some true
    fresh-equal_pairs whole cap no_pairs i path depth keys found ts = refl
    fresh-equal_pairs whole cap (pair k v pairs) i path depth keys (here, found) (is, (t, ts)) =
        let looked_up : json_obj_get_n (some (object whole cap none false)) (some k.text) k.len true
            ≡ some (ok (fresh v)) =
          subst
            (λ (n : ℕ).
              json_obj_get_n (some (object whole cap none false)) (some k.text) n true
              ≡ some (ok (fresh v)))
            (sym is.len_is)
            (json_obj_get_n-first_named whole cap none k.text keys is.short ∙ ap some here) in
        rw
          (
            looked_up,
            unless_shared_lem (shared (i ∷ path)) (depth + 1) _ (IsTree-depth (depth + 1) v t)
                (fresh-equal_types v (i ∷ path) (depth + 1) t),
          )
          (fresh-equal_pairs whole cap pairs (i + 1) path depth keys found ts)

  -- json_clone of a value as the library builds it (nested no deeper than the limit, doubles finite and
  -- equal to themselves, no key twice in an object) is NULL or a value that json_equal finds equal to it,
  -- whichever pointers the two may share.
  pub json_equal-json_clone :
      (arena : Arena) (v : JsonValue)
      → IsTree 0 v
      → let (copy, a) = json_clone (some arena) (some v) in
        (copy ≡ none) ⊎ (json_equal fpu shared (some v) copy ≡ some true)
  unfolding json_equal equal
  json_equal-json_clone arena v t = elim (json_clone-fresh arena v (IsTree-Texts 0 v t)) [
    | inl failed ↦ inl failed
    | inr copied ↦ inr (
        rw copied
          (unless_shared_lem (shared []) 0 _ (IsTree-depth 0 v t) (fresh-equal_types v [] 0 t)))
  ]
