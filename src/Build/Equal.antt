-- ===== src/Build/Equal.antt =====
-- json__equal and json_equal.
use s_json.Base.{
  ℕ, ◌+◌, Bool, true, false, not, ◌&&◌, ◌||◌, List, [], ◌∷◌, Option, none, some, leb, ◌==◌,
  if◌then◌else◌,
}
use s_json.Base.Int.{ℤ, pos, negsuc}
use s_json.Error.{Result, ok, err}
use s_json.Text.Str.{JsonStr}
use s_json.Number.{Fpu}
use s_json.Value.{
  JsonValue, null, boolean, integer, float, string, array, object, Items, no_items, item, Pairs,
  no_pairs, pair, count_items, count_pairs, memcmp, is_same,
}
use s_json.Access.{json_obj_get_n}
use s_json.Parser.{max_depth}

abbrev pub same_bool : Bool → Bool → Bool
same_bool true b = b
same_bool false b = not b

abbrev pub same_int : ℤ → ℤ → Bool
same_int (pos m) (pos n) = m == n
same_int (negsuc m) (negsuc n) = m == n
same_int _ _ = false

unfoldable pub same_str : JsonStr → JsonStr → Bool
unfolding memcmp
same_str s t =
    s.len == t.len && s.hash == t.hash && (s.len == 0 || is_same (memcmp s.len s.text t.text))

-- Whether two pointers are the same, by the indices that lead to the value of the first tree, the last
-- index first.
abbrev pub Shared : Type 0
Shared = List ℕ → Bool

-- `if (!test) { return false; }` and the rest.
infixl 5 ◌and_then◌
abbrev pub ◌and_then◌ : Option Bool → Option Bool → Option Bool
none and_then rest = none
some false and_then rest = some false
some true and_then rest = rest

-- The comparison before the types: the same pointer, or the depth.
abbrev pub unless_shared : Bool → ℕ → Option Bool → Option Bool
unless_shared shared depth compared =
    if shared then some true else if leb max_depth depth then some false else compared

-- The value that json_obj_get_n found goes on to be compared.
abbrev pub found_and : Option (Result JsonValue) → (JsonValue → Option Bool) → Option Bool
found_and none next = none
found_and (some (err _)) next = some false
found_and (some (ok v)) next = next v

module _ (fpu : Fpu) (shared : Shared) where
  unfoldable mutual
    unfolding same_str json_obj_get_n

    -- json__equal from the test of the types on.
    pub equal_types : JsonValue → JsonValue → List ℕ → ℕ → Option Bool
    equal_types null null path depth = some true
    equal_types (boolean x) (boolean y) path depth = some (same_bool x y)
    equal_types (integer i) (integer j) path depth = some (same_int i j)
    equal_types (float f) (float g) path depth = some (fpu.eq f g)
    equal_types (integer i) (float g) path depth = some (fpu.eq (fpu.of_int64 i) g)
    equal_types (float f) (integer j) path depth = some (fpu.eq f (fpu.of_int64 j))
    equal_types (string s) (string t) path depth = some (same_str s t)
    equal_types (array items cap) (array others c) path depth =
        if not (count_items items == count_items others)
        then some false
        else equal_items items others 0 path depth
    equal_types (object pairs cap idx is_sorted) (object others c jdx t) path depth =
        if not (count_pairs pairs == count_pairs others)
        then some false
        else equal_pairs pairs (object others c jdx t) 0 path depth
    equal_types _ _ path depth = some false

    -- The loop over the items, from index `i`.
    pub equal_items : Items → Items → ℕ → List ℕ → ℕ → Option Bool
    equal_items no_items others i path depth = some true
    equal_items (item v items) no_items i path depth = some true
    equal_items (item v items) (item w others) i path depth =
        unless_shared (shared (i ∷ path)) (depth + 1) (equal_types v w (i ∷ path) (depth + 1))
        and_then equal_items items others (i + 1) path depth

    -- The loop over the pairs, from index `i`.
    pub equal_pairs : Pairs → JsonValue → ℕ → List ℕ → ℕ → Option Bool
    equal_pairs no_pairs b i path depth = some true
    equal_pairs (pair k v pairs) b i path depth =
        found_and (json_obj_get_n (some b) (some k.text) k.len true) (λ w.
          unless_shared (shared (i ∷ path)) (depth + 1) (equal_types v w (i ∷ path) (depth + 1)))
        and_then equal_pairs pairs b (i + 1) path depth

  -- json__equal: `none` is an access out of range in the binary search for a key.
  unfoldable pub equal : JsonValue → JsonValue → List ℕ → ℕ → Option Bool
  unfolding equal_types
  equal a b path depth = unless_shared (shared path) depth (equal_types a b path depth)

-- json_equal: `none` is NULL.
unfoldable pub json_equal : Fpu → Shared → Option JsonValue → Option JsonValue → Option Bool
unfolding equal
json_equal fpu shared none none = some true
json_equal fpu shared (some a) (some b) = equal fpu shared a b [] 0
json_equal fpu shared a b = some false
