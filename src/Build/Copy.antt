-- ===== src/Build/Copy.antt =====
-- json_clone gives an exact copy, which json_equal finds equal.
use s_json.Base.{
  ℕ, ◌+◌, ◌*◌, ◌%◌, ◌≡◌, ◌⊎◌, inl, inr, refl, sym, ap, ◌∙◌, subst, Bool, true, false, [], ◌∷◌, none,
  some, Bytes, leb, ◌==◌, if-cases, length, take, take-length, u64_mod, arith,
}
use s_json.Text.Str.{JsonStr}
use s_json.Arena.{Arena, new_node, arena_alloc}
use s_json.Value.{
  JsonValue, null, boolean, integer, float, string, array, object, Items, no_items, item, Pairs,
  no_pairs, pair, count_pairs, count_items, sizeof_pointer, sizeof_pair,
}
use s_json.Parser.{max_depth}
use s_json.Build.{Node}
use s_json.Build.Clone.{
  Copied, ◌then_copy◌, copy_str, with_node, at_node, entries, clone, clone_items, clone_pairs,
  json_clone,
}

-- The copy: containers with no more capacity than they need, and objects that are not sorted.
unfoldable mutual
  unfolding count_items count_pairs

  pub fresh : JsonValue → JsonValue
  fresh null = null
  fresh (boolean b) = boolean b
  fresh (integer i) = integer i
  fresh (float f) = float f
  fresh (string s) = string s
  fresh (array items cap) = array (fresh_items items) (count_items items)
  fresh (object pairs cap idx is_sorted) = object (fresh_pairs pairs) (count_pairs pairs) none false

  pub fresh_items : Items → Items
  fresh_items no_items = no_items
  fresh_items (item v items) = item (fresh v) (fresh_items items)

  pub fresh_pairs : Pairs → Pairs
  fresh_pairs no_pairs = no_pairs
  fresh_pairs (pair k v pairs) = pair k (fresh v) (fresh_pairs pairs)

-- Every text in the value has its own length.
unfoldable mutual
  pub Texts : JsonValue → Type 0
  Texts null = Unit
  Texts (boolean b) = Unit
  Texts (integer i) = Unit
  Texts (float f) = Unit
  Texts (string s) = s.len ≡ length s.text
  Texts (array items cap) = ItemTexts items
  Texts (object pairs cap idx is_sorted) = PairTexts pairs

  pub ItemTexts : Items → Type 0
  ItemTexts no_items = Unit
  ItemTexts (item v items) = Texts v × ItemTexts items

  pub PairTexts : Pairs → Type 0
  PairTexts no_pairs = Unit
  PairTexts (pair k v pairs) = (k.len ≡ length k.text) × (Texts v × PairTexts pairs)

-- The result is NULL, or exactly this.
abbrev pub CopyOf : {A : Type 0} → A → Copied A → Type 0
CopyOf x (none, a) = Unit
CopyOf x (some y, a) = y ≡ x

then_copy-CopyOf :
    {A B : Type 0} (x : A) (y : B) (r : Copied A) (next : A → Arena → Copied B)
    → CopyOf x r
    → ((a : Arena) → CopyOf y (next x a))
    → CopyOf y (r then_copy next)
then_copy-CopyOf x y (none, a) next h k = tt
then_copy-CopyOf x y (some x', a) next h k = subst (λ (z : _). CopyOf y (next z a)) (sym h) (k a)

some_region :
    {A B : Type 0} (y : B) (r : Copied A) (next : Arena → Copied B)
    → ((a : Arena) → CopyOf y (next a))
    → CopyOf y (r then_copy λ _ a. next a)
some_region y (none, a) next k = tt
some_region y (some x, a) next k = k a

copy_str-CopyOf : (s : JsonStr) (a : Arena) → s.len ≡ length s.text → CopyOf s (copy_str s a)
unfolding copy_str
copy_str-CopyOf s a len =
    if-cases (CopyOf s) (s.len == 0) _ _
      (λ z. ap (λ (t : Bytes). record s { text = t }) (sym (empty s.text (ground arith))))
      (λ _. some_region s (arena_alloc a s.len) _ λ a'.
        ap (λ (t : Bytes). record s { text = t })
          (ap (λ (n : ℕ). take n s.text) len ∙ take-length s.text))
  where
    empty : (text : Bytes) → length text ≡ 0 → text ≡ []
    empty [] h = refl
    empty (c ∷ text) h = absurd (omega arith)

at_node-CopyOf :
    (v : JsonValue) (depth : ℕ) (arena : Arena) (content : Arena → Node)
    → ((a : Arena) → CopyOf v (content a))
    → CopyOf v (at_node depth arena content)
at_node-CopyOf v depth arena content h =
    if-cases (CopyOf v) (leb max_depth depth) _ _ (λ _. tt) λ _. go (new_node arena)
  where
    go : (r : Bool × Arena) → CopyOf v (with_node content r)
    go (false, a) = tt
    go (true, a) = h a

entries-CopyOf :
    {A : Type 0} (x empty : A) (count size : ℕ) (a : Arena) (copy : Arena → Copied A)
    → (count ≡ 0 → empty ≡ x)
    → ((a' : Arena) → CopyOf x (copy a'))
    → CopyOf x (entries empty count size a copy)
entries-CopyOf x empty count size a copy none_left h =
    if-cases (CopyOf x) (count == 0) _ _ (λ z. none_left (ground arith))
      (λ _. some_region x (arena_alloc a (count * size % u64_mod)) copy h)

no_items_left : (items : Items) → count_items items ≡ 0 → no_items ≡ fresh_items items
unfolding fresh_items count_items
no_items_left no_items h = refl
no_items_left (item v items) h = absurd (omega arith)

no_pairs_left : (pairs : Pairs) → count_pairs pairs ≡ 0 → no_pairs ≡ fresh_pairs pairs
unfolding fresh_pairs count_pairs
no_pairs_left no_pairs h = refl
no_pairs_left (pair k v pairs) h = absurd (omega arith)

mutual
  unfolding clone clone_items clone_pairs fresh fresh_items fresh_pairs Texts ItemTexts PairTexts

  pub clone-CopyOf :
      (v : JsonValue) (depth : ℕ) (arena : Arena) → Texts v → CopyOf (fresh v) (clone v depth arena)
  clone-CopyOf null depth arena t = at_node-CopyOf null depth arena _ λ _. refl
  clone-CopyOf (boolean b) depth arena t = at_node-CopyOf (boolean b) depth arena _ λ _. refl
  clone-CopyOf (integer i) depth arena t = at_node-CopyOf (integer i) depth arena _ λ _. refl
  clone-CopyOf (float f) depth arena t = at_node-CopyOf (float f) depth arena _ λ _. refl
  clone-CopyOf (string s) depth arena t =
      at_node-CopyOf (string s) depth arena _
        λ a. then_copy-CopyOf s (string s) (copy_str s a) _ (copy_str-CopyOf s a t) λ _. refl
  clone-CopyOf (array items cap) depth arena t =
      at_node-CopyOf (fresh (array items cap)) depth arena _ λ a.
        then_copy-CopyOf (fresh_items items) (fresh (array items cap)) _ _
          (entries-CopyOf (fresh_items items) no_items (count_items items) sizeof_pointer a _
            (no_items_left items) λ a1. clone_items-CopyOf items depth a1 t)
          λ _. refl
  clone-CopyOf (object pairs cap idx is_sorted) depth arena t =
      at_node-CopyOf (fresh (object pairs cap idx is_sorted)) depth arena _ λ a.
        then_copy-CopyOf (fresh_pairs pairs) (fresh (object pairs cap idx is_sorted)) _ _
          (entries-CopyOf (fresh_pairs pairs) no_pairs (count_pairs pairs) sizeof_pair a _
            (no_pairs_left pairs) λ a1. clone_pairs-CopyOf pairs depth a1 t)
          λ _. refl

  clone_items-CopyOf :
      (items : Items) (depth : ℕ) (arena : Arena)
      → ItemTexts items
      → CopyOf (fresh_items items) (clone_items items depth arena)
  clone_items-CopyOf no_items depth arena t = refl
  clone_items-CopyOf (item v items) depth arena (t, ts) =
      then_copy-CopyOf (fresh v) (fresh_items (item v items)) (clone v (depth + 1) arena) _
        (clone-CopyOf v (depth + 1) arena t)
        λ a.
          then_copy-CopyOf (fresh_items items) (fresh_items (item v items))
            (clone_items items depth a) _ (clone_items-CopyOf items depth a ts) λ _. refl

  clone_pairs-CopyOf :
      (pairs : Pairs) (depth : ℕ) (arena : Arena)
      → PairTexts pairs
      → CopyOf (fresh_pairs pairs) (clone_pairs pairs depth arena)
  clone_pairs-CopyOf no_pairs depth arena t = refl
  clone_pairs-CopyOf (pair k v pairs) depth arena (len, (t, ts)) =
      then_copy-CopyOf k (fresh_pairs (pair k v pairs)) (copy_str k arena) _
        (copy_str-CopyOf k arena len)
        λ a.
          then_copy-CopyOf (fresh v) (fresh_pairs (pair k v pairs)) (clone v (depth + 1) a) _
            (clone-CopyOf v (depth + 1) a t)
            λ a1.
              then_copy-CopyOf (fresh_pairs pairs) (fresh_pairs (pair k v pairs))
                (clone_pairs pairs depth a1) _ (clone_pairs-CopyOf pairs depth a1 ts) λ _. refl

-- json_clone of a value whose texts have their own lengths is NULL or the same tree, in which arrays and
-- objects have the capacity that they need and no sorted indices.
pub json_clone-fresh :
    (arena : Arena) (v : JsonValue)
    → Texts v
    → let (copy, a) = json_clone (some arena) (some v) in (copy ≡ none) ⊎ (copy ≡ some (fresh v))
unfolding json_clone
json_clone-fresh arena v t = go (clone v 0 arena) (clone-CopyOf v 0 arena t)
  where
    go : (r : Node) → CopyOf (fresh v) r → (r.0 ≡ none) ⊎ (r.0 ≡ some (fresh v))
    go (none, a) h = inl refl
    go (some w, a) h = inr (ap some h)
