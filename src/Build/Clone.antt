-- ===== src/Build/Clone.antt =====
-- json__clone and json_clone.
use s_json.Base.{
  ℕ, ◌+◌, ◌*◌, ◌%◌, Bool, true, false, [], Option, none, some, leb, ◌==◌, if◌then◌else◌, take,
  u64_mod,
}
use s_json.Text.Str.{JsonStr}
use s_json.Arena.{Arena, new_node, arena_alloc}
use s_json.Value.{
  JsonValue, null, boolean, integer, float, string, array, object, Items, no_items, item, Pairs,
  no_pairs, pair, count_items, count_pairs, sizeof_pointer, sizeof_pair,
}
use s_json.Parser.{max_depth}
use s_json.Build.{Node}

-- A part of the copy, or NULL, and the arena after.
abbrev pub Copied {ℓ} : Type ℓ → Type ℓ
Copied A = Option A × Arena

-- `if (copy == NULL) { return NULL; }` and the rest.
infixl 5 ◌then_copy◌
abbrev pub ◌then_copy◌ {ℓ κ} :
    {A : Type ℓ} {B : Type κ} → Copied A → (A → Arena → Copied B) → Copied B
(none, a) then_copy next = (none, a)
(some x, a) then_copy next = next x a

-- The copy of a text and of its length and hash.
unfoldable pub copy_str : JsonStr → Arena → Copied JsonStr
unfolding arena_alloc
copy_str s a =
    let kept : JsonStr = record s { text = take s.len s.text } in
    if s.len == 0
    then (some (record s { text = [] }), a)
    else arena_alloc a s.len then_copy λ _ a'. (some kept, a')

-- The depth and the node, before the content is copied.
abbrev pub with_node : (Arena → Node) → Bool × Arena → Node
with_node content (false, a) = (none, a)
with_node content (true, a) = content a

abbrev pub at_node : ℕ → Arena → (Arena → Node) → Node
at_node depth arena content =
    if leb max_depth depth then (none, arena) else with_node content (new_node arena)

-- The memory for the entries of a container, where it has any.
abbrev pub entries {ℓ} : {A : Type ℓ} → A → ℕ → ℕ → Arena → (Arena → Copied A) → Copied A
entries empty count size a copy =
    if count == 0
    then (some empty, a)
    else arena_alloc a (count * size % u64_mod) then_copy λ _ a'. copy a'

unfoldable mutual
  unfolding copy_str new_node arena_alloc

  pub clone : JsonValue → ℕ → Arena → Node
  clone null depth arena = at_node depth arena λ a. (some null, a)
  clone (boolean b) depth arena = at_node depth arena λ a. (some (boolean b), a)
  clone (integer i) depth arena = at_node depth arena λ a. (some (integer i), a)
  clone (float f) depth arena = at_node depth arena λ a. (some (float f), a)
  clone (string s) depth arena =
      at_node depth arena λ a. copy_str s a then_copy λ s' a'. (some (string s'), a')
  clone (array items cap) depth arena = at_node depth arena λ a.
      entries no_items (count_items items) sizeof_pointer a (λ a1. clone_items items depth a1)
      then_copy λ items' a'. (some (array items' (count_items items)), a')
  clone (object pairs cap idx is_sorted) depth arena = at_node depth arena λ a.
      entries no_pairs (count_pairs pairs) sizeof_pair a (λ a1. clone_pairs pairs depth a1)
      then_copy λ pairs' a'. (some (object pairs' (count_pairs pairs) none false), a')

  pub clone_items : Items → ℕ → Arena → Copied Items
  clone_items no_items depth arena = (some no_items, arena)
  clone_items (item v items) depth arena = clone v (depth + 1) arena then_copy λ v' a.
      clone_items items depth a then_copy λ items' a'. (some (item v' items'), a')

  pub clone_pairs : Pairs → ℕ → Arena → Copied Pairs
  clone_pairs no_pairs depth arena = (some no_pairs, arena)
  clone_pairs (pair k v pairs) depth arena = copy_str k arena then_copy λ k' a.
      clone v (depth + 1) a then_copy λ v' a'.
      clone_pairs pairs depth a' then_copy λ pairs' a''. (some (pair k' v' pairs'), a'')

-- json_clone: `none` is NULL.
unfoldable pub json_clone : Option Arena → Option JsonValue → Option JsonValue × Option Arena
unfolding clone
json_clone (some dst) (some src) = let (v, a) = clone src 0 dst in (v, some a)
json_clone dst src = (none, dst)
