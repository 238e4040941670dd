-- ===== src/Tests/Build.antt =====
-- Witnesses on building, comparing and cloning.
use s_json.Base.{[], ◌∷◌, ◌≡◌, ◌⊎◌, ◌==◌, refl, true, false, none, some, codes, arith}
use s_json.Base.Int.{pos}
use s_json.Number.{Fpu}
use s_json.Value.{
  JsonValue, boolean, null, integer, array, object, Items, no_items, item, Pairs, no_pairs, pair,
  count_pairs,
}
use s_json.Access.{json_obj_get_n, json_arr_get}
use s_json.Build.{json_obj_set, json_arr_push, json_obj_finalize}
use s_json.Build.Finalize.{json_obj_get_n-json_obj_finalize}
use s_json.Access.Binary.{Answers}
use s_json.Build.Clone.{json_clone}
use s_json.Build.Equal.{Shared, json_equal}
use s_json.Build.Lookup.{
  after_set, after_push, IsObject, json_obj_get_n-json_obj_set, json_obj_set-IsObject,
  json_arr_get-json_arr_push,
}
use s_json.Build.Copy.{fresh, Texts, ItemTexts, PairTexts, json_clone-fresh}
use s_json.Build.CloneEqual.{IsTree, AreTrees, ArePairs, json_equal-json_clone}
use s_json.Tests.Access.{key_a, key_b, key_a-IsKey, key_b-IsKey}
use s_json.Tests.Data.{demo_arena, blank_fpu}

-- {"a":[1],"b":null}
abbrev two_pairs : Pairs
two_pairs = pair key_a (array (item (integer (pos 1)) no_items) 8) (pair key_b null no_pairs)

json_obj_get_n-json_obj_set_example :
    let (status, (obj, a)) =
      json_obj_set
        (some (object two_pairs 8 none false))
        (some demo_arena)
        (some (codes "b"))
        1
        (some (boolean true)) in
    json_obj_get_n obj (some (codes "b")) 1 true
    ≡ some (after_set status (codes "b") (boolean true) two_pairs (codes "b"))
json_obj_get_n-json_obj_set_example =
    json_obj_get_n-json_obj_set two_pairs 8 none demo_arena (codes "b") (boolean true) (codes "b")
      (key_a-IsKey, (key_b-IsKey, tt)) (unfold count_pairs in omega arith) (omega arith)

json_obj_set-IsObject_example :
    IsObject
      (json_obj_set
        (some (object two_pairs 8 (some (0 ∷ 1 ∷ [])) true))
        (some demo_arena)
        (some (codes "c"))
        1
        (some null)).1.0
unfolding count_pairs
json_obj_set-IsObject_example =
    json_obj_set-IsObject two_pairs 8 (some (0 ∷ 1 ∷ [])) true demo_arena (codes "c") null (
      (key_a-IsKey, (key_b-IsKey, tt)),
      ((refl, (refl, tt)), (omega arith, (refl, (omega arith, (omega arith, tt))))),
    )

json_arr_get-json_arr_push_example :
    let (status, (arr, a)) =
      json_arr_push (some (array (item null no_items) 1)) (some demo_arena) (some (boolean true)) in
    json_arr_get arr 1 true ≡ after_push status (item null no_items) (boolean true) 1
json_arr_get-json_arr_push_example =
    json_arr_get-json_arr_push (item null no_items) 1 demo_arena (boolean true) 1

json_clone-fresh_example :
    let (copy, a) = json_clone (some demo_arena) (some (object two_pairs 8 none false)) in
    (copy ≡ none) ⊎ (copy ≡ some (fresh (object two_pairs 8 none false)))
unfolding Texts ItemTexts PairTexts
json_clone-fresh_example =
    json_clone-fresh demo_arena (object two_pairs 8 none false) (refl, ((tt, tt), (refl, (tt, tt))))

-- Doubles that are compared by their bits.
abbrev bitwise : Fpu
bitwise = record blank_fpu { eq = λ a b. a == b }

abbrev apart : Shared
apart _ = false

json_equal-json_clone_example :
    let (copy, a) = json_clone (some demo_arena) (some (object two_pairs 8 none false)) in
    (copy ≡ none)
    ⊎ (json_equal bitwise apart (some (object two_pairs 8 none false)) copy ≡ some true)
unfolding IsTree AreTrees ArePairs
json_equal-json_clone_example =
    json_equal-json_clone bitwise apart (λ f _. ground arith) demo_arena
      (object two_pairs 8 none false)
      (
        omega arith,
        (
          (refl, (refl, tt)),
          (key_a-IsKey, ((omega arith, (omega arith, tt)), (key_b-IsKey, (omega arith, tt)))),
        ),
      )

-- The arena serves the copy.
clone_is_there :
    (json_clone (some demo_arena) (some (object two_pairs 8 none false))).0
    ≡ some (fresh (object two_pairs 8 none false))
unfolding json_clone s_json.Build.Clone.clone s_json.Arena.arena_alloc s_json.Arena.new_node fresh
    count_pairs s_json.Value.count_items
clone_is_there = refl

json_obj_get_n-json_obj_finalize_example :
    let (status, (obj, a)) =
      json_obj_finalize (some demo_arena) (some (object two_pairs 8 none false)) in
    Answers (codes "b") two_pairs (json_obj_get_n obj (some (codes "b")) 1 true)
json_obj_get_n-json_obj_finalize_example =
    json_obj_get_n-json_obj_finalize two_pairs 8 none demo_arena (codes "b")
      (key_a-IsKey, (key_b-IsKey, tt)) (omega arith)
