-- ===== src/Tests/Access.antt =====
-- Witnesses on access.
use s_json.Base.{◌≡◌, refl, [], ◌∷◌, true, false, none, some, codes, arith}
use s_json.Error.{ok}
use s_json.Text.Hash.{fnv1a, fnv_from, fnv_step}
use s_json.Text.Str.{JsonStr}
use s_json.Value.{boolean, null, object, Pairs, no_pairs, pair, count_pairs}
use s_json.Access.{json_obj_get_n}
use s_json.Access.Linear.{IsKey, first_named, json_obj_get_n-first_named}

abbrev pub key_a : JsonStr
key_a = record { text = codes "a"; len = 1; hash = 0xe40c292c }

abbrev pub key_b : JsonStr
key_b = record { text = codes "b"; len = 1; hash = 0xe70c2de5 }

-- The key `a` stands twice.
abbrev three_pairs : Pairs
three_pairs = pair key_b null (pair key_a (boolean true) (pair key_a (boolean false) no_pairs))

pub key_a-IsKey : IsKey key_a
unfolding fnv_from fnv_step
key_a-IsKey = record { len_is = refl; short = omega arith; hash_is = refl }

pub key_b-IsKey : IsKey key_b
unfolding fnv_from fnv_step
key_b-IsKey = record { len_is = refl; short = omega arith; hash_is = refl }

-- In sorted order, `a` before `b` by the hashes; the middle index names the second `a`.
sorted_lookup :
    json_obj_get_n
      (some (object three_pairs 8 (some (1 ∷ 2 ∷ 0 ∷ [])) true))
      (some (codes "a"))
      1
      true
    ≡ some (ok (boolean false))
unfolding json_obj_get_n count_pairs s_json.Text.Hash.json_fnv1a fnv_from fnv_step
    s_json.Access.binary_find
sorted_lookup = refl

json_obj_get_n-first_named_example :
    json_obj_get_n (some (object three_pairs 8 none false)) (some (codes "a")) 1 true
    ≡ some (first_named (codes "a") three_pairs)
json_obj_get_n-first_named_example =
    json_obj_get_n-first_named three_pairs 8 none (codes "a")
      (key_b-IsKey, (key_a-IsKey, (key_a-IsKey, tt))) (omega arith)
