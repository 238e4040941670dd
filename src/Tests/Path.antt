-- ===== src/Tests/Path.antt =====
-- A witness on paths.
use s_json.Base.{◌≡◌, refl, [], ◌∷◌, List, false, none, some, codes, arith}
use s_json.Base.Int.{pos}
use s_json.Value.{JsonValue, null, integer, array, object, no_items, item, no_pairs, pair}
use s_json.Writer.{tmp_digits, reverse_onto}
use s_json.Writer.Decimal.{decimal}
use s_json.Path.{json_path}
use s_json.Path.Segments.{Spelled, quoted, at, dotted, path_text, follow_all, json_path-follow_all}
use s_json.Tests.Access.{key_a, key_b}

-- {"a":[null,{"b":7}]}
abbrev root : JsonValue
root =
    object
      (pair key_a
        (array
          (item null (item (object (pair key_b (integer (pos 7)) no_pairs) 8 none false) no_items))
          8)
        no_pairs)
      8 none false

abbrev spelled : List Spelled
spelled = dotted (codes "a") ∷ at 1 ∷ quoted (codes "b") ∷ []

spelled_text : path_text spelled ≡ codes ".a[1][\"b\"]"
unfolding decimal tmp_digits reverse_onto
spelled_text = refl

json_path-follow_all_example :
    json_path (some root) (some (path_text spelled)) ≡ follow_all root spelled
json_path-follow_all_example = json_path-follow_all root spelled (
  ((refl, omega arith), (omega arith, ((omega arith, (omega arith, omega arith)), tt))),
  (omega arith, (((omega arith, omega arith), tt), tt)),
)
