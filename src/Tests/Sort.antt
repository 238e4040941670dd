-- ===== src/Tests/Sort.antt =====
-- Witnesses on the sort of keys.
use Prim.Native.String.{String}
use s_json.Base.{true, some, ◌≡◌, refl, [], ◌∷◌, codes, length}
use s_json.Base.Int.{pos}
use s_json.Text.Str.{JsonStr}
use s_json.Value.{null, integer, Pairs, no_pairs, pair}
use s_json.Sort.{key_cmp, isort}
use s_json.Sort.Introsort.{sort_indices, indices_from}
use s_json.Sort.Permutes.{Permutes}
use s_json.Sort.IntroPerm.{sort_indices-Permutes}

abbrev key_of : String → JsonStr
key_of text = record { text = codes text; len = length (codes text); hash = 0 }

abbrev three_pairs : Pairs
three_pairs =
    pair (key_of "b") null (pair (key_of "ab") (integer (pos 1)) (pair (key_of "a") null no_pairs))

sorted_test : sort_indices (key_cmp true three_pairs) 3 ≡ some (2 ∷ 1 ∷ 0 ∷ [])
unfolding sort_indices key_cmp isort
sorted_test = refl

sort_indices-Permutes_example :
    Permutes (indices_from 3 0) (sort_indices (key_cmp true three_pairs) 3)
sort_indices-Permutes_example = sort_indices-Permutes (key_cmp true three_pairs) 3
