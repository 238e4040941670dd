-- ===== src/Sort.antt =====
-- Sorting of key indices: json__key_cmp, json__isort, json__sift_down and json__heapsort. `arr` is the
-- array of indices; `none` is an access out of its bounds, or fuel that ran out. Indices stay below twice
-- the length, so no uint32_t wraps.
pub mod Introsort
pub mod Permutes
pub mod Perm
pub mod IntroPerm
use s_json.Base.{
  ℕ, zero, suc, ◌+◌, ◌-◌, ◌*◌, ◌/◌, Bool, true, false, not, ◌&&◌, ◌||◌, List, Option, none, some,
  ltb, leb, ◌==◌, if◌then◌else◌, get_elem?, set, ◌>>=?◌,
}
use s_json.Base.Arrays.{store, exchange}
use s_json.Text.Str.{JsonStr}
use s_json.Value.{JsonValue, Pairs, nth_pair, Compared, before, same, after, is_same, memcmp}

-- The comparison of two indices, as the context fixes it.
abbrev pub Cmp : Type 0
Cmp = ℕ → ℕ → Compared

-- By bytes, then by length.
unfoldable pub lexical_cmp : JsonStr → JsonStr → Compared
unfolding memcmp
lexical_cmp ka kb =
    let min_len : ℕ = if ltb ka.len kb.len then ka.len else kb.len in
    let cmp = memcmp min_len ka.text kb.text in
    if not (is_same cmp)
    then cmp
    else if ltb ka.len kb.len
    then before
    else if ltb kb.len ka.len
    then after
    else same

-- On two keys: unless the order is lexical, by hash first.
unfoldable pub str_cmp : Bool → JsonStr → JsonStr → Compared
unfolding lexical_cmp
str_cmp lexical ka kb =
    if not lexical && not (ka.hash == kb.hash)
    then (if ltb ka.hash kb.hash then before else after)
    else lexical_cmp ka kb

-- json__key_cmp. An index behind the pairs would be an access out of bounds; sorting starts from the
-- indices of all pairs and only rearranges them.
unfoldable pub key_cmp : Bool → Pairs → Cmp
unfolding str_cmp nth_pair
key_cmp lexical pairs a b = elim (nth_pair a pairs) [
  | none ↦ same
  | some (ka, _) ↦ elim (nth_pair b pairs) [ none ↦ same | some (kb, _) ↦ str_cmp lexical ka kb ]
]

abbrev pub is_after : Compared → Bool
is_after before = false
is_after same = false
is_after after = true

abbrev pub is_before : Compared → Bool
is_before before = true
is_before same = false
is_before after = false

-- The inner loop of json__isort, at `j`, and the write behind it.
unfoldable pub shift : Cmp → ℕ → ℕ → List ℕ → ℕ → Option (List ℕ)
shift cmp lo key arr zero = store arr zero key
shift cmp lo key arr (suc j) =
    let more = get_elem? arr j >>=? λ x. elim (is_after (cmp x key)) [
      | true ↦ shift cmp lo key (set arr (suc j) x) j
      | false ↦ store arr (suc j) key
    ] in
    if ltb lo (suc j) then more else store arr (suc j) key

-- The outer loop of json__isort, for `n` rounds from `i` on.
unfoldable pub isort_from : ℕ → Cmp → ℕ → List ℕ → ℕ → Option (List ℕ)
isort_from zero cmp lo arr i = some arr
isort_from (suc n) cmp lo arr i =
    get_elem? arr i >>=? λ key. shift cmp lo key arr i >>=? λ next. isort_from n cmp lo next (suc i)

-- json__isort
unfoldable pub isort : Cmp → List ℕ → ℕ → ℕ → Option (List ℕ)
unfolding isort_from shift
isort cmp arr lo hi = isort_from (hi - lo) cmp lo arr (lo + 1)

-- Which of two children is the larger; the second is read only where it is there.
unfoldable pub larger_child : Cmp → List ℕ → ℕ → ℕ → ℕ → Option ℕ
larger_child cmp arr base child end =
    if leb (child + 1) end
    then (get_elem? arr (base + child) >>=? λ x. get_elem? arr (base + (child + 1)) >>=? λ y.
        some (if is_before (cmp x y) then child + 1 else child))
    else some child

-- json__sift_down on the array from `base` on. The root at least doubles in each round, so one round
-- more than `end` is fuel enough.
unfoldable pub sift : ℕ → Cmp → List ℕ → ℕ → ℕ → ℕ → Option (List ℕ)
unfolding larger_child
sift zero cmp arr base parent end = none
sift (suc fuel) cmp arr base parent end =
    let more = larger_child cmp arr base (2 * parent + 1) end >>=? λ child.
    get_elem? arr (base + parent) >>=? λ x. get_elem? arr (base + child) >>=? λ y.
    elim (is_before (cmp x y)) [
      | true ↦
          exchange arr (base + parent) (base + child) >>=? λ next. sift fuel cmp next base child end
      | false ↦ some arr
    ] in
    if ltb end (2 * parent + 1) then some arr else more

unfoldable pub sift_down : Cmp → List ℕ → ℕ → ℕ → ℕ → Option (List ℕ)
unfolding sift
sift_down cmp arr base root end = sift (end + 1) cmp arr base root end

-- The loop that builds the heap, for the roots below `i`.
unfoldable pub build_heap : ℕ → Cmp → List ℕ → ℕ → ℕ → Option (List ℕ)
build_heap zero cmp arr lo last = some arr
build_heap (suc i) cmp arr lo last =
    sift_down cmp arr lo i last >>=? λ next. build_heap i cmp next lo last

-- The loop that takes the largest out, from the last index `i` on.
unfoldable pub extract : ℕ → Cmp → List ℕ → ℕ → Option (List ℕ)
extract zero cmp arr lo = some arr
extract (suc i) cmp arr lo = exchange arr lo (lo + suc i) >>=? λ swapped.
    sift_down cmp swapped lo 0 i >>=? λ next. extract i cmp next lo

-- json__heapsort
unfoldable pub heapsort : Cmp → List ℕ → ℕ → ℕ → Option (List ℕ)
unfolding build_heap extract sift_down
heapsort cmp arr lo hi =
    let n = hi - lo + 1 in
    let sorted = build_heap (n / 2) cmp arr lo (n - 1) >>=? λ heap. extract (n - 1) cmp heap lo in
    if ltb n 2 then some arr else sorted
