-- ===== src/Sort/Introsort.antt =====
-- json__ilog2, json__introsort and json__obj_sort.
use s_json.Base.{
  ℕ, zero, suc, ◌+◌, ◌-◌, ◌*◌, ◌/◌, true, false, not, ◌&&◌, List, [], ◌∷◌, Option, none, some, ltb,
  leb, ◌==◌, if◌then◌else◌, get_elem?, ◌>>=?◌,
}
use s_json.Base.Arrays.{exchange}
use s_json.Sort.{Cmp, is_after, is_before, isort, heapsort}

abbrev pub introsort_thresh : ℕ
introsort_thresh = 16

-- json__ilog2: the number is at least halved in each round, so it is fuel enough.
unfoldable pub ilog2_from : ℕ → ℕ → ℕ → ℕ
ilog2_from zero n r = r
ilog2_from (suc fuel) n r =
    let more = ilog2_from fuel (n / 2) (r + 1) in if ltb 1 n then more else r

unfoldable pub ilog2 : ℕ → ℕ
unfolding ilog2_from
ilog2 n = ilog2_from n n 0

-- An exchange of two entries that are in the wrong order.
unfoldable pub order_two : Cmp → List ℕ → ℕ → ℕ → Option (List ℕ)
order_two cmp arr i j = get_elem? arr i >>=? λ x.
    get_elem? arr j >>=? λ y. if is_after (cmp x y) then exchange arr i j else some arr

-- `while (cmp(arr[++i], pivot) < 0 && i < hi) { }`: at most `fuel` rounds.
unfoldable pub scan_up : ℕ → Cmp → ℕ → ℕ → List ℕ → ℕ → Option ℕ
scan_up zero cmp pivot hi arr i = none
scan_up (suc fuel) cmp pivot hi arr i = get_elem? arr (suc i) >>=? λ x.
    elim (is_before (cmp x pivot) && ltb (suc i) hi) [
      | true ↦ scan_up fuel cmp pivot hi arr (suc i)
      | false ↦ some (suc i)
    ]

-- `while (cmp(arr[--j], pivot) > 0 && j > lo) { }`
unfoldable pub scan_down : Cmp → ℕ → ℕ → List ℕ → ℕ → Option ℕ
scan_down cmp pivot lo arr zero = none
scan_down cmp pivot lo arr (suc j) = get_elem? arr j >>=? λ x.
    elim (is_after (cmp x pivot) && ltb lo j) [
      | true ↦ scan_down cmp pivot lo arr j
      | false ↦ some j
    ]

-- The partition loop: the array and where `i` stops.
unfoldable pub partition : ℕ → Cmp → ℕ → ℕ → ℕ → List ℕ → ℕ → ℕ → Option (List ℕ × ℕ)
partition zero cmp pivot lo hi arr i j = none
partition (suc fuel) cmp pivot lo hi arr i j = scan_up (suc hi) cmp pivot hi arr i >>=? λ i'.
    scan_down cmp pivot lo arr j >>=? λ j'. elim (leb j' i') [
      | true ↦ some (arr, i')
      | false ↦ exchange arr i' j' >>=? λ next. partition fuel cmp pivot lo hi next i' j'
    ]

-- One round of the loop of json__introsort: the median of three, the partition and the pivot's return.
unfoldable pub split : Cmp → List ℕ → ℕ → ℕ → Option (List ℕ × ℕ)
split cmp arr lo hi =
    let mid = lo + (hi - lo + 1) / 2 in
    order_two cmp arr lo mid >>=? λ a. order_two cmp a lo hi >>=? λ b.
    order_two cmp b mid hi >>=? λ c. get_elem? c mid >>=? λ pivot. exchange c mid (hi - 1) >>=? λ d.
    partition hi cmp pivot lo hi d lo (hi - 1) >>=? λ (e, i).
    exchange e i (hi - 1) >>=? λ f. some (f, i)

-- json__introsort. The range shrinks in each call and each round, so its span is fuel enough.
unfoldable pub introsort : ℕ → Cmp → List ℕ → ℕ → ℕ → ℕ → Option (List ℕ)
introsort zero cmp arr lo hi depth = none
introsort (suc fuel) cmp arr lo hi depth =
    let halves = split cmp arr lo hi >>=? λ (next, i). elim (ltb (i - lo) (hi - i)) [
      | true ↦ introsort fuel cmp next lo (i - 1) (depth - 1) >>=? λ left.
          introsort fuel cmp left (i + 1) hi (depth - 1)
      | false ↦ introsort fuel cmp next (i + 1) hi (depth - 1) >>=? λ right. elim (i == 0) [
        | true ↦ some right
        | false ↦ introsort fuel cmp right lo (i - 1) (depth - 1)
      ]
    ] in
    if not (ltb lo hi)
    then some arr
    else if leb (hi - lo + 1) introsort_thresh
    then isort cmp arr lo hi
    else if depth == 0
    then heapsort cmp arr lo hi
    else halves

-- `for (i = 0; i < len; i++) { idx[i] = i; }`: the indices from `i` on.
unfoldable pub indices_from : ℕ → ℕ → List ℕ
indices_from zero i = []
indices_from (suc n) i = i ∷ indices_from n (suc i)

-- The sort of all indices below `len`.
unfoldable pub sort_indices : Cmp → ℕ → Option (List ℕ)
unfolding introsort indices_from ilog2
sort_indices cmp len =
    if ltb 1 len
    then introsort len cmp (indices_from len 0) 0 (len - 1) (2 * ilog2 len)
    else some (indices_from len 0)
