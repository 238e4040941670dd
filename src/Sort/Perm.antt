-- ===== src/Sort/Perm.antt =====
-- json__isort and json__heapsort rearrange the array.
use s_json.Base.{
  ℕ, zero, suc, ◌+◌, ◌-◌, ◌*◌, ◌/◌, ◌≤◌, ◌<◌, subst, List, Option, none, some, length, set, ◌>>=?◌,
  ltb, leb, if-cases, arith,
}
use s_json.Base.Arrays.{store, exchange, length-set, set_same, shift-perm}
use s_json.Sort.{
  Cmp, is_after, is_before, shift, isort_from, isort, larger_child, sift, sift_down, build_heap,
  extract, heapsort,
}
use s_json.Sort.Permutes.{
  Permutes, Permutes-refl, Permutes-trans, Permutes-bind, exchange-Permutes, read-in, on_test,
}

store-Permutes : (a : List ℕ) (i v : ℕ) → i < length a → Permutes (set a i v) (store a i v)
store-Permutes a i v h =
    if-cases (Permutes (set a i v)) (ltb i (length a)) _ _ (λ _. Permutes-refl (set a i v))
      (λ e. absurd (ground arith))

-- The shift gives a rearrangement of the array in which the key stands at the hole.
shift-Permutes :
    (cmp : Cmp) (lo key : ℕ) (a : List ℕ) (j : ℕ)
    → j < length a
    → Permutes (set a j key) (shift cmp lo key a j)
unfolding shift
shift-Permutes cmp lo key a zero h = store-Permutes a zero key h
shift-Permutes cmp lo key a (suc j) h =
    if-cases P (ltb lo (suc j)) _ _
      (λ _. read-in P a j _ (omega arith) λ x e.
        on_test P (is_after (cmp x key)) _ _
          (λ _.
            Permutes-trans (set a (suc j) key) (set (set a (suc j) x) j key)
              (shift cmp lo key (set a (suc j) x) j)
              (omega (
                arith,
                length-set (set a (suc j) x) j key,
                length-set a (suc j) x,
                length-set a (suc j) key,
              ))
              (shift-perm a j x key h e)
              (shift-Permutes cmp lo key (set a (suc j) x) j
                (omega (arith, length-set a (suc j) x))))
          (λ _. store-Permutes a (suc j) key h))
      (λ _. store-Permutes a (suc j) key h)
  where
    P : Option (List ℕ) → Type 0
    P = Permutes (set a (suc j) key)

isort_from-Permutes :
    (n : ℕ) (cmp : Cmp) (lo : ℕ) (a : List ℕ) (i : ℕ)
    → n + i ≤ length a
    → Permutes a (isort_from n cmp lo a i)
unfolding isort_from
isort_from-Permutes zero cmp lo a i h = Permutes-refl a
isort_from-Permutes (suc n) cmp lo a i h = read-in (Permutes a) a i _ (omega arith) λ key e.
    Permutes-bind a (shift cmp lo key a i) _
      (subst (λ (b : List ℕ). Permutes b (shift cmp lo key a i)) (set_same a i key e)
        (shift-Permutes cmp lo key a i (omega arith)))
      (λ b l. isort_from-Permutes n cmp lo b (suc i) (omega arith))

pub isort-Permutes :
    (cmp : Cmp) (a : List ℕ) (lo hi : ℕ) → hi < length a → lo ≤ hi → Permutes a (isort cmp a lo hi)
unfolding isort
isort-Permutes cmp a lo hi h k = isort_from-Permutes (hi - lo) cmp lo a (lo + 1) (omega arith)

-- A chosen child is one of the two, and lies in the heap.
abbrev IsChild : ℕ → ℕ → Option ℕ → Type 0
IsChild child end none = ⊥
IsChild child end (some c) = (child ≤ c) × (c ≤ end)

larger_child-IsChild :
    (cmp : Cmp) (a : List ℕ) (base child end : ℕ)
    → base + end < length a
    → child ≤ end
    → IsChild child end (larger_child cmp a base child end)
unfolding larger_child
larger_child-IsChild cmp a base child end h k =
    if-cases (IsChild child end) (leb (child + 1) end) _ _
      (λ room. read-in (IsChild child end) a (base + child) _ (omega arith) λ x _.
        read-in (IsChild child end) a (base + (child + 1)) _ (ground arith) λ y _. ground arith)
      (λ _. (omega arith, k))

child-bind :
    (a : List ℕ) (child end : ℕ) (m : Option ℕ) (next : ℕ → Option (List ℕ))
    → IsChild child end m
    → ((c : ℕ) → child ≤ c → c ≤ end → Permutes a (next c))
    → Permutes a (m >>=? next)
child-bind a child end none next h k = h
child-bind a child end (some c) next (p, q) k = k c p q

sift-Permutes :
    (fuel : ℕ) (cmp : Cmp) (a : List ℕ) (base parent end : ℕ)
    → base + end < length a
    → parent ≤ end
    → end - parent < fuel
    → Permutes a (sift fuel cmp a base parent end)
unfolding sift
sift-Permutes zero cmp a base parent end h k f = absurd (omega arith)
sift-Permutes (suc fuel) cmp a base parent end h k f =
    if-cases P (ltb end (2 * parent + 1)) _ _ (λ _. Permutes-refl a)
      λ room.
        child-bind a (2 * parent + 1) end (larger_child cmp a base (2 * parent + 1) end) _
          (larger_child-IsChild cmp a base (2 * parent + 1) end h (ground arith))
          λ c p q. read-in P a (base + parent) _ (omega arith) λ x _.
            read-in P a (base + c) _ (omega arith) λ y _.
              on_test P (is_before (cmp x y)) _ _
                (λ _.
                  Permutes-bind a (exchange a (base + parent) (base + c)) _
                    (exchange-Permutes a (base + parent) (base + c) (omega arith) (omega arith))
                    (λ b l. sift-Permutes fuel cmp b base c end (omega arith) q (omega arith)))
                (λ _. Permutes-refl a)
  where
    P : Option (List ℕ) → Type 0
    P = Permutes a

sift_down-Permutes :
    (cmp : Cmp) (a : List ℕ) (base root end : ℕ)
    → base + end < length a
    → root ≤ end
    → Permutes a (sift_down cmp a base root end)
unfolding sift_down
sift_down-Permutes cmp a base root end h k =
    sift-Permutes (end + 1) cmp a base root end h k (omega arith)

build_heap-Permutes :
    (i : ℕ) (cmp : Cmp) (a : List ℕ) (lo last : ℕ)
    → lo + last < length a
    → i ≤ last
    → Permutes a (build_heap i cmp a lo last)
unfolding build_heap
build_heap-Permutes zero cmp a lo last h k = Permutes-refl a
build_heap-Permutes (suc i) cmp a lo last h k =
    Permutes-bind a (sift_down cmp a lo i last) _
      (sift_down-Permutes cmp a lo i last h (omega arith))
      (λ b l. build_heap-Permutes i cmp b lo last (omega arith) (omega arith))

extract-Permutes :
    (i : ℕ) (cmp : Cmp) (a : List ℕ) (lo : ℕ) → lo + i < length a → Permutes a (extract i cmp a lo)
unfolding extract
extract-Permutes zero cmp a lo h = Permutes-refl a
extract-Permutes (suc i) cmp a lo h =
    Permutes-bind a (exchange a lo (lo + suc i)) _
      (exchange-Permutes a lo (lo + suc i) (omega arith) (omega arith))
      λ b l.
        Permutes-bind b (sift_down cmp b lo 0 i) _
          (sift_down-Permutes cmp b lo 0 i (omega arith) (omega arith))
          λ c m. extract-Permutes i cmp c lo (omega arith)

pub heapsort-Permutes :
    (cmp : Cmp) (a : List ℕ) (lo hi : ℕ)
    → hi < length a
    → lo ≤ hi
    → Permutes a (heapsort cmp a lo hi)
unfolding heapsort
heapsort-Permutes cmp a lo hi h k =
    let n = hi - lo + 1 in
    if-cases (Permutes a) (ltb n 2) _ _ (λ _. Permutes-refl a)
      λ more.
        Permutes-bind a (build_heap (n / 2) cmp a lo (n - 1)) _
          (build_heap-Permutes (n / 2) cmp a lo (n - 1) (omega arith) (ground arith))
          (λ b l. extract-Permutes (n - 1) cmp b lo (omega arith))
