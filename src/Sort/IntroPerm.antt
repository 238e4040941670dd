-- ===== src/Sort/IntroPerm.antt =====
-- json__introsort ends within its bounds and rearranges the array.
use s_json.Base.{
  ℕ, zero, suc, ◌+◌, ◌-◌, ◌*◌, ◌/◌, ◌≤◌, ◌<◌, ◌≡◌, refl, ap, ◌∙◌, ◌&&◌, List, Option, none, some,
  length, ◌>>=?◌, ltb, leb, ◌==◌, not, if-cases, arith,
}
use s_json.Base.Arrays.{exchange}
use mathlib.Core.List.{Perm}
use mathlib.Core.List.Perm
use s_json.Sort.{Cmp, is_after, is_before}
use s_json.Sort.Introsort.{
  introsort_thresh, order_two, scan_up, scan_down, partition, split, introsort, indices_from,
  sort_indices, ilog2,
}
use s_json.Sort.Permutes.{
  Permutes, Permutes-refl, Permutes-trans, Permutes-bind, exchange-Permutes, read-in, on_test,
}
use s_json.Sort.Perm.{isort-Permutes, heapsort-Permutes}

order_two-Permutes :
    (cmp : Cmp) (a : List ℕ) (i j : ℕ)
    → i < length a
    → j < length a
    → Permutes a (order_two cmp a i j)
unfolding order_two
order_two-Permutes cmp a i j hi hj = read-in (Permutes a) a i _ hi λ x _.
    read-in (Permutes a) a j _ hj λ y _.
      if-cases (Permutes a) (is_after (cmp x y)) _ _ (λ _. exchange-Permutes a i j hi hj)
        (λ _. Permutes-refl a)

-- An index that stops between two bounds.
abbrev Stops : ℕ → ℕ → Option ℕ → Type 0
Stops lo hi none = ⊥
Stops lo hi (some i) = (lo ≤ i) × (i ≤ hi)

Stops-le : (lo lo' hi : ℕ) (m : Option ℕ) → lo' ≤ lo → Stops lo hi m → Stops lo' hi m
Stops-le lo lo' hi none h s = s
Stops-le lo lo' hi (some i) h s = (omega arith, s.1)

Stops-ge : (lo hi hi' : ℕ) (m : Option ℕ) → hi ≤ hi' → Stops lo hi m → Stops lo hi' m
Stops-ge lo hi hi' none h s = s
Stops-ge lo hi hi' (some i) h s = (s.0, omega arith)

scan_up-Stops :
    (fuel : ℕ) (cmp : Cmp) (pivot hi : ℕ) (a : List ℕ) (i : ℕ)
    → hi < length a
    → i < hi
    → hi - i ≤ fuel
    → Stops (suc i) hi (scan_up fuel cmp pivot hi a i)
unfolding scan_up
scan_up-Stops zero cmp pivot hi a i h k f = absurd (omega arith)
scan_up-Stops (suc fuel) cmp pivot hi a i h k f = read-in P a (suc i) _ (omega arith) λ x _.
    on_test P (is_before (cmp x pivot) && ltb (suc i) hi) _ _
      (λ t.
        Stops-le (suc (suc i)) (suc i) hi (scan_up fuel cmp pivot hi a (suc i)) (omega arith)
          (scan_up-Stops fuel cmp pivot hi a (suc i) h (ground arith) (omega arith)))
      (λ _. (omega arith, omega arith))
  where
    P : Option ℕ → Type 0
    P = Stops (suc i) hi

scan_down-Stops :
    (cmp : Cmp) (pivot lo : ℕ) (a : List ℕ) (j : ℕ)
    → j < length a
    → lo ≤ j
    → Stops lo j (scan_down cmp pivot lo a (suc j))
unfolding scan_down
scan_down-Stops cmp pivot lo a zero h k = read-in (Stops lo 0) a 0 _ h λ x _.
    on_test (Stops lo 0) (is_after (cmp x pivot) && ltb lo 0) _ _ (λ t. absurd (ground arith))
      (λ _. (k, omega arith))
scan_down-Stops cmp pivot lo a (suc j) h k = read-in P a (suc j) _ h λ x _.
    on_test P (is_after (cmp x pivot) && ltb lo (suc j)) _ _
      (λ t.
        Stops-ge lo j (suc j) (scan_down cmp pivot lo a (suc j)) (omega arith)
          (scan_down-Stops cmp pivot lo a j (omega arith) (ground arith)))
      (λ _. (k, omega arith))
  where
    P : Option ℕ → Type 0
    P = Stops lo (suc j)

stop-bind {ℓ κ} :
    {B : Type ℓ} (P : Option B → Type κ) (lo hi : ℕ) (m : Option ℕ) (next : ℕ → Option B)
    → Stops lo hi m
    → ((i : ℕ) → lo ≤ i → i ≤ hi → P (next i))
    → P (m >>=? next)
stop-bind P lo hi none next h k = absurd h
stop-bind P lo hi (some i) next (p, q) k = k i p q

-- A rearrangement, and an index above the lower bound.
abbrev Parted : List ℕ → ℕ → ℕ → Option (List ℕ × ℕ) → Type 0
Parted a lo hi none = ⊥
Parted a lo hi (some (b, i)) = (length b ≡ length a) × Perm b a × (lo < i) × (i ≤ hi)

Parted-bind :
    (a : List ℕ) (lo hi : ℕ) (m : Option (List ℕ)) (next : List ℕ → Option (List ℕ × ℕ))
    → Permutes a m
    → ((b : List ℕ) → length b ≡ length a → Parted b lo hi (next b))
    → Parted a lo hi (m >>=? next)
Parted-bind a lo hi none next h k = h
Parted-bind a lo hi (some b) next (l, p) k = go (next b) (k b l)
  where
    go : (m : Option (List ℕ × ℕ)) → Parted b lo hi m → Parted a lo hi m
    go none h = h
    go (some (c, i)) (l', p', low, high) = (l' ∙ l, Perm.trans p' p, low, high)

-- `i` only rises, so `hi` rounds are enough.
partition-Parted :
    (fuel : ℕ) (cmp : Cmp) (pivot lo hi : ℕ) (a : List ℕ) (i j : ℕ)
    → hi < length a
    → lo ≤ i
    → i < hi
    → lo < j
    → j < hi
    → hi - i ≤ fuel
    → Parted a lo hi (partition fuel cmp pivot lo hi a i j)
unfolding partition
partition-Parted zero cmp pivot lo hi a i j h li ih lj jh f = absurd (omega arith)
partition-Parted (suc fuel) cmp pivot lo hi a i zero h li ih lj jh f = absurd (omega arith)
partition-Parted (suc fuel) cmp pivot lo hi a i (suc j) h li ih lj jh f =
    stop-bind P (suc i) hi (scan_up (suc hi) cmp pivot hi a i) _
      (scan_up-Stops (suc hi) cmp pivot hi a i h ih (omega arith))
      λ i' p q.
        stop-bind P lo j (scan_down cmp pivot lo a (suc j)) _
          (scan_down-Stops cmp pivot lo a j (omega arith) (omega arith))
          λ j' p' q'.
            on_test P (leb j' i') _ _ (λ _. (refl, Perm.refl a, omega arith, q))
              (λ apart.
                Parted-bind a lo hi (exchange a i' j') _
                  (exchange-Permutes a i' j' (omega arith) (omega arith))
                  λ b l.
                    partition-Parted fuel cmp pivot lo hi b i' j' (omega arith) (omega arith)
                      (ground arith) (ground arith) (omega arith) (omega arith))
  where
    P : Option (List ℕ × ℕ) → Type 0
    P = Parted a lo hi

after-Parted :
    (a : List ℕ) (lo hi : ℕ) (m : Option (List ℕ × ℕ)) (next : List ℕ × ℕ → Option (List ℕ × ℕ))
    → Parted a lo hi m
    → ((b : List ℕ) (i : ℕ) → length b ≡ length a → lo < i → i ≤ hi → Parted b lo hi (next (b, i)))
    → Parted a lo hi (m >>=? next)
after-Parted a lo hi none next h k = h
after-Parted a lo hi (some (b, i)) next (l, p, low, high) k =
    Parted-bind a lo hi (some b) (λ c. next (c, i)) (l, p) (λ c l'. k c i l' low high)

split-Parted :
    (cmp : Cmp) (a : List ℕ) (lo hi : ℕ)
    → hi < length a
    → lo + 16 ≤ hi
    → Parted a lo hi (split cmp a lo hi)
unfolding split
split-Parted cmp a lo hi h k =
    let mid = lo + (hi - lo + 1) / 2 in
    Parted-bind a lo hi (order_two cmp a lo mid) _
      (order_two-Permutes cmp a lo mid (omega arith) (omega arith))
      λ b lb.
        Parted-bind b lo hi (order_two cmp b lo hi) _
          (order_two-Permutes cmp b lo hi (omega arith) (omega arith))
          λ c lc.
            Parted-bind c lo hi (order_two cmp c mid hi) _
              (order_two-Permutes cmp c mid hi (omega arith) (omega arith))
              λ d ld. read-in (Parted d lo hi) d mid _ (omega arith) λ pivot _.
                Parted-bind d lo hi (exchange d mid (hi - 1)) _
                  (exchange-Permutes d mid (hi - 1) (omega arith) (omega arith))
                  λ e le.
                    after-Parted e lo hi (partition hi cmp pivot lo hi e lo (hi - 1)) _
                      (partition-Parted hi cmp pivot lo hi e lo (hi - 1) (omega arith) (omega arith)
                        (omega arith) (omega arith) (omega arith) (omega arith))
                      λ f i lf low high.
                        Parted-bind f lo hi (exchange f i (hi - 1)) _
                          (exchange-Permutes f i (hi - 1) (omega arith) (omega arith))
                          λ g lg. (refl, Perm.refl g, low, high)

-- A split, and what is done with its two sides.
split-Permutes :
    (a : List ℕ) (lo hi : ℕ) (m : Option (List ℕ × ℕ)) (next : List ℕ × ℕ → Option (List ℕ))
    → Parted a lo hi m
    → ((b : List ℕ) (i : ℕ) → length b ≡ length a → lo < i → i ≤ hi → Permutes b (next (b, i)))
    → Permutes a (m >>=? next)
split-Permutes a lo hi none next h k = h
split-Permutes a lo hi (some (b, i)) next (l, p, low, high) k =
    Permutes-trans a b (next (b, i)) l p (k b i l low high)

-- json__introsort, with the span of the range as fuel and any bound on its depth.
pub introsort-Permutes :
    (fuel : ℕ) (cmp : Cmp) (a : List ℕ) (lo hi depth : ℕ)
    → hi < length a
    → hi - lo < fuel
    → Permutes a (introsort fuel cmp a lo hi depth)
unfolding introsort
introsort-Permutes zero cmp a lo hi depth h f = absurd (omega arith)
introsort-Permutes (suc fuel) cmp a lo hi depth h f =
    if-cases P (not (ltb lo hi)) _ _ (λ _. Permutes-refl a)
      λ some_left.
        if-cases P (leb (hi - lo + 1) introsort_thresh) _ _
          (λ _. isort-Permutes cmp a lo hi h (ground arith))
          λ long.
            if-cases P (depth == 0) _ _ (λ _. heapsort-Permutes cmp a lo hi h (ground arith))
              λ _.
                split-Permutes a lo hi (split cmp a lo hi) _
                  (split-Parted cmp a lo hi h (ground arith))
                  λ b i l low high.
                    on_test (Permutes b) (ltb (i - lo) (hi - i)) _ _
                      (λ t.
                        Permutes-bind b (introsort fuel cmp b lo (i - 1) (depth - 1)) _
                          (introsort-Permutes fuel cmp b lo (i - 1) (depth - 1) (omega arith)
                            (omega arith))
                          (λ c k.
                            introsort-Permutes fuel cmp c (i + 1) hi (depth - 1) (omega arith)
                              (omega arith)))
                      (λ t.
                        Permutes-bind b (introsort fuel cmp b (i + 1) hi (depth - 1)) _
                          (introsort-Permutes fuel cmp b (i + 1) hi (depth - 1) (omega arith)
                            (omega arith))
                          (λ c k.
                            on_test (Permutes c) (i == 0) _ _ (λ z. Permutes-refl c)
                              (λ _.
                                introsort-Permutes fuel cmp c lo (i - 1) (depth - 1) (omega arith)
                                  (omega arith))))
  where
    P : Option (List ℕ) → Type 0
    P = Permutes a

pub length-indices_from : (n i : ℕ) → length (indices_from n i) ≡ n
unfolding indices_from
length-indices_from zero i = refl
length-indices_from (suc n) i = ap suc (length-indices_from n (suc i))

-- The sort of the keys of an object ends within its fuel, reads and writes only within the array of
-- indices, and rearranges it, whatever the order of the keys is.
pub sort_indices-Permutes :
    (cmp : Cmp) (len : ℕ) → Permutes (indices_from len 0) (sort_indices cmp len)
unfolding sort_indices
sort_indices-Permutes cmp len =
    if-cases (Permutes (indices_from len 0)) (ltb 1 len) _ _
      (λ more.
        introsort-Permutes len cmp (indices_from len 0) 0 (len - 1) (2 * ilog2 len)
          (ground (arith, length-indices_from len 0)) (ground arith))
      (λ _. Permutes-refl (indices_from len 0))
