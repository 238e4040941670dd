-- ===== src/Build/Finalize.antt =====
-- Lookups after json_obj_finalize.
use mathlib.Core.List.{Perm, Permᴰ}
use mathlib.Core.Logic.{∥∥₁_elim}
use mathlib.Core.Bool.{Bool-set}
use s_json.Base.{
  ℕ, zero, suc, ◌+◌, ◌-◌, ◌<◌, ◌≡◌, refl, sym, ap, ap₂, ◌∙◌, subst, Bool, true, false, ◌&&◌, List,
  [], ◌∷◌, Bytes, ltb, ◌==◌, Option, none, some, if-cases, Bool-cases, inl, inr, length, All,
  u32_mod, arith,
}
use s_json.Text.Hash.{json_fnv1a}
use s_json.Arena.{Arena}
use s_json.Value.{object, Pairs, count_pairs}
use s_json.Sort.{key_cmp}
use s_json.Sort.Introsort.{sort_indices, indices_from}
use s_json.Sort.Permutes.{Permutes}
use s_json.Sort.IntroPerm.{sort_indices-Permutes, length-indices_from}
use s_json.Access.{json_obj_get_n, find_in}
use s_json.Access.Linear.{AllKeys, json_obj_get_n-first_named}
use s_json.Access.Binary.{Answers, InRange, first_named-Answers, binary_find-Answers}
use s_json.Build.{Changed, hash_order, idx_room, sorted_in, obj_sort, json_obj_finalize}

-- Every index is below the bound.
unfoldable below : ℕ → List ℕ → Bool
below n [] = true
below n (x ∷ xs) = ltb x n && below n xs

indices_from-InRange : (n i : ℕ) → All (λ x. x < i + n) (indices_from n i)
unfolding indices_from
indices_from-InRange zero i = tt
indices_from-InRange (suc n) i = (
  omega arith,
  subst (λ (m : ℕ). All (λ x. x < m) (indices_from n (suc i))) (omega arith)
      (indices_from-InRange n (suc i)),
)

&&-swap : (a b c : Bool) → (a && (b && c)) ≡ (b && (a && c))
&&-swap true b c = refl
&&-swap false true c = refl
&&-swap false false c = refl

below-Permᴰ : (n : ℕ) {a b : List ℕ} → Permᴰ a b → below n a ≡ below n b
unfolding below
below-Permᴰ n Permᴰ.nil = refl
below-Permᴰ n (Permᴰ.cons e d) = ap₂ (λ (z : ℕ) (r : Bool). ltb z n && r) e (below-Permᴰ n d)
below-Permᴰ n (Permᴰ.swap {a = x} {b = y} {a' = u} {b' = v} {l} e d) =
    ap₂ (λ (i j : ℕ). ltb i n && (ltb j n && below n l)) e d
    ∙ &&-swap (ltb v n) (ltb u n) (below n l)
below-Permᴰ n (Permᴰ.trans d e) = below-Permᴰ n d ∙ below-Permᴰ n e

below-InRange : (n : ℕ) (xs : List ℕ) → below n xs ≡ true → InRange n xs
unfolding below
below-InRange n [] h = tt
below-InRange n (x ∷ xs) h = elim (Bool-cases (ltb x n)) [
  | inl t ↦ (ground (arith, t), below-InRange n xs (ap (λ b. b && below n xs) (sym t) ∙ h))
  | inr f ↦ absurd (no_way (ap (λ b. b && below n xs) (sym f) ∙ h))
]
  where
    no_way : false ≡ true → ⊥
    no_way e = cc

InRange-below : (n : ℕ) (xs : List ℕ) → InRange n xs → below n xs ≡ true
unfolding below
InRange-below n [] h = refl
InRange-below n (x ∷ xs) (h, hs) =
    let t : ltb x n ≡ true = ground (arith, h) in rw (t, InRange-below n xs hs) refl

Perm-InRange : (n : ℕ) {a b : List ℕ} → Perm b a → InRange n a → InRange n b
Perm-InRange n {a} {b} p h =
    below-InRange n b
      (∥∥₁_elim p (Bool-set (below n b) (below n a)) (below-Permᴰ n) ∙ InRange-below n a h)

-- As many indices as pairs, each of which names a pair.
abbrev pub InOrder : Pairs → List ℕ → Type 0
InOrder pairs idx = (length idx ≡ count_pairs pairs) × InRange (count_pairs pairs) idx

pub hash_order-InOrder : (pairs : Pairs) → InOrder pairs (hash_order pairs)
unfolding hash_order
hash_order-InOrder pairs =
    given (sort_indices (key_cmp false pairs) (count_pairs pairs))
      (sort_indices-Permutes (key_cmp false pairs) (count_pairs pairs))
  where
    given :
        (m : Option (List ℕ))
        → Permutes (indices_from (count_pairs pairs) 0) m
        → InOrder pairs (elim m [ none ↦ indices_from (count_pairs pairs) 0 | some idx ↦ idx ])
    given none h = absurd h
    given (some idx) (l, p) = (
      l ∙ length-indices_from (count_pairs pairs) 0,
      Perm-InRange (count_pairs pairs) p (
          subst (λ (m : ℕ). All (λ x. x < m) (indices_from (count_pairs pairs) 0)) (omega arith)
            (indices_from-InRange (count_pairs pairs) 0)),
    )

sorted-Answers :
    (pairs : Pairs) (cap : ℕ) (idx : List ℕ) (key : Bytes)
    → InOrder pairs idx
    → AllKeys pairs
    → length key < u32_mod
    → Answers key pairs
        (json_obj_get_n (some (object pairs cap (some idx) true)) (some key) (length key) true)
unfolding json_obj_get_n find_in
sorted-Answers pairs cap idx key (len, ranged) keys short =
    let fits : ltb (u32_mod - 1) (length key) ≡ false = ground arith in
    rw fits (
      if-cases (Answers key pairs) (count_pairs pairs == 0) _ _ (λ _. refl)
        λ _.
          binary_find-Answers (count_pairs pairs) (json_fnv1a (some key) (length key)) key idx pairs
            0 (count_pairs pairs) (omega (arith, len)) ranged keys short)

unsorted-Answers :
    (pairs : Pairs) (cap : ℕ) (idx : Option (List ℕ)) (key : Bytes)
    → AllKeys pairs
    → length key < u32_mod
    → Answers key pairs
        (json_obj_get_n (some (object pairs cap idx false)) (some key) (length key) true)
unsorted-Answers pairs cap idx key keys short =
    rw (json_obj_get_n-first_named pairs cap idx key keys short) (first_named-Answers key pairs)

-- On an object that is not sorted, whose keys are well formed, json_obj_finalize leaves, whether it
-- succeeds or has no memory, an object in which json_obj_get_n ends within its bounds for every key
-- below 2^32 bytes, and gives not_found or the value of a pair of the object with that very key.
pub json_obj_get_n-json_obj_finalize :
    (pairs : Pairs) (cap : ℕ) (idx : Option (List ℕ)) (arena : Arena) (key : Bytes)
    → AllKeys pairs
    → length key < u32_mod
    → let (status, (obj, a)) = json_obj_finalize (some arena) (some (object pairs cap idx false)) in
      Answers key pairs (json_obj_get_n obj (some key) (length key) true)
unfolding json_obj_finalize obj_sort
json_obj_get_n-json_obj_finalize pairs cap idx arena key keys short =
    if-cases
      (λ (c : Changed).
        Answers key pairs (json_obj_get_n (some c.1.0) (some key) (length key) true))
      (count_pairs pairs == 0) _ _ (λ _. unsorted-Answers pairs cap idx key keys short)
      (λ _. with_room (idx_room arena cap idx))
  where
    with_room :
        (room : Bool × Arena)
        → Answers key pairs
            (json_obj_get_n (some (sorted_in pairs cap idx room).1.0) (some key) (length key) true)
    with_room (false, a) = unsorted-Answers pairs cap idx key keys short
    with_room (true, a) =
        sorted-Answers pairs cap (hash_order pairs) key (hash_order-InOrder pairs) keys short
