-- ===== src/Sort/Permutes.antt =====
-- Rules for code that rearranges an array: it ends within its fuel and bounds.
use s_json.Base.{
  ℕ, ◌<◌, ◌≡◌, refl, ◌∙◌, Bool, true, false, List, Option, none, some, length, get_elem?, set,
  ◌>>=?◌,
}
use s_json.Base.Arrays.{exchange, exchange-perm, length-set, get_elem?-lt}
use mathlib.Core.List.{Perm}
use mathlib.Core.List.Perm

-- The code returns, with a rearrangement of `a`.
abbrev pub Permutes : List ℕ → Option (List ℕ) → Type 0
Permutes a none = ⊥
Permutes a (some b) = (length b ≡ length a) × Perm b a

pub Permutes-refl : (a : List ℕ) → Permutes a (some a)
Permutes-refl a = (refl, Perm.refl a)

pub Permutes-trans :
    (a b : List ℕ) (m : Option (List ℕ))
    → length b ≡ length a
    → Perm b a
    → Permutes b m
    → Permutes a m
Permutes-trans a b none l p h = h
Permutes-trans a b (some c) l p (k, q) = (k ∙ l, Perm.trans q p)

pub Permutes-bind :
    (a : List ℕ) (m : Option (List ℕ)) (next : List ℕ → Option (List ℕ))
    → Permutes a m
    → ((b : List ℕ) → length b ≡ length a → Permutes b (next b))
    → Permutes a (m >>=? next)
Permutes-bind a none next h k = h
Permutes-bind a (some b) next (l, p) k = Permutes-trans a b (next b) l p (k b l)

pub exchange-Permutes :
    (a : List ℕ) (i j : ℕ) → i < length a → j < length a → Permutes a (exchange a i j)
exchange-Permutes a i j hi hj =
    let (x, p) = get_elem?-lt a i hi in
    let (y, q) = get_elem?-lt a j hj in
    rw (p, q) (length-set (set a i y) j x ∙ length-set a i y, exchange-perm a i j x y p q)

-- A read in bounds.
pub read-in {ℓ κ} :
    {B : Type ℓ} (P : Option B → Type κ) (a : List ℕ) (i : ℕ) (next : ℕ → Option B)
    → i < length a
    → ((x : ℕ) → get_elem? a i ≡ some x → P (next x))
    → P (get_elem? a i >>=? next)
read-in P a i next h k = let (x, e) = get_elem?-lt a i h in rw e (k x e)

-- A branch.
pub on_test {ℓ κ} :
    {B : Type ℓ} (P : B → Type κ) (test : Bool) (x y : B)
    → (test ≡ true → P x)
    → (test ≡ false → P y)
    → let out : B = elim test [ true ↦ x | false ↦ y ] in P out
on_test P true x y p q = p refl
on_test P false x y p q = q refl
