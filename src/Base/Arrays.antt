-- ===== src/Base/Arrays.antt =====
-- Lists as arrays: reads and writes in bounds, exchanges, permutations.
use mathlib.Core.List.{Perm}
use mathlib.Core.List.Perm
use mathlib.Core.List.{List, [], ◌∷◌}
use mathlib.Core.Option.{Option, none, some}
use mathlib.Core.Path.{◌≡◌, refl, ap}
use Prim.Native.Nat.{ℕ, zero, suc, ◌<◌}
use native.Mathlib.Omega.{arith}
use s_json.Base.Tests.{ltb, if◌then◌else◌, ◌>>=?◌}
use s_json.Base.Lists.{length, get_elem?, set}

module _ {ℓ} {A : Type ℓ} where
  -- `arr[i] = v`
  abbrev pub store : List A → ℕ → A → Option (List A)
  store arr i v = if ltb i (length arr) then some (set arr i v) else none

  -- `tmp = arr[i]; arr[i] = arr[j]; arr[j] = tmp`
  abbrev pub exchange : List A → ℕ → ℕ → Option (List A)
  exchange arr i j =
      get_elem? arr i >>=? λ tmp. get_elem? arr j >>=? λ other. some (set (set arr i other) j tmp)

  pub length-set : (arr : List A) (i : ℕ) (v : A) → length (set arr i v) ≡ length arr
  length-set [] i v = refl
  length-set (x ∷ arr) zero v = refl
  length-set (x ∷ arr) (suc i) v = ap suc (length-set arr i v)

  pub get_elem?-lt : (arr : List A) (i : ℕ) → i < length arr → (x : A) × (get_elem? arr i ≡ some x)
  get_elem?-lt [] i h = absurd (omega arith)
  get_elem?-lt (x ∷ arr) zero h = (x, refl)
  get_elem?-lt (x ∷ arr) (suc i) h = get_elem?-lt arr i (omega arith)

  -- Writing what stands at `j` to `i` does not change what stands at `j`.
  get_elem?-set_copy :
      (arr : List A) (i j : ℕ) (y : A)
      → get_elem? arr j ≡ some y
      → get_elem? (set arr i y) j ≡ some y
  get_elem?-set_copy [] i j y h = h
  get_elem?-set_copy (x ∷ arr) zero zero y h = refl
  get_elem?-set_copy (x ∷ arr) zero (suc j) y h = h
  get_elem?-set_copy (x ∷ arr) (suc i) zero y h = h
  get_elem?-set_copy (x ∷ arr) (suc i) (suc j) y h = get_elem?-set_copy arr i j y h

  pub set_same : (arr : List A) (i : ℕ) (x : A) → get_elem? arr i ≡ some x → set arr i x ≡ arr
  set_same [] i x h = refl
  set_same (y ∷ arr) zero x h = ground arith
  set_same (y ∷ arr) (suc i) x h = ap (◌∷◌ y) (set_same arr i x h)

  -- What a write takes out, put in front, makes up for what it puts in.
  set-perm :
      (arr : List A) (i : ℕ) (old new : A)
      → get_elem? arr i ≡ some old
      → Perm (old ∷ set arr i new) (new ∷ arr)
  set-perm [] i old new h = absurd (ground arith)
  set-perm (x ∷ arr) zero old new h =
      let same : x ≡ old = ground arith in rw same (Perm.swap new old arr)
  set-perm (x ∷ arr) (suc i) old new h =
      Perm.trans (Perm.swap x old (set arr i new))
        (Perm.trans (Perm.cons x (set-perm arr i old new h)) (Perm.swap new x arr))

  pub exchange-perm :
      (arr : List A) (i j : ℕ) (tmp other : A)
      → get_elem? arr i ≡ some tmp
      → get_elem? arr j ≡ some other
      → Perm (set (set arr i other) j tmp) arr
  exchange-perm arr i j tmp other p q =
      let back = set-perm (set arr i other) j other tmp (get_elem?-set_copy arr i j other q) in
      Perm.cons_inv (Perm.trans back (set-perm arr i tmp other p))

  -- One step of a shift: the entry at `j` moves up, and the new one takes its place.
  pub shift-perm :
      (arr : List A) (j : ℕ) (x new : A)
      → suc j < length arr
      → get_elem? arr j ≡ some x
      → Perm (set (set arr (suc j) x) j new) (set arr (suc j) new)
  shift-perm [] j x new h p = absurd (omega arith)
  shift-perm (y ∷ []) j x new h p = absurd (omega arith)
  shift-perm (y ∷ z ∷ arr) zero x new h p =
      let same : y ≡ x = ground arith in rw same (Perm.swap x new arr)
  shift-perm (y ∷ z ∷ arr) (suc j) x new h p =
      Perm.cons y (shift-perm (z ∷ arr) j x new (omega arith) p)
