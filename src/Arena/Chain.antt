-- ===== src/Arena/Chain.antt =====
-- The blocks of a chain by their index, and what they hold in total.
use s_json.Base.{
  ℕ, zero, suc, ◌+◌, ◌%◌, ◌≤◌, ◌≡◌, ◌≢◌, refl, ap, List, [], ◌∷◌, ◌++◌, length, All, arith,
  size_max,
}
use s_json.Arena.{Block, clear_all}

-- The bytes in use in the block of that index, zero past the end.
abbrev pub used_at : List Block → ℕ → ℕ
used_at [] i = 0
used_at (b ∷ bs) zero = b.used
used_at (b ∷ bs) (suc i) = used_at bs i

abbrev pub cap_at : List Block → ℕ → ℕ
cap_at [] i = 0
cap_at (b ∷ bs) zero = b.cap
cap_at (b ∷ bs) (suc i) = cap_at bs i

abbrev pub total_used : List Block → ℕ
total_used [] = 0
total_used (b ∷ bs) = b.used + total_used bs

pub record BlockIsValid (b : Block) : Type 0 where
  pub used_le : b.used ≤ b.cap
  pub cap_le : b.cap ≤ size_max
  pub aligned : b.used % 8 ≡ 0

pub total_used-append : (xs ys : List Block) → total_used (xs ++ ys) ≡ total_used xs + total_used ys
total_used-append [] ys = omega arith
total_used-append (b ∷ xs) ys = omega (arith, total_used-append xs ys)

pub All-append :
    (xs ys : List Block) → All BlockIsValid xs → All BlockIsValid ys → All BlockIsValid (xs ++ ys)
All-append [] ys p q = q
All-append (x ∷ xs) ys p q = (p.0, All-append xs ys p.1 q)

pub All-split :
    (xs ys : List Block) → All BlockIsValid (xs ++ ys) → All BlockIsValid xs × All BlockIsValid ys
All-split [] ys p = (tt, p)
All-split (x ∷ xs) ys p = let (l, r) = All-split xs ys p.1 in ((p.0, l), r)

pub used_at-middle :
    (xs ys : List Block) (b : Block) → used_at (xs ++ (b ∷ ys)) (length xs) ≡ b.used
used_at-middle [] ys b = refl
used_at-middle (x ∷ xs) ys b = used_at-middle xs ys b

pub used_at-other :
    (xs ys : List Block) (b b' : Block) (j : ℕ)
    → j ≢ length xs
    → used_at (xs ++ (b ∷ ys)) j ≡ used_at (xs ++ (b' ∷ ys)) j
used_at-other [] ys b b' zero h = absurd (h refl)
used_at-other [] ys b b' (suc j) h = refl
used_at-other (x ∷ xs) ys b b' zero h = refl
used_at-other (x ∷ xs) ys b b' (suc j) h = used_at-other xs ys b b' j (λ e. h (ap suc e))

-- Behind the last block nothing is in use.
pub used_at-end :
    (xs : List Block) (b : Block) (j : ℕ)
    → j ≢ length xs
    → used_at (xs ++ (b ∷ [])) j ≡ used_at xs j
used_at-end [] b zero h = absurd (h refl)
used_at-end [] b (suc j) h = refl
used_at-end (x ∷ xs) b zero h = refl
used_at-end (x ∷ xs) b (suc j) h = used_at-end xs b j (λ e. h (ap suc e))

pub used_at-length : (xs : List Block) → used_at xs (length xs) ≡ 0
used_at-length [] = refl
used_at-length (x ∷ xs) = used_at-length xs

pub used_at-le-cap_at : (xs : List Block) (j : ℕ) → All BlockIsValid xs → used_at xs j ≤ cap_at xs j
used_at-le-cap_at [] j h = omega arith
used_at-le-cap_at (x ∷ xs) zero h = h.0.used_le
used_at-le-cap_at (x ∷ xs) (suc j) h = used_at-le-cap_at xs j h.1

pub clear_all-IsValid : (xs : List Block) → All BlockIsValid xs → All BlockIsValid (clear_all xs)
unfolding clear_all
clear_all-IsValid [] h = tt
clear_all-IsValid (x ∷ xs) h = (
  record { used_le = omega arith; cap_le = h.0.cap_le; aligned = refl },
  clear_all-IsValid xs h.1,
)

pub total_used-clear_all : (xs : List Block) → total_used (clear_all xs) ≡ 0
unfolding clear_all
total_used-clear_all [] = refl
total_used-clear_all (x ∷ xs) = omega (arith, total_used-clear_all xs)
