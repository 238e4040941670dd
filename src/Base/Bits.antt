-- ===== src/Base/Bits.antt =====
-- Facts about `bit_or` on small numbers, by evaluation.
use Prim.Native.Nat.{ℕ, zero, suc, ◌<◌, bit_or}
use mathlib.Core.Path.{◌≡◌, refl}
use mathlib.Core.Bool.{Bool, true, ◌&&◌}
use native.Mathlib.Omega.{arith}
use s_json.Base.Tests.{◌==◌, ==_iff, ltb, ltb→lt}

-- A test that holds at every number under a bound.
all_under : (test : ℕ → Bool) (bound : ℕ) → Bool
all_under test zero = true
all_under test (suc k) = all_under test k && test k

test-all_under :
    (test : ℕ → Bool) (bound at : ℕ) → all_under test bound ≡ true → at < bound → test at ≡ true
unfolding all_under
test-all_under test zero at h lt = absurd (omega arith)
test-all_under test (suc k) at h lt = ground (arith, test-all_under test k at)

abbrev nibble_row : ℕ → Bool
nibble_row x = all_under (λ y. ltb (bit_or x y) 16) 16

nibbles : all_under nibble_row 16 ≡ true
unfolding all_under
nibbles = refl

pub bit_or-lt_16 : (x y : ℕ) → x < 16 → y < 16 → bit_or x y < 16
bit_or-lt_16 x y hx hy =
    let row = test-all_under nibble_row 16 x nibbles hx in
    ltb→lt _ _ (test-all_under (λ y. ltb (bit_or x y) 16) 16 y row hy)

ones_right : all_under (λ x. bit_or x 255 == 255) 256 ≡ true
unfolding all_under
ones_right = refl

pub bit_or_ones : (x : ℕ) → x < 256 → bit_or x 255 ≡ 255
bit_or_ones x h = (==_iff _ _).0 (test-all_under (λ x. bit_or x 255 == 255) 256 x ones_right h)

ones_left : all_under (λ x. bit_or 255 x == 255) 256 ≡ true
unfolding all_under
ones_left = refl

pub ones_bit_or : (x : ℕ) → x < 256 → bit_or 255 x ≡ 255
ones_bit_or x h = (==_iff _ _).0 (test-all_under (λ x. bit_or 255 x == 255) 256 x ones_left h)
