-- ===== src/Arena/Align.antt =====
-- json__align_up and the sizes that json__block_new asks for.
use s_json.Base.{ℕ, ◌+◌, ◌-◌, ◌%◌, ◌≤◌, ◌<◌, ◌≡◌, some, arith, size_max}
use s_json.Arena.{align_up, block_request, sizeof_block}

-- A size that can be rounded is rounded up to a multiple of eight, by less than eight; any larger
-- `size_t` wraps around to zero, which is smaller than the size.
pub align_up_bounds :
    (sz : ℕ)
    → sz ≤ size_max
    → (sz ≤ size_max - 7 → (align_up sz % 8 ≡ 0) × (sz ≤ align_up sz) × (align_up sz < sz + 8))
      × (size_max - 7 < sz → align_up sz ≡ 0)
unfolding align_up
align_up_bounds sz h = omega arith

pub align_up-mod : (sz : ℕ) → align_up sz % 8 ≡ 0
unfolding align_up
align_up-mod sz = omega arith

pub align_up-le : (sz : ℕ) → align_up sz ≤ size_max
unfolding align_up
align_up-le sz = omega arith

-- The block that is requested holds its header and the bytes asked for.
pub block_request-fits :
    (block_size min_size : ℕ) {block_sz : ℕ}
    → block_size ≤ size_max
    → block_request block_size min_size ≡ some block_sz
    → (min_size + align_up sizeof_block ≤ block_sz) × (block_sz ≤ size_max)
unfolding block_request align_up
block_request-fits block_size min_size h e = ground arith
