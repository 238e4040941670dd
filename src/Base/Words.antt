-- ===== src/Base/Words.antt =====
-- The widths of the machine's words.
use Prim.Native.Nat.{ℕ, ◌-◌, ◌^◌}

abbrev pub u8_mod : ℕ
u8_mod = 2 ^ 8

abbrev pub u32_mod : ℕ
u32_mod = 2 ^ 32

abbrev pub u64_mod : ℕ
u64_mod = 2 ^ 64

-- (size_t)-1 on a 64-bit target.
abbrev pub size_max : ℕ
size_max = 2 ^ 64 - 1
