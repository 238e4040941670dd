-- ===== src/Text/Hash.antt =====
-- json_fnv1a.
use Prim.Native.Nat.{bit_xor}
use s_json.Base.{
  ℕ, ◌*◌, ◌%◌, [], ◌∷◌, ◌++◌, Option, none, some, Bytes, ◌==◌, if◌then◌else◌, u32_mod, take, ◌≡◌,
  refl, codes,
}

abbrev pub fnv_offset : ℕ
fnv_offset = 0x811C9DC5

abbrev pub fnv_prime : ℕ
fnv_prime = 0x01000193

-- One round: `hash ^= byte; hash *= FNV_PRIME`.
unfoldable pub fnv_step : ℕ → ℕ → ℕ
fnv_step hash byte = bit_xor hash byte * fnv_prime % u32_mod

unfoldable pub fnv_from : ℕ → Bytes → ℕ
fnv_from hash [] = hash
fnv_from hash (b ∷ bytes) = fnv_from (fnv_step hash b) bytes

-- `none` is a null pointer.
unfoldable pub json_fnv1a : Option Bytes → ℕ → ℕ
json_fnv1a none len = if len == 0 then fnv_offset else 0
json_fnv1a (some bytes) len = fnv_from fnv_offset (take len bytes)

-- The hash of a whole byte sequence.
abbrev pub fnv1a : Bytes → ℕ
fnv1a bytes = fnv_from fnv_offset bytes

pub fnv_from-append :
    (hash : ℕ) (xs ys : Bytes) → fnv_from hash (xs ++ ys) ≡ fnv_from (fnv_from hash xs) ys
unfolding fnv_from
fnv_from-append hash [] ys = refl
fnv_from-append hash (x ∷ xs) ys = fnv_from-append (fnv_step hash x) xs ys

known_hash : json_fnv1a (some (codes "a")) 1 ≡ 0xe40c292c
unfolding json_fnv1a fnv_from fnv_step
known_hash = refl
