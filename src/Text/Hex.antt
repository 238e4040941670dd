-- ===== src/Text/Hex.antt =====
-- json__hex_val and json__parse_hex4.
pub mod Value
use Prim.Native.Nat.{bit_or}
use s_json.Base.{ℕ, ◌+◌, ◌-◌, ◌*◌, Option, none, some, Bytes, ◌∷◌, within, ◌==◌, if◌then◌else◌}

unfoldable pub hex_val : ℕ → ℕ
hex_val c =
    if within b'0' b'9' c
    then c - b'0'
    else if within b'a' b'f' c
    then c - b'a' + 10
    else if within b'A' b'F' c
    then c - b'A' + 10
    else 0xff

-- The four nibbles do not overlap once the test has passed.
unfoldable pub join_hex : ℕ → ℕ → ℕ → ℕ → Option ℕ
join_hex h0 h1 h2 h3 =
    if bit_or (bit_or (bit_or h0 h1) h2) h3 == 0xff
    then none
    else some (h0 * 4096 + h1 * 256 + h2 * 16 + h3)

-- `none` is the result `false`, also for fewer than four bytes.
unfoldable pub parse_hex4 : Bytes → Option ℕ
unfolding join_hex hex_val
parse_hex4 (c0 ∷ c1 ∷ c2 ∷ c3 ∷ _) = join_hex (hex_val c0) (hex_val c1) (hex_val c2) (hex_val c3)
parse_hex4 _ = none
