-- ===== src/Text/Utf8.antt =====
-- json__is_cont, json__encode_utf8, json__utf8_decode and json__valid_utf8.
pub mod Canonical
use s_json.Base.{
  ℕ, zero, suc, ◌+◌, ◌-◌, ◌*◌, ◌/◌, ◌%◌, Bool, true, false, not, ◌||◌, List, [], ◌∷◌, Option, none,
  some, Bytes, ltb, within, ◌==◌, if◌then◌else◌, length, drop, ◌≡◌, refl,
}
use s_json.Error.{Result, ok, err, invalid_utf8}

-- `(b & 0xC0) == 0x80`
unfoldable pub is_cont : ℕ → Bool
is_cont b = b / 64 % 4 == 2

-- The bytes written to `buf`; none for an invalid code point.
unfoldable pub encode_utf8 : ℕ → Bytes
encode_utf8 cp =
    if ltb cp 0x80
    then cp ∷ []
    else if ltb cp 0x800
    then (0xC0 + cp / 64) ∷ (0x80 + cp % 64) ∷ []
    else if ltb cp 0x10000
    then (0xE0 + cp / 4096) ∷ (0x80 + cp / 64 % 64) ∷ (0x80 + cp % 64) ∷ []
    else if ltb cp 0x110000
    then (0xF0 + cp / 262144)
      ∷ (0x80 + cp / 4096 % 64)
      ∷ (0x80 + cp / 64 % 64)
      ∷ (0x80 + cp % 64)
      ∷ []
    else []

-- What the lead byte of a longer sequence decides.
pub record Lead : Type 0 where
  pub count : ℕ
  pub code : ℕ
  pub minimum : ℕ

unfoldable pub lead_of : ℕ → Option Lead
lead_of lead =
    if within 0xC2 0xDF lead
    then some (record { count = 2; code = lead % 32; minimum = 0x80 })
    else if within 0xE0 0xEF lead
    then some (record { count = 3; code = lead % 16; minimum = 0x800 })
    else if within 0xF0 0xF4 lead
    then some (record { count = 4; code = lead % 8; minimum = 0x10000 })
    else none

-- The loop over the continuation bytes; `rounds` is `count - i`.
unfoldable pub decode_tail : ℕ → ℕ → Bytes → Option ℕ
unfolding is_cont
decode_tail zero code bytes = some code
decode_tail (suc rounds) code [] = none
decode_tail (suc rounds) code (next ∷ bytes) =
    if not (is_cont next) then none else decode_tail rounds (code * 64 + next % 64) bytes

-- The last test, and the two output parameters.
unfoldable pub check_code : ℕ → ℕ → ℕ → Result (ℕ × ℕ)
check_code minimum count code =
    if ltb code minimum || ltb 0x10FFFF code || within 0xD800 0xDFFF code
    then err invalid_utf8
    else ok (code, count)

unfoldable pub decode_lead : Option Lead → Bytes → Result (ℕ × ℕ)
unfolding decode_tail check_code
decode_lead none bytes = err invalid_utf8
decode_lead (some l) bytes =
    if ltb (suc (length bytes)) l.count
    then err invalid_utf8
    else elim (decode_tail (l.count - 1) l.code bytes) [
      | none ↦ err invalid_utf8
      | some code ↦ check_code l.minimum l.count code
    ]

-- The code point and the number of bytes that it takes.
unfoldable pub utf8_decode : Bytes → Result (ℕ × ℕ)
unfolding lead_of decode_lead
utf8_decode [] = err invalid_utf8
utf8_decode (lead ∷ bytes) =
    if ltb lead 0x80 then ok (lead, 1) else decode_lead (lead_of lead) bytes

-- The loop of json__valid_utf8: each round takes at least one byte, so the length is fuel enough.
unfoldable pub valid_from : ℕ → Bytes → Bool
valid_from fuel [] = true
valid_from zero (b ∷ bytes) = false
valid_from (suc fuel) (b ∷ bytes) = elim (utf8_decode (b ∷ bytes)) [
  | ok (code, count) ↦ valid_from fuel (drop count (b ∷ bytes))
  | err _ ↦ false
]

unfoldable pub valid_utf8 : Bytes → Bool
unfolding valid_from
valid_utf8 bytes = valid_from (length bytes) bytes

euro : utf8_decode (0xE2 ∷ 0x82 ∷ 0xAC ∷ 0x21 ∷ []) ≡ ok (0x20AC, 3)
unfolding utf8_decode
euro = refl

overlong : utf8_decode (0xE0 ∷ 0x80 ∷ 0x80 ∷ []) ≡ err invalid_utf8
unfolding utf8_decode
overlong = refl
