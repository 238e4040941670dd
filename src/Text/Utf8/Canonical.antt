-- ===== src/Text/Utf8/Canonical.antt =====
-- json__utf8_decode and json__encode_utf8 are inverse on the Unicode scalar values.
use s_json.Base.{ℕ, ◌≤◌, ◌<◌, ◌≡◌, ◌⊎◌, [], ◌∷◌, ◌++◌, Bytes, All, IsByte, length, take, arith}
use s_json.Error.{ok}
use s_json.Text.Utf8.{encode_utf8, utf8_decode}

-- A Unicode scalar value.
abbrev pub IsScalar : ℕ → Type 0
IsScalar cp = (cp < 0xD800) ⊎ ((0xDFFF < cp) × (cp ≤ 0x10FFFF))

-- Decoding reads an encoded scalar value back, whatever follows it.
pub utf8_decode-encode_utf8 :
    (cp : ℕ) (rest : Bytes)
    → IsScalar cp
    → utf8_decode (encode_utf8 cp ++ rest) ≡ ok (cp, length (encode_utf8 cp))
unfolding utf8_decode encode_utf8
utf8_decode-encode_utf8 cp rest h = ground arith

pub record IsCanonical (bytes : Bytes) (cp count : ℕ) : Type 0 where
  pub scalar : IsScalar cp
  pub encoded : encode_utf8 cp ≡ take count bytes
  pub within_input : count ≤ length bytes
  pub measured : length (encode_utf8 cp) ≡ count
  pub positive : 0 < count

-- What decoding accepts in a sequence of bytes is the encoding of a scalar value, in the one form
-- that encoding gives it, and it lies within the input.
pub encode_utf8-utf8_decode :
    (bytes : Bytes) (cp count : ℕ)
    → All IsByte bytes
    → utf8_decode bytes ≡ ok (cp, count)
    → IsCanonical bytes cp count
unfolding utf8_decode encode_utf8
encode_utf8-utf8_decode [] cp count b h = ground arith
encode_utf8-utf8_decode (b0 ∷ []) cp count b h = ground arith
encode_utf8-utf8_decode (b0 ∷ b1 ∷ []) cp count b h = ground arith
encode_utf8-utf8_decode (b0 ∷ b1 ∷ b2 ∷ []) cp count b h = ground arith
encode_utf8-utf8_decode (b0 ∷ b1 ∷ b2 ∷ b3 ∷ rest) cp count b h = ground arith
