-- ===== src/Text/Hex/Value.antt =====
-- Which texts json__parse_hex4 accepts, and the number it reads.
use Prim.Native.Nat.{bit_or}
use s_json.Base.{
  ℕ, ◌+◌, ◌*◌, ◌<◌, ◌≡◌, ◌⊎◌, inl, inr, refl, ◌∷◌, [], Option, none, some, Bytes, ◌==◌,
  if◌then◌else◌, arith, codes, ◌>>=?◌, subst, length, ◌≤◌, get_elem?,
}
use s_json.Base.Bits.{bit_or-lt_16, bit_or_ones, ones_bit_or}
use s_json.Text.Hex.{hex_val, join_hex, parse_hex4}

-- The place of a byte in a text.
abbrev index_from : ℕ → ℕ → Bytes → Option ℕ
index_from i c [] = none
index_from i c (d ∷ ds) = let later = index_from (i + 1) c ds in if c == d then some i else later

-- The value of a hexadecimal digit of either case, by table.
pub digit_of : ℕ → Option ℕ
digit_of c = elim (index_from 0 c (codes "0123456789abcdef")) [
  | none ↦ index_from 10 c (codes "ABCDEF")
  | some h ↦ some h
]

abbrev Reads : ℕ → Option ℕ → Type 0
Reads v none = v ≡ 255
Reads v (some h) = (v ≡ h) × (h < 16)

hex_val-Reads : (c : ℕ) → Reads (hex_val c) (digit_of c)
unfolding hex_val digit_of
hex_val-Reads c = ground arith

-- The value of four digits, where each is one.
pub four_digits : Option ℕ → Option ℕ → Option ℕ → Option ℕ → Option ℕ
four_digits o0 o1 o2 o3 =
    o0 >>=? λ a. o1 >>=? λ b. o2 >>=? λ c. o3 >>=? λ d. some (((a * 16 + b) * 16 + c) * 16 + d)

abbrev IsByteOr : ℕ → Type 0
IsByteOr h = (h < 16) ⊎ (h ≡ 255)

bit_or-IsByteOr : (x y : ℕ) → IsByteOr x → IsByteOr y → IsByteOr (bit_or x y)
bit_or-IsByteOr x y (inl p) (inl q) = inl (bit_or-lt_16 x y p q)
bit_or-IsByteOr x y (inr p) (inl q) = inr (rw p (ones_bit_or y (omega arith)))
bit_or-IsByteOr x y p (inr q) = inr (rw q (bit_or_ones x (omega arith)))

bit_or-eq-255 : (x y : ℕ) → IsByteOr x → IsByteOr y → (x ≡ 255) ⊎ (y ≡ 255) → bit_or x y ≡ 255
bit_or-eq-255 x y p q (inl e) = rw e (ones_bit_or y (omega arith))
bit_or-eq-255 x y p q (inr e) = rw e (bit_or_ones x (omega arith))

Reads-IsByteOr : (h : ℕ) (o : Option ℕ) → Reads h o → IsByteOr h
Reads-IsByteOr h none r = inr r
Reads-IsByteOr h (some a) r = inl (omega arith)

-- One invalid digit spoils the `|` of the four.
join_hex-none :
    (h0 h1 h2 h3 : ℕ)
    → IsByteOr h0
    → IsByteOr h1
    → IsByteOr h2
    → IsByteOr h3
    → ((h0 ≡ 255) ⊎ (h1 ≡ 255)) ⊎ ((h2 ≡ 255) ⊎ (h3 ≡ 255))
    → join_hex h0 h1 h2 h3 ≡ none
unfolding join_hex
join_hex-none h0 h1 h2 h3 p0 p1 p2 p3 (inl e) =
    let two = bit_or-eq-255 h0 h1 p0 p1 e in
    let three = bit_or-eq-255 (bit_or h0 h1) h2 (inr two) p2 (inl two) in
    rw (bit_or-eq-255 _ h3 (inr three) p3 (inl three)) refl
join_hex-none h0 h1 h2 h3 p0 p1 p2 p3 (inr (inl e)) =
    let three = bit_or-eq-255 (bit_or h0 h1) h2 (bit_or-IsByteOr h0 h1 p0 p1) p2 (inr e) in
    rw (bit_or-eq-255 _ h3 (inr three) p3 (inl three)) refl
join_hex-none h0 h1 h2 h3 p0 p1 p2 p3 (inr (inr e)) =
    let three = bit_or-IsByteOr (bit_or h0 h1) h2 (bit_or-IsByteOr h0 h1 p0 p1) p2 in
    rw (bit_or-eq-255 _ h3 three p3 (inr e)) refl

join_hex-some :
    (h0 h1 h2 h3 : ℕ)
    → h0 < 16
    → h1 < 16
    → h2 < 16
    → h3 < 16
    → join_hex h0 h1 h2 h3 ≡ some (((h0 * 16 + h1) * 16 + h2) * 16 + h3)
unfolding join_hex
join_hex-some h0 h1 h2 h3 p0 p1 p2 p3 =
    let low = bit_or-lt_16 (bit_or h0 h1) h2 (bit_or-lt_16 h0 h1 p0 p1) p2 in
    ground (arith, bit_or-lt_16 (bit_or (bit_or h0 h1) h2) h3 low p3)

join-four :
    (h0 h1 h2 h3 : ℕ) (o0 o1 o2 o3 : Option ℕ)
    → Reads h0 o0
    → Reads h1 o1
    → Reads h2 o2
    → Reads h3 o3
    → join_hex h0 h1 h2 h3 ≡ four_digits o0 o1 o2 o3
unfolding four_digits
join-four h0 h1 h2 h3 (some a) (some b) (some c) (some d) r0 r1 r2 r3 =
    ground
      (arith, join_hex-some h0 h1 h2 h3 (omega arith) (omega arith) (omega arith) (omega arith))
join-four h0 h1 h2 h3 o0 o1 o2 o3 r0 r1 r2 r3 = ground (
  arith,
  join_hex-none h0 h1 h2 h3 (Reads-IsByteOr h0 o0 r0) (Reads-IsByteOr h1 o1 r1)
      (Reads-IsByteOr h2 o2 r2) (Reads-IsByteOr h3 o3 r3),
)

-- On four bytes or more.
parse_hex4-four :
    (c0 c1 c2 c3 : ℕ) (rest : Bytes)
    → parse_hex4 (c0 ∷ c1 ∷ c2 ∷ c3 ∷ rest)
      ≡ four_digits (digit_of c0) (digit_of c1) (digit_of c2) (digit_of c3)
unfolding parse_hex4
parse_hex4-four c0 c1 c2 c3 rest =
    join-four _ _ _ _ _ _ _ _ (hex_val-Reads c0) (hex_val-Reads c1) (hex_val-Reads c2)
      (hex_val-Reads c3)

four_digits-short : (o0 o1 o2 : Option ℕ) → none ≡ four_digits o0 o1 o2 none
unfolding four_digits
four_digits-short none o1 o2 = refl
four_digits-short (some a) none o2 = refl
four_digits-short (some a) (some b) none = refl
four_digits-short (some a) (some b) (some c) = refl

-- The digit at a place of a text, where there is one.
abbrev pub digit_at : Bytes → ℕ → Option ℕ
digit_at bytes i = get_elem? bytes i >>=? digit_of

-- json__parse_hex4 accepts exactly the texts whose first four places hold hexadecimal digits, of either
-- case, and reads the number that they spell; it refuses every other text, a shorter one too.
pub parse_hex4-four_digits :
    (bytes : Bytes)
    → parse_hex4 bytes
      ≡ four_digits (digit_at bytes 0) (digit_at bytes 1) (digit_at bytes 2) (digit_at bytes 3)
unfolding parse_hex4 four_digits
parse_hex4-four_digits [] = refl
parse_hex4-four_digits (c0 ∷ []) = four_digits-short (digit_of c0) none none
parse_hex4-four_digits (c0 ∷ c1 ∷ []) = four_digits-short (digit_of c0) (digit_of c1) none
parse_hex4-four_digits (c0 ∷ c1 ∷ c2 ∷ []) =
    four_digits-short (digit_of c0) (digit_of c1) (digit_of c2)
parse_hex4-four_digits (c0 ∷ c1 ∷ c2 ∷ c3 ∷ rest) = parse_hex4-four c0 c1 c2 c3 rest

digit_of-lt : (c : ℕ) (h : ℕ) → digit_of c ≡ some h → h < 16
digit_of-lt c h e = (subst (Reads (hex_val c)) e (hex_val-Reads c)).1

four_digits-lt :
    (c0 c1 c2 c3 : ℕ) {v : ℕ}
    → four_digits (digit_of c0) (digit_of c1) (digit_of c2) (digit_of c3) ≡ some v
    → v < 0x10000
unfolding four_digits
four_digits-lt c0 c1 c2 c3 e = grind (arith, digit_of-lt)

-- What is read is below 2 ^ 16, from four bytes.
pub parse_hex4_bounds :
    (bytes : Bytes) {v : ℕ} → parse_hex4 bytes ≡ some v → (v < 0x10000) × (4 ≤ length bytes)
parse_hex4_bounds (c0 ∷ c1 ∷ c2 ∷ c3 ∷ rest) e =
    (four_digits-lt c0 c1 c2 c3 (rw (parse_hex4-four c0 c1 c2 c3 rest) at e), omega arith)
parse_hex4_bounds [] e = unfold parse_hex4 in cc
parse_hex4_bounds (c0 ∷ []) e = unfold parse_hex4 in cc
parse_hex4_bounds (c0 ∷ c1 ∷ []) e = unfold parse_hex4 in cc
parse_hex4_bounds (c0 ∷ c1 ∷ c2 ∷ []) e = unfold parse_hex4 in cc
