-- ===== src/Text.antt =====
-- Hexadecimal digits, UTF-8, strings and the key hash of src/sJson.c. A shift is written as a product or a
-- quotient by a power of two, a mask of low bits as a remainder, and an `|` of disjoint bits as a sum.
pub mod Hex
pub mod Utf8
pub mod Hash
pub mod Str
