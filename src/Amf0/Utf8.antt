-- ===== src/Amf0/Utf8.antt =====
-- `String::from_utf8` of the standard library: the bytes of a well-formed text, after the table of
-- well-formed sequences in the Unicode standard.
use rust_media_libs.Prelude.{
  ℕ, zero, suc, Bool, true, false, Option, none, some, List, [], ◌∷◌, leb, ltb, ◌==◌, ◌&&◌,
  if◌then◌else◌,
}

abbrev in_range : ℕ → ℕ → ℕ → Bool
in_range lo hi b = leb lo b && leb b hi

-- What a first byte asks for: the number of bytes that follow, and the range of the next one.
lead : ℕ → Option (ℕ × ℕ × ℕ)
lead b =
    if ltb b 0x80
    then some (0, 0x80, 0xbf)
    else if in_range 0xc2 0xdf b
    then some (1, 0x80, 0xbf)
    else if b == 0xe0
    then some (2, 0xa0, 0xbf)
    else if b == 0xed
    then some (2, 0x80, 0x9f)
    else if in_range 0xe1 0xef b
    then some (2, 0x80, 0xbf)
    else if b == 0xf0
    then some (3, 0x90, 0xbf)
    else if b == 0xf4
    then some (3, 0x80, 0x8f)
    else if in_range 0xf1 0xf3 b
    then some (3, 0x80, 0xbf)
    else none

-- `n` continuation bytes are due, the next one from `lo` to `hi`.
utf8_from : ℕ → ℕ → ℕ → List ℕ → Bool
utf8_from zero lo hi [] = true
utf8_from (suc n) lo hi [] = false
utf8_from zero lo hi (b ∷ rest) = elim (lead b) [
  | none ↦ false
  | some (n, lo', hi') ↦ utf8_from n lo' hi' rest
]
utf8_from (suc n) lo hi (b ∷ rest) = in_range lo hi b && utf8_from n 0x80 0xbf rest

unfoldable pub is_utf8 : List ℕ → Bool
unfolding lead utf8_from
is_utf8 bytes = utf8_from 0 0x80 0xbf bytes
