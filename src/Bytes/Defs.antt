-- ===== src/Bytes/Defs.antt =====
-- Byte strings, the cursor that the readers move along, and the fixed-width integers of the
-- `byteorder` crate. The crate is not part of the repository: `ByteOrder` is the interface that
-- the code uses of it, with the documented behaviour of its readers and writers as laws.
use rust_media_libs.Prelude.{
  ℕ, ◌+◌, ◌^◌, ◌<◌, ◌≤◌, ◌≡◌, Option, none, some, List, [], ◌∷◌, ◌++◌, length, take, drop,
  length-append, length-take, length-drop, take-append_of_length, drop-append_of_length, leb,
  if◌then◌else◌, arith,
}

abbrev pub IsByte : ℕ → Type 0
IsByte b = b < 256

abbrev pub IsBytes : List ℕ → Type 0
IsBytes [] = Unit
IsBytes (b ∷ bs) = IsByte b × IsBytes bs

abbrev pub IsU16 : ℕ → Type 0
IsU16 n = n < 2 ^ 16

abbrev pub IsU24 : ℕ → Type 0
IsU24 n = n < 2 ^ 24

abbrev pub IsU32 : ℕ → Type 0
IsU32 n = n < 2 ^ 32

-- An integer of `size` bytes, written and read in one byte order.
pub record IntCodec (size : ℕ) : Type 0 where
  pub encode : ℕ → List ℕ
  pub decode : List ℕ → ℕ
  pub length-encode : (n : ℕ) → length (encode n) ≡ size
  pub encode-IsBytes : (n : ℕ) → IsBytes (encode n)
  pub decode-encode : (n : ℕ) → n < 256 ^ size → decode (encode n) ≡ n
  pub decode-lt : (bs : List ℕ) → IsBytes bs → length bs ≡ size → decode bs < 256 ^ size

-- The integers that the code reads and writes. A float is its pattern of 64 bits.
pub record ByteOrder : Type 0 where
  pub u16_be : IntCodec 2
  pub u24_be : IntCodec 3
  pub u32_be : IntCodec 4
  pub u32_le : IntCodec 4
  pub f64_be : IntCodec 8

-- `Read::read_exact` on a cursor: the bytes read and those that are left.
unfoldable pub read_exact : ℕ → List ℕ → Option (List ℕ × List ℕ)
read_exact n bs = if leb n (length bs) then some (take n bs, drop n bs) else none

abbrev pub decode_first :
    {size : ℕ} → IntCodec size → Option (List ℕ × List ℕ) → Option (ℕ × List ℕ)
decode_first c none = none
decode_first c (some (b, rest)) = some (c.decode b, rest)

-- `ReadBytesExt::read_u16` and its like.
unfoldable pub read_int : {size : ℕ} → IntCodec size → List ℕ → Option (ℕ × List ℕ)
unfolding read_exact
read_int {size} c bs = decode_first c (read_exact size bs)

pub read_exact-append :
    (n : ℕ) (xs ys : List ℕ) → length xs ≡ n → read_exact n (xs ++ ys) ≡ some (xs, ys)
unfolding read_exact
read_exact-append n xs ys h =
    ground
      (arith, length-append xs ys, take-append_of_length n xs ys, drop-append_of_length n xs ys)

pub read_exact_short : (n : ℕ) (bs : List ℕ) → length bs < n → read_exact n bs ≡ none
unfolding read_exact
read_exact_short n bs h = ground arith

pub read_exact-some :
    (n : ℕ) (bs : List ℕ) → n ≤ length bs → read_exact n bs ≡ some (take n bs, drop n bs)
unfolding read_exact
read_exact-some n bs h = ground arith

-- What a successful read leaves is shorter by what was read.
pub read_exact-length :
    (n : ℕ) (bs b rest : List ℕ)
    → read_exact n bs ≡ some (b, rest)
    → (length b ≡ n) × (length bs ≡ n + length rest)
unfolding read_exact
read_exact-length n bs b rest h = ground (arith, length-take n bs, length-drop n bs)

module _ {size : ℕ} (c : IntCodec size) where
  pub read_int-encode :
      (n : ℕ) (rest : List ℕ) → n < 256 ^ size → read_int c (c.encode n ++ rest) ≡ some (n, rest)
  unfolding read_int
  read_int-encode n rest h =
      rw (read_exact-append size (c.encode n) rest (c.length-encode n), c.decode-encode n h)

  pub read_int_short : (bs : List ℕ) → length bs < size → read_int c bs ≡ none
  unfolding read_int
  read_int_short bs h = rw (read_exact_short size bs h)

  pub read_int-length :
      (bs : List ℕ) (x : ℕ × List ℕ) → read_int c bs ≡ some x → length bs ≡ size + length x.1
  unfolding read_int
  read_int-length bs x h = ground (arith, length-drop size bs)
