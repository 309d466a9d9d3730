-- ===== src/Bytes/Endian.antt =====
-- The two byte orders, at every width: an instance of the interface, for runs and examples.
use rust_media_libs.Prelude.{
  ℕ, zero, suc, ◌+◌, ◌*◌, ◌/◌, ◌%◌, ◌^◌, ◌<◌, ◌≡◌, refl, ◌∙◌, List, [], ◌∷◌, ◌++◌, length,
  length-append, arith,
}
use rust_media_libs.Bytes.Defs.{IsBytes, IntCodec, ByteOrder}
use native.Mathlib.Nat.{pow-suc}

-- The least significant byte first.
pub little : ℕ → ℕ → List ℕ
little zero n = []
little (suc k) n = (n % 256) ∷ little k (n / 256)

pub of_little : List ℕ → ℕ
of_little [] = 0
of_little (b ∷ bs) = b + 256 * of_little bs

pub length-little : (k n : ℕ) → length (little k n) ≡ k
unfolding little
length-little zero n = refl
length-little (suc k) n = omega (arith, length-little k (n / 256))

pub little-IsBytes : (k n : ℕ) → IsBytes (little k n)
unfolding little
little-IsBytes zero n = tt
little-IsBytes (suc k) n = (omega arith, little-IsBytes k (n / 256))

pub of_little-little : (k n : ℕ) → n < 256 ^ k → of_little (little k n) ≡ n
unfolding little of_little
of_little-little zero n h = omega arith
of_little-little (suc k) n h =
    omega (arith, of_little-little k (n / 256) (omega (arith, pow-suc 256 k)))

pub of_little-lt : (bs : List ℕ) (k : ℕ) → IsBytes bs → length bs ≡ k → of_little bs < 256 ^ k
unfolding of_little
of_little-lt [] zero h e = omega arith
of_little-lt [] (suc k) h e = absurd (omega arith)
of_little-lt (b ∷ bs) zero h e = absurd (omega arith)
of_little-lt (b ∷ bs) (suc k) h e =
    omega (arith, pow-suc 256 k, of_little-lt bs k h.1 (omega arith))

pub reverse : List ℕ → List ℕ
reverse [] = []
reverse (x ∷ xs) = reverse xs ++ (x ∷ [])

pub length-reverse : (xs : List ℕ) → length (reverse xs) ≡ length xs
unfolding reverse
length-reverse [] = refl
length-reverse (x ∷ xs) = omega (arith, length-append (reverse xs) (x ∷ []), length-reverse xs)

reverse-append : (xs : List ℕ) (x : ℕ) → reverse (xs ++ (x ∷ [])) ≡ x ∷ reverse xs
unfolding reverse
reverse-append [] x = refl
reverse-append (y ∷ xs) x = rw (reverse-append xs x)

reverse-reverse : (xs : List ℕ) → reverse (reverse xs) ≡ xs
unfolding reverse
reverse-reverse [] = refl
reverse-reverse (x ∷ xs) = rw (reverse-append (reverse xs) x, reverse-reverse xs)

pub reverse-IsBytes : (xs : List ℕ) → IsBytes xs → IsBytes (reverse xs)
unfolding reverse
reverse-IsBytes [] h = tt
reverse-IsBytes (x ∷ xs) h = snoc (reverse xs) (reverse-IsBytes xs h.1)
  where
    snoc : (ys : List ℕ) → IsBytes ys → IsBytes (ys ++ (x ∷ []))
    snoc [] k = (h.0, tt)
    snoc (y ∷ ys) k = (k.0, snoc ys k.1)

abbrev little_endian : (size : ℕ) → IntCodec size
little_endian size = record {
  encode = little size;
  decode = of_little;
  length-encode = length-little size;
  encode-IsBytes = little-IsBytes size;
  decode-encode = of_little-little size;
  decode-lt = λ bs. of_little-lt bs size;
}

pub big-decode-encode : (k n : ℕ) → n < 256 ^ k → of_little (reverse (reverse (little k n))) ≡ n
big-decode-encode k n h = rw (reverse-reverse (little k n)) (of_little-little k n h)

abbrev big_endian : (size : ℕ) → IntCodec size
big_endian size = record {
  encode = λ n. reverse (little size n);
  decode = λ bs. of_little (reverse bs);
  length-encode = λ n. length-reverse (little size n) ∙ length-little size n;
  encode-IsBytes = λ n. reverse-IsBytes (little size n) (little-IsBytes size n);
  decode-encode = big-decode-encode size;
  decode-lt =
      λ bs h e. of_little-lt (reverse bs) size (reverse-IsBytes bs h) (length-reverse bs ∙ e);
}

-- Network byte order but for the one little-endian field of a chunk header.
instance unfoldable pub endian : ByteOrder
unfolding little of_little reverse
endian = record {
  u16_be = big_endian 2;
  u24_be = big_endian 3;
  u32_be = big_endian 4;
  u32_le = little_endian 4;
  f64_be = big_endian 8;
}

encode_258 : endian.u32_be.encode 258 ≡ 0 ∷ 0 ∷ 1 ∷ 2 ∷ []
unfolding endian
encode_258 = refl
