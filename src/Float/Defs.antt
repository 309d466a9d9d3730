-- ===== src/Float/Defs.antt =====
-- The casts between u32, f32 and f64 and the comparisons of f64 that the code uses, on bit patterns.
use rust_media_libs.Prelude.{
  ℕ, zero, suc, ◌+◌, ◌-◌, ◌*◌, ◌/◌, ◌%◌, ◌^◌, Bool, ◌&&◌, ◌||◌, not, leb, ltb, ◌==◌, if◌then◌else◌,
}

-- The three fields of an f64.
abbrev pub sign : ℕ → ℕ
sign x = x / 2 ^ 63 % 2

abbrev pub exponent : ℕ → ℕ
exponent x = x / 2 ^ 52 % 2 ^ 11

abbrev pub fraction : ℕ → ℕ
fraction x = x % 2 ^ 52

abbrev pub is_nan : ℕ → Bool
is_nan x = exponent x == 2047 && not (fraction x == 0)

-- The number below 2 ^ 32 that is nearest toward zero, from the fields; 0 for NaN.
abbrev pub truncate : ℕ → ℕ → ℕ → ℕ
truncate s e f =
    if (e == 2047 && not (f == 0)) || s == 1 || ltb e 1023
    then 0
    else if leb 1055 e
    then 4294967295
    else (2 ^ 52 + f) / 2 ^ (1075 - e)

-- `x as u32` of an f64.
unfoldable pub to_u32 : ℕ → ℕ
to_u32 x = truncate (sign x) (exponent x) (fraction x)

-- The position of the leading 1 of a number from 1 to 2 ^ (k + 1) - 1.
abbrev pub leading : ℕ → ℕ → ℕ
leading zero n = 0
leading (suc k) n = let below = leading k n in if leb (2 ^ suc k) n then suc k else below

-- `n as f64` of a u32, which is exact.
unfoldable pub of_u32 : ℕ → ℕ
of_u32 n =
    let k = leading 31 n in if n == 0 then 0 else (1023 + k) * 2 ^ 52 + (n - 2 ^ k) * 2 ^ (52 - k)

-- `x >= 0.0`
unfoldable pub is_nonneg : ℕ → Bool
is_nonneg x = not (is_nan x) && (sign x == 0 || x == 2 ^ 63)

-- `x == -2.0` and `x == -1.0`: each has one pattern.
unfoldable pub is_minus_two : ℕ → Bool
is_minus_two x = x == 13835058055282163712

unfoldable pub is_minus_one : ℕ → Bool
is_minus_one x = x == 13830554455654793216

-- `n / 2 ^ k`, to the nearest number, and to the even one of two that are as near.
abbrev pub round_shift : ℕ → ℕ → ℕ
round_shift n k =
    let q = n / 2 ^ k in
    let r = n % 2 ^ k in if ltb (2 ^ k) (2 * r) || (2 * r == 2 ^ k && q % 2 == 1) then q + 1 else q

-- The bits of an f32 but for its sign, from those of an f64: a normal result may round up to the
-- next exponent, one below the normal range has its leading 1 shifted in.
abbrev pub narrow : ℕ → ℕ → ℕ
narrow e m =
    if leb 1151 e
    then 255 * 2 ^ 23
    else if leb 897 e
    then (e - 896) * 2 ^ 23 + round_shift m 29
    else round_shift (2 ^ 52 + m) (926 - e)

-- `x as f32` of an f64. A NaN keeps the upper bits of its fraction and becomes quiet.
unfoldable pub to_f32 : ℕ → ℕ
to_f32 x =
    if is_nan x
    then sign x * 2 ^ 31 + 255 * 2 ^ 23 + 2 ^ 22 + fraction x / 2 ^ 29 % 2 ^ 22
    else if exponent x == 0
    then sign x * 2 ^ 31
    else sign x * 2 ^ 31 + narrow (exponent x) (fraction x)

-- The bits of an f64 but for its sign, from the exponent and the fraction of an f32.
abbrev pub widen : ℕ → ℕ → ℕ
widen e m =
    let k = leading 22 m in
    if e == 255
    then 2047 * 2 ^ 52 + m * 2 ^ 29
    else if ltb 0 e
    then (e + 896) * 2 ^ 52 + m * 2 ^ 29
    else if m == 0
    then 0
    else (874 + k) * 2 ^ 52 + (m - 2 ^ k) * 2 ^ (52 - k)

-- `y as f64` of an f32, which is exact.
unfoldable pub of_f32 : ℕ → ℕ
of_f32 y = (y / 2 ^ 31 % 2) * 2 ^ 63 + widen (y / 2 ^ 23 % 2 ^ 8) (y % 2 ^ 23)
