-- ===== src/Float/Laws.antt =====
-- A number of 32 bits survives its passage through an f64.
use rust_media_libs.Prelude.{
  ℕ, zero, suc, ◌+◌, ◌-◌, ◌*◌, ◌/◌, ◌^◌, ◌<◌, ◌≤◌, ◌≡◌, refl, false, leb, ltb, ◌==◌, arith, passes,
  passes_below, ==_iff, Bool-cases, inl, inr, ap, ◌∙◌, sym,
}
use native.Mathlib.Nat.{pow-suc, add-mul, mul-div_cancel, mul-lt-mul_of_pos_right}
use rust_media_libs.Bytes.{IsU32}
use rust_media_libs.Float.Defs.{
  truncate, to_u32, of_u32, leading, sign, exponent, fraction, to_f32, of_f32,
}

-- 1, 31 and 8192.5.
of_u32_runs :
    (of_u32 1 ≡ 4607182418800017408)
    × (of_u32 31 ≡ 4629418941960159232)
    × (to_u32 4665729488833740800 ≡ 8192)
unfolding of_u32 to_u32
of_u32_runs = (refl, refl, refl)

-- -2 as a u32, 29.97 as an f32, and that as an f64.
casts :
    (to_u32 13835058055282163712 ≡ 0) × (of_f32 (to_f32 4629129022734147256) ≡ 4629129022540873728)
unfolding to_u32 to_f32 of_f32
casts = (refl, refl)

leading_bounds :
    (k n : ℕ)
    → 0 < n
    → n < 2 ^ suc k
    → (leading k n ≤ k) × (2 ^ leading k n ≤ n) × (n < 2 ^ suc (leading k n))
leading_bounds zero n pos lt = (omega arith, omega arith, lt)
leading_bounds (suc k) n pos lt = elim (Bool-cases (leb (2 ^ suc k) n)) [
  | inl e ↦ rw e (omega arith, ground arith, lt)
  | inr e ↦ rw e (let (a, b, c) = leading_bounds k n pos (ground arith) in (omega (arith, a), b, c))
]

-- The fields of a pattern with a sign of 0.
fields :
    (k f : ℕ)
    → k ≤ 31
    → f < 2 ^ 52
    → (sign ((1023 + k) * 2 ^ 52 + f) ≡ 0)
      × (exponent ((1023 + k) * 2 ^ 52 + f) ≡ 1023 + k)
      × (fraction ((1023 + k) * 2 ^ 52 + f) ≡ f)
fields k f hk hf = (omega arith, omega arith, omega arith)

truncate_small : (k f : ℕ) → k ≤ 31 → truncate 0 (1023 + k) f ≡ (2 ^ 52 + f) / 2 ^ (52 - k)
truncate_small k f hk =
    let shift : 1075 - (1023 + k) ≡ 52 - k = omega (arith, hk) in
    let not_special : (1023 + k == 2047) ≡ false = ground (arith, hk) in
    let not_small : ltb (1023 + k) 1023 ≡ false = ground (arith, hk) in
    let not_large : leb 1055 (1023 + k) ≡ false = ground (arith, hk) in
    rw (not_special, not_small, not_large, shift)

to_u32-pattern :
    (k f : ℕ) → k ≤ 31 → f < 2 ^ 52 → to_u32 ((1023 + k) * 2 ^ 52 + f) ≡ (2 ^ 52 + f) / 2 ^ (52 - k)
unfolding to_u32
to_u32-pattern k f hk hf =
    let (s, e, m) = fields k f hk hf in (λ i. truncate (s i) (e i) (m i)) ∙ truncate_small k f hk

-- With p * q = 2 ^ 52 the pattern of n holds the quotient n.
quotient : (n p q : ℕ) → 0 < q → p ≤ n → p * q ≡ 2 ^ 52 → (2 ^ 52 + (n - p) * q) / q ≡ n
quotient n p q pos le e =
    let joined : 2 ^ 52 + (n - p) * q ≡ n * q =
      sym (ap (λ t. t + (n - p) * q) e)
      ∙ sym (add-mul p (n - p) q)
      ∙ ap (λ t. t * q) (omega (arith, le)) in
    ap (λ t. t / q) joined ∙ mul-div_cancel n pos

fraction_lt : (n p q : ℕ) → p ≤ n → n < 2 * p → p * q ≡ 2 ^ 52 → 0 < q → (n - p) * q < 2 ^ 52
fraction_lt n p q le lt e pos = rw (← e) (mul-lt-mul_of_pos_right (omega (arith, le, lt)) pos)

pow_split : (k : ℕ) → k ≤ 31 → 2 ^ k * 2 ^ (52 - k) ≡ 2 ^ 52
unfolding passes
pow_split k h =
    (==_iff _ _).0 (passes_below (λ k. 2 ^ k * 2 ^ (52 - k) == 2 ^ 52) 32 k (omega (arith, h)) refl)

pow_pos : (k : ℕ) → 0 < 2 ^ k
pow_pos zero = omega arith
pow_pos (suc k) = omega (arith, pow_pos k, pow-suc 2 k)

-- Casting a u32 to an f64 and back gives the same number.
pub to_u32-of_u32 : (n : ℕ) → IsU32 n → to_u32 (of_u32 n) ≡ n
unfolding of_u32
to_u32-of_u32 zero h = unfold to_u32 in refl
to_u32-of_u32 (suc m) h =
    let n = suc m in
    let (hk, low, high) = leading_bounds 31 n (omega arith) h in
    let k = leading 31 n in
    let split = pow_split k hk in
    let not_zero : (n == 0) ≡ false = ground arith in
    rw not_zero (
      to_u32-pattern k ((n - 2 ^ k) * 2 ^ (52 - k)) hk (
        fraction_lt n (2 ^ k) (2 ^ (52 - k)) low (omega (arith, high, pow-suc 2 k)) split
          (pow_pos (52 - k)))
      ∙ quotient n (2 ^ k) (2 ^ (52 - k)) (pow_pos (52 - k)) low split)
