-- ===== src/Chunk/Slices.antt =====
-- The slices that the serializer of chunk_io cuts a payload into.
use rust_media_libs.Prelude.{
  ℕ, zero, suc, ◌+◌, ◌-◌, ◌*◌, ◌<◌, ◌≤◌, min, ◌≡◌, refl, ap, sym, ◌∙◌, List, [], ◌∷◌, length, take,
  drop, leb, leb→le, length-drop, take-length, drop-drop, Bool-cases, inl, inr, false, arith, ok,
  out_of_fuel,
}
use rust_media_libs.Chunk.Serializer.{slices}

-- The pieces are the runs of `max` elements of `rest`, in order, the last one shorter or as long;
-- none is empty.
abbrev pub IsSplit : ℕ → List ℕ → List (List ℕ) → Type 0
IsSplit max rest [] = length rest ≡ 0
IsSplit max rest (piece ∷ pieces) =
    (0 < length rest) × (piece ≡ take max rest) × IsSplit max (drop max rest) pieces

take-min : (n : ℕ) (xs : List ℕ) → take (min n (length xs)) xs ≡ take n xs
take-min n xs = elim (Bool-cases (leb n (length xs))) [
  | inl h ↦ ap (λ k. take k xs) (omega (arith, leb→le n (length xs) h))
  | inr h ↦
      let shorter : length xs ≤ n = ground arith in
      take-length xs (min n (length xs)) (omega arith) ∙ sym (take-length xs n shorter)
]

-- The slice of one round, by its bounds, is the run of `max` elements from its start.
slice_eq :
    (max start : ℕ) (bytes : List ℕ)
    → take (min (start + max) (start + (length bytes - start)) - start) (drop start bytes)
      ≡ take max (drop start bytes)
slice_eq max start bytes =
    ap (λ k. take k (drop start bytes)) (omega (arith, length-drop start bytes))
    ∙ take-min max (drop start bytes)

next_round : (i max : ℕ) → (i + 1) * max ≡ i * max + max
next_round i max = omega arith

-- If the chunk size is not 0 and there is more fuel than bytes left from the start of round `i` on,
-- the slicing loop ends, and its slices are those bytes cut into runs of the chunk size, in order.
pub slices-IsSplit :
    (fuel max : ℕ) (bytes : List ℕ) (i : ℕ)
    → 0 < max
    → length bytes - i * max < fuel
    → (pieces : List (List ℕ)) × (slices fuel max bytes i ≡ ok pieces)
      × IsSplit max (drop (i * max) bytes) pieces
unfolding slices
slices-IsSplit zero max bytes i hm hf = absurd (omega arith)
slices-IsSplit (suc fuel) max bytes i hm hf = elim (Bool-cases (leb (length bytes) (i * max))) [
  | inl done ↦ ([], rw done, omega (arith, length-drop (i * max) bytes, leb→le _ _ done))
  | inr more ↦
      let left : i * max < length bytes = ground (arith, more) in
      let (pieces, e, split) =
        slices-IsSplit fuel max bytes (i + 1) hm (omega (arith, next_round i max)) in
      (
        take max (drop (i * max) bytes) ∷ pieces,
        rw (more, e) (ap (λ p. ok (p ∷ pieces)) (slice_eq max (i * max) bytes)),
        (
          omega (arith, length-drop (i * max) bytes),
          refl,
          rw (drop-drop, ← next_round i max) split,
        ),
      )
]

-- With a chunk size of 0 the slicing loop never ends on a payload that has a byte: from every round
-- on, no number of rounds is enough.
pub slices-out_of_fuel :
    (fuel : ℕ) (bytes : List ℕ) (i : ℕ) → 0 < length bytes → slices fuel 0 bytes i ≡ out_of_fuel
unfolding slices
slices-out_of_fuel zero bytes i h = refl
slices-out_of_fuel (suc fuel) bytes i h =
    let start : i * 0 ≡ 0 = omega arith in
    let more : leb (length bytes) (i * 0) ≡ false = ground (arith, start, h) in
    rw (more, slices-out_of_fuel fuel bytes (i + 1) h)
