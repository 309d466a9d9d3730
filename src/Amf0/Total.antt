-- ===== src/Amf0/Total.antt =====
-- The readers of amf0 end on every input, with a value or with an error.
use rust_media_libs.Prelude.{
  ℕ, zero, suc, ◌+◌, ◌-◌, ◌*◌, ◌<◌, ◌≤◌, ◌≡◌, ◌≢◌, Option, none, some, List, [], ◌∷◌, length, ◌==◌,
  Outcome, panicked, out_of_fuel, ◌>>=◌, arith, Ensures, returns, raises, Ensures-bind, Ensures-if,
  Ensures-ne-out_of_fuel, Ensures-ne-panicked, Option-cases, inl, inr,
}
use rust_media_libs.Bytes.{
  ByteOrder, IntCodec, read_int, read_int-length, read_exact, read_exact-length,
}
use rust_media_libs.Amf0.Utf8.{is_utf8}
use rust_media_libs.Amf0.Value.{
  Value, Values, Properties, end, insert, Amf0DeserializationError, number_marker, boolean_marker,
  string_marker, object_marker, null_marker, undefined_marker, ecma_array_marker, object_end_marker,
  strict_array_marker,
}
use rust_media_libs.Amf0.Deserialize.{
  Read, or_eof, map_some, read_next_value, parse_object, parse_strict_array, parse_object_property,
  parse_number, parse_bool, parse_string, parse_object_end, parse_label, from_utf8, read_values,
  deserialize,
}

-- At most `n` bytes are left.
abbrev Leaves : {A : Type 0} → ℕ → A × List ℕ → Type 0
Leaves n x = length x.1 ≤ n

-- At most `n` bytes are left, and fewer if there is a value.
abbrev Takes : {A : Type 0} → ℕ → Option A × List ℕ → Type 0
Takes n (none, rest) = length rest ≤ n
Takes n (some a, rest) = length rest < n

abbrev Ends : Values → Type 0
Ends values = Unit

-- What follows a reader that may find no value.
Ensures-found :
    {A B : Type 0} {Q : B → Type 0} {n : ℕ} {m : Read (Option A)}
    (next : Option A × List ℕ → Outcome Amf0DeserializationError B)
    → Ensures (Takes n) m
    → ((rest : List ℕ) → length rest ≤ n → Ensures Q (next (none, rest)))
    → ((a : A) (rest : List ℕ) → length rest < n → Ensures Q (next (some a, rest)))
    → Ensures Q (m >>= next)
Ensures-found next (returns {a = (none, rest)} h) without with_value = without rest h
Ensures-found next (returns {a = (some a, rest)} h) without with_value = with_value a rest h
Ensures-found next raises without with_value = raises

or_eof-read_int :
    {size : ℕ} (c : IntCodec size) (bytes : List ℕ)
    → Ensures (λ x. size + length x.1 ≡ length bytes) (or_eof (read_int c bytes))
or_eof-read_int c bytes = elim (Option-cases (read_int c bytes)) [
  | inl e ↦ rw e raises
  | inr (x, e) ↦ rw e (returns (omega (arith, read_int-length c bytes x e)))
]

or_eof-read_exact :
    (n : ℕ) (bytes : List ℕ)
    → Ensures (λ x. n + length x.1 ≡ length bytes) (or_eof (read_exact n bytes))
or_eof-read_exact n bytes = elim (Option-cases (read_exact n bytes)) [
  | inl e ↦ rw e raises
  | inr ((b, rest), e) ↦ rw e (returns (omega (arith, (read_exact-length n bytes b rest e).1)))
]

from_utf8-Ensures :
    (n : ℕ) (buffer rest : List ℕ) → length rest ≤ n → Ensures (Leaves n) (from_utf8 buffer rest)
unfolding from_utf8
from_utf8-Ensures n buffer rest h = Ensures-if (is_utf8 buffer) (λ e. returns h) (λ e. raises)

map_some-Ensures :
    (n : ℕ) (r : Read Value) → Ensures (Leaves n) r → Ensures (Takes (suc n)) (map_some r)
map_some-Ensures n r h = Ensures-bind h λ (v, rest) k. returns (omega arith)

parse_bool-Ensures : (bytes : List ℕ) → Ensures (Leaves (length bytes)) (parse_bool bytes)
unfolding parse_bool
parse_bool-Ensures [] = raises
parse_bool-Ensures (b ∷ rest) = returns (omega arith)

parse_object_end-Ensures :
    (n : ℕ) (bytes : List ℕ) → length bytes ≤ n → Ensures (Takes n) (parse_object_end bytes)
unfolding parse_object_end
parse_object_end-Ensures n [] h = raises
parse_object_end-Ensures n (b ∷ rest) h =
    Ensures-if (b == object_end_marker) (λ e. returns (omega arith)) (λ e. raises)

module _ ⦃bo : ByteOrder⦄ where
  parse_number-Ensures : (bytes : List ℕ) → Ensures (Leaves (length bytes)) (parse_number bytes)
  unfolding parse_number
  parse_number-Ensures bytes =
      Ensures-bind (or_eof-read_int bo.f64_be bytes) λ (n, rest) h. returns (omega (arith, h))

  parse_label-Ensures :
      (n k : ℕ) (bytes : List ℕ) → length bytes ≤ k → Ensures (Leaves k) (parse_label n bytes)
  unfolding parse_label
  parse_label-Ensures n k bytes le =
      Ensures-bind (or_eof-read_exact n bytes)
        λ (buffer, rest) h. from_utf8-Ensures k buffer rest (omega (arith, h, le))

  parse_string-Ensures : (bytes : List ℕ) → Ensures (Leaves (length bytes)) (parse_string bytes)
  unfolding parse_string
  parse_string-Ensures bytes = Ensures-bind (or_eof-read_int bo.u16_be bytes) λ (len, rest) h.
      Ensures-bind (or_eof-read_exact len rest) λ (buffer, rest') k.
        Ensures-bind (from_utf8-Ensures (length bytes) buffer rest' (omega (arith, h, k)))
          λ (value, rest'') l. returns l

  -- A body behind a count of four bytes.
  counted :
      {A : Type 0} (body : ℕ → List ℕ → Read A) (bytes : List ℕ)
      → ((count : ℕ) (rest : List ℕ)
          → length rest ≤ length bytes
          → Ensures (Leaves (length bytes)) (body count rest))
      → Ensures
          (Leaves (length bytes))
          (or_eof (read_int bo.u32_be bytes) >>= λ (count, rest). body count rest)
  counted body bytes h =
      Ensures-bind (or_eof-read_int bo.u32_be bytes)
        λ (count, rest) k. h count rest (omega (arith, k))

  mutual
    unfolding read_next_value

    read_next_value-Ensures :
        (f : ℕ) (bytes : List ℕ)
        → 3 * length bytes < f
        → Ensures (Takes (length bytes)) (read_next_value f bytes)
    read_next_value-Ensures zero bytes h = absurd (omega arith)
    read_next_value-Ensures (suc f) [] h = returns (omega arith)
    read_next_value-Ensures (suc f) (marker ∷ rest) h =
        Ensures-if (marker == object_end_marker) (λ e. returns (omega arith))
          λ e₀.
            Ensures-if (marker == boolean_marker)
              (λ e. map_some-Ensures _ _ (parse_bool-Ensures rest))
              λ e₁.
                Ensures-if (marker == null_marker) (λ e. returns (omega arith))
                  λ e₂.
                    Ensures-if (marker == undefined_marker) (λ e. returns (omega arith))
                      λ e₃.
                        Ensures-if (marker == number_marker)
                          (λ e. map_some-Ensures _ _ (parse_number-Ensures rest))
                          λ e₄.
                            Ensures-if (marker == object_marker)
                              (λ e.
                                Ensures-bind
                                  (parse_object-Ensures f (length rest) end rest (omega arith)
                                    (omega arith))
                                  λ (ps, rest') k. returns (omega (arith, k)))
                              λ e₅.
                                Ensures-if (marker == ecma_array_marker)
                                  (λ e.
                                    Ensures-bind
                                      (counted (λ count. parse_object f end) rest
                                        λ count rest' le.
                                          parse_object-Ensures f (length rest) end rest' le
                                            (omega (arith, le)))
                                      λ (ps, rest') k. returns (omega (arith, k)))
                                  λ e₆.
                                    Ensures-if (marker == string_marker)
                                      (λ e. map_some-Ensures _ _ (parse_string-Ensures rest))
                                      λ e₇.
                                        Ensures-if (marker == strict_array_marker)
                                          (λ e.
                                            Ensures-bind
                                              (counted (parse_strict_array f) rest λ count rest' le.
                                                parse_strict_array-Ensures f count (length rest)
                                                  rest' le (omega (arith, le)))
                                              λ (vs, rest') k. returns (omega (arith, k)))
                                          λ e₈. raises

    parse_object-Ensures :
        (f n : ℕ) (properties : Properties) (bytes : List ℕ)
        → length bytes ≤ n
        → 3 * length bytes + 2 < f
        → Ensures (Leaves n) (parse_object f properties bytes)
    parse_object-Ensures zero n properties bytes le h = absurd (omega arith)
    parse_object-Ensures (suc f) n properties bytes le h =
        Ensures-found _ (parse_object_property-Ensures f bytes (omega arith))
          (λ rest k. returns (omega (arith, k)))
          λ (label, value) rest k.
            parse_object-Ensures f n (insert label value properties) rest (omega (arith, k))
              (omega (arith, k))

    parse_strict_array-Ensures :
        (f count n : ℕ) (bytes : List ℕ)
        → length bytes ≤ n
        → 3 * length bytes + 1 < f
        → Ensures (Leaves n) (parse_strict_array f count bytes)
    parse_strict_array-Ensures zero count n bytes le h = absurd (omega arith)
    parse_strict_array-Ensures (suc f) count n bytes le h =
        Ensures-if (count == 0) (λ e. returns le)
          λ e.
            Ensures-found _ (read_next_value-Ensures f bytes (omega arith))
              (λ rest k. returns (omega (arith, k)))
              λ value rest k.
                Ensures-bind
                  (parse_strict_array-Ensures f (count - 1) n rest (omega (arith, k))
                    (omega (arith, k)))
                  λ (values, rest') l. returns l

    parse_object_property-Ensures :
        (f : ℕ) (bytes : List ℕ)
        → 3 * length bytes + 1 < f
        → Ensures (Takes (length bytes)) (parse_object_property f bytes)
    parse_object_property-Ensures zero bytes h = absurd (omega arith)
    parse_object_property-Ensures (suc f) bytes h =
        Ensures-bind (or_eof-read_int bo.u16_be bytes) λ (label_length, rest) k.
          Ensures-if (label_length == 0)
            (λ e. parse_object_end-Ensures (length bytes) rest (omega (arith, k)))
            λ e.
              Ensures-bind (parse_label-Ensures label_length (length rest) rest (omega arith))
                λ (label, rest') l.
                  Ensures-found _ (read_next_value-Ensures f rest' (omega (arith, k, l)))
                    (λ rest'' m. raises) λ value rest'' m. returns (omega (arith, k, l, m))

  read_values-Ensures :
      (f : ℕ) (bytes : List ℕ) → 3 * length bytes + 2 < f → Ensures Ends (read_values f bytes)
  unfolding read_values
  read_values-Ensures zero bytes h = absurd (omega arith)
  read_values-Ensures (suc f) bytes h =
      Ensures-found _ (read_next_value-Ensures f bytes (omega arith)) (λ rest k. returns tt)
        λ value rest k.
          Ensures-bind (read_values-Ensures f rest (omega (arith, k))) λ values l. returns tt

  deserialize-Ensures : (bytes : List ℕ) → Ensures Ends (deserialize bytes)
  unfolding deserialize
  deserialize-Ensures bytes = read_values-Ensures (3 * length bytes + 3) bytes (omega arith)

  -- On every input, `deserialize` ends with values or with an error: it does not panic, and the
  -- calls of its readers, nested ones included, are at most three for each byte and three more.
  pub deserialize-ne-out_of_fuel :
      (bytes : List ℕ) → (deserialize bytes ≢ out_of_fuel) × (deserialize bytes ≢ panicked)
  deserialize-ne-out_of_fuel bytes = (
    Ensures-ne-out_of_fuel (deserialize-Ensures bytes),
    Ensures-ne-panicked (deserialize-Ensures bytes),
  )
