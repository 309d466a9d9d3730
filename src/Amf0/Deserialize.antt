-- ===== src/Amf0/Deserialize.antt =====
-- amf0/src/deserialization.rs. A reader returns what it read and the bytes that are left. Each call
-- of the recursive readers costs a unit of fuel.
use rust_media_libs.Prelude.{
  ℕ, zero, suc, ◌+◌, ◌-◌, ◌*◌, Option, none, some, List, [], ◌∷◌, length, ◌==◌, if◌then◌else◌,
  Outcome, ok, err, out_of_fuel, ◌>>=◌, from_option,
}
use rust_media_libs.Bytes.{ByteOrder, read_exact, read_int}
use rust_media_libs.Amf0.Utf8.{is_utf8}
use rust_media_libs.Amf0.Value.{
  Value, Values, Properties, number, boolean, utf8_string, object, strict_array, null, undefined,
  nil, cons, end, insert, Amf0DeserializationError, unknown_marker,
  unexpected_empty_object_property_name, unexpected_eof, buffer_read_error, string_parse_error,
  number_marker, boolean_marker, string_marker, object_marker, null_marker, undefined_marker,
  ecma_array_marker, object_end_marker, strict_array_marker,
}

abbrev pub Read {ℓ} : Type ℓ → Type ℓ
Read A = Outcome Amf0DeserializationError (A × List ℕ)

-- `?` on an I/O error of a cursor: its end was reached.
abbrev pub or_eof {ℓ} : {A : Type ℓ} → Option A → Outcome Amf0DeserializationError A
or_eof o = from_option buffer_read_error o

-- `String::from_utf8(buffer)?`
unfoldable pub from_utf8 : List ℕ → List ℕ → Read (List ℕ)
from_utf8 buffer rest = if is_utf8 buffer then ok (buffer, rest) else err string_parse_error

abbrev pub map_some : Read Value → Read (Option Value)
map_some r = r >>= λ (value, rest). ok (some value, rest)

module _ ⦃bo : ByteOrder⦄ where
  unfoldable pub parse_number : List ℕ → Read Value
  parse_number bytes = or_eof (read_int (bo.f64_be) bytes) >>= λ (n, rest). ok (number n, rest)

  unfoldable pub parse_string : List ℕ → Read Value
  parse_string bytes = or_eof (read_int (bo.u16_be) bytes) >>= λ (len, rest).
      or_eof (read_exact len rest) >>= λ (buffer, rest').
      from_utf8 buffer rest' >>= λ (value, rest''). ok (utf8_string value, rest'')

unfoldable pub parse_bool : List ℕ → Read Value
parse_bool [] = err buffer_read_error
parse_bool (value ∷ rest) = ok (boolean (value == 1), rest)

-- The byte behind an empty property name.
unfoldable pub parse_object_end : List ℕ → Read (Option (List ℕ × Value))
parse_object_end [] = err buffer_read_error
parse_object_end (byte ∷ rest) =
    if byte == object_end_marker then ok (none, rest) else err unexpected_empty_object_property_name

module _ ⦃bo : ByteOrder⦄ where
  unfoldable pub parse_label : ℕ → List ℕ → Read (List ℕ)
  parse_label label_length bytes =
      or_eof (read_exact label_length bytes) >>= λ (label_buffer, rest). from_utf8 label_buffer rest

  unfoldable mutual
    -- `none` is the end of the input, or an end of object marker.
    pub read_next_value : ℕ → List ℕ → Read (Option Value)
    read_next_value zero bytes = out_of_fuel
    read_next_value (suc fuel) [] = ok (none, [])
    read_next_value (suc fuel) (marker ∷ rest) =
        let as_object = parse_object fuel end rest in
        let as_ecma_array =
          or_eof (read_int (bo.u32_be) rest) >>= λ (count, rest'). parse_object fuel end rest' in
        let as_array = or_eof (read_int (bo.u32_be) rest) >>= λ (count, rest').
        parse_strict_array fuel count rest' in
        if marker == object_end_marker
        then ok (none, rest)
        else if marker == boolean_marker
        then map_some (parse_bool rest)
        else if marker == null_marker
        then ok (some null, rest)
        else if marker == undefined_marker
        then ok (some undefined, rest)
        else if marker == number_marker
        then map_some (parse_number rest)
        else if marker == object_marker
        then (as_object >>= λ (ps, rest'). ok (some (object ps), rest'))
        else if marker == ecma_array_marker
        then (as_ecma_array >>= λ (ps, rest'). ok (some (object ps), rest'))
        else if marker == string_marker
        then map_some (parse_string rest)
        else if marker == strict_array_marker
        then (as_array >>= λ (vs, rest'). ok (some (strict_array vs), rest'))
        else err (unknown_marker marker)

    -- The loop of `parse_object`, with the properties so far.
    pub parse_object : ℕ → Properties → List ℕ → Read Properties
    parse_object zero properties bytes = out_of_fuel
    parse_object (suc fuel) properties bytes = parse_object_property fuel bytes >>= λ (found, rest).
        elim found [
          | none ↦ ok (properties, rest)
          | some (label, value) ↦ parse_object fuel (insert label value properties) rest
        ]

    -- The loop of `parse_strict_array`, with the rounds that are left.
    pub parse_strict_array : ℕ → ℕ → List ℕ → Read Values
    parse_strict_array zero count bytes = out_of_fuel
    parse_strict_array (suc fuel) count bytes =
        let round = read_next_value fuel bytes >>= λ (found, rest). elim found [
          | none ↦ ok (nil, rest)
          | some value ↦
              (parse_strict_array fuel (count - 1) rest >>= λ (values, rest').
              ok (cons value values, rest'))
        ] in
        if count == 0 then ok (nil, bytes) else round

    pub parse_object_property : ℕ → List ℕ → Read (Option (List ℕ × Value))
    parse_object_property zero bytes = out_of_fuel
    parse_object_property (suc fuel) bytes =
        or_eof (read_int (bo.u16_be) bytes) >>= λ (label_length, rest).
        (let named = parse_label label_length rest >>= λ (label, rest').
        read_next_value fuel rest' >>= λ (found, rest''). elim found [
          | none ↦ err unexpected_eof
          | some value ↦ ok (some (label, value), rest'')
        ] in
          if label_length == 0 then parse_object_end rest else named)

  -- The loop of `deserialize`.
  unfoldable pub read_values : ℕ → List ℕ → Outcome Amf0DeserializationError Values
  read_values zero bytes = out_of_fuel
  read_values (suc fuel) bytes = read_next_value fuel bytes >>= λ (found, rest). elim found [
    | none ↦ ok nil
    | some value ↦ (read_values fuel rest >>= λ values. ok (cons value values))
  ]

  -- A value takes a byte at least, and three calls a byte at most.
  unfoldable pub deserialize : List ℕ → Outcome Amf0DeserializationError Values
  deserialize bytes = read_values (3 * length bytes + 3) bytes
