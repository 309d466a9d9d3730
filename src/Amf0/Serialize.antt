-- ===== src/Amf0/Serialize.antt =====
-- amf0/src/serialization.rs. A writer returns the bytes that the source appends.
use rust_media_libs.Prelude.{
  ℕ, ◌%◌, ◌^◌, Bool, List, [], ◌∷◌, ◌++◌, length, ltb, if◌then◌else◌, Outcome, ok, err, ◌>>=◌,
}
use rust_media_libs.Bytes.{ByteOrder}
use rust_media_libs.Amf0.Value.{
  Value, Values, Properties, number, boolean, utf8_string, object, strict_array, null, undefined,
  nil, cons, end, property, length_values, Amf0SerializationError, normal_string_too_long,
  number_marker, boolean_marker, string_marker, object_marker, null_marker, undefined_marker,
  object_end_marker, strict_array_marker, utf_8_empty_marker,
}

abbrev pub Written : Type 0
Written = Outcome Amf0SerializationError (List ℕ)

-- `value as u8`
abbrev pub bool_byte : Bool → ℕ
bool_byte b = if b then 1 else 0

module _ ⦃bo : ByteOrder⦄ where
  unfoldable pub serialize_number : ℕ → Written
  serialize_number value = ok (number_marker ∷ bo.f64_be.encode value)

  unfoldable pub serialize_bool : Bool → Written
  serialize_bool value = ok (boolean_marker ∷ bool_byte value ∷ [])

  unfoldable pub serialize_string : List ℕ → Written
  serialize_string value =
      if ltb 65535 (length value)
      then err normal_string_too_long
      else ok (string_marker ∷ (bo.u16_be.encode (length value) ++ value))

  unfoldable mutual
    pub serialize_value : Value → Written
    serialize_value (boolean val) = serialize_bool val
    serialize_value null = ok (null_marker ∷ [])
    serialize_value undefined = ok (undefined_marker ∷ [])
    serialize_value (number val) = serialize_number val
    serialize_value (utf8_string val) = serialize_string val
    serialize_value (object properties) =
        serialize_properties properties >>= λ bytes. ok (object_marker ∷ bytes)
    serialize_value (strict_array array) = serialize_values array >>= λ bytes.
        ok (strict_array_marker ∷ (bo.u32_be.encode (length_values array % 2 ^ 32) ++ bytes))

    -- The loop over a vector, of `serialize` and of `serialize_strict_array`.
    pub serialize_values : Values → Written
    serialize_values nil = ok []
    serialize_values (cons value rest) =
        serialize_value value >>= λ bytes. serialize_values rest >>= λ more. ok (bytes ++ more)

    -- The loop of `serialize_object`, with the end of the object behind it.
    pub serialize_properties : Properties → Written
    serialize_properties end = ok (bo.u16_be.encode utf_8_empty_marker ++ (object_end_marker ∷ []))
    serialize_properties (property name value rest) = serialize_value value >>= λ bytes.
        serialize_properties rest >>= λ more.
        ok (bo.u16_be.encode (length name % 2 ^ 16) ++ (name ++ (bytes ++ more)))

  unfoldable pub serialize : Values → Written
  serialize values = serialize_values values
