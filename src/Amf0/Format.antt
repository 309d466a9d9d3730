-- ===== src/Amf0/Format.antt =====
-- The AMF0 format as a function of the value alone, which values have a form in it, and that the
-- serializer writes that form.
use rust_media_libs.Prelude.{
  ℕ, ◌^◌, ◌<◌, ◌≤◌, ◌≡◌, refl, Bool, true, List, [], ◌∷◌, ◌++◌, length, le→ltb_false, ok, arith,
  bytes_eq, ◌&&◌, not,
}
use native.Mathlib.Nat.{mod-eq_of_lt}
use rust_media_libs.Bytes.{ByteOrder}
use rust_media_libs.Amf0.Utf8.{is_utf8}
use rust_media_libs.Amf0.Value.{
  Value, Values, Properties, number, boolean, utf8_string, object, strict_array, null, undefined,
  nil, cons, end, property, length_values, number_marker, boolean_marker, string_marker,
  object_marker, null_marker, undefined_marker, object_end_marker, strict_array_marker,
  utf_8_empty_marker,
}
use rust_media_libs.Amf0.Serialize.{
  bool_byte, serialize_number, serialize_bool, serialize_string, serialize_value, serialize_values,
  serialize_properties,
}

-- No entry has the name.
abbrev pub absent : List ℕ → Properties → Bool
absent name end = true
absent name (property other w ps) = not (bytes_eq other name) && absent name ps

abbrev pub join : Properties → Properties → Properties
join end ps = ps
join (property name v qs) ps = property name v (join qs ps)

-- Each name is absent from the entries before it, those of `front` included.
abbrev pub IsFresh : Properties → Properties → Type 0
IsFresh front end = Unit
IsFresh front (property name v ps) =
    (absent name front ≡ true) × IsFresh (join front (property name v end)) ps

abbrev pub IsText : List ℕ → Type 0
IsText s = (length s ≤ 65535) × (is_utf8 s ≡ true)

-- The values that a Rust program can hold and that AMF0 can express: texts are UTF-8 of at most
-- 65535 bytes, an object's names are distinct and not empty, an array has fewer than 2 ^ 32 items.
unfoldable mutual
  pub IsEncodable : Value → Type 0
  IsEncodable (number n) = n < 2 ^ 64
  IsEncodable (boolean b) = Unit
  IsEncodable (utf8_string s) = IsText s
  IsEncodable (object ps) = AreNamed ps × IsFresh end ps
  IsEncodable (strict_array vs) = AreEncodable vs × (length_values vs < 2 ^ 32)
  IsEncodable null = Unit
  IsEncodable undefined = Unit

  pub AreEncodable : Values → Type 0
  AreEncodable nil = Unit
  AreEncodable (cons v vs) = IsEncodable v × AreEncodable vs

  pub AreNamed : Properties → Type 0
  AreNamed end = Unit
  AreNamed (property name v ps) = IsText name × (0 < length name) × IsEncodable v × AreNamed ps

module _ ⦃bo : ByteOrder⦄ where
  unfoldable mutual
    pub encode_value : Value → List ℕ
    encode_value (number n) = number_marker ∷ bo.f64_be.encode n
    encode_value (boolean b) = boolean_marker ∷ bool_byte b ∷ []
    encode_value (utf8_string s) = string_marker ∷ (bo.u16_be.encode (length s) ++ s)
    encode_value (object ps) = object_marker ∷ encode_properties ps
    encode_value (strict_array vs) =
        strict_array_marker ∷ (bo.u32_be.encode (length_values vs) ++ encode_values vs)
    encode_value null = null_marker ∷ []
    encode_value undefined = undefined_marker ∷ []

    pub encode_values : Values → List ℕ
    encode_values nil = []
    encode_values (cons v vs) = encode_value v ++ encode_values vs

    pub encode_properties : Properties → List ℕ
    encode_properties end = bo.u16_be.encode utf_8_empty_marker ++ (object_end_marker ∷ [])
    encode_properties (property name v ps) =
        bo.u16_be.encode (length name) ++ (name ++ (encode_value v ++ encode_properties ps))

  mutual
    unfolding serialize_value serialize_number serialize_bool serialize_string encode_value
        IsEncodable

    pub serialize_value_eq : (v : Value) → IsEncodable v → serialize_value v ≡ ok (encode_value v)
    serialize_value_eq (number n) h = refl
    serialize_value_eq (boolean b) h = refl
    serialize_value_eq (utf8_string s) h = rw (le→ltb_false 65535 (length s) h.0)
    serialize_value_eq (object ps) h = rw (serialize_properties_eq ps h.0)
    serialize_value_eq (strict_array vs) h = rw (serialize_values_eq vs h.0, mod-eq_of_lt h.1)
    serialize_value_eq null h = refl
    serialize_value_eq undefined h = refl

    pub serialize_values_eq :
        (vs : Values) → AreEncodable vs → serialize_values vs ≡ ok (encode_values vs)
    serialize_values_eq nil h = refl
    serialize_values_eq (cons v vs) h = rw (serialize_value_eq v h.0, serialize_values_eq vs h.1)

    pub serialize_properties_eq :
        (ps : Properties) → AreNamed ps → serialize_properties ps ≡ ok (encode_properties ps)
    serialize_properties_eq end h = refl
    serialize_properties_eq (property name v ps) h =
        let short : length name < 2 ^ 16 = omega (arith, h.0.0) in
        rw (serialize_value_eq v h.2, serialize_properties_eq ps h.3, mod-eq_of_lt short)
