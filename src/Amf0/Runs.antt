-- ===== src/Amf0/Runs.antt =====
-- AMF0 values at concrete values.
use rust_media_libs.Prelude.{
  ℕ, ◌≡◌, refl, true, List, [], ◌∷◌, ok, arith, ◌≢◌, out_of_fuel, panicked,
}
use rust_media_libs.Bytes.Endian.{endian}
use rust_media_libs.Amf0.Utf8.{is_utf8}
use rust_media_libs.Amf0.Value.{
  Values, number, boolean, utf8_string, object, strict_array, null, nil, cons, end, property,
}
use rust_media_libs.Amf0.Serialize.{serialize}
use rust_media_libs.Amf0.Deserialize.{deserialize}
use rust_media_libs.Amf0.Format.{AreEncodable}
use rust_media_libs.Amf0.Total.{deserialize-ne-out_of_fuel}
use rust_media_libs.Amf0.RoundTrip.{deserialize-serialize}

abbrev connect : Values
connect = cons (utf8_string (99 ∷ 111 ∷ [])) (
    cons (number 1) (
      cons (object (property (97 ∷ []) (boolean true) (property (98 ∷ []) null end)))
        (cons (strict_array (cons null nil)) nil)))

connect-AreEncodable : AreEncodable connect
unfolding AreEncodable is_utf8
connect-AreEncodable = (
  (omega arith, refl),
  (
    omega arith,
    (
      (
        ((omega arith, refl), omega arith, tt, ((omega arith, refl), omega arith, tt, tt)),
        (refl, (refl, tt)),
      ),
      (((tt, tt), omega arith), tt),
    ),
  ),
)

deserialize-serialize_example :
    (bytes : List ℕ) × (serialize connect ≡ ok bytes) × (deserialize bytes ≡ ok connect)
deserialize-serialize_example = deserialize-serialize connect connect-AreEncodable

deserialize-ne-out_of_fuel_example :
    (deserialize (3 ∷ 0 ∷ 1 ∷ 97 ∷ []) ≢ out_of_fuel)
    × (deserialize (3 ∷ 0 ∷ 1 ∷ 97 ∷ []) ≢ panicked)
deserialize-ne-out_of_fuel_example = deserialize-ne-out_of_fuel (3 ∷ 0 ∷ 1 ∷ 97 ∷ [])
