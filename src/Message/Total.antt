-- ===== src/Message/Total.antt =====
-- A command with too few values.
use rust_media_libs.Prelude.{◌<◌, ◌≡◌, ℕ, refl, List, ok, panicked, arith}
use rust_media_libs.Bytes.{ByteOrder}
use rust_media_libs.Amf0.Serialize
use rust_media_libs.Amf0.Value.{Values, nil, cons, length_values}
use rust_media_libs.Amf0.Format.{AreEncodable}
use rust_media_libs.Amf0.RoundTrip.{deserialize-serialize}
use rust_media_libs.Message.Deserialize.{drain_three, deserialize_amf0_command}

drain_three_short : (vs : Values) → length_values vs < 3 → drain_three vs ≡ panicked
drain_three_short nil h = refl
drain_three_short (cons a nil) h = refl
drain_three_short (cons a (cons b nil)) h = refl
drain_three_short (cons a (cons b (cons c vs))) h = absurd (omega arith)

module _ ⦃bo : ByteOrder⦄ where
  -- The bytes of fewer than three encodable values, read as a command, make the reader panic.
  pub deserialize_amf0_command-panicked :
      (values : Values)
      → AreEncodable values
      → length_values values < 3
      → (bytes : List ℕ) × (Serialize.serialize values ≡ ok bytes)
        × (deserialize_amf0_command bytes ≡ panicked)
  unfolding deserialize_amf0_command
  deserialize_amf0_command-panicked values h few =
      let (bytes, written, read) = deserialize-serialize values h in
      (bytes, written, rw (read, drain_three_short values few))
