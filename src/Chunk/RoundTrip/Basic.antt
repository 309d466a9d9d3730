-- ===== src/Chunk/RoundTrip/Basic.antt =====
-- The first byte of a chunk, and the header that the deserializer starts from.
use Prim.Native.Nat.{bit_and, bit_or}
use rust_media_libs.Prelude.{
  ℕ, ◌<◌, ◌≤◌, ◌≡◌, ◌≢◌, refl, none, some, List, [], ◌∷◌, ◌==◌, ==_iff, arith, ok, passes,
  passes_below,
}
use rust_media_libs.Bytes.{ByteOrder}
use rust_media_libs.HashMap
use rust_media_libs.Chunk.Header.{
  ChunkHeaderFormat, full, time_delta_without_message_stream_id, time_delta_only, empty,
  ChunkHeader, new_header,
}
use rust_media_libs.Chunk.Serializer.{format_mask, add_basic_header, get_csid_for_message_type}
use rust_media_libs.Chunk.Deserializer.{
  ChunkDeserializer, csid, initial_timestamp, success, step, form_header, get_format, get_csid,
  take_header,
}
use rust_media_libs.Chunk.RoundTrip.Stages.{at}

-- The serializer uses the chunk stream ids 2 to 6 alone, whatever the message type.
pub get_csid_for_message_type_bounds :
    (type_id : ℕ)
    → (2 ≤ get_csid_for_message_type type_id) × (get_csid_for_message_type type_id ≤ 6)
unfolding get_csid_for_message_type
get_csid_for_message_type_bounds type_id = ground arith

abbrev pub basic_byte : ChunkHeaderFormat → ℕ → ℕ
basic_byte format id = bit_or id (format_mask format)

format_bits :
    (format : ChunkHeaderFormat) (id : ℕ)
    → id < 64
    → bit_and (basic_byte format id) 0b11000000 ≡ format_mask format
unfolding passes
format_bits full id h =
    (==_iff _ _).0 (passes_below (λ x. bit_and (bit_or x 0) 192 == 0) 64 id h refl)
format_bits time_delta_without_message_stream_id id h =
    (==_iff _ _).0 (passes_below (λ x. bit_and (bit_or x 64) 192 == 64) 64 id h refl)
format_bits time_delta_only id h =
    (==_iff _ _).0 (passes_below (λ x. bit_and (bit_or x 128) 192 == 128) 64 id h refl)
format_bits empty id h =
    (==_iff _ _).0 (passes_below (λ x. bit_and (bit_or x 192) 192 == 192) 64 id h refl)

id_bits :
    (format : ChunkHeaderFormat) (id : ℕ) → id < 64 → bit_and (basic_byte format id) 0b00111111 ≡ id
unfolding passes
id_bits full id h = (==_iff _ _).0 (passes_below (λ x. bit_and (bit_or x 0) 63 == x) 64 id h refl)
id_bits time_delta_without_message_stream_id id h =
    (==_iff _ _).0 (passes_below (λ x. bit_and (bit_or x 64) 63 == x) 64 id h refl)
id_bits time_delta_only id h =
    (==_iff _ _).0 (passes_below (λ x. bit_and (bit_or x 128) 63 == x) 64 id h refl)
id_bits empty id h =
    (==_iff _ _).0 (passes_below (λ x. bit_and (bit_or x 192) 63 == x) 64 id h refl)

pub get_format-basic_byte :
    (format : ChunkHeaderFormat) (id : ℕ) → id < 64 → get_format (basic_byte format id) ≡ format
unfolding get_format
get_format-basic_byte full id h = rw (format_bits full id h)
get_format-basic_byte time_delta_without_message_stream_id id h =
    rw (format_bits time_delta_without_message_stream_id id h)
get_format-basic_byte time_delta_only id h = rw (format_bits time_delta_only id h)
get_format-basic_byte empty id h = rw (format_bits empty id h)

pub get_csid-basic_byte :
    (format : ChunkHeaderFormat) (id : ℕ) (rest : List ℕ)
    → 2 ≤ id
    → id < 64
    → get_csid (basic_byte format id ∷ rest) ≡ some (id, 1)
unfolding get_csid
get_csid-basic_byte format id rest lo hi = ground (arith, id_bits format id hi)

pub add_basic_header_eq :
    (format : ChunkHeaderFormat) (id : ℕ)
    → 2 ≤ id
    → id < 64
    → add_basic_header format id ≡ ok (basic_byte format id ∷ [])
unfolding add_basic_header
add_basic_header_eq format id lo hi = ground arith

module _ ⦃bo : ByteOrder⦄ (d : ChunkDeserializer) (rest : List ℕ) where
  pub step-csid_full :
      (id : ℕ) (f₀ : ChunkHeaderFormat) (h₀ : ChunkHeader)
      → 2 ≤ id
      → id < 64
      → step (at d csid f₀ h₀ (basic_byte full id ∷ rest))
        ≡ ok (
          success,
          none,
          at d initial_timestamp full (record new_header { chunk_stream_id = id }) rest,
        )
  unfolding step form_header take_header
  step-csid_full id f₀ h₀ lo hi =
      ground (arith, get_csid-basic_byte full id rest lo hi, get_format-basic_byte full id hi)

  pub step-csid_compressed :
      (format : ChunkHeaderFormat) (id : ℕ) (f₀ : ChunkHeaderFormat) (h₀ p : ChunkHeader)
      → 2 ≤ id
      → id < 64
      → format ≢ full
      → HashMap.get id d.previous_headers ≡ some p
      → step (at d csid f₀ h₀ (basic_byte format id ∷ rest))
        ≡ ok (
          success,
          none,
          at
              (record d { previous_headers = HashMap.remove id d.previous_headers })
              initial_timestamp
              format
              p
              rest,
        )
  unfolding step form_header take_header
  step-csid_compressed full id f₀ h₀ p lo hi ne known = absurd (ne refl)
  step-csid_compressed format id f₀ h₀ p lo hi ne known =
      ground
        (arith, known, get_csid-basic_byte format id rest lo hi, get_format-basic_byte format id hi)
