-- ===== src/Chunk/RoundTrip/Stages.antt =====
-- One round of the deserializer's loop on the field that the serializer wrote for its stage.
use rust_media_libs.Prelude.{
  ℕ, ◌-◌, ◌^◌, ◌<◌, min, ◌≡◌, refl, Bool, none, List, [], ◌∷◌, ◌++◌, length, ltb, ◌==◌,
  if◌then◌else◌, arith, ok, append_assoc,
}
use rust_media_libs.Bytes.{ByteOrder, read_int-encode}
use rust_media_libs.Time.{add_u32, set}
use rust_media_libs.Chunk.Header.{
  ChunkHeaderFormat, full, time_delta_without_message_stream_id, empty, ChunkHeader,
  max_initial_timestamp,
}
use rust_media_libs.Chunk.Serializer.{
  add_initial_timestamp, add_message_length_and_type_id, add_message_stream_id,
  add_extended_timestamp,
}
use rust_media_libs.Chunk.Deserializer.{
  ChunkDeserializer, ParseStage, initial_timestamp, message_length, message_type_id,
  message_stream_id, message_payload, extended_timestamp, success, step, get_initial_timestamp,
  repeat_delta, set_timestamp, get_message_length, get_message_type_id, get_message_stream_id,
  get_extended_timestamp, extend_timestamp,
}

-- The deserializer `d` inside a chunk.
abbrev pub at :
    ChunkDeserializer → ParseStage → ChunkHeaderFormat → ChunkHeader → List ℕ → ChunkDeserializer
at d stage format header buffer = record d {
  current_header_format = format;
  current_header = header;
  current_stage = stage;
  buffer = buffer;
}

abbrev pub is_first : ChunkDeserializer → Bool
is_first d = length d.current_payload_data == 0

-- The header after the field `v` of the first three bytes.
abbrev pub timed : ChunkHeaderFormat → Bool → ℕ → ChunkHeader → ChunkHeader
timed full first v h = record h { timestamp = set h.timestamp v; timestamp_field = v }
timed empty first v h = record h {
  timestamp = if first then add_u32 h.timestamp h.timestamp_field else h.timestamp;
}
timed _ first v h = record h { timestamp = add_u32 h.timestamp v; timestamp_field = v }

-- The header after the extended field, which is there where the delta is `max_initial_timestamp`
-- at least.
abbrev pub extended : ChunkHeaderFormat → Bool → ℕ → ChunkHeader → ChunkHeader
extended full first v h = record h {
  timestamp = if ltb v max_initial_timestamp then h.timestamp else set h.timestamp v;
}
extended _ first v h = record h {
  timestamp =
      if ltb v max_initial_timestamp
      then h.timestamp
      else if first
      then add_u32 h.timestamp (v - max_initial_timestamp)
      else h.timestamp;
}

abbrev pub measured : ChunkHeaderFormat → ℕ → ChunkHeader → ChunkHeader
measured full len h = record h { message_length = len }
measured time_delta_without_message_stream_id len h = record h { message_length = len }
measured _ len h = h

-- The second part of what `add_message_length_and_type_id` writes.
abbrev pub type_bytes : ChunkHeaderFormat → ℕ → List ℕ
type_bytes full type_id = type_id ∷ []
type_bytes time_delta_without_message_stream_id type_id = type_id ∷ []
type_bytes _ type_id = []

abbrev pub typed : ChunkHeaderFormat → ℕ → ChunkHeader → ChunkHeader
typed full type_id h = record h { message_type_id = type_id }
typed time_delta_without_message_stream_id type_id h = record h { message_type_id = type_id }
typed _ type_id h = h

abbrev pub addressed : ChunkHeaderFormat → ℕ → ChunkHeader → ChunkHeader
addressed full stream_id h = record h { message_stream_id = stream_id }
addressed _ stream_id h = h

module _ ⦃bo : ByteOrder⦄ (d : ChunkDeserializer) (h : ChunkHeader) (rest : List ℕ) where
  pub step-initial_timestamp :
      (format : ChunkHeaderFormat) (w : ChunkHeader)
      → step (at d initial_timestamp format h (add_initial_timestamp format w ++ rest))
        ≡ ok (
          success,
          none,
          at d message_length format
              (timed format (is_first d) (min w.timestamp_field max_initial_timestamp) h)
              rest,
        )
  unfolding step get_initial_timestamp add_initial_timestamp repeat_delta set_timestamp
  step-initial_timestamp full w =
      rw
        (read_int-encode bo.u24_be (min w.timestamp_field max_initial_timestamp) rest (omega arith))
  step-initial_timestamp empty w = ground arith
  step-initial_timestamp _ w =
      rw
        (read_int-encode bo.u24_be (min w.timestamp_field max_initial_timestamp) rest (omega arith))

  pub step-message_length :
      (format : ChunkHeaderFormat) (len type_id : ℕ)
      → len < 2 ^ 24
      → step
          (at d message_length format h (add_message_length_and_type_id format len type_id ++ rest))
        ≡ ok (
          success,
          none,
          at d message_type_id format (measured format len h) (type_bytes format type_id ++ rest),
        )
  unfolding step get_message_length add_message_length_and_type_id
  step-message_length full len type_id bound =
      rw append_assoc (rw (read_int-encode bo.u24_be len (type_id ∷ rest) bound))
  step-message_length time_delta_without_message_stream_id len type_id bound =
      rw append_assoc (rw (read_int-encode bo.u24_be len (type_id ∷ rest) bound))
  step-message_length _ len type_id bound = refl

  pub step-message_type_id :
      (format : ChunkHeaderFormat) (type_id : ℕ)
      → step (at d message_type_id format h (type_bytes format type_id ++ rest))
        ≡ ok (success, none, at d message_stream_id format (typed format type_id h) rest)
  unfolding step get_message_type_id
  step-message_type_id full type_id = refl
  step-message_type_id _ type_id = refl

  pub step-message_stream_id :
      (format : ChunkHeaderFormat) (stream_id : ℕ)
      → stream_id < 2 ^ 32
      → step (at d message_stream_id format h (add_message_stream_id format stream_id ++ rest))
        ≡ ok (success, none, at d extended_timestamp format (addressed format stream_id h) rest)
  unfolding step get_message_stream_id add_message_stream_id
  step-message_stream_id full stream_id bound = rw (read_int-encode bo.u32_le _ rest bound)
  step-message_stream_id empty stream_id bound = refl
  step-message_stream_id _ stream_id bound = refl

  pub step-extended_timestamp :
      (format : ChunkHeaderFormat) (w : ChunkHeader)
      → h.timestamp_field ≡ min w.timestamp_field max_initial_timestamp
      → w.timestamp_field < 2 ^ 32
      → step (at d extended_timestamp format h (add_extended_timestamp w ++ rest))
        ≡ ok (
          success,
          none,
          at d message_payload format (extended format (is_first d) w.timestamp_field h) rest,
        )
  unfolding step get_extended_timestamp add_extended_timestamp extend_timestamp
  step-extended_timestamp full w e bound =
      ground (arith, read_int-encode bo.u32_be w.timestamp_field rest)
  step-extended_timestamp _ w e bound =
      ground (arith, read_int-encode bo.u32_be w.timestamp_field rest)
