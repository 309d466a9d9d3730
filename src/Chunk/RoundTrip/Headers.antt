-- ===== src/Chunk/RoundTrip/Headers.antt =====
-- The rounds of the deserializer's loop over a whole header, and what it knows afterwards.
use rust_media_libs.Prelude.{
  ℕ, suc, ◌^◌, ◌<◌, min, ◌≡◌, ◌∙◌, Bool, true, false, none, List, ◌++◌, if◌then◌else◌, arith, ok,
}
use rust_media_libs.Bytes.{ByteOrder}
use rust_media_libs.Time.{add_u32, set}
use rust_media_libs.Chunk.Header.{
  ChunkHeaderFormat, full, time_delta_without_message_stream_id, time_delta_only, empty,
  ChunkHeader, new_header, max_initial_timestamp,
}
use rust_media_libs.Chunk.Serializer.{
  add_initial_timestamp, add_message_length_and_type_id, add_message_stream_id,
  add_extended_timestamp,
}
use rust_media_libs.Chunk.Deserializer.{
  ChunkDeserializer, initial_timestamp, message_payload, success, step, run,
}
use rust_media_libs.Chunk.RoundTrip.Stages.{
  at, is_first, timed, extended, measured, typed, addressed, step-initial_timestamp,
  step-message_length, step-message_type_id, step-message_stream_id, step-extended_timestamp,
}

-- What the peer keeps of a header that was sent.
abbrev pub wire_header : ChunkHeader → ChunkHeader
wire_header w = record w {
  timestamp_field = min w.timestamp_field max_initial_timestamp;
  can_be_dropped = false;
}

abbrev pub before_extended : ChunkHeaderFormat → Bool → ChunkHeader → ChunkHeader → ChunkHeader
before_extended format first w h = addressed format w.message_stream_id (
    typed format w.message_type_id (
      measured format w.message_length
        (timed format first (min w.timestamp_field max_initial_timestamp) h)))

abbrev pub read_header : ChunkHeaderFormat → Bool → ChunkHeader → ChunkHeader → ChunkHeader
read_header format first w h =
    extended format first w.timestamp_field (before_extended format first w h)

-- The header `h` from which the deserializer starts agrees with `w` in all that a header of this
-- format leaves out.
abbrev pub Completes : ChunkHeaderFormat → Bool → ChunkHeader → ChunkHeader → Type 0
Completes full first w h =
    (h ≡ record new_header { chunk_stream_id = w.chunk_stream_id })
    × (w.timestamp_field ≡ w.timestamp.value)
Completes time_delta_without_message_stream_id first w h =
    (h.chunk_stream_id ≡ w.chunk_stream_id)
    × (h.can_be_dropped ≡ false)
    × (h.message_stream_id ≡ w.message_stream_id)
    × (first ≡ true)
    × (add_u32 h.timestamp w.timestamp_field ≡ w.timestamp)
Completes time_delta_only first w h =
    (h.chunk_stream_id ≡ w.chunk_stream_id)
    × (h.can_be_dropped ≡ false)
    × (h.message_stream_id ≡ w.message_stream_id)
    × (first ≡ true)
    × (add_u32 h.timestamp w.timestamp_field ≡ w.timestamp)
    × (h.message_type_id ≡ w.message_type_id)
    × (h.message_length ≡ w.message_length)
Completes empty first w h =
    (h.chunk_stream_id ≡ w.chunk_stream_id)
    × (h.can_be_dropped ≡ false)
    × (h.message_stream_id ≡ w.message_stream_id)
    × (h.message_type_id ≡ w.message_type_id)
    × (h.message_length ≡ w.message_length)
    × (h.timestamp_field ≡ min w.timestamp_field max_initial_timestamp)
    × ((if first then add_u32 h.timestamp w.timestamp_field else h.timestamp) ≡ w.timestamp)

pub read_header-Completes :
    (format : ChunkHeaderFormat) (first : Bool) (w h : ChunkHeader)
    → Completes format first w h
    → read_header format first w h ≡ wire_header w
unfolding add_u32 set
read_header-Completes full first w h (fresh, e) = ground arith
read_header-Completes empty first w h c = ground arith
read_header-Completes _ first w h c = ground arith

module _ ⦃bo : ByteOrder⦄ where
  pub run-success :
      (d : ChunkDeserializer) {d' : ChunkDeserializer} (f : ℕ)
      → step d ≡ ok (success, none, d')
      → run (suc f) d ≡ run f d'
  unfolding run
  run-success d f e = rw e

  pub run_header :
      (f : ℕ) (d : ChunkDeserializer) (format : ChunkHeaderFormat) (w h : ChunkHeader)
      (rest : List ℕ)
      → w.message_length < 2 ^ 24
      → w.message_stream_id < 2 ^ 32
      → w.timestamp_field < 2 ^ 32
      → (before_extended format (is_first d) w h).timestamp_field
        ≡ min w.timestamp_field max_initial_timestamp
      → run (suc (suc (suc (suc (suc f))))) (
          at d initial_timestamp format h (
            add_initial_timestamp format w
            ++ (add_message_length_and_type_id format w.message_length w.message_type_id
                ++ (add_message_stream_id format w.message_stream_id
                    ++ (add_extended_timestamp w ++ rest)))))
        ≡ run f (at d message_payload format (read_header format (is_first d) w h) rest)
  run_header f d format w h rest hl hs ht field =
      run-success _ _ (step-initial_timestamp d h _ format w)
      ∙ run-success _ _ (step-message_length d _ _ format w.message_length w.message_type_id hl)
      ∙ run-success _ _ (step-message_type_id d _ _ format w.message_type_id)
      ∙ run-success _ _ (step-message_stream_id d _ _ format w.message_stream_id hs)
      ∙ run-success _ _ (step-extended_timestamp d _ rest format w field ht)
