-- ===== src/Chunk/RoundTrip/Chunks.antt =====
-- The rounds of the deserializer's loop over one whole chunk.
use rust_media_libs.Prelude.{
  ℕ, suc, ◌^◌, ◌<◌, ◌≤◌, min, ◌≡◌, ◌≢◌, refl, ap, ◌∙◌, Bool, Option, some, List, [], ◌∷◌, ◌++◌,
  length, ◌==◌, if◌then◌else◌, arith, ok, Outcome, length-append, take-append_of_length,
  drop-append_of_length, append_assoc,
}
use rust_media_libs.Bytes.{ByteOrder}
use rust_media_libs.HashMap
use rust_media_libs.Message.Payload.{MessagePayload, new_payload}
use rust_media_libs.Chunk.Header.{
  ChunkHeaderFormat, full, time_delta_without_message_stream_id, time_delta_only, empty,
  ChunkHeader, new_header, max_initial_timestamp,
}
use rust_media_libs.Chunk.Serializer.{
  write_chunk, add_initial_timestamp, add_message_length_and_type_id, add_message_stream_id,
  add_extended_timestamp,
}
use rust_media_libs.Chunk.Deserializer.{
  ChunkDeserializer, ChunkDeserializationError, csid, initial_timestamp, message_payload, step, run,
  chunk_length, get_message_data, complete_message,
}
use rust_media_libs.Chunk.RoundTrip.Stages.{at, is_first}
use rust_media_libs.Chunk.RoundTrip.Basic.{
  basic_byte, add_basic_header_eq, step-csid_full, step-csid_compressed,
}
use rust_media_libs.Chunk.RoundTrip.Headers.{
  wire_header, Completes, before_extended, read_header-Completes, run-success, run_header,
}

-- The message so far, once the chunk of header `h` has brought `slice`.
abbrev pub partial_message : ChunkDeserializer → ChunkHeader → List ℕ → MessagePayload
partial_message d h slice = record {
  timestamp = h.timestamp;
  type_id = h.message_type_id;
  message_stream_id = h.message_stream_id;
  bytes = d.current_payload_data ++ slice;
}

abbrev pub RunResult : Type 0
RunResult = Outcome ChunkDeserializationError (Option MessagePayload × ChunkDeserializer)

-- The fields of `w` that go into a header fit.
pub record Fits (w : ChunkHeader) : Type 0 where
  pub id_low : 2 ≤ w.chunk_stream_id
  pub id_high : w.chunk_stream_id < 64
  pub len : w.message_length < 2 ^ 24
  pub stream_id : w.message_stream_id < 2 ^ 32
  pub field : w.timestamp_field < 2 ^ 32

-- A header of the format gets from `d` what it leaves out.
abbrev pub Prepared : ChunkHeaderFormat → ChunkDeserializer → ChunkHeader → Type 0
Prepared full d w = w.timestamp_field ≡ w.timestamp.value
Prepared format d w =
    (p : ChunkHeader) × (HashMap.get w.chunk_stream_id d.previous_headers ≡ some p)
    × Completes format (is_first d) w p

before_extended-field :
    (format : ChunkHeaderFormat) (first : Bool) (w h : ChunkHeader)
    → Completes format first w h
    → (before_extended format first w h).timestamp_field
      ≡ min w.timestamp_field max_initial_timestamp
before_extended-field full first w h c = refl
before_extended-field empty first w h c = c.5
before_extended-field _ first w h c = refl

module _ ⦃bo : ByteOrder⦄ where
  -- The loop goes on behind a chunk that does not complete its message, with that chunk's payload
  -- kept, and stops behind one that does.
  abbrev pub land :
      ℕ → ChunkDeserializer → ChunkHeaderFormat → ChunkHeader → List ℕ → List ℕ → RunResult
  land f d format h slice rest =
      if length (d.current_payload_data ++ slice) == h.message_length
      then ok (
        some (partial_message d h slice),
        at (record d { current_payload = new_payload; current_payload_data = [] }) csid format
            new_header rest,
      )
      else run f (
          at
            (record d {
              current_payload = record (partial_message d h slice) {
                bytes = d.current_payload.bytes;
              };
              current_payload_data = d.current_payload_data ++ slice;
            })
            csid format new_header rest)

  run_payload :
      (f : ℕ) (d : ChunkDeserializer) (format : ChunkHeaderFormat) (h : ChunkHeader)
      (slice rest : List ℕ)
      → chunk_length d.max_chunk_size h.message_length (length d.current_payload_data)
        ≡ some (length slice)
      → run (suc f) (at d message_payload format h (slice ++ rest))
        ≡ land f
            (record d { previous_headers = HashMap.insert h.chunk_stream_id h d.previous_headers })
            format
            h
            slice
            rest
  unfolding run step get_message_data complete_message
  run_payload f d format h slice rest e = ground (
    arith,
    e,
    length-append slice rest,
    take-append_of_length (length slice) slice rest,
    drop-append_of_length (length slice) slice rest,
  )

  -- The header's fields and the payload, behind the first byte.
  abbrev body : ChunkHeaderFormat → ChunkHeader → List ℕ → List ℕ
  body format w tail =
      add_initial_timestamp format w
      ++ (add_message_length_and_type_id format w.message_length w.message_type_id
          ++ (add_message_stream_id format w.message_stream_id
              ++ (add_extended_timestamp w ++ tail)))

  write_chunk_eq :
      (format : ChunkHeaderFormat) (w : ChunkHeader) (slice : List ℕ)
      → 2 ≤ w.chunk_stream_id
      → w.chunk_stream_id < 64
      → write_chunk format w slice ≡ ok (basic_byte format w.chunk_stream_id ∷ body format w slice)
  unfolding write_chunk
  write_chunk_eq format w slice lo hi = rw (add_basic_header_eq format w.chunk_stream_id lo hi)

  body-append :
      (format : ChunkHeaderFormat) (w : ChunkHeader) (slice rest : List ℕ)
      → body format w slice ++ rest ≡ body format w (slice ++ rest)
  body-append format w slice rest = simp append_assoc

  run-body :
      (f : ℕ) (d : ChunkDeserializer) (format : ChunkHeaderFormat) (w h : ChunkHeader)
      (slice rest : List ℕ)
      → Fits w
      → Completes format (is_first d) w h
      → chunk_length d.max_chunk_size w.message_length (length d.current_payload_data)
        ≡ some (length slice)
      → run
          (suc (suc (suc (suc (suc (suc f))))))
          (at d initial_timestamp format h (body format w slice ++ rest))
        ≡ land f
            (record d {
              previous_headers =
                  HashMap.insert w.chunk_stream_id (wire_header w) d.previous_headers;
            })
            format
            (wire_header w)
            slice
            rest
  run-body f d format w h slice rest fits c e =
      ap (λ b. run (suc (suc (suc (suc (suc (suc f)))))) (at d initial_timestamp format h b))
        (body-append format w slice rest)
      ∙ run_header (suc f) d format w h (slice ++ rest) fits.len fits.stream_id fits.field
          (before_extended-field format (is_first d) w h c)
      ∙ ap (λ k. run (suc f) (at d message_payload format k (slice ++ rest)))
          (read_header-Completes format (is_first d) w h c)
      ∙ run_payload f d format (wire_header w) slice rest e

  abbrev pub ReadsChunk : ChunkDeserializer → ChunkHeaderFormat → ChunkHeader → List ℕ → Type 0
  ReadsChunk d format w slice =
      (bytes : List ℕ) × (headers : List (ℕ × ChunkHeader)) × (write_chunk format w slice
        ≡ ok bytes)
      × (0 < length bytes)
      × ((j : ℕ)
          → HashMap.get j headers ≡ (
              if w.chunk_stream_id == j
              then some (wire_header w)
              else HashMap.get j d.previous_headers))
      × ((f : ℕ) (f₀ : ChunkHeaderFormat) (h₀ : ChunkHeader) (rest : List ℕ)
          → run (suc (suc (suc (suc (suc (suc (suc f))))))) (at d csid f₀ h₀ (bytes ++ rest))
            ≡ land f (record d { previous_headers = headers }) format (wire_header w) slice rest)

  run_compressed :
      (d : ChunkDeserializer) (format : ChunkHeaderFormat) (w p : ChunkHeader) (slice : List ℕ)
      → Fits w
      → format ≢ full
      → HashMap.get w.chunk_stream_id d.previous_headers ≡ some p
      → Completes format (is_first d) w p
      → chunk_length d.max_chunk_size w.message_length (length d.current_payload_data)
        ≡ some (length slice)
      → ReadsChunk d format w slice
  run_compressed d format w p slice fits ne known c el =
      let id = w.chunk_stream_id in
      let d' : ChunkDeserializer = record d {
        previous_headers = HashMap.remove id d.previous_headers;
      } in
      (
        basic_byte format id ∷ body format w slice,
        HashMap.insert id (wire_header w) (HashMap.remove id d.previous_headers),
        write_chunk_eq format w slice fits.id_low fits.id_high,
        omega arith,
        λ j. ground (
          arith,
          HashMap.get-insert id j (wire_header w) (HashMap.remove id d.previous_headers),
          HashMap.get-remove id j d.previous_headers,
        ),
        λ f f₀ h₀ rest.
            run-success _ _ (
              step-csid_compressed d (body format w slice ++ rest) format id f₀ h₀ p fits.id_low
                fits.id_high ne known)
            ∙ run-body f d' format w p slice rest fits c el,
      )

  -- The deserializer reads a chunk that the serializer wrote, and keeps its header.
  pub run_chunk :
      (d : ChunkDeserializer) (format : ChunkHeaderFormat) (w : ChunkHeader) (slice : List ℕ)
      → Fits w
      → Prepared format d w
      → chunk_length d.max_chunk_size w.message_length (length d.current_payload_data)
        ≡ some (length slice)
      → ReadsChunk d format w slice
  run_chunk d full w slice fits e el = (
    basic_byte full w.chunk_stream_id ∷ body full w slice,
    HashMap.insert w.chunk_stream_id (wire_header w) d.previous_headers,
    write_chunk_eq full w slice fits.id_low fits.id_high,
    omega arith,
    λ j. HashMap.get-insert w.chunk_stream_id j (wire_header w) d.previous_headers,
    λ f f₀ h₀ rest.
        run-success _ _ (
          step-csid_full d (body full w slice ++ rest) w.chunk_stream_id f₀ h₀ fits.id_low
            fits.id_high)
        ∙ run-body f d full w _ slice rest fits (refl, e) el,
  )
  run_chunk d empty w slice fits (p, known, c) el =
      run_compressed d empty w p slice fits (λ q. cc) known c el
  run_chunk d time_delta_only w slice fits (p, known, c) el =
      run_compressed d time_delta_only w p slice fits (λ q. cc) known c el
  run_chunk d time_delta_without_message_stream_id w slice fits (p, known, c) el =
      run_compressed d time_delta_without_message_stream_id w p slice fits (λ q. cc) known c el
