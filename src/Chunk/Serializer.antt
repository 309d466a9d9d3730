-- ===== src/Chunk/Serializer.antt =====
-- rtmp/src/chunk_io/serializer.rs: a message is cut into slices of at most the chunk size, and
-- each slice goes out behind a header that leaves out what the peer knows from the last one.
-- A writer returns the bytes that the source appends to its cursor.
use Prim.Native.Nat.{bit_or}
use rust_media_libs.Prelude.{
  ℕ, zero, suc, ◌+◌, ◌-◌, ◌*◌, ◌%◌, ◌^◌, min, Bool, true, false, ◌&&◌, ◌||◌, not, Option, none,
  some, List, [], ◌∷◌, ◌++◌, length, take, drop, ltb, leb, ◌==◌, if◌then◌else◌, Outcome, ok, err,
  panicked, out_of_fuel, ◌>>=◌, map_err,
}
use rust_media_libs.Bytes.{ByteOrder}
use rust_media_libs.HashMap
use rust_media_libs.Time.{RtmpTimestamp, sub}
use rust_media_libs.Message.Payload.{MessagePayload}
use rust_media_libs.Message.Types.{set_chunk_size}
use rust_media_libs.Message.Serialize.{MessageSerializationError, from_rtmp_message}
use rust_media_libs.Chunk.Header.{
  ChunkHeaderFormat, full, time_delta_without_message_stream_id, time_delta_only, empty,
  ChunkHeader, is_full, is_empty, is_time_delta_only, max_initial_timestamp, initial_max_chunk_size,
}

pub data ChunkSerializationError : Type 0 where
  message_too_long : ℕ → ChunkSerializationError
  invalid_max_chunk_size : ℕ → ChunkSerializationError
  set_chunk_size_message_creation_failure : MessageSerializationError → ChunkSerializationError

pub record Packet : Type 0 where
  pub bytes : List ℕ
  pub can_be_dropped : Bool

pub record ChunkSerializer : Type 0 where
  pub previous_headers : List (ℕ × ChunkHeader)
  pub max_chunk_size : ℕ

abbrev pub new_serializer : ChunkSerializer
new_serializer = record { previous_headers = []; max_chunk_size = initial_max_chunk_size }

abbrev pub SerializerResult {ℓ} : Type ℓ → Type ℓ
SerializerResult A = Outcome ChunkSerializationError A

-- The loop that collects the slices, from the round `iteration` on.
unfoldable pub slices : ℕ → ℕ → List ℕ → ℕ → SerializerResult (List (List ℕ))
slices zero max_chunk_size bytes iteration = out_of_fuel
slices (suc fuel) max_chunk_size bytes iteration =
    let start_index = iteration * max_chunk_size in
    let remaining_length = length bytes - start_index in
    let end_index = min (start_index + max_chunk_size) (start_index + remaining_length) in
    let slice = take (end_index - start_index) (drop start_index bytes) in
    let more = slices fuel max_chunk_size bytes (iteration + 1) in
    if leb (length bytes) start_index then ok [] else (more >>= λ rest. ok (slice ∷ rest))

unfoldable pub get_csid_for_message_type : ℕ → ℕ
get_csid_for_message_type message_type_id =
    if leb 1 message_type_id && leb message_type_id 6
    then 2
    else if message_type_id == 18 || message_type_id == 19
    then 3
    else if message_type_id == 9
    then 4
    else if message_type_id == 8
    then 5
    else 6

unfoldable pub get_header_format : ChunkHeader → ChunkHeader → ChunkHeaderFormat
get_header_format current previous =
    if not (current.message_stream_id == previous.message_stream_id)
    then full
    else if not (current.message_type_id == previous.message_type_id)
        || not (current.message_length == previous.message_length)
    then time_delta_without_message_stream_id
    else if not (current.timestamp_field == previous.timestamp_field)
    then time_delta_only
    else empty

abbrev pub format_mask : ChunkHeaderFormat → ℕ
format_mask full = 0
format_mask time_delta_without_message_stream_id = 64
format_mask time_delta_only = 128
format_mask empty = 192

unfoldable pub add_basic_header : ChunkHeaderFormat → ℕ → SerializerResult (List ℕ)
add_basic_header format csid =
    if leb csid 1 || leb 65600 csid
    then panicked
    else (let first_byte = if leb csid 63 then csid else if leb csid 319 then 0 else 1 in
        ok (bit_or first_byte (format_mask format) ∷ []))

module _ ⦃bo : ByteOrder⦄ where
  unfoldable pub add_initial_timestamp : ChunkHeaderFormat → ChunkHeader → List ℕ
  add_initial_timestamp format header =
      if is_empty format
      then []
      else bo.u24_be.encode (min header.timestamp_field max_initial_timestamp)

  unfoldable pub add_message_length_and_type_id : ChunkHeaderFormat → ℕ → ℕ → List ℕ
  add_message_length_and_type_id format len type_id =
      if is_empty format || is_time_delta_only format
      then []
      else bo.u24_be.encode len ++ (type_id ∷ [])

  unfoldable pub add_message_stream_id : ChunkHeaderFormat → ℕ → List ℕ
  add_message_stream_id format stream_id =
      if not (is_full format) then [] else bo.u32_le.encode stream_id

  unfoldable pub add_extended_timestamp : ChunkHeader → List ℕ
  add_extended_timestamp header =
      if ltb header.timestamp_field max_initial_timestamp
      then []
      else bo.u32_be.encode header.timestamp_field

-- The choice of the header's format in `add_chunk`, with the header as it leaves it.
unfoldable pub choose_format :
    Bool → Bool → ChunkHeader → Option ChunkHeader → ChunkHeaderFormat × ChunkHeader
choose_format true continued_chunk header previous = (full, header)
choose_format false continued_chunk header none = (full, header)
choose_format false true header (some previous) =
    (empty, record header { timestamp_field = previous.timestamp_field })
choose_format false false header (some previous) =
    if previous.can_be_dropped
    then (full, header)
    else (let delta = (sub header.timestamp previous.timestamp).value in
        let current = record header { timestamp_field = delta } in
        (get_header_format current previous, current))

-- A full header carries the timestamp itself.
abbrev pub fill_timestamp : ChunkHeaderFormat × ChunkHeader → ChunkHeaderFormat × ChunkHeader
fill_timestamp (full, header) = (full, record header { timestamp_field = header.timestamp.value })
fill_timestamp (format, header) = (format, header)

abbrev pub start_header : MessagePayload → Bool → ChunkHeader
start_header message can_be_dropped = record {
  chunk_stream_id = get_csid_for_message_type message.type_id;
  timestamp = message.timestamp;
  timestamp_field = 0;
  message_length = length message.bytes;
  message_type_id = message.type_id;
  message_stream_id = message.message_stream_id;
  can_be_dropped = can_be_dropped;
}

module _ ⦃bo : ByteOrder⦄ where
  -- The header and the payload of one chunk, as `add_chunk` writes them.
  unfoldable pub write_chunk : ChunkHeaderFormat → ChunkHeader → List ℕ → SerializerResult (List ℕ)
  write_chunk format header data_to_write = do
    basic ← add_basic_header format header.chunk_stream_id
    ok (
        basic
        ++ (add_initial_timestamp format header
            ++ (add_message_length_and_type_id format header.message_length header.message_type_id
                ++ (add_message_stream_id format header.message_stream_id
                    ++ (add_extended_timestamp header ++ data_to_write)))))

  unfoldable pub add_chunk :
      ChunkSerializer
      → Bool
      → MessagePayload
      → Bool
      → List ℕ
      → Bool
      → SerializerResult (List ℕ × ChunkSerializer)
  add_chunk s force_uncompressed message continued_chunk data_to_write can_be_dropped =
      let start = start_header message can_be_dropped in
      let previous = HashMap.get start.chunk_stream_id s.previous_headers in
      let chosen =
        fill_timestamp (choose_format force_uncompressed continued_chunk start previous) in
      let headers = HashMap.insert chosen.1.chunk_stream_id chosen.1 s.previous_headers in
      write_chunk chosen.0 chosen.1 data_to_write >>= λ bytes.
      ok (bytes, record s { previous_headers = headers })

  unfoldable pub add_chunks :
      ChunkSerializer
      → Bool
      → MessagePayload
      → Bool
      → ℕ
      → List (List ℕ)
      → SerializerResult (List ℕ × ChunkSerializer)
  add_chunks s force_uncompressed message can_be_dropped idx [] = ok ([], s)
  add_chunks s force_uncompressed message can_be_dropped idx (slice ∷ rest) =
      add_chunk s force_uncompressed message (ltb 0 idx) slice can_be_dropped >>= λ (bytes, s').
      add_chunks s' force_uncompressed message can_be_dropped (idx + 1) rest >>= λ (more, s'').
      ok (bytes ++ more, s'')

  -- The rounds of the slicing loop are at most one more than the bytes.
  unfoldable pub serialize :
      ChunkSerializer → MessagePayload → Bool → Bool → SerializerResult (Packet × ChunkSerializer)
  serialize s message force_uncompressed can_be_dropped =
      if ltb 16777215 (length message.bytes)
      then err (message_too_long (length message.bytes % 2 ^ 32))
      else (slices (suc (length message.bytes)) s.max_chunk_size message.bytes 0 >>= λ pieces.
          add_chunks s force_uncompressed message can_be_dropped 0 pieces >>= λ (bytes, s').
          ok (record { bytes = bytes; can_be_dropped = can_be_dropped }, s'))

  -- The change of the chunk size, with the packet that announces it.
  unfoldable pub set_max_chunk_size :
      Bool → ChunkSerializer → ℕ → RtmpTimestamp → SerializerResult (Packet × ChunkSerializer)
  set_max_chunk_size debug_assertions s new_size time =
      let announcement = from_rtmp_message debug_assertions (set_chunk_size new_size) time 0 in
      if ltb 2147483647 new_size
      then err (invalid_max_chunk_size new_size)
      else (map_err set_chunk_size_message_creation_failure announcement >>= λ message_payload.
          serialize s message_payload true false >>= λ (packet, s').
          ok (packet, record s' { max_chunk_size = new_size }))
