-- ===== src/Chunk/Deserializer.antt =====
-- rtmp/src/chunk_io/deserializer.rs: a state machine over the stages of a chunk, which keeps the
-- bytes that do not yet make a whole field. Arithmetic that would wrap below zero panics, as in
-- a build with overflow checks.
use Prim.Native.Nat.{bit_and}
use rust_media_libs.Prelude.{
  ℕ, zero, suc, ◌+◌, ◌-◌, ◌*◌, min, Bool, true, false, ◌||◌, not, Option, none, some, List, [], ◌∷◌,
  ◌++◌, length, take, drop, ltb, ◌==◌, if◌then◌else◌, Outcome, ok, err, panicked, out_of_fuel,
  ◌>>=◌,
}
use rust_media_libs.Bytes.{ByteOrder, read_int}
use rust_media_libs.HashMap
use rust_media_libs.Time.{set, add_u32}
use rust_media_libs.Message.Payload.{MessagePayload, new_payload}
use rust_media_libs.Chunk.Header.{
  ChunkHeaderFormat, full, time_delta_without_message_stream_id, time_delta_only, empty,
  ChunkHeader, new_header, is_full, is_empty, is_time_delta_only, max_initial_timestamp,
  initial_max_chunk_size,
}

pub data ChunkDeserializationError : Type 0 where
  no_previous_chunk_on_stream : ℕ → ChunkDeserializationError
  invalid_max_chunk_size : ℕ → ChunkDeserializationError

pub data ParseStage : Type 0 where
  csid initial_timestamp message_length message_type_id : ParseStage
  message_stream_id message_payload extended_timestamp : ParseStage

pub data ParseStageResult : Type 0 where
  success not_enough_bytes : ParseStageResult

pub record ChunkDeserializer : Type 0 where
  pub max_chunk_size : ℕ
  pub current_header_format : ChunkHeaderFormat
  pub current_header : ChunkHeader
  pub current_stage : ParseStage
  pub current_payload : MessagePayload
  pub current_payload_data : List ℕ
  pub buffer : List ℕ
  pub previous_headers : List (ℕ × ChunkHeader)

abbrev pub new_deserializer : ChunkDeserializer
new_deserializer = record {
  max_chunk_size = initial_max_chunk_size;
  current_header_format = full;
  current_header = new_header;
  current_stage = csid;
  current_payload = new_payload;
  current_payload_data = [];
  buffer = [];
  previous_headers = [];
}

-- What a stage returns, with the message that it completed, if any, and the new state.
abbrev pub StageOutcome : Type 0
StageOutcome =
    Outcome ChunkDeserializationError (ParseStageResult × Option MessagePayload × ChunkDeserializer)

abbrev advance : ChunkDeserializer → StageOutcome
advance d = ok (success, none, d)

abbrev wait : ChunkDeserializer → StageOutcome
wait d = ok (not_enough_bytes, none, d)

unfoldable pub set_max_chunk_size :
    ChunkDeserializer → ℕ → Outcome ChunkDeserializationError ChunkDeserializer
set_max_chunk_size d new_size =
    if ltb 2147483647 new_size
    then err (invalid_max_chunk_size new_size)
    else ok (record d { max_chunk_size = new_size })

unfoldable pub get_format : ℕ → ChunkHeaderFormat
get_format byte =
    let format_id = bit_and byte 0b11000000 in
    if format_id == 0
    then full
    else if format_id == 0b01000000
    then time_delta_without_message_stream_id
    else if format_id == 0b10000000
    then time_delta_only
    else empty

-- The id and the index behind it; `none` is `ParsedValue::NotEnoughBytes`.
unfoldable pub two_byte_csid : List ℕ → Option (ℕ × ℕ)
two_byte_csid (b₀ ∷ b₁ ∷ _) = some (b₁ + 64, 2)
two_byte_csid _ = none

unfoldable pub three_byte_csid : List ℕ → Option (ℕ × ℕ)
three_byte_csid (b₀ ∷ b₁ ∷ b₂ ∷ _) = some (b₂ * 256 + b₁ + 64, 3)
three_byte_csid _ = none

unfoldable pub get_csid : List ℕ → Option (ℕ × ℕ)
unfolding two_byte_csid three_byte_csid
get_csid [] = none
get_csid (b₀ ∷ rest) =
    if bit_and b₀ 0b00111111 == 0
    then two_byte_csid (b₀ ∷ rest)
    else if bit_and b₀ 0b00111111 == 1
    then three_byte_csid (b₀ ∷ rest)
    else some (bit_and b₀ 0b00111111, 1)

-- The header that a chunk starts from: a new one, or the last of its chunk stream, which leaves
-- the map.
unfoldable pub take_header :
    ChunkHeaderFormat → ℕ → ChunkDeserializer → Outcome ChunkDeserializationError ChunkDeserializer
take_header full id d =
    ok (record d { current_header = record new_header { chunk_stream_id = id } })
take_header _ id d = elim (HashMap.get id d.previous_headers) [
  | none ↦ err (no_previous_chunk_on_stream id)
  | some header ↦ ok (record d {
    current_header = header;
    previous_headers = HashMap.remove id d.previous_headers;
  })
]

abbrev pub skip_basic_header : ℕ → ChunkDeserializer → ChunkDeserializer
skip_basic_header next_index d = record d {
  buffer = drop next_index d.buffer;
  current_stage = initial_timestamp;
}

unfoldable pub form_header : ChunkDeserializer → StageOutcome
form_header d = elim d.buffer [
  | [] ↦ wait d
  | byte ∷ rest ↦
      let d₁ = record d { current_header_format = get_format byte } in
      elim (get_csid (byte ∷ rest)) [
        | none ↦ wait d₁
        | some (id, next_index) ↦
            (take_header (get_format byte) id d₁ >>= λ d₂.
            advance (skip_basic_header next_index d₂))
      ]
]

-- The stages that read a field wait until the buffer holds all of it.
module _ ⦃bo : ByteOrder⦄ where
  -- A continued chunk has no delta of its own; the first chunk of a message repeats the last delta.
  unfoldable pub repeat_delta : ChunkDeserializer → ChunkDeserializer
  repeat_delta d =
      if length d.current_payload_data == 0
      then record d {
        current_header = record (d.current_header) {
          timestamp = add_u32 d.current_header.timestamp d.current_header.timestamp_field;
        };
      }
      else d

  unfoldable pub set_timestamp : ℕ → ChunkDeserializer → ChunkDeserializer
  set_timestamp timestamp d =
      let header = d.current_header in
      let moved =
        if is_full d.current_header_format
        then set header.timestamp timestamp
        else add_u32 header.timestamp timestamp in
      record d { current_header = record header { timestamp = moved; timestamp_field = timestamp } }

  unfoldable pub get_initial_timestamp : ChunkDeserializer → StageOutcome
  get_initial_timestamp d =
      if is_empty d.current_header_format
      then advance (record (repeat_delta d) { current_stage = message_length })
      else elim (read_int (bo.u24_be) d.buffer) [
        | none ↦ wait d
        | some (timestamp, rest) ↦
            advance
              (record (set_timestamp timestamp d) { buffer = rest; current_stage = message_length })
      ]

  unfoldable pub get_message_length : ChunkDeserializer → StageOutcome
  get_message_length d =
      if is_time_delta_only d.current_header_format || is_empty d.current_header_format
      then advance (record d { current_stage = message_type_id })
      else elim (read_int (bo.u24_be) d.buffer) [
        | none ↦ wait d
        | some (len, rest) ↦ advance (record d {
          buffer = rest;
          current_header = record (d.current_header) { message_length = len };
          current_stage = message_type_id;
        })
      ]

  unfoldable pub get_message_stream_id : ChunkDeserializer → StageOutcome
  get_message_stream_id d =
      if not (is_full d.current_header_format)
      then advance (record d { current_stage = extended_timestamp })
      else elim (read_int (bo.u32_le) d.buffer) [
        | none ↦ wait d
        | some (stream_id, rest) ↦ advance (record d {
          buffer = rest;
          current_header = record (d.current_header) { message_stream_id = stream_id };
          current_stage = extended_timestamp;
        })
      ]

  -- The timestamp that an extended field gives; `none` is the overflow of the subtraction.
  unfoldable pub extend_timestamp : ℕ → ChunkDeserializer → Option ChunkDeserializer
  extend_timestamp timestamp d =
      let header = d.current_header in
      if is_full d.current_header_format
      then some (record d {
        current_header = record header { timestamp = set header.timestamp timestamp };
      })
      else if length d.current_payload_data == 0
      then if ltb timestamp max_initial_timestamp
        then none
        else some (record d {
          current_header = record header {
            timestamp = add_u32 header.timestamp (timestamp - max_initial_timestamp);
          };
        })
      else some d

  unfoldable pub get_extended_timestamp : ChunkDeserializer → StageOutcome
  get_extended_timestamp d =
      if ltb d.current_header.timestamp_field max_initial_timestamp
      then advance (record d { current_stage = message_payload })
      else elim (read_int (bo.u32_be) d.buffer) [
        | none ↦ wait d
        | some (timestamp, rest) ↦ elim (extend_timestamp timestamp d) [
          | none ↦ panicked
          | some d' ↦ advance (record d' { buffer = rest; current_stage = message_payload })
        ]
      ]

unfoldable pub get_message_type_id : ChunkDeserializer → StageOutcome
get_message_type_id d =
    if is_time_delta_only d.current_header_format || is_empty d.current_header_format
    then advance (record d { current_stage = message_stream_id })
    else elim d.buffer [
      | [] ↦ wait d
      | byte ∷ rest ↦ advance (record d {
        buffer = rest;
        current_header = record (d.current_header) { message_type_id = byte };
        current_stage = message_stream_id;
      })
    ]

-- How much of the payload the chunk holds; `none` is the overflow of `length - current_length`.
unfoldable pub chunk_length : ℕ → ℕ → ℕ → Option ℕ
chunk_length max_chunk_size len current_length =
    if ltb len current_length
    then none
    else some (if ltb max_chunk_size len then min (len - current_length) max_chunk_size else len)

-- The payload's header fields are set again by each chunk.
abbrev pub stamp_payload : ChunkDeserializer → MessagePayload
stamp_payload d = record (d.current_payload) {
  timestamp = d.current_header.timestamp;
  type_id = d.current_header.message_type_id;
  message_stream_id = d.current_header.message_stream_id;
}

-- The message is complete when its bytes are as many as its header says.
unfoldable pub complete_message : ChunkDeserializer → Option MessagePayload × ChunkDeserializer
complete_message d =
    if length d.current_payload_data == d.current_header.message_length
    then (
      some (record (d.current_payload) { bytes = d.current_payload_data }),
      record d { current_payload_data = []; current_payload = new_payload },
    )
    else (none, d)

-- The chunk is over: its header goes into the map.
abbrev pub cycle_header : ChunkDeserializer → ChunkDeserializer
cycle_header d = record d {
  current_header = new_header;
  previous_headers =
      HashMap.insert d.current_header.chunk_stream_id d.current_header d.previous_headers;
  current_stage = csid;
}

unfoldable pub get_message_data : ChunkDeserializer → StageOutcome
get_message_data d =
    elim (chunk_length d.max_chunk_size d.current_header.message_length
      (length d.current_payload_data)) [
        | none ↦ panicked
        | some len ↦
            if ltb (length d.buffer) len
            then wait d
            else (let (message, d') = complete_message (record d {
              current_payload = stamp_payload d;
              buffer = drop len d.buffer;
              current_payload_data = d.current_payload_data ++ take len d.buffer;
            }) in
                ok (success, message, cycle_header d'))
      ]

abbrev pub is_finished : ParseStageResult → Option MessagePayload → Bool
is_finished not_enough_bytes message = true
is_finished success (some message) = true
is_finished success none = false

module _ ⦃bo : ByteOrder⦄ where
  -- One round of the loop of `get_next_message`.
  unfoldable pub step : ChunkDeserializer → StageOutcome
  step d = elim d.current_stage [
    | csid ↦ form_header d
    | initial_timestamp ↦ get_initial_timestamp d
    | message_length ↦ get_message_length d
    | message_type_id ↦ get_message_type_id d
    | message_stream_id ↦ get_message_stream_id d
    | extended_timestamp ↦ get_extended_timestamp d
    | message_payload ↦ get_message_data d
  ]

  unfoldable pub run :
      ℕ
      → ChunkDeserializer
      → Outcome ChunkDeserializationError (Option MessagePayload × ChunkDeserializer)
  run zero d = out_of_fuel
  run (suc fuel) d = step d >>= λ (result, message, d').
      (let rest = run fuel d' in if is_finished result message then ok (message, d') else rest)

  -- A chunk takes a byte at least and passes seven stages.
  unfoldable pub get_next_message :
      ChunkDeserializer
      → List ℕ
      → Outcome ChunkDeserializationError (Option MessagePayload × ChunkDeserializer)
  get_next_message d bytes =
      let filled = record d { buffer = d.buffer ++ bytes } in
      run (7 * length filled.buffer + 8) filled
