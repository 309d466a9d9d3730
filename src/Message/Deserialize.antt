-- ===== src/Message/Deserialize.antt =====
-- `deserialize` of each file of rtmp/src/messages/types, and `to_rtmp_message` of
-- rtmp/src/messages/message_payload.rs.
use rust_media_libs.Prelude.{
  ℕ, Option, none, some, List, [], ◌∷◌, ltb, ◌==◌, if◌then◌else◌, Outcome, ok, err, panicked, ◌>>=◌,
  map_err, from_option,
}
use rust_media_libs.Bytes.{ByteOrder, read_int}
use rust_media_libs.Time.{timestamp}
use rust_media_libs.Amf0.Deserialize
use rust_media_libs.Amf0.Value.{Value, Values, utf8_string, number, cons, Amf0DeserializationError}
use rust_media_libs.Message.Payload.{MessagePayload}
use rust_media_libs.Message.Serialize.{max_size}
use rust_media_libs.Message.Types.{
  PeerBandwidthLimitType, hard, soft, dynamic, UserControlEventType, stream_begin, stream_eof,
  stream_dry, set_buffer_length, stream_is_recorded, ping_request, ping_response, buffer_empty,
  buffer_ready, RtmpMessage, unknown, abort, acknowledgement, amf0_command, amf0_data, audio_data,
  set_chunk_size, set_peer_bandwidth, user_control, video_data, window_acknowledgement,
}

pub data MessageDeserializationError : Type 0 where
  invalid_message_format io : MessageDeserializationError
  amf0_deserialization_error : Amf0DeserializationError → MessageDeserializationError

abbrev pub Decoded {ℓ} : Type ℓ → Type ℓ
Decoded A = Outcome MessageDeserializationError A

-- `?` on a read of the cursor.
abbrev pub or_io {ℓ} : {A : Type ℓ} → Option A → Decoded A
or_io o = from_option io o

abbrev pub read_u8 : List ℕ → Option (ℕ × List ℕ)
read_u8 [] = none
read_u8 (byte ∷ rest) = some (byte, rest)

abbrev pub limit_type_of : ℕ → Decoded PeerBandwidthLimitType
limit_type_of id =
    if id == 0
    then ok hard
    else if id == 1
    then ok soft
    else if id == 2
    then ok dynamic
    else err invalid_message_format

abbrev pub event_type_of : ℕ → Decoded UserControlEventType
event_type_of id =
    if id == 0
    then ok stream_begin
    else if id == 1
    then ok stream_eof
    else if id == 2
    then ok stream_dry
    else if id == 3
    then ok set_buffer_length
    else if id == 4
    then ok stream_is_recorded
    else if id == 6
    then ok ping_request
    else if id == 7
    then ok ping_response
    else if id == 31
    then ok buffer_empty
    else if id == 32
    then ok buffer_ready
    else err invalid_message_format

-- `arguments.drain(..3)`, which panics on a vector that is shorter.
abbrev pub drain_three : Values → Decoded (Value × Value × Value × Values)
drain_three (cons first (cons second (cons third rest))) = ok (first, second, third, rest)
drain_three _ = panicked

abbrev pub string_of : Value → Decoded (List ℕ)
string_of (utf8_string value) = ok value
string_of _ = err invalid_message_format

abbrev pub number_of : Value → Decoded ℕ
number_of (number value) = ok value
number_of _ = err invalid_message_format

module _ ⦃bo : ByteOrder⦄ where
  unfoldable pub deserialize_abort : List ℕ → Decoded RtmpMessage
  deserialize_abort bytes =
      or_io (read_int bo.u32_be bytes) >>= λ (stream_id, rest). ok (abort stream_id)

  unfoldable pub deserialize_acknowledgement : List ℕ → Decoded RtmpMessage
  deserialize_acknowledgement bytes =
      or_io (read_int bo.u32_be bytes) >>= λ (sequence_number, rest).
      ok (acknowledgement sequence_number)

  unfoldable pub deserialize_amf0_data : List ℕ → Decoded RtmpMessage
  deserialize_amf0_data bytes =
      map_err amf0_deserialization_error (Deserialize.deserialize bytes) >>= λ values.
      ok (amf0_data values)

  unfoldable pub deserialize_amf0_command : List ℕ → Decoded RtmpMessage
  deserialize_amf0_command bytes =
      map_err amf0_deserialization_error (Deserialize.deserialize bytes) >>= λ values.
      drain_three values >>= λ (first, second, command_object, arguments).
      string_of first >>= λ command_name. number_of second >>= λ transaction_id.
      ok (amf0_command command_name transaction_id command_object arguments)

  unfoldable pub deserialize_set_chunk_size : List ℕ → Decoded RtmpMessage
  deserialize_set_chunk_size bytes = or_io (read_int bo.u32_be bytes) >>= λ (size, rest).
      if ltb max_size size then err invalid_message_format else ok (set_chunk_size size)

  unfoldable pub deserialize_set_peer_bandwidth : List ℕ → Decoded RtmpMessage
  deserialize_set_peer_bandwidth bytes = or_io (read_int bo.u32_be bytes) >>= λ (size, rest).
      or_io (read_u8 rest) >>= λ (id, rest').
      limit_type_of id >>= λ limit_type. ok (set_peer_bandwidth size limit_type)

  unfoldable pub deserialize_window_acknowledgement : List ℕ → Decoded RtmpMessage
  deserialize_window_acknowledgement bytes =
      or_io (read_int bo.u32_be bytes) >>= λ (size, rest). ok (window_acknowledgement size)

  -- The three kinds of arm in the second `match` of user_control.rs.
  abbrev pub read_stream_event : UserControlEventType → List ℕ → Decoded RtmpMessage
  read_stream_event event_type bytes = or_io (read_int bo.u32_be bytes) >>= λ (id, rest).
      ok (user_control event_type (some id) none none)

  abbrev pub read_timestamp_event : UserControlEventType → List ℕ → Decoded RtmpMessage
  read_timestamp_event event_type bytes = or_io (read_int bo.u32_be bytes) >>= λ (time, rest).
      ok (user_control event_type none none (some (timestamp time)))

  abbrev pub read_length_event : UserControlEventType → List ℕ → Decoded RtmpMessage
  read_length_event event_type bytes = or_io (read_int bo.u32_be bytes) >>= λ (id, rest).
      or_io (read_int bo.u32_be rest) >>= λ (length, rest').
      ok (user_control event_type (some id) (some length) none)

  unfoldable pub read_event : UserControlEventType → List ℕ → Decoded RtmpMessage
  read_event ping_request bytes = read_timestamp_event ping_request bytes
  read_event ping_response bytes = read_timestamp_event ping_response bytes
  read_event set_buffer_length bytes = read_length_event set_buffer_length bytes
  read_event event_type bytes = read_stream_event event_type bytes

  unfoldable pub deserialize_user_control : List ℕ → Decoded RtmpMessage
  unfolding read_event
  deserialize_user_control bytes = or_io (read_int bo.u16_be bytes) >>= λ (id, rest).
      event_type_of id >>= λ event_type. read_event event_type rest

unfoldable pub deserialize_audio_data : List ℕ → Decoded RtmpMessage
deserialize_audio_data bytes = ok (audio_data bytes)

unfoldable pub deserialize_video_data : List ℕ → Decoded RtmpMessage
deserialize_video_data bytes = ok (video_data bytes)

-- A command marked as AMF3 usually has a 0 in front.
abbrev pub skip_zero : List ℕ → List ℕ
skip_zero [] = []
skip_zero (byte ∷ rest) = if byte == 0 then rest else byte ∷ rest

module _ ⦃bo : ByteOrder⦄ where
  unfoldable pub to_rtmp_message : MessagePayload → Decoded RtmpMessage
  unfolding deserialize_abort deserialize_acknowledgement deserialize_amf0_command
      deserialize_amf0_data deserialize_audio_data deserialize_set_chunk_size
      deserialize_set_peer_bandwidth deserialize_user_control deserialize_video_data
      deserialize_window_acknowledgement
  to_rtmp_message payload =
      if payload.type_id == 1
      then deserialize_set_chunk_size payload.bytes
      else if payload.type_id == 2
      then deserialize_abort payload.bytes
      else if payload.type_id == 3
      then deserialize_acknowledgement payload.bytes
      else if payload.type_id == 4
      then deserialize_user_control payload.bytes
      else if payload.type_id == 5
      then deserialize_window_acknowledgement payload.bytes
      else if payload.type_id == 6
      then deserialize_set_peer_bandwidth payload.bytes
      else if payload.type_id == 8
      then deserialize_audio_data payload.bytes
      else if payload.type_id == 9
      then deserialize_video_data payload.bytes
      else if payload.type_id == 18
      then deserialize_amf0_data payload.bytes
      else if payload.type_id == 20
      then deserialize_amf0_command payload.bytes
      else if payload.type_id == 15
      then deserialize_amf0_data payload.bytes
      else if payload.type_id == 17
      then deserialize_amf0_command (skip_zero payload.bytes)
      else ok (unknown payload.type_id payload.bytes)
