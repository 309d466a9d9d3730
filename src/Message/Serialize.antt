-- ===== src/Message/Serialize.antt =====
-- `serialize` of each file of rtmp/src/messages/types, and `from_rtmp_message` of
-- rtmp/src/messages/message_payload.rs. `debug_assertions` is the build's flag of that name: with it
-- a failed `debug_assert!` panics, without it the assertion is not there.
use rust_media_libs.Prelude.{
  ℕ, Bool, Option, none, some, List, [], ◌∷◌, ◌++◌, ltb, if◌then◌else◌, Outcome, ok, err, panicked,
  ◌>>=◌, map_err,
}
use rust_media_libs.Bytes.{ByteOrder}
use rust_media_libs.Time.{RtmpTimestamp}
use rust_media_libs.Amf0.Serialize
use rust_media_libs.Amf0.Value.{Value, Values, utf8_string, number, cons, Amf0SerializationError}
use rust_media_libs.Message.Payload.{MessagePayload}
use rust_media_libs.Message.Types.{
  PeerBandwidthLimitType, hard, soft, dynamic, UserControlEventType, stream_begin, stream_eof,
  stream_dry, set_buffer_length, stream_is_recorded, ping_request, ping_response, buffer_empty,
  buffer_ready, RtmpMessage, unknown, abort, acknowledgement, amf0_command, amf0_data, audio_data,
  set_chunk_size, set_peer_bandwidth, user_control, video_data, window_acknowledgement,
  get_message_type_id,
}

pub data MessageSerializationError : Type 0 where
  invalid_chunk_size : MessageSerializationError
  amf0_serialization_error : Amf0SerializationError → MessageSerializationError

abbrev pub Written : Type 0
Written = Outcome MessageSerializationError (List ℕ)

abbrev pub max_size : ℕ
max_size = 2147483647

abbrev pub limit_type_id : PeerBandwidthLimitType → ℕ
limit_type_id hard = 0
limit_type_id soft = 1
limit_type_id dynamic = 2

-- `debug_assert!(value.is_some())`, and the value or 0.
abbrev pub assert_some : {A : Type 0} → Bool → A → Option A → Outcome MessageSerializationError A
assert_some debug_assertions default (some value) = ok value
assert_some debug_assertions default none = if debug_assertions then panicked else ok default

module _ ⦃bo : ByteOrder⦄ where
  unfoldable pub serialize_abort : ℕ → Written
  serialize_abort stream_id = ok (bo.u32_be.encode stream_id)

  unfoldable pub serialize_acknowledgement : ℕ → Written
  serialize_acknowledgement sequence_number = ok (bo.u32_be.encode sequence_number)

  unfoldable pub serialize_amf0_data : Values → Written
  serialize_amf0_data values = map_err amf0_serialization_error (Serialize.serialize values)

  unfoldable pub serialize_amf0_command : List ℕ → ℕ → Value → Values → Written
  serialize_amf0_command command_name transaction_id command_object additional_arguments =
      let values =
        cons (utf8_string command_name)
          (cons (number transaction_id) (cons command_object additional_arguments)) in
      map_err amf0_serialization_error (Serialize.serialize values)

  unfoldable pub serialize_set_chunk_size : ℕ → Written
  serialize_set_chunk_size size =
      if ltb max_size size then err invalid_chunk_size else ok (bo.u32_be.encode size)

  unfoldable pub serialize_set_peer_bandwidth : PeerBandwidthLimitType → ℕ → Written
  serialize_set_peer_bandwidth limit_type size =
      ok (bo.u32_be.encode size ++ (limit_type_id limit_type ∷ []))

  unfoldable pub serialize_window_acknowledgement : ℕ → Written
  serialize_window_acknowledgement size = ok (bo.u32_be.encode size)

unfoldable pub serialize_audio_data : List ℕ → Written
serialize_audio_data bytes = ok bytes

unfoldable pub serialize_video_data : List ℕ → Written
serialize_video_data bytes = ok bytes

module _ ⦃bo : ByteOrder⦄ (debug_assertions : Bool) where
  unfoldable pub write_stream_event : ℕ → Option ℕ → Written
  write_stream_event event_id stream_id = assert_some debug_assertions 0 stream_id >>= λ id.
      ok (bo.u16_be.encode event_id ++ bo.u32_be.encode id)

  unfoldable pub write_length_event : ℕ → Option ℕ → Option ℕ → Written
  write_length_event event_id stream_id length = assert_some debug_assertions 0 stream_id >>= λ id.
      assert_some debug_assertions 0 length >>= λ len.
      ok (bo.u16_be.encode event_id ++ (bo.u32_be.encode id ++ bo.u32_be.encode len))

  unfoldable pub write_timestamp_event : ℕ → Option RtmpTimestamp → Written
  write_timestamp_event event_id time =
      assert_some debug_assertions (record { value = 0 }) time >>= λ t.
      ok (bo.u16_be.encode event_id ++ bo.u32_be.encode t.value)

  unfoldable pub serialize_user_control :
      UserControlEventType → Option ℕ → Option ℕ → Option RtmpTimestamp → Written
  unfolding write_stream_event write_length_event write_timestamp_event
  serialize_user_control stream_begin stream_id buffer_length time = write_stream_event 0 stream_id
  serialize_user_control stream_eof stream_id buffer_length time = write_stream_event 1 stream_id
  serialize_user_control stream_dry stream_id buffer_length time = write_stream_event 2 stream_id
  serialize_user_control set_buffer_length stream_id buffer_length time =
      write_length_event 3 stream_id buffer_length
  serialize_user_control stream_is_recorded stream_id buffer_length time =
      write_stream_event 4 stream_id
  serialize_user_control ping_request stream_id buffer_length time = write_timestamp_event 6 time
  serialize_user_control ping_response stream_id buffer_length time = write_timestamp_event 7 time
  serialize_user_control buffer_empty stream_id buffer_length time = write_stream_event 31 stream_id
  serialize_user_control buffer_ready stream_id buffer_length time = write_stream_event 32 stream_id

  -- The `match` of `from_rtmp_message`.
  unfoldable pub message_bytes : RtmpMessage → Written
  unfolding serialize_abort serialize_acknowledgement serialize_amf0_command serialize_amf0_data
      serialize_audio_data serialize_set_chunk_size serialize_set_peer_bandwidth
      serialize_user_control serialize_video_data serialize_window_acknowledgement
  message_bytes (unknown _ bytes) = ok bytes
  message_bytes (abort stream_id) = serialize_abort stream_id
  message_bytes (acknowledgement sequence_number) = serialize_acknowledgement sequence_number
  message_bytes (amf0_command command_name transaction_id command_object additional_arguments) =
      serialize_amf0_command command_name transaction_id command_object additional_arguments
  message_bytes (amf0_data values) = serialize_amf0_data values
  message_bytes (audio_data bytes) = serialize_audio_data bytes
  message_bytes (set_chunk_size size) = serialize_set_chunk_size size
  message_bytes (set_peer_bandwidth size limit_type) = serialize_set_peer_bandwidth limit_type size
  message_bytes (user_control event_type stream_id buffer_length time) =
      serialize_user_control event_type stream_id buffer_length time
  message_bytes (video_data bytes) = serialize_video_data bytes
  message_bytes (window_acknowledgement size) = serialize_window_acknowledgement size

  unfoldable pub from_rtmp_message :
      RtmpMessage → RtmpTimestamp → ℕ → Outcome MessageSerializationError MessagePayload
  unfolding message_bytes get_message_type_id
  from_rtmp_message message time message_stream_id = message_bytes message >>= λ bytes. ok (record {
    timestamp = time;
    type_id = get_message_type_id message;
    message_stream_id = message_stream_id;
    bytes = bytes;
  })
