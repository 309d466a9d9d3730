-- ===== src/Message/Runs.antt =====
-- Messages at concrete values.
use rust_media_libs.Prelude.{ℕ, ◌∷◌, [], ◌≡◌, true, none, some, ok, arith, List, panicked}
use rust_media_libs.Amf0.Serialize
use rust_media_libs.Amf0.Value.{null, nil, cons}
use rust_media_libs.Amf0.Format.{AreEncodable}
use rust_media_libs.Message.Total.{deserialize_amf0_command-panicked}
use rust_media_libs.Message.Kinds.{IsReading, to_rtmp_message-IsReading}
use rust_media_libs.Bytes.Endian.{endian}
use rust_media_libs.Time.{timestamp}
use rust_media_libs.Message.Payload.{MessagePayload}
use rust_media_libs.Message.Types.{user_control, set_buffer_length, get_message_type_id}
use rust_media_libs.Message.Serialize.{from_rtmp_message}
use rust_media_libs.Message.Deserialize.{to_rtmp_message, deserialize_amf0_command}
use rust_media_libs.Message.RoundTrip.{to_rtmp_message-from_rtmp_message}

null-AreEncodable : AreEncodable (cons null nil)
unfolding AreEncodable
null-AreEncodable = (tt, tt)

to_rtmp_message-from_rtmp_message_example :
    (payload : MessagePayload) × (from_rtmp_message true
        (user_control set_buffer_length (some 1) (some 3000) none)
        (timestamp 5)
        0
      ≡ ok payload)
    × (payload.type_id
        ≡ get_message_type_id (user_control set_buffer_length (some 1) (some 3000) none))
    × (payload.timestamp ≡ timestamp 5)
    × (payload.message_stream_id ≡ 0)
    × (to_rtmp_message payload ≡ ok (user_control set_buffer_length (some 1) (some 3000) none))
to_rtmp_message-from_rtmp_message_example =
    to_rtmp_message-from_rtmp_message true
      (user_control set_buffer_length (some 1) (some 3000) none) (timestamp 5) 0
      (omega arith, omega arith)

deserialize_amf0_command-panicked_example :
    (bytes : List ℕ) × (Serialize.serialize (cons null nil) ≡ ok bytes)
    × (deserialize_amf0_command bytes ≡ panicked)
deserialize_amf0_command-panicked_example =
    deserialize_amf0_command-panicked (cons null nil) null-AreEncodable (omega arith)

-- A command marked as AMF3 with a string that is cut short.
abbrev cut_short : MessagePayload
cut_short = record {
  timestamp = timestamp 0;
  type_id = 17;
  message_stream_id = 1;
  bytes = 0 ∷ 2 ∷ 0 ∷ [];
}

to_rtmp_message-IsReading_example : IsReading 20 (to_rtmp_message cut_short)
to_rtmp_message-IsReading_example = to_rtmp_message-IsReading cut_short
