-- ===== src/Message/Types.antt =====
-- rtmp/src/messages/mod.rs: the kinds of message.
use rust_media_libs.Prelude.{ℕ, Option, List}
use rust_media_libs.Time.{RtmpTimestamp}
use rust_media_libs.Amf0.Value.{Value, Values}

pub data PeerBandwidthLimitType : Type 0 where
  hard soft dynamic : PeerBandwidthLimitType

pub data UserControlEventType : Type 0 where
  stream_begin stream_eof stream_dry set_buffer_length stream_is_recorded : UserControlEventType
  ping_request ping_response buffer_empty buffer_ready : UserControlEventType

pub data RtmpMessage : Type 0 where
  unknown : ℕ → List ℕ → RtmpMessage
  abort : ℕ → RtmpMessage
  acknowledgement : ℕ → RtmpMessage
  -- The command's name, the transaction id, the command object and the additional arguments.
  amf0_command : List ℕ → ℕ → Value → Values → RtmpMessage
  amf0_data : Values → RtmpMessage
  audio_data : List ℕ → RtmpMessage
  set_chunk_size : ℕ → RtmpMessage
  set_peer_bandwidth : ℕ → PeerBandwidthLimitType → RtmpMessage
  -- The event, with its stream id, its buffer length and its timestamp.
  user_control : UserControlEventType → Option ℕ → Option ℕ → Option RtmpTimestamp → RtmpMessage
  video_data : List ℕ → RtmpMessage
  window_acknowledgement : ℕ → RtmpMessage

unfoldable pub get_message_type_id : RtmpMessage → ℕ
get_message_type_id (unknown type_id _) = type_id
get_message_type_id (abort _) = 2
get_message_type_id (acknowledgement _) = 3
get_message_type_id (amf0_command _ _ _ _) = 20
get_message_type_id (amf0_data _) = 18
get_message_type_id (audio_data _) = 8
get_message_type_id (set_chunk_size _) = 1
get_message_type_id (set_peer_bandwidth _ _) = 6
get_message_type_id (user_control _ _ _ _) = 4
get_message_type_id (video_data _) = 9
get_message_type_id (window_acknowledgement _) = 5
