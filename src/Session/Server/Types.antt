-- ===== src/Session/Server/Types.antt =====
-- rtmp/src/sessions/server: the data of a server session and the results that it hands out.
use rust_media_libs.Prelude.{ℕ, Bool, true, Option, none, List, []}
use rust_media_libs.Text.{text}
use rust_media_libs.Time.{RtmpTimestamp}
use rust_media_libs.Amf0.Value.{Value, Values}
use rust_media_libs.Message.Payload.{MessagePayload}
use rust_media_libs.Message.Serialize.{MessageSerializationError}
use rust_media_libs.Message.Deserialize.{MessageDeserializationError}
use rust_media_libs.Chunk.Serializer.{
  ChunkSerializer, ChunkSerializationError, Packet, new_serializer,
}
use rust_media_libs.Chunk.Deserializer.{
  ChunkDeserializer, ChunkDeserializationError, new_deserializer,
}
use rust_media_libs.Session.Metadata.{StreamMetadata}

pub data SessionState : Type 0 where
  started connected : SessionState

-- Live, Record and Append.
pub data PublishMode : Type 0 where
  live recording appending : PublishMode

pub data StreamState : Type 0 where
  created completed : StreamState
  publishing : List ℕ → PublishMode → StreamState
  playing : List ℕ → StreamState

pub record ActiveStream : Type 0 where
  pub current_state : StreamState

pub data OutstandingRequest : Type 0 where
  -- The name of the application and the transaction id.
  connection_request : List ℕ → ℕ → OutstandingRequest
  -- The stream key, the mode and the stream id.
  publish_requested : List ℕ → PublishMode → ℕ → OutstandingRequest
  -- The stream key and the stream id.
  play_requested : List ℕ → ℕ → OutstandingRequest

pub data PlayStartValue : Type 0 where
  live_or_recorded live_only : PlayStartValue
  start_time_in_seconds : ℕ → PlayStartValue

-- The fields of an event are in the order of the source.
pub data ServerSessionEvent : Type 0 where
  client_chunk_size_changed : ℕ → ServerSessionEvent
  connection_requested : (request_id : ℕ) (app_name : List ℕ) → ServerSessionEvent
  release_stream_requested : (request_id : ℕ) (app_name stream_key : List ℕ) → ServerSessionEvent
  publish_stream_requested :
      (request_id : ℕ) (app_name stream_key : List ℕ) (mode : PublishMode) → ServerSessionEvent
  publish_stream_finished : (app_name stream_key : List ℕ) → ServerSessionEvent
  stream_metadata_changed :
      (app_name stream_key : List ℕ) (metadata : StreamMetadata) → ServerSessionEvent
  audio_data_received :
      (app_name stream_key bytes : List ℕ) (time : RtmpTimestamp) → ServerSessionEvent
  video_data_received :
      (app_name stream_key bytes : List ℕ) (time : RtmpTimestamp) → ServerSessionEvent
  unhandleable_amf0_command :
      (command_name : List ℕ) (transaction_id : ℕ) (command_object : Value)
      (additional_values : Values)
      → ServerSessionEvent
  play_stream_requested :
      (request_id : ℕ) (app_name stream_key : List ℕ) (start_at : PlayStartValue)
      (duration : Option ℕ) (reset : Bool) (stream_id : ℕ)
      → ServerSessionEvent
  play_stream_finished : (app_name stream_key : List ℕ) → ServerSessionEvent
  acknowledgement_received : (bytes_received : ℕ) → ServerSessionEvent
  ping_response_received : (time : RtmpTimestamp) → ServerSessionEvent

pub data ServerSessionResult : Type 0 where
  outbound_response : Packet → ServerSessionResult
  raised_event : ServerSessionEvent → ServerSessionResult
  unhandleable_message_received : MessagePayload → ServerSessionResult

pub data ServerSessionError : Type 0 where
  chunk_deserialization_error : ChunkDeserializationError → ServerSessionError
  chunk_serialization_error : ChunkSerializationError → ServerSessionError
  message_serialization_error : MessageSerializationError → ServerSessionError
  message_deserialization_error : MessageDeserializationError → ServerSessionError
  invalid_outstanding_request : ℕ → ServerSessionError
  no_app_name_for_connection_request invalid_request_id : ServerSessionError
  -- The action and the stream id.
  action_attempted_on_inactive_stream : List ℕ → ℕ → ServerSessionError

pub record ServerSessionConfig : Type 0 where
  pub fms_version : List ℕ
  pub chunk_size : ℕ
  pub peer_bandwidth : ℕ
  pub window_ack_size : ℕ
  pub send_on_bw_done_message_on_start : Bool

-- `ServerSessionConfig::new`.
abbrev pub new_config : ServerSessionConfig
new_config = record {
  fms_version = text "FMS/3,0,1,1233";
  chunk_size = 4096;
  peer_bandwidth = 2_500_000;
  window_ack_size = 1_073_741_824;
  send_on_bw_done_message_on_start = true;
}

-- `clock_reads` stands for `start_time`: how often the time since then was asked for.
pub record ServerSession : Type 0 where
  pub clock_reads : ℕ
  pub serializer : ChunkSerializer
  pub deserializer : ChunkDeserializer
  pub connected_app_name : Option (List ℕ)
  pub outstanding_requests : List (ℕ × OutstandingRequest)
  pub next_request_number : ℕ
  pub current_state : SessionState
  pub fms_version : List ℕ
  pub object_encoding : ℕ
  pub active_streams : List (ℕ × ActiveStream)
  pub next_stream_id : ℕ
  pub peer_window_ack_size : Option ℕ
  pub bytes_received : ℕ
  pub bytes_received_since_last_ack : ℕ

-- The session that `ServerSession::new` starts from.
abbrev pub initial_session : ServerSessionConfig → ServerSession
initial_session config = record {
  clock_reads = 0;
  serializer = new_serializer;
  deserializer = new_deserializer;
  connected_app_name = none;
  outstanding_requests = [];
  next_request_number = 0;
  current_state = SessionState.started;
  fms_version = config.fms_version;
  object_encoding = 0;
  active_streams = [];
  next_stream_id = 1;
  peer_window_ack_size = none;
  bytes_received = 0;
  bytes_received_since_last_ack = 0;
}
