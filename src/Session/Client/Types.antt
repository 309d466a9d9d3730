-- ===== src/Session/Client/Types.antt =====
-- rtmp/src/sessions/client: the data of a client session and the results that it hands out.
use rust_media_libs.Prelude.{ℕ, Option, none, List, []}
use rust_media_libs.Text.{text}
use rust_media_libs.Time.{RtmpTimestamp}
use rust_media_libs.Amf0.Value.{Value, Values}
use rust_media_libs.Message.Payload.{MessagePayload}
use rust_media_libs.Message.Serialize.{MessageSerializationError}
use rust_media_libs.Message.Deserialize.{MessageDeserializationError}
use rust_media_libs.Chunk.Serializer.{
  ChunkSerializer, ChunkSerializationError, Packet, new_serializer,
}
use rust_media_libs.Chunk.Deserializer.{
  ChunkDeserializer, ChunkDeserializationError, new_deserializer,
}
use rust_media_libs.Session.Metadata.{StreamMetadata}

pub data ClientState : Type 0 where
  disconnected connected : ClientState
  play_requested playing : ClientState
  publish_requested publishing : ClientState

-- Live, Record and Append.
pub data PublishRequestType : Type 0 where
  live recording appending : PublishRequestType

pub data TransactionPurpose : Type 0 where
  -- The stream key.
  play_request : List ℕ → TransactionPurpose
  -- The stream key and the type.
  publish_request : List ℕ → PublishRequestType → TransactionPurpose

pub data OutstandingTransaction : Type 0 where
  -- The name of the application.
  connection_requested : List ℕ → OutstandingTransaction
  create_stream : TransactionPurpose → OutstandingTransaction

-- The fields of an event are in the order of the source.
pub data ClientSessionEvent : Type 0 where
  connection_request_accepted playback_request_accepted publish_request_accepted :
      ClientSessionEvent
  connection_request_rejected : (description : List ℕ) → ClientSessionEvent
  stream_metadata_received : (metadata : StreamMetadata) → ClientSessionEvent
  video_data_received : (time : RtmpTimestamp) (bytes : List ℕ) → ClientSessionEvent
  audio_data_received : (time : RtmpTimestamp) (bytes : List ℕ) → ClientSessionEvent
  unhandleable_amf0_command :
      (command_name : List ℕ) (transaction_id : ℕ) (command_object : Value)
      (additional_values : Values)
      → ClientSessionEvent
  unknown_transaction_result_received :
      (transaction_id : ℕ) (command_object : Value) (additional_values : Values)
      → ClientSessionEvent
  unhandleable_on_status_code : (code : List ℕ) → ClientSessionEvent
  acknowledgement_received : (bytes_received : ℕ) → ClientSessionEvent
  ping_response_received : (time : RtmpTimestamp) → ClientSessionEvent

pub data ClientSessionResult : Type 0 where
  outbound_response : Packet → ClientSessionResult
  raised_event : ClientSessionEvent → ClientSessionResult
  unhandleable_message_received : MessagePayload → ClientSessionResult

pub data ClientSessionError : Type 0 where
  chunk_deserialization_error : ChunkDeserializationError → ClientSessionError
  chunk_serialization_error : ChunkSerializationError → ClientSessionError
  message_serialization_error : MessageSerializationError → ClientSessionError
  message_deserialization_error : MessageDeserializationError → ClientSessionError
  cant_connect_while_already_connected : ClientSessionError
  session_in_invalid_state : ClientState → ClientSessionError
  no_known_active_stream_id_when_required create_stream_failed : ClientSessionError
  create_stream_response_had_no_stream_number invalid_on_status_arguments : ClientSessionError

pub record ClientSessionConfig : Type 0 where
  pub flash_version : List ℕ
  pub playback_buffer_length_ms : ℕ
  pub window_ack_size : ℕ
  pub chunk_size : ℕ
  pub tc_url : Option (List ℕ)

-- `ClientSessionConfig::new`.
abbrev pub new_config : ClientSessionConfig
new_config = record {
  flash_version = text "WIN 23,0,0,207";
  playback_buffer_length_ms = 2000;
  window_ack_size = 2_500_000;
  chunk_size = 4096;
  tc_url = none;
}

-- `clock_reads` stands for `start_time`: how often the time since then was asked for.
pub record ClientSession : Type 0 where
  pub clock_reads : ℕ
  pub serializer : ChunkSerializer
  pub deserializer : ChunkDeserializer
  pub config : ClientSessionConfig
  pub next_transaction_id : ℕ
  pub outstanding_transactions : List (ℕ × OutstandingTransaction)
  pub current_state : ClientState
  pub connected_app_name : Option (List ℕ)
  pub active_stream_id : Option ℕ
  pub peer_window_ack_size : Option ℕ
  pub bytes_received : ℕ
  pub bytes_received_since_last_ack : ℕ

-- `ClientSession::new`, which hands out no results.
abbrev pub new : ClientSessionConfig → ClientSession
new config = record {
  clock_reads = 0;
  serializer = new_serializer;
  deserializer = new_deserializer;
  config = config;
  next_transaction_id = 1;
  outstanding_transactions = [];
  current_state = ClientState.disconnected;
  connected_app_name = none;
  active_stream_id = none;
  peer_window_ack_size = none;
  bytes_received = 0;
  bytes_received_since_last_ack = 0;
}
