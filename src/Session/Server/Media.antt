-- ===== src/Session/Server/Media.antt =====
-- The messages that carry data, and those of the protocol's own.
use rust_media_libs.Prelude.{
  ℕ, false, Option, none, some, List, [], ◌∷◌, bytes_eq, if◌then◌else◌, ok, err, panicked,
  out_of_fuel,
}
use rust_media_libs.Text.{text}
use rust_media_libs.Bytes.{ByteOrder}
use rust_media_libs.HashMap
use rust_media_libs.Time.{RtmpTimestamp, timestamp}
use rust_media_libs.Amf0.Value.{Values, Properties, utf8_string, nil, cons, get_object_properties}
use rust_media_libs.Message.Types.{UserControlEventType, ping_request, ping_response, user_control}
use rust_media_libs.Chunk.Deserializer
use rust_media_libs.Chunk.Deserializer.{ChunkDeserializer, ChunkDeserializationError}
use rust_media_libs.Prelude.{Outcome}
use rust_media_libs.Session.Action.{pure, panic, gets, modify, ◌>>=◌, ◌>>◌, Environment}
use rust_media_libs.Session.Metadata.{StreamMetadata, new_metadata, apply_metadata_values}
use rust_media_libs.Session.Server.Types.{
  StreamState, publishing, ActiveStream, ServerSession, outbound_response, raised_event,
  stream_metadata_changed, audio_data_received, video_data_received, acknowledgement_received,
  ping_response_received, chunk_deserialization_error,
}
use rust_media_libs.Session.Server.Send.{Session, Results, send}
use rust_media_libs.Session.Server.Streams.{connected_app}

-- The key under which a stream is published.
abbrev pub key_published : StreamState → Option (List ℕ)
key_published (publishing key mode) = some key
key_published _ = none

abbrev pub key_of : Option ActiveStream → Option (List ℕ)
key_of none = none
key_of (some stream) = key_published stream.current_state

abbrev pub publishing_key : ℕ → ServerSession → Option (List ℕ)
publishing_key stream_id s = key_of (HashMap.get stream_id s.active_streams)

-- The event about a stream that is published under an application.
abbrev pub with_key :
    (List ℕ → List ℕ → Results) → Option (List ℕ) → Option (List ℕ) → Session Results
with_key event (some app_name) (some stream_key) = pure (event app_name stream_key)
with_key event _ _ = pure []

abbrev pub audio_event : List ℕ → RtmpTimestamp → List ℕ → List ℕ → Results
audio_event bytes time app_name stream_key =
    raised_event (audio_data_received app_name stream_key bytes time) ∷ []

abbrev pub video_event : List ℕ → RtmpTimestamp → List ℕ → List ℕ → Results
video_event bytes time app_name stream_key =
    raised_event (video_data_received app_name stream_key bytes time) ∷ []

unfoldable pub handle_audio_data : List ℕ → ℕ → RtmpTimestamp → Session Results
handle_audio_data bytes stream_id time = do
  app_name ← gets connected_app
  stream_key ← gets (publishing_key stream_id)
  with_key (audio_event bytes time) app_name stream_key

unfoldable pub handle_video_data : List ℕ → ℕ → RtmpTimestamp → Session Results
handle_video_data bytes stream_id time = do
  app_name ← gets connected_app
  stream_key ← gets (publishing_key stream_id)
  with_key (video_event bytes time) app_name stream_key

abbrev pub metadata_of : Option Properties → StreamMetadata
metadata_of none = new_metadata
metadata_of (some properties) = apply_metadata_values properties new_metadata

-- `data.remove(1)`, which panics when there is no such element, and the event.
unfoldable pub metadata_event : Values → Option (List ℕ) → Option (List ℕ) → Session Results
metadata_event (cons value rest) (some app_name) (some stream_key) = pure (
    raised_event
      (stream_metadata_changed app_name stream_key (metadata_of (get_object_properties value)))
    ∷ [])
metadata_event nil (some app_name) (some stream_key) = panic
metadata_event _ _ _ = pure []

-- `data[0]` panics on an empty vector.
unfoldable pub handle_amf0_data_set_data_frame : Values → ℕ → Session Results
handle_amf0_data_set_data_frame nil stream_id = panic
handle_amf0_data_set_data_frame (cons (utf8_string value) rest) stream_id =
    if bytes_eq value (text "onMetaData")
    then (do
      app_name ← gets (λ s. s.connected_app_name)
      stream_key ← gets (publishing_key stream_id)
      metadata_event rest app_name stream_key)
    else pure []
handle_amf0_data_set_data_frame (cons _ rest) stream_id = pure []

unfoldable pub handle_amf0_data : Values → ℕ → Session Results
handle_amf0_data (cons (utf8_string value) rest) stream_id =
    if bytes_eq value (text "@setDataFrame")
    then handle_amf0_data_set_data_frame rest stream_id
    else pure []
handle_amf0_data _ stream_id = pure []

unfoldable pub handle_abort_message : ℕ → Session Results
handle_abort_message stream_id = pure []

unfoldable pub handle_acknowledgement_message : ℕ → Session Results
handle_acknowledgement_message sequence_number =
    pure (raised_event (acknowledgement_received sequence_number) ∷ [])

-- The deserializer's answer to a new chunk size.
abbrev pub with_deserializer :
    Outcome ChunkDeserializationError ChunkDeserializer → Session (Unit {0})
with_deserializer (ok d) s = (ok tt, record s { deserializer = d })
with_deserializer (err e) s = (err (chunk_deserialization_error e), s)
with_deserializer panicked s = (panicked, s)
with_deserializer out_of_fuel s = (out_of_fuel, s)

unfoldable pub set_peer_chunk_size : ℕ → Session (Unit {0})
set_peer_chunk_size size s =
    with_deserializer (Deserializer.set_max_chunk_size s.deserializer size) s

unfoldable pub handle_set_chunk_size : ℕ → Session Results
handle_set_chunk_size size = set_peer_chunk_size size >> pure []

unfoldable pub handle_window_acknowledgement : ℕ → Session Results
handle_window_acknowledgement size =
    modify (λ s. record s { peer_window_ack_size = some size }) >> pure []

-- `timestamp.unwrap_or(RtmpTimestamp::new(0))`
abbrev pub or_zero : Option RtmpTimestamp → RtmpTimestamp
or_zero none = timestamp 0
or_zero (some time) = time

module _ ⦃bo : ByteOrder⦄ ⦃env : Environment⦄ where
  unfoldable pub handle_user_control : UserControlEventType → Option RtmpTimestamp → Session Results
  handle_user_control ping_request time = do
    packet ← send (user_control ping_response none none time) 0 false
    pure (outbound_response packet ∷ [])
  handle_user_control ping_response time =
      pure (raised_event (ping_response_received (or_zero time)) ∷ [])
  handle_user_control _ time = pure []
