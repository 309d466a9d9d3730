-- ===== src/Session/Client/Media.antt =====
-- The messages from the server that carry data, and those of the protocol's own.
use rust_media_libs.Prelude.{
  ℕ, Bool, true, false, Option, none, some, List, [], ◌∷◌, ◌==◌, bytes_eq, if◌then◌else◌, Outcome,
  ok, err, panicked, out_of_fuel,
}
use rust_media_libs.Text.{text}
use rust_media_libs.Bytes.{ByteOrder}
use rust_media_libs.Time.{RtmpTimestamp}
use rust_media_libs.Amf0.Value.{Values, utf8_string, object, cons}
use rust_media_libs.Message.Types.{UserControlEventType, ping_request, ping_response, user_control}
use rust_media_libs.Chunk.Deserializer
use rust_media_libs.Chunk.Deserializer.{ChunkDeserializer, ChunkDeserializationError}
use rust_media_libs.Session.Action.{pure, raise, modify, ◌>>=◌, ◌>>◌, Environment}
use rust_media_libs.Session.Metadata.{new_metadata, apply_metadata_values}
use rust_media_libs.Session.Server.Media.{or_zero}
use rust_media_libs.Session.Client.Types.{
  ClientState, ClientSessionEvent, outbound_response, raised_event, stream_metadata_received,
  video_data_received, audio_data_received, acknowledgement_received, ping_response_received,
  chunk_deserialization_error, session_in_invalid_state,
}
use rust_media_libs.Session.Client.Send.{Session, Results, send}

-- The session is active on the stream.
abbrev pub is_active_on : ℕ → Option ℕ → Bool
is_active_on stream_id none = false
is_active_on stream_id (some active) = active == stream_id

-- The event about media: it is allowed before the start of the playback too.
abbrev pub media_event : ClientSessionEvent → Bool → ClientState → Session Results
media_event event true ClientState.play_requested = pure (raised_event event ∷ [])
media_event event true ClientState.playing = pure (raised_event event ∷ [])
media_event event false ClientState.play_requested = pure []
media_event event false ClientState.playing = pure []
media_event event active state = raise (session_in_invalid_state state)

unfoldable pub handle_video_data : ℕ → List ℕ → RtmpTimestamp → Session Results
handle_video_data stream_id bytes time s =
    media_event (video_data_received time bytes) (is_active_on stream_id s.active_stream_id)
      s.current_state s

unfoldable pub handle_audio_data : ℕ → List ℕ → RtmpTimestamp → Session Results
handle_audio_data stream_id bytes time s =
    media_event (audio_data_received time bytes) (is_active_on stream_id s.active_stream_id)
      s.current_state s

unfoldable pub handle_amf0_data_on_meta_data : Values → Session Results
handle_amf0_data_on_meta_data (cons (object properties) rest) =
    pure
      (raised_event (stream_metadata_received (apply_metadata_values properties new_metadata)) ∷ [])
handle_amf0_data_on_meta_data _ = pure []

abbrev pub data_on_active : Values → Session Results
data_on_active (cons (utf8_string value) rest) =
    if bytes_eq value (text "onMetaData") then handle_amf0_data_on_meta_data rest else pure []
data_on_active _ = pure []

unfoldable pub handle_amf0_data : Values → ℕ → Session Results
handle_amf0_data values stream_id s =
    (if is_active_on stream_id s.active_stream_id then data_on_active values else pure []) s

unfoldable pub handle_acknowledgement : ℕ → Session Results
handle_acknowledgement sequence_number =
    pure (raised_event (acknowledgement_received sequence_number) ∷ [])

unfoldable pub handle_window_ack_size : ℕ → Session Results
handle_window_ack_size size = modify (λ s. record s { peer_window_ack_size = some size }) >> pure []

-- The deserializer's answer to a new chunk size.
abbrev pub with_deserializer :
    Outcome ChunkDeserializationError ChunkDeserializer → Session (Unit {0})
with_deserializer (ok d) s = (ok tt, record s { deserializer = d })
with_deserializer (err e) s = (err (chunk_deserialization_error e), s)
with_deserializer panicked s = (panicked, s)
with_deserializer out_of_fuel s = (out_of_fuel, s)

unfoldable pub set_peer_chunk_size : ℕ → Session (Unit {0})
set_peer_chunk_size size s =
    with_deserializer (Deserializer.set_max_chunk_size s.deserializer size) s

unfoldable pub handle_set_chunk_size : ℕ → Session Results
handle_set_chunk_size size = set_peer_chunk_size size >> pure []

unfoldable pub handle_ping_response : Option RtmpTimestamp → Session Results
handle_ping_response time = pure (raised_event (ping_response_received (or_zero time)) ∷ [])

module _ ⦃bo : ByteOrder⦄ ⦃env : Environment⦄ where
  unfoldable pub handle_ping_request : Option RtmpTimestamp → Session Results
  handle_ping_request time = do
    packet ← send (user_control ping_response none none time) 0
    pure (outbound_response packet ∷ [])

  unfoldable pub handle_user_control : UserControlEventType → Option RtmpTimestamp → Session Results
  handle_user_control ping_request time = handle_ping_request time
  handle_user_control ping_response time = handle_ping_response time
  handle_user_control _ time = pure []
