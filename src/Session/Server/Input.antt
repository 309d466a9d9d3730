-- ===== src/Session/Server/Input.antt =====
-- `ServerSession::new` and `ServerSession::handle_input`.
use rust_media_libs.Prelude.{
  ℕ, zero, suc, ◌+◌, ◌*◌, ◌%◌, ◌^◌, Bool, true, false, Option, none, some, List, [], ◌∷◌, ◌++◌,
  length, leb, if◌then◌else◌, Outcome, ok, err, panicked, out_of_fuel, map_err,
}
use rust_media_libs.Text.{text}
use rust_media_libs.Bytes.{ByteOrder}
use rust_media_libs.Time.{timestamp}
use rust_media_libs.Amf0.Value.{number, null, nil, cons}
use rust_media_libs.Message.Payload.{MessagePayload}
use rust_media_libs.Message.Types.{
  RtmpMessage, unknown, abort, acknowledgement, amf0_command, amf0_data, audio_data, set_chunk_size,
  set_peer_bandwidth, user_control, video_data, window_acknowledgement, dynamic, stream_begin,
}
use rust_media_libs.Message.Deserialize.{to_rtmp_message}
use rust_media_libs.Chunk.Serializer
use rust_media_libs.Chunk.Serializer.{Packet}
use rust_media_libs.Chunk.Deserializer.{
  ChunkDeserializer, ChunkDeserializationError, get_next_message,
}
use rust_media_libs.Session.Action.{
  pure, gets, modify, lift, finish, checked_add, ◌>>=◌, ◌>>◌, Environment,
}
use rust_media_libs.Session.Server.Types.{
  ServerSession, ServerSessionConfig, ServerSessionError, initial_session, outbound_response,
  unhandleable_message_received, chunk_deserialization_error, message_deserialization_error,
}
use rust_media_libs.Session.Server.Send.{Session, Results, with_serializer, send}
use rust_media_libs.Session.Server.Commands.{handle_amf0_command}
use rust_media_libs.Session.Server.Media.{
  handle_abort_message, handle_acknowledgement_message, handle_amf0_data, handle_audio_data,
  handle_video_data, handle_set_chunk_size, handle_user_control, handle_window_acknowledgement,
}

-- The next message of the deserializer. The deserializer that an error leaves is not modelled: the
-- error ends `handle_input`, whose session is then not returned.
abbrev pub with_message :
    Outcome ChunkDeserializationError (Option MessagePayload × ChunkDeserializer)
    → Session (Option MessagePayload)
with_message (ok (message, d)) s = (ok message, record s { deserializer = d })
with_message (err e) s = (err (chunk_deserialization_error e), s)
with_message panicked s = (panicked, s)
with_message out_of_fuel s = (out_of_fuel, s)

abbrev pub handle_set_peer_bandwidth : Session Results
handle_set_peer_bandwidth = pure []

-- `bytes_received += bytes.len() as u64`
unfoldable pub count_bytes : List ℕ → Session (Unit {0})
count_bytes bytes = do
  received ← gets (λ s. s.bytes_received)
  total ← checked_add 64 received (length bytes)
  modify (λ s. record s { bytes_received = total })

module _ ⦃bo : ByteOrder⦄ ⦃env : Environment⦄ where
  unfoldable pub next_message : List ℕ → Session (Option MessagePayload)
  next_message bytes s = with_message (get_next_message s.deserializer bytes) s

  -- The `match` on a message.
  unfoldable pub handle_message : MessagePayload → RtmpMessage → Session Results
  handle_message payload (abort stream_id) = handle_abort_message stream_id
  handle_message payload (acknowledgement sequence_number) =
      handle_acknowledgement_message sequence_number
  handle_message payload (amf0_command name transaction_id command_object arguments) =
      handle_amf0_command payload.message_stream_id name transaction_id command_object arguments
  handle_message payload (amf0_data values) = handle_amf0_data values payload.message_stream_id
  handle_message payload (audio_data bytes) =
      handle_audio_data bytes payload.message_stream_id payload.timestamp
  handle_message payload (set_chunk_size size) = handle_set_chunk_size size
  handle_message payload (set_peer_bandwidth size limit_type) = handle_set_peer_bandwidth
  handle_message payload (user_control event_type stream_id buffer_length time) =
      handle_user_control event_type time
  handle_message payload (video_data bytes) =
      handle_video_data bytes payload.message_stream_id payload.timestamp
  handle_message payload (window_acknowledgement size) = handle_window_acknowledgement size
  handle_message payload (unknown type_id bytes) = pure (unhandleable_message_received payload ∷ [])

  unfoldable pub handle_payload : MessagePayload → Session Results
  handle_payload payload = do
    message ← lift (map_err message_deserialization_error (to_rtmp_message payload))
    handle_message payload message

  -- A round of the loop, with what is left of the loop.
  unfoldable pub handle_found : Session Results → Option MessagePayload → Session Results
  handle_found rest none = pure []
  handle_found rest (some payload) = do
    results ← handle_payload payload
    more ← rest
    pure (results ++ more)

  -- The loop over the messages that are complete.
  unfoldable pub handle_messages : ℕ → List ℕ → Session Results
  handle_messages zero bytes = lift out_of_fuel
  handle_messages (suc fuel) bytes = next_message bytes >>= handle_found (handle_messages fuel [])

  -- The acknowledgement, once the peer's window is full.
  unfoldable pub acknowledge_full : ℕ → Session Results
  acknowledge_full count = do
    packet ← send (acknowledgement count) 0 false
    modify (λ s. record s { bytes_received_since_last_ack = 0 })
    pure (outbound_response packet ∷ [])

  unfoldable pub acknowledge_window : List ℕ → ℕ → Session Results
  acknowledge_window bytes peer_ack_size = do
    since ← gets (λ s. s.bytes_received_since_last_ack)
    count ← checked_add 32 since (length bytes % 2 ^ 32)
    modify (λ s. record s { bytes_received_since_last_ack = count })
    if leb peer_ack_size count then acknowledge_full count else pure []

  unfoldable pub acknowledge_if : List ℕ → Option ℕ → Session Results
  acknowledge_if bytes none = pure []
  acknowledge_if bytes (some peer_ack_size) = acknowledge_window bytes peer_ack_size

  unfoldable pub acknowledge : List ℕ → Session Results
  acknowledge bytes = gets (λ s. s.peer_window_ack_size) >>= acknowledge_if bytes

  unfoldable pub input_action : List ℕ → Session Results
  input_action bytes = do
    count_bytes bytes
    acks ← acknowledge bytes
    fuel ← gets (λ s. 7 * length (s.deserializer.buffer ++ bytes) + 9)
    results ← handle_messages fuel bytes
    pure (acks ++ results)

  unfoldable pub handle_input :
      ServerSession → List ℕ → Outcome ServerSessionError (Results × ServerSession)
  handle_input s bytes = finish (input_action bytes s)

  unfoldable pub send_bw_done : Bool → Session Results
  send_bw_done false = pure []
  send_bw_done true = do
    packet ←
        send (amf0_command (text "onBWDone") 0 null (cons (number 4665729213955833856) nil)) 0 true
    pure (outbound_response packet ∷ [])

  -- The messages that open a session.
  unfoldable pub announce : ServerSessionConfig → Session Results
  announce config = do
    chunk_size_packet ← (λ s.
        with_serializer
          (Serializer.set_max_chunk_size env.debug_assertions s.serializer config.chunk_size
            (timestamp 0))
          s)
    window_ack_packet ← send (window_acknowledgement config.window_ack_size) 0 true
    begin_packet ← send (user_control stream_begin (some 0) none none) 0 true
    peer_packet ← send (set_peer_bandwidth config.peer_bandwidth dynamic) 0 true
    bw_done ← send_bw_done config.send_on_bw_done_message_on_start
    pure (
        outbound_response chunk_size_packet
        ∷ outbound_response window_ack_packet
        ∷ outbound_response begin_packet
        ∷ outbound_response peer_packet
        ∷ bw_done)

  unfoldable pub new : ServerSessionConfig → Outcome ServerSessionError (Results × ServerSession)
  new config = finish (announce config (initial_session config))
