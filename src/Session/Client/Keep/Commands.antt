-- ===== src/Session/Client/Keep/Commands.antt =====
-- What the handlers of a client session that may answer change, and with them a message.
use rust_media_libs.Prelude.{ℕ, Option, none, some, List, [], ◌∷◌, bytes_eq}
use rust_media_libs.Bytes.{ByteOrder}
use rust_media_libs.Text.{text}
use rust_media_libs.Time.{RtmpTimestamp}
use rust_media_libs.Float.Defs.{to_u32}
use rust_media_libs.Amf0.Value.{Value, Values, number, cons}
use rust_media_libs.Message.Payload.{MessagePayload}
use rust_media_libs.Message.Types.{
  RtmpMessage, UserControlEventType, unknown, abort, acknowledgement, amf0_command, amf0_data,
  audio_data, set_chunk_size, set_peer_bandwidth, user_control, video_data, window_acknowledgement,
  set_buffer_length, ping_request, ping_response,
}
use rust_media_libs.Session.Action.{Environment, pure, ◌>>=◌}
use rust_media_libs.Session.Keeps.{
  Keeps, Keeps-bind, Keeps-pure, Keeps-raise, Keeps-gets, Keeps-modify, Keeps-if,
}
use rust_media_libs.Session.Client.Types.{
  ClientState, TransactionPurpose, play_request, publish_request, OutstandingTransaction,
  connection_requested, create_stream, ClientSession, ClientSessionConfig, outbound_response,
}
use rust_media_libs.Session.Client.Send.{Results, send}
use rust_media_libs.Session.Client.Media.{
  handle_acknowledgement, handle_ping_response, handle_ping_request, handle_user_control,
}
use rust_media_libs.Session.Client.Commands.{
  handle_amf0_command_failed_result, announce_chunk_size, connected_as, use_stream, created,
  succeeded, handle_amf0_command_success_result, handle_amf0_command, play_message, publish_message,
}
use rust_media_libs.Session.Client.Input.{handle_message}
use rust_media_libs.Session.Client.Keep.Sends.{Allows, with_serializer-Keeps, send-Keeps}
use rust_media_libs.Session.Client.Keep.Handlers.{
  handle_video_data-Keeps, handle_audio_data-Keeps, handle_amf0_data-Keeps,
  handle_window_ack_size-Keeps, handle_set_chunk_size-Keeps, take_transaction-Keeps, failed-Keeps,
  handle_on_status_command-Keeps,
}

module _ ⦃bo : ByteOrder⦄ ⦃env : Environment⦄ {R : ClientSession → ClientSession → Type 0}
    (allows : Allows R) where
  connected_as-Keeps : (app_name : List ℕ) → Keeps R (connected_as app_name)
  unfolding connected_as announce_chunk_size
  connected_as-Keeps app_name =
      Keeps-bind allows.order (Keeps-modify allows.order λ s. allows.joined s app_name) λ u.
        Keeps-bind allows.order (Keeps-gets allows.order) λ config.
          Keeps-bind allows.order (send-Keeps allows _ 0) λ p.
            Keeps-bind allows.order
              (record { holds = λ s. (with_serializer-Keeps allows _).holds s })
              λ q. Keeps-pure allows.order

  -- Between the two writes, of the stream id and of the state, nothing else happens.
  created-Keeps :
      (purpose : TransactionPurpose) (arguments : Values) → Keeps R (created purpose arguments)
  unfolding created use_stream ◌>>=◌
  created-Keeps (play_request key) (cons (number x) rest) =
      let id = to_u32 x in
      let sent : (config : ClientSessionConfig)
          → Keeps {A = Results} R (
              send
                (user_control set_buffer_length (some id) (some config.playback_buffer_length_ms)
                  none)
                0
              >>= λ p.
                  (send (play_message key) id >>= λ q.
                  pure (outbound_response p ∷ outbound_response q ∷ []))) =
        λ config.
          Keeps-bind allows.order (send-Keeps allows _ 0)
            λ p. Keeps-bind allows.order (send-Keeps allows _ id) λ q. Keeps-pure allows.order in
      record {
        holds = λ s.
            let t = record s {
              current_state = ClientState.play_requested;
              active_stream_id = some id;
            } in
            allows.order.through s t _ (allows.play_asked s id) ((sent s.config).holds t);
      }
  created-Keeps (publish_request key type) (cons (number x) rest) =
      let id = to_u32 x in
      let sent : Keeps {A = Results} R
          (send (publish_message key type) id >>= λ p. pure (outbound_response p ∷ [])) =
        Keeps-bind allows.order (send-Keeps allows _ id) λ p. Keeps-pure allows.order in
      record {
        holds = λ s.
            let t = record s {
              current_state = ClientState.publish_requested;
              active_stream_id = some id;
            } in
            allows.order.through s t _ (allows.publish_asked s id) (sent.holds t);
      }
  created-Keeps purpose _ = Keeps-raise allows.order

  succeeded-Keeps :
      (id : ℕ) (value : Value) (arguments : Values) (transaction : Option OutstandingTransaction)
      → Keeps R (succeeded id value arguments transaction)
  unfolding succeeded
  succeeded-Keeps id value arguments none = Keeps-pure allows.order
  succeeded-Keeps id value arguments (some (connection_requested app_name)) =
      connected_as-Keeps app_name
  succeeded-Keeps id value arguments (some (create_stream purpose)) =
      created-Keeps purpose arguments

  handle_amf0_command-Keeps :
      (name : List ℕ) (id : ℕ) (value : Value) (arguments : Values)
      → Keeps R (handle_amf0_command name id value arguments)
  unfolding handle_amf0_command handle_amf0_command_success_result handle_amf0_command_failed_result
  handle_amf0_command-Keeps name id value arguments =
      Keeps-if allows.order (bytes_eq name (text "_result"))
        (Keeps-bind allows.order (take_transaction-Keeps allows _)
          (succeeded-Keeps id value arguments))
        (Keeps-if allows.order (bytes_eq name (text "_error"))
          (Keeps-bind allows.order (take_transaction-Keeps allows _)
            (failed-Keeps allows id value arguments))
          (Keeps-if allows.order (bytes_eq name (text "onStatus"))
            (handle_on_status_command-Keeps allows arguments) (Keeps-pure allows.order)))

  handle_user_control-Keeps :
      (event : UserControlEventType) (time : Option RtmpTimestamp)
      → Keeps R (handle_user_control event time)
  unfolding handle_user_control handle_ping_request handle_ping_response
  handle_user_control-Keeps ping_request time =
      Keeps-bind allows.order (send-Keeps allows _ 0) λ p. Keeps-pure allows.order
  handle_user_control-Keeps ping_response time = Keeps-pure allows.order
  handle_user_control-Keeps _ time = Keeps-pure allows.order

  pub handle_message-Keeps :
      (payload : MessagePayload) (message : RtmpMessage) → Keeps R (handle_message payload message)
  unfolding handle_message handle_acknowledgement
  handle_message-Keeps payload (acknowledgement n) = Keeps-pure allows.order
  handle_message-Keeps payload (amf0_command name id value arguments) =
      handle_amf0_command-Keeps name id value arguments
  handle_message-Keeps payload (amf0_data values) =
      handle_amf0_data-Keeps allows values payload.message_stream_id
  handle_message-Keeps payload (audio_data bytes) =
      handle_audio_data-Keeps allows payload.message_stream_id bytes payload.timestamp
  handle_message-Keeps payload (video_data bytes) =
      handle_video_data-Keeps allows payload.message_stream_id bytes payload.timestamp
  handle_message-Keeps payload (user_control event id buffer time) =
      handle_user_control-Keeps event time
  handle_message-Keeps payload (window_acknowledgement size) =
      handle_window_ack_size-Keeps allows size
  handle_message-Keeps payload (set_chunk_size size) = handle_set_chunk_size-Keeps allows size
  handle_message-Keeps payload (abort id) = Keeps-pure allows.order
  handle_message-Keeps payload (set_peer_bandwidth size limit) = Keeps-pure allows.order
  handle_message-Keeps payload (unknown type_id bytes) = Keeps-pure allows.order
