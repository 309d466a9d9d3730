-- ===== src/Session/Server/Keep/Commands.antt =====
-- What the handlers that may answer change, and with them a message.
use rust_media_libs.Prelude.{ℕ, false, Option, none, some, List, bytes_eq}
use rust_media_libs.Bytes.{ByteOrder}
use rust_media_libs.Text.{text}
use rust_media_libs.Time.{RtmpTimestamp}
use rust_media_libs.Amf0.Value.{Value, Values, utf8_string, nil, cons}
use rust_media_libs.Message.Payload.{MessagePayload}
use rust_media_libs.Message.Types.{
  RtmpMessage, UserControlEventType, unknown, abort, acknowledgement, amf0_command, amf0_data,
  audio_data, set_chunk_size, set_peer_bandwidth, user_control, video_data, window_acknowledgement,
  ping_request, ping_response,
}
use rust_media_libs.Session.Action.{Environment}
use rust_media_libs.Session.Keeps.{Keeps, Keeps-bind, Keeps-pure, Keeps-gets, Keeps-if}
use rust_media_libs.Session.Server.Types.{ServerSession, PublishMode}
use rust_media_libs.Session.Server.Streams.{handle_command_create_stream}
use rust_media_libs.Session.Server.Commands.{
  publish_as, publish_connected, handle_command_publish, play_connected, handle_command_play,
  handle_amf0_command,
}
use rust_media_libs.Session.Server.Media.{
  handle_abort_message, handle_acknowledgement_message, handle_user_control,
}
use rust_media_libs.Session.Server.Input.{handle_message}
use rust_media_libs.Session.Server.Keep.Sends.{
  send-Keeps, create_success_response-Keeps, create_error_response-Keeps, refuse-Keeps,
}
use rust_media_libs.Session.Server.Keep.Allows.{AllowsMessage}
use rust_media_libs.Session.Server.Keep.Handlers.{
  keep_request-Keeps, handle_command_connect-Keeps, open_stream-Keeps,
  handle_command_close_stream-Keeps, handle_command_delete_stream-Keeps, handle_audio_data-Keeps,
  handle_video_data-Keeps, handle_amf0_data-Keeps, handle_set_chunk_size-Keeps,
  handle_window_acknowledgement-Keeps, order,
}

module _ ⦃bo : ByteOrder⦄ ⦃env : Environment⦄ {R : ServerSession → ServerSession → Type 0}
    (allows : AllowsMessage R) where
  pub handle_command_create_stream-Keeps : (id : ℕ) → Keeps R (handle_command_create_stream id)
  unfolding handle_command_create_stream
  handle_command_create_stream-Keeps id = Keeps-bind (order allows) (open_stream-Keeps allows) λ n.
      Keeps-bind (order allows) (create_success_response-Keeps allows.blind id _ _ 0)
        λ p. Keeps-pure (order allows)

  pub publish_as-Keeps :
      (id transaction : ℕ) (app key : List ℕ) (mode : Option PublishMode)
      → Keeps R (publish_as id transaction app key mode)
  unfolding publish_as
  publish_as-Keeps id transaction app key (some mode) =
      Keeps-bind (order allows) (keep_request-Keeps allows _) λ n. Keeps-pure (order allows)
  publish_as-Keeps id transaction app key none =
      Keeps-bind (order allows) (create_error_response-Keeps allows.blind transaction _ _ id)
        λ p. Keeps-pure (order allows)

  pub publish_connected-Keeps :
      (id transaction : ℕ) (app : Option (List ℕ)) (key mode : Value)
      → Keeps R (publish_connected id transaction app key mode)
  unfolding publish_connected
  publish_connected-Keeps id transaction none key mode =
      refuse-Keeps allows.blind _ _ transaction id
  publish_connected-Keeps id transaction (some app) (utf8_string key) (utf8_string mode) =
      publish_as-Keeps id transaction app key _
  publish_connected-Keeps id transaction (some app) _ _ =
      refuse-Keeps allows.blind _ _ transaction id

  pub handle_command_publish-Keeps :
      (id transaction : ℕ) (arguments : Values)
      → Keeps R (handle_command_publish id transaction arguments)
  unfolding handle_command_publish
  handle_command_publish-Keeps id transaction (cons key (cons mode rest)) =
      Keeps-bind (order allows) (Keeps-gets (order allows))
        λ app. publish_connected-Keeps id transaction app key mode
  handle_command_publish-Keeps id transaction _ = refuse-Keeps allows.blind _ _ transaction id

  pub play_connected-Keeps :
      (id transaction : ℕ) (app : Option (List ℕ)) (key : Value) (options : Values)
      → Keeps R (play_connected id transaction app key options)
  unfolding play_connected
  play_connected-Keeps id transaction none key options =
      refuse-Keeps allows.blind _ _ transaction id
  play_connected-Keeps id transaction (some app) (utf8_string key) options =
      Keeps-bind (order allows) (keep_request-Keeps allows _) λ n. Keeps-pure (order allows)
  play_connected-Keeps id transaction (some app) _ options =
      refuse-Keeps allows.blind _ _ transaction id

  pub handle_command_play-Keeps :
      (id transaction : ℕ) (arguments : Values)
      → Keeps R (handle_command_play id transaction arguments)
  unfolding handle_command_play
  handle_command_play-Keeps id transaction nil = refuse-Keeps allows.blind _ _ transaction id
  handle_command_play-Keeps id transaction (cons key options) =
      Keeps-bind (order allows) (Keeps-gets (order allows))
        λ app. play_connected-Keeps id transaction app key options

  pub handle_amf0_command-Keeps :
      (id : ℕ) (name : List ℕ) (transaction : ℕ) (value : Value) (arguments : Values)
      → Keeps R (handle_amf0_command id name transaction value arguments)
  unfolding handle_amf0_command
  handle_amf0_command-Keeps id name transaction value arguments =
      Keeps-if (order allows) (bytes_eq name (text "connect"))
        (handle_command_connect-Keeps allows transaction value)
        (Keeps-if (order allows) (bytes_eq name (text "closeStream"))
          (handle_command_close_stream-Keeps allows arguments)
          (Keeps-if (order allows) (bytes_eq name (text "createStream"))
            (handle_command_create_stream-Keeps transaction)
            (Keeps-if (order allows) (bytes_eq name (text "deleteStream"))
              (handle_command_delete_stream-Keeps allows arguments)
              (Keeps-if (order allows) (bytes_eq name (text "play"))
                (handle_command_play-Keeps id transaction arguments)
                (Keeps-if (order allows) (bytes_eq name (text "publish"))
                  (handle_command_publish-Keeps id transaction arguments)
                  (Keeps-pure (order allows)))))))

  pub handle_user_control-Keeps :
      (event : UserControlEventType) (time : Option RtmpTimestamp)
      → Keeps R (handle_user_control event time)
  unfolding handle_user_control
  handle_user_control-Keeps ping_request time =
      Keeps-bind (order allows) (send-Keeps allows.blind _ 0 false) λ p. Keeps-pure (order allows)
  handle_user_control-Keeps ping_response time = Keeps-pure (order allows)
  handle_user_control-Keeps _ time = Keeps-pure (order allows)

  pub handle_message-Keeps :
      (payload : MessagePayload) (message : RtmpMessage) → Keeps R (handle_message payload message)
  unfolding handle_message handle_abort_message handle_acknowledgement_message
  handle_message-Keeps payload (abort id) = Keeps-pure (order allows)
  handle_message-Keeps payload (acknowledgement n) = Keeps-pure (order allows)
  handle_message-Keeps payload (amf0_command name id value arguments) =
      handle_amf0_command-Keeps payload.message_stream_id name id value arguments
  handle_message-Keeps payload (amf0_data values) =
      handle_amf0_data-Keeps allows values payload.message_stream_id
  handle_message-Keeps payload (audio_data bytes) =
      handle_audio_data-Keeps allows bytes payload.message_stream_id payload.timestamp
  handle_message-Keeps payload (set_chunk_size size) = handle_set_chunk_size-Keeps allows size
  handle_message-Keeps payload (set_peer_bandwidth size limit) = Keeps-pure (order allows)
  handle_message-Keeps payload (user_control event id buffer time) =
      handle_user_control-Keeps event time
  handle_message-Keeps payload (video_data bytes) =
      handle_video_data-Keeps allows bytes payload.message_stream_id payload.timestamp
  handle_message-Keeps payload (window_acknowledgement size) =
      handle_window_acknowledgement-Keeps allows size
  handle_message-Keeps payload (unknown type_id bytes) = Keeps-pure (order allows)
