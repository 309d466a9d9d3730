-- ===== src/Session/Client/Commands.antt =====
-- The commands from the server: the answers to transactions, and the status of a stream.
use rust_media_libs.Prelude.{ℕ, Option, none, some, List, [], ◌∷◌, bytes_eq, if◌then◌else◌}
use rust_media_libs.Text.{text}
use rust_media_libs.Bytes.{ByteOrder}
use rust_media_libs.HashMap
use rust_media_libs.Time.{timestamp}
use rust_media_libs.Float.Defs.{to_u32}
use rust_media_libs.Amf0.Value.{Value, Values, number, utf8_string, object, null, nil, cons, lookup}
use rust_media_libs.Message.Types.{
  RtmpMessage, amf0_command, user_control, set_buffer_length, window_acknowledgement,
}
use rust_media_libs.Chunk.Serializer
use rust_media_libs.Chunk.Serializer.{Packet}
use rust_media_libs.Session.Action.{pure, raise, gets, modify, ◌>>=◌, ◌>>◌, Environment}
use rust_media_libs.Session.Client.Types.{
  ClientState, PublishRequestType, live, recording, appending, TransactionPurpose, play_request,
  publish_request, OutstandingTransaction, connection_requested, create_stream, outbound_response,
  raised_event, connection_request_accepted, connection_request_rejected, playback_request_accepted,
  publish_request_accepted, unhandleable_amf0_command, unknown_transaction_result_received,
  unhandleable_on_status_code, session_in_invalid_state, create_stream_failed,
  create_stream_response_had_no_stream_number, invalid_on_status_arguments,
}
use rust_media_libs.Session.Client.Send.{Session, Results, with_serializer, send}

unfoldable pub take_transaction : ℕ → Session (Option OutstandingTransaction)
take_transaction transaction_id = do
  transaction ← gets (λ s. HashMap.get transaction_id s.outstanding_transactions)
  modify (λ s. record s {
    outstanding_transactions = HashMap.remove transaction_id s.outstanding_transactions;
  })
  pure transaction

abbrev pub unknown_result : ℕ → Value → Values → Results
unknown_result transaction_id command_object additional_args =
    raised_event (unknown_transaction_result_received transaction_id command_object additional_args)
    ∷ []

abbrev pub text_of : Option Value → List ℕ
text_of (some (utf8_string value)) = value
text_of _ = []

-- The description in the first argument of a rejection, or nothing.
abbrev pub description_of : Values → List ℕ
description_of (cons (object properties) rest) = text_of (lookup (text "description") properties)
description_of _ = []

unfoldable pub failed : ℕ → Value → Values → Option OutstandingTransaction → Session Results
failed transaction_id command_object additional_args none =
    pure (unknown_result transaction_id command_object additional_args)
failed transaction_id command_object additional_args (some (connection_requested app_name)) =
    pure (raised_event (connection_request_rejected (description_of additional_args)) ∷ [])
failed transaction_id command_object additional_args (some (create_stream purpose)) =
    raise create_stream_failed

unfoldable pub handle_amf0_command_failed_result : ℕ → Value → Values → Session Results
handle_amf0_command_failed_result transaction_id command_object additional_args =
    take_transaction (to_u32 transaction_id)
    >>= failed transaction_id command_object additional_args

abbrev pub mode_text : PublishRequestType → List ℕ
mode_text live = text "live"
mode_text recording = text "record"
mode_text appending = text "append"

abbrev pub play_message : List ℕ → RtmpMessage
play_message stream_key = amf0_command (text "play") 0 null (cons (utf8_string stream_key) nil)

abbrev pub publish_message : List ℕ → PublishRequestType → RtmpMessage
publish_message stream_key request_type =
    amf0_command (text "publish") 0 null
      (cons (utf8_string stream_key) (cons (utf8_string (mode_text request_type)) nil))

module _ ⦃bo : ByteOrder⦄ ⦃env : Environment⦄ where
  -- `self.serializer.set_max_chunk_size`
  unfoldable pub announce_chunk_size : ℕ → Session Packet
  announce_chunk_size size s =
      with_serializer
        (Serializer.set_max_chunk_size env.debug_assertions s.serializer size (timestamp 0)) s

  unfoldable pub connected_as : List ℕ → Session Results
  connected_as app_name = do
    modify (λ s. record s {
      current_state = ClientState.connected;
      connected_app_name = some app_name;
    })
    config ← gets (λ s. s.config)
    packet ← send (window_acknowledgement config.window_ack_size) 0
    chunk_size_packet ← announce_chunk_size config.chunk_size
    pure (
        outbound_response packet
        ∷ raised_event connection_request_accepted
        ∷ outbound_response chunk_size_packet
        ∷ [])

  -- The stream is there: it is put to the purpose that it was asked for.
  unfoldable pub use_stream : ℕ → TransactionPurpose → Session Results
  use_stream stream_id (play_request stream_key) = do
    modify (λ s. record s { current_state = ClientState.play_requested })
    config ← gets (λ s. s.config)
    buffer_packet ←
        send
          (user_control set_buffer_length (some stream_id) (some config.playback_buffer_length_ms)
            none)
          0
    play_packet ← send (play_message stream_key) stream_id
    pure (outbound_response buffer_packet ∷ outbound_response play_packet ∷ [])
  use_stream stream_id (publish_request stream_key request_type) = do
    modify (λ s. record s { current_state = ClientState.publish_requested })
    publish_packet ← send (publish_message stream_key request_type) stream_id
    pure (outbound_response publish_packet ∷ [])

  unfoldable pub created : TransactionPurpose → Values → Session Results
  created purpose (cons (number x) rest) =
      modify (λ s. record s { active_stream_id = some (to_u32 x) }) >> use_stream (to_u32 x) purpose
  created purpose _ = raise create_stream_response_had_no_stream_number

  unfoldable pub succeeded : ℕ → Value → Values → Option OutstandingTransaction → Session Results
  succeeded transaction_id command_object additional_args none =
      pure (unknown_result transaction_id command_object additional_args)
  succeeded transaction_id command_object additional_args (some (connection_requested app_name)) =
      connected_as app_name
  succeeded transaction_id command_object additional_args (some (create_stream purpose)) =
      created purpose additional_args

  unfoldable pub handle_amf0_command_success_result : ℕ → Value → Values → Session Results
  handle_amf0_command_success_result transaction_id command_object additional_args =
      take_transaction (to_u32 transaction_id)
      >>= succeeded transaction_id command_object additional_args

unfoldable pub play_start_from : ClientState → Session Results
play_start_from ClientState.play_requested = do
  modify (λ s. record s { current_state = ClientState.playing })
  pure (raised_event playback_request_accepted ∷ [])
play_start_from state = raise (session_in_invalid_state state)

unfoldable pub handle_play_start : Session Results
handle_play_start = gets (λ s. s.current_state) >>= play_start_from

unfoldable pub publish_start_from : ClientState → Session Results
publish_start_from ClientState.publish_requested = do
  modify (λ s. record s { current_state = ClientState.publishing })
  pure (raised_event publish_request_accepted ∷ [])
publish_start_from state = raise (session_in_invalid_state state)

unfoldable pub handle_publish_start : Session Results
handle_publish_start = gets (λ s. s.current_state) >>= publish_start_from

unfoldable pub handle_status_code : List ℕ → Session Results
handle_status_code code =
    if bytes_eq code (text "NetStream.Play.Start")
    then handle_play_start
    else if bytes_eq code (text "NetStream.Publish.Start")
    then handle_publish_start
    else pure (raised_event (unhandleable_on_status_code code) ∷ [])

unfoldable pub handle_status : Option Value → Session Results
handle_status (some (utf8_string code)) = handle_status_code code
handle_status _ = raise invalid_on_status_arguments

unfoldable pub handle_on_status_command : Values → Session Results
handle_on_status_command (cons (object properties) rest) =
    handle_status (lookup (text "code") properties)
handle_on_status_command _ = raise invalid_on_status_arguments

module _ ⦃bo : ByteOrder⦄ ⦃env : Environment⦄ where
  unfoldable pub handle_amf0_command : List ℕ → ℕ → Value → Values → Session Results
  handle_amf0_command name transaction_id command_object additional_args =
      if bytes_eq name (text "_result")
      then handle_amf0_command_success_result transaction_id command_object additional_args
      else if bytes_eq name (text "_error")
      then handle_amf0_command_failed_result transaction_id command_object additional_args
      else if bytes_eq name (text "onStatus")
      then handle_on_status_command additional_args
      else pure (
          raised_event
            (unhandleable_amf0_command name transaction_id command_object additional_args)
          ∷ [])
