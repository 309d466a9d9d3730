-- ===== src/Session/Client/Requests.antt =====
-- What the application asks of the server: to connect, to play, to publish, and to stop.
use rust_media_libs.Prelude.{ℕ, Option, none, some, List, [], ◌∷◌}
use rust_media_libs.Text.{text}
use rust_media_libs.Bytes.{ByteOrder}
use rust_media_libs.HashMap
use rust_media_libs.Float.Defs.{of_u32}
use rust_media_libs.Amf0.Value.{
  Properties, number, utf8_string, object, null, nil, cons, end, insert,
}
use rust_media_libs.Message.Types.{RtmpMessage, amf0_command}
use rust_media_libs.Session.Action.{
  pure, raise, gets, modify, checked_add, ◌>>=◌, ◌>>◌, Environment,
}
use rust_media_libs.Session.Client.Types.{
  ClientState, PublishRequestType, TransactionPurpose, play_request, publish_request,
  OutstandingTransaction, connection_requested, create_stream, ClientSessionResult,
  outbound_response, cant_connect_while_already_connected, session_in_invalid_state,
}
use rust_media_libs.Session.Client.Send.{Session, Results, send}

unfoldable pub get_next_transaction_id : Session ℕ
get_next_transaction_id = do
  transaction_id ← gets (λ s. s.next_transaction_id)
  next ← checked_add 32 transaction_id 1
  modify (λ s. record s { next_transaction_id = next })
  pure transaction_id

-- The number of a new transaction, which is kept under it.
unfoldable pub keep_transaction : OutstandingTransaction → Session ℕ
keep_transaction transaction = do
  transaction_id ← get_next_transaction_id
  modify (λ s. record s {
    outstanding_transactions = HashMap.insert transaction_id transaction s.outstanding_transactions;
  })
  pure transaction_id

abbrev pub insert_tc_url : Option (List ℕ) → Properties → Properties
insert_tc_url none properties = properties
insert_tc_url (some tc_url) properties = insert (text "tcUrl") (utf8_string tc_url) properties

abbrev pub connect_message : ℕ → List ℕ → List ℕ → Option (List ℕ) → RtmpMessage
connect_message transaction_id app_name flash_version tc_url =
    amf0_command (text "connect") (of_u32 transaction_id)
      (object (
        insert_tc_url tc_url (
          insert (text "objectEncoding") (number 0) (
            insert (text "flashVer") (utf8_string flash_version)
              (insert (text "app") (utf8_string app_name) end)))))
      nil

abbrev pub create_stream_message : ℕ → RtmpMessage
create_stream_message transaction_id =
    amf0_command (text "createStream") (of_u32 transaction_id) null nil

abbrev pub delete_stream_message : ℕ → RtmpMessage
delete_stream_message stream_id =
    amf0_command (text "deleteStream") 0 null (cons (number (of_u32 stream_id)) nil)

module _ ⦃bo : ByteOrder⦄ ⦃env : Environment⦄ where
  unfoldable pub connect_from : List ℕ → ClientState → Session ClientSessionResult
  connect_from app_name ClientState.disconnected = do
    transaction_id ← keep_transaction (connection_requested app_name)
    message ←
        gets (λ s. connect_message transaction_id app_name s.config.flash_version s.config.tc_url)
    packet ← send message 0
    pure (outbound_response packet)
  connect_from app_name _ = raise cant_connect_while_already_connected

  unfoldable pub request_connection : List ℕ → Session ClientSessionResult
  request_connection app_name = gets (λ s. s.current_state) >>= connect_from app_name

  -- A stream is asked for, and the purpose of it kept, if the session is connected and idle.
  unfoldable pub create_from : TransactionPurpose → ClientState → Session ClientSessionResult
  create_from purpose ClientState.connected = do
    transaction_id ← keep_transaction (create_stream purpose)
    packet ← send (create_stream_message transaction_id) 0
    pure (outbound_response packet)
  create_from purpose state = raise (session_in_invalid_state state)

  unfoldable pub request_playback : List ℕ → Session ClientSessionResult
  request_playback stream_key =
      gets (λ s. s.current_state) >>= create_from (play_request stream_key)

  unfoldable pub request_publishing : List ℕ → PublishRequestType → Session ClientSessionResult
  request_publishing stream_key publish_type =
      gets (λ s. s.current_state) >>= create_from (publish_request stream_key publish_type)

  unfoldable pub delete_active : Option ℕ → Session Results
  delete_active none = pure []
  delete_active (some stream_id) = do
    packet ← send (delete_stream_message stream_id) stream_id
    pure (outbound_response packet ∷ [])

  -- The session is idle again, and the stream that it was active on is given back.
  unfoldable pub stop : Session Results
  stop = do
    active ← gets (λ s. s.active_stream_id)
    modify (λ s. record s { current_state = ClientState.connected; active_stream_id = none })
    delete_active active

  unfoldable pub stop_playback_from : ClientState → Session Results
  stop_playback_from ClientState.playing = stop
  stop_playback_from ClientState.play_requested = stop
  stop_playback_from _ = pure []

  unfoldable pub stop_playback : Session Results
  stop_playback = gets (λ s. s.current_state) >>= stop_playback_from

  unfoldable pub stop_publishing_from : ClientState → Session Results
  stop_publishing_from ClientState.publishing = stop
  stop_publishing_from ClientState.publish_requested = stop
  stop_publishing_from _ = pure []

  unfoldable pub stop_publishing : Session Results
  stop_publishing = gets (λ s. s.current_state) >>= stop_publishing_from
