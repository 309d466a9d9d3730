-- ===== src/Session/Server/Requests.antt =====
-- What the application answers to a request: `accept_request` and `reject_request`.
use rust_media_libs.Prelude.{ℕ, false, Option, none, some, List, [], ◌∷◌, ◌++◌}
use rust_media_libs.Text.{text}
use rust_media_libs.Bytes.{ByteOrder}
use rust_media_libs.HashMap
use rust_media_libs.Amf0.Value.{
  Properties, number, boolean, utf8_string, object, null, nil, cons, end, insert,
}
use rust_media_libs.Message.Types.{RtmpMessage, amf0_command, amf0_data, user_control, stream_begin}
use rust_media_libs.Session.Action.{pure, raise, gets, modify, ◌>>=◌, ◌>>◌, Environment}
use rust_media_libs.Session.Server.Types.{
  SessionState, PublishMode, StreamState, publishing, playing, OutstandingRequest,
  connection_request, publish_requested, play_requested, outbound_response, invalid_request_id,
  action_attempted_on_inactive_stream,
}
use rust_media_libs.Session.Server.Send.{
  Session, Results, create_status_object, create_error_packet, send,
}
use rust_media_libs.Session.Server.Streams.{set_stream}

-- A status of a stream.
abbrev pub status_message : Properties → RtmpMessage
status_message properties = amf0_command (text "onStatus") 0 null (cons (object properties) nil)

abbrev pub stream_begin_message : ℕ → RtmpMessage
stream_begin_message stream_id = user_control stream_begin (some stream_id) none none

abbrev pub publish_status : List ℕ → Properties
publish_status stream_key =
    create_status_object (text "status") (text "NetStream.Publish.Start")
      (text "Successfully started publishing on stream key " ++ stream_key)

abbrev pub play_status : List ℕ → Properties
play_status stream_key =
    create_status_object (text "status") (text "NetStream.Play.Start")
      (text "Successfully started playback on stream key " ++ stream_key)

abbrev pub reset_status : Properties
reset_status =
    create_status_object (text "status") (text "NetStream.Play.Reset") (text "Reset stream")

abbrev pub access_message : RtmpMessage
access_message = amf0_data (
    cons (utf8_string (text "|RtmpSampleAccess")) (cons (boolean false) (cons (boolean false) nil)))

abbrev pub data_start_message : RtmpMessage
data_start_message = amf0_data (
    cons (utf8_string (text "onStatus"))
      (cons (object (insert (text "code") (utf8_string (text "NetStream.Data.Start")) end)) nil))

abbrev pub connect_reply : List ℕ → ℕ → List ℕ → ℕ → RtmpMessage
connect_reply fms_version object_encoding app_name transaction_id =
    amf0_command (text "_result") transaction_id
      (object (
        insert (text "capabilities") (number 4629418941960159232)
          (insert (text "fmsVer") (utf8_string fms_version) end)))
      (cons
        (object (
          insert (text "objectEncoding") (number object_encoding) (
            create_status_object (text "status") (text "NetConnection.Connect.Success")
              (text "Successfully connected on app: " ++ app_name))))
        nil)

-- The state that an accepted request gives its stream, if there is such a stream.
unfoldable pub start_stream : List ℕ → ℕ → StreamState → Session (Unit {0})
start_stream action stream_id state = do
  stream ← gets (λ s. HashMap.get stream_id s.active_streams)
  elim stream [
    | none ↦ raise (action_attempted_on_inactive_stream action stream_id)
    | some found ↦ modify (set_stream stream_id state)
  ]

abbrev pub found_request : Option OutstandingRequest → Session OutstandingRequest
found_request none = raise invalid_request_id
found_request (some request) = pure request

unfoldable pub take_request : ℕ → Session OutstandingRequest
take_request request_id = do
  request ← gets (λ s. HashMap.get request_id s.outstanding_requests)
  modify (λ s. record s { outstanding_requests = HashMap.remove request_id s.outstanding_requests })
  found_request request

module _ ⦃bo : ByteOrder⦄ ⦃env : Environment⦄ where
  unfoldable pub accept_connection_request : List ℕ → ℕ → Session Results
  accept_connection_request app_name transaction_id = do
    modify (λ s. record s {
      connected_app_name = some app_name;
      current_state = SessionState.connected;
    })
    reply ← gets (λ s. connect_reply s.fms_version s.object_encoding app_name transaction_id)
    packet ← send reply 0 false
    pure (outbound_response packet ∷ [])

  unfoldable pub accept_publish_request : ℕ → List ℕ → PublishMode → Session Results
  accept_publish_request stream_id stream_key mode = do
    start_stream (text "publish") stream_id (publishing stream_key mode)
    stream_begin_packet ← send (stream_begin_message stream_id) stream_id false
    publish_packet ← send (status_message (publish_status stream_key)) stream_id false
    pure (outbound_response stream_begin_packet ∷ outbound_response publish_packet ∷ [])

  -- The reset is serialized last and handed out first.
  unfoldable pub accept_play_request : ℕ → List ℕ → Session Results
  accept_play_request stream_id stream_key = do
    start_stream (text "play") stream_id (playing stream_key)
    stream_begin_packet ← send (stream_begin_message stream_id) stream_id false
    start_packet ← send (status_message (play_status stream_key)) stream_id false
    data1_packet ← send access_message stream_id false
    data2_packet ← send data_start_message stream_id false
    reset_packet ← send (status_message reset_status) stream_id false
    pure (
        outbound_response reset_packet
        ∷ outbound_response stream_begin_packet
        ∷ outbound_response start_packet
        ∷ outbound_response data1_packet
        ∷ outbound_response data2_packet
        ∷ [])

  unfoldable pub accept : OutstandingRequest → Session Results
  accept (connection_request app_name transaction_id) =
      accept_connection_request app_name transaction_id
  accept (publish_requested stream_key mode stream_id) =
      accept_publish_request stream_id stream_key mode
  accept (play_requested stream_key stream_id) = accept_play_request stream_id stream_key

  unfoldable pub accept_request : ℕ → Session Results
  accept_request request_id = take_request request_id >>= accept

  -- The transaction id and the stream id of a rejection.
  abbrev pub rejection_of : OutstandingRequest → ℕ × ℕ
  rejection_of (connection_request app_name transaction_id) = (transaction_id, 0)
  rejection_of (publish_requested stream_key mode stream_id) = (0, stream_id)
  rejection_of (play_requested stream_key stream_id) = (0, stream_id)

  unfoldable pub reject_request : ℕ → List ℕ → List ℕ → Session Results
  reject_request request_id code description = do
    request ← take_request request_id
    packet ← create_error_packet code description (rejection_of request).0 (rejection_of request).1
    pure (outbound_response packet ∷ [])
