-- ===== src/Session/Server/Commands.antt =====
-- The commands that ask the application for something: connect, publish and play.
use rust_media_libs.Prelude.{
  ℕ, Bool, false, Option, none, some, List, [], ◌∷◌, bytes_eq, if◌then◌else◌,
}
use rust_media_libs.Text.{text, to_lowercase, drop_slash}
use rust_media_libs.Bytes.{ByteOrder}
use rust_media_libs.HashMap
use rust_media_libs.Float.Defs.{to_u32, is_nonneg, is_minus_one, is_minus_two}
use rust_media_libs.Amf0.Value.{
  Value, Values, Properties, number, boolean, utf8_string, object, null, nil, cons, lookup, remove,
}
use rust_media_libs.Session.Action.{
  pure, raise, gets, modify, checked_add, ◌>>=◌, ◌>>◌, Environment,
}
use rust_media_libs.Session.Server.Types.{
  PublishMode, live, recording, appending, OutstandingRequest, connection_request,
  publish_requested, play_requested, PlayStartValue, live_or_recorded, live_only,
  start_time_in_seconds, outbound_response, raised_event, connection_requested,
  publish_stream_requested, play_stream_requested, unhandleable_amf0_command,
  no_app_name_for_connection_request,
}
use rust_media_libs.Session.Server.Send.{
  Session, Results, create_status_object, create_error_response, refuse,
}
use rust_media_libs.Session.Server.Streams.{
  connected_app, handle_command_close_stream, handle_command_create_stream,
  handle_command_delete_stream,
}

-- The number of a new request, which is counted and kept.
unfoldable pub keep_request : OutstandingRequest → Session ℕ
keep_request request = do
  request_number ← gets (λ s. s.next_request_number)
  next ← checked_add 32 request_number 1
  modify (λ s. record s {
    next_request_number = next;
    outstanding_requests = HashMap.insert request_number request s.outstanding_requests;
  })
  pure request_number

-- The name of the application in a connection request.
abbrev pub app_name_of : Option Value → Session (List ℕ)
app_name_of (some (utf8_string app)) = pure (drop_slash app)
app_name_of _ = raise no_app_name_for_connection_request

abbrev pub encoding_of : Option Value → ℕ
encoding_of (some (number x)) = x
encoding_of _ = 0

unfoldable pub connect_with : ℕ → Properties → Session Results
connect_with transaction_id properties = do
  app_name ← app_name_of (lookup (text "app") properties)
  modify (λ s. record s {
    object_encoding = encoding_of (lookup (text "objectEncoding") (remove (text "app") properties));
  })
  request_id ← keep_request (connection_request app_name transaction_id)
  pure (raised_event (connection_requested request_id app_name) ∷ [])

unfoldable pub handle_command_connect : ℕ → Value → Session Results
handle_command_connect transaction_id (object properties) = connect_with transaction_id properties
handle_command_connect transaction_id _ = raise no_app_name_for_connection_request

abbrev pub mode_of : List ℕ → Option PublishMode
mode_of mode =
    if bytes_eq mode (text "live")
    then some live
    else if bytes_eq mode (text "append")
    then some appending
    else if bytes_eq mode (text "record")
    then some recording
    else none

module _ ⦃bo : ByteOrder⦄ ⦃env : Environment⦄ where
  abbrev pub refuse_publish : List ℕ → ℕ → ℕ → Session Results
  refuse_publish description transaction_id stream_id =
      refuse (text "NetStream.Publish.Start") description transaction_id stream_id

  -- The key and the mode are texts.
  unfoldable pub publish_as : ℕ → ℕ → List ℕ → List ℕ → Option PublishMode → Session Results
  publish_as stream_id transaction_id app_name stream_key (some mode) = do
    request_id ← keep_request (publish_requested stream_key mode stream_id)
    pure (raised_event (publish_stream_requested request_id app_name stream_key mode) ∷ [])
  publish_as stream_id transaction_id app_name stream_key none = do
    packet ←
        create_error_response transaction_id null
          (cons
            (object (
              create_status_object (text "error") (text "NetStream.Publish.Start")
                (text "Invalid publish mode given")))
            nil)
          stream_id
    pure (outbound_response packet ∷ [])

  -- The application's name, if the session is connected, with the first two arguments.
  unfoldable pub publish_connected : ℕ → ℕ → Option (List ℕ) → Value → Value → Session Results
  publish_connected stream_id transaction_id none key mode =
      refuse_publish (text "Can't publish before connecting") transaction_id stream_id
  publish_connected stream_id transaction_id (some app_name) (utf8_string stream_key)
        (utf8_string raw_mode) =
      publish_as stream_id transaction_id app_name stream_key (mode_of (to_lowercase raw_mode))
  publish_connected stream_id transaction_id (some app_name) _ _ =
      refuse_publish (text "Invalid publish arguments") transaction_id stream_id

  unfoldable pub handle_command_publish : ℕ → ℕ → Values → Session Results
  handle_command_publish stream_id transaction_id (cons key (cons mode rest)) =
      gets connected_app >>= λ app_name.
      publish_connected stream_id transaction_id app_name key mode
  handle_command_publish stream_id transaction_id _ =
      refuse_publish (text "Invalid publish arguments") transaction_id stream_id

-- The optional arguments of play.
abbrev pub start_of : Value → PlayStartValue
start_of (number x) =
    if is_minus_two x
    then live_or_recorded
    else if is_minus_one x
    then live_only
    else if is_nonneg x
    then start_time_in_seconds (to_u32 x)
    else live_or_recorded
start_of _ = live_or_recorded

abbrev pub duration_of : Value → Option ℕ
duration_of (number x) = if is_nonneg x then some (to_u32 x) else none
duration_of _ = none

abbrev pub reset_of : Value → Bool
reset_of (boolean x) = x
reset_of _ = false

unfoldable pub play_options : Values → PlayStartValue × Option ℕ × Bool
play_options nil = (live_or_recorded, none, false)
play_options (cons start nil) = (start_of start, none, false)
play_options (cons start (cons duration nil)) = (start_of start, duration_of duration, false)
play_options (cons start (cons duration (cons reset rest))) =
    (start_of start, duration_of duration, reset_of reset)

module _ ⦃bo : ByteOrder⦄ ⦃env : Environment⦄ where
  abbrev pub refuse_play : List ℕ → ℕ → ℕ → Session Results
  refuse_play description transaction_id stream_id =
      refuse (text "NetStream.Play.Start") description transaction_id stream_id

  unfoldable pub play_connected : ℕ → ℕ → Option (List ℕ) → Value → Values → Session Results
  play_connected stream_id transaction_id none key options =
      refuse_play (text "Can't play before connecting") transaction_id stream_id
  play_connected stream_id transaction_id (some app_name) (utf8_string stream_key) options = do
    let (start_at, duration, reset) = play_options options
    request_id ← keep_request (play_requested stream_key stream_id)
    pure (
        raised_event
          (play_stream_requested request_id app_name stream_key start_at duration reset stream_id)
        ∷ [])
  play_connected stream_id transaction_id (some app_name) _ options =
      refuse_play (text "Invalid play arguments") transaction_id stream_id

  unfoldable pub handle_command_play : ℕ → ℕ → Values → Session Results
  handle_command_play stream_id transaction_id nil =
      refuse_play (text "Invalid play arguments") transaction_id stream_id
  handle_command_play stream_id transaction_id (cons key options) =
      gets connected_app >>= λ app_name.
      play_connected stream_id transaction_id app_name key options

  unfoldable pub handle_amf0_command : ℕ → List ℕ → ℕ → Value → Values → Session Results
  handle_amf0_command stream_id name transaction_id command_object additional_args =
      if bytes_eq name (text "connect")
      then handle_command_connect transaction_id command_object
      else if bytes_eq name (text "closeStream")
      then handle_command_close_stream additional_args
      else if bytes_eq name (text "createStream")
      then handle_command_create_stream transaction_id
      else if bytes_eq name (text "deleteStream")
      then handle_command_delete_stream additional_args
      else if bytes_eq name (text "play")
      then handle_command_play stream_id transaction_id additional_args
      else if bytes_eq name (text "publish")
      then handle_command_publish stream_id transaction_id additional_args
      else pure (
          raised_event
            (unhandleable_amf0_command name transaction_id command_object additional_args)
          ∷ [])
