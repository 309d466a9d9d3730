-- ===== src/Session/Server/Streams.antt =====
-- The commands that open, close and delete a stream.
use rust_media_libs.Prelude.{ℕ, Option, none, some, List, [], ◌∷◌}
use rust_media_libs.Bytes.{ByteOrder}
use rust_media_libs.HashMap
use rust_media_libs.Float.Defs.{of_u32, to_u32}
use rust_media_libs.Amf0.Value.{Values, number, null, nil, cons}
use rust_media_libs.Session.Action.{pure, gets, modify, checked_add, ◌>>=◌, ◌>>◌, Environment}
use rust_media_libs.Session.Server.Types.{
  SessionState, StreamState, created, publishing, playing, ActiveStream, ServerSession,
  outbound_response, raised_event, publish_stream_finished, play_stream_finished,
}
use rust_media_libs.Session.Server.Send.{Session, Results, create_success_response}

-- The name of the application, if the session is connected: the first two guards of most handlers.
abbrev pub name_if_connected : SessionState → Option (List ℕ) → Option (List ℕ)
name_if_connected SessionState.started name = none
name_if_connected SessionState.connected name = name

abbrev pub connected_app : ServerSession → Option (List ℕ)
connected_app s = name_if_connected s.current_state s.connected_app_name

-- The stream id in the first argument.
abbrev pub stream_argument : Values → Option ℕ
stream_argument (cons (number x) rest) = some (to_u32 x)
stream_argument _ = none

abbrev pub found_stream : List ℕ → ℕ → Option ActiveStream → Option (List ℕ × ℕ × ActiveStream)
found_stream app_name stream_id none = none
found_stream app_name stream_id (some stream) = some (app_name, stream_id, stream)

abbrev pub stream_of :
    Option (List ℕ) → Option ℕ → List (ℕ × ActiveStream) → Option (List ℕ × ℕ × ActiveStream)
stream_of (some app_name) (some stream_id) streams =
    found_stream app_name stream_id (HashMap.get stream_id streams)
stream_of _ _ streams = none

-- The application, the stream id and the stream that a command is about, if it has all three.
abbrev pub target : Values → ServerSession → Option (List ℕ × ℕ × ActiveStream)
target arguments s = stream_of (connected_app s) (stream_argument arguments) s.active_streams

-- The event for a stream that was in use.
abbrev pub finished : List ℕ → StreamState → Results
finished app_name (publishing stream_key mode) =
    raised_event (publish_stream_finished app_name stream_key) ∷ []
finished app_name (playing stream_key) =
    raised_event (play_stream_finished app_name stream_key) ∷ []
finished app_name _ = []

abbrev pub set_stream : ℕ → StreamState → ServerSession → ServerSession
set_stream stream_id state s = record s {
  active_streams = HashMap.insert stream_id (record { current_state = state }) s.active_streams;
}

unfoldable pub close_found : Option (List ℕ × ℕ × ActiveStream) → Session Results
close_found none = pure []
close_found (some (app_name, stream_id, stream)) =
    modify (set_stream stream_id created) >> pure (finished app_name stream.current_state)

unfoldable pub handle_command_close_stream : Values → Session Results
handle_command_close_stream arguments = gets (target arguments) >>= close_found

abbrev pub remove_stream : ℕ → ServerSession → ServerSession
remove_stream stream_id s = record s { active_streams = HashMap.remove stream_id s.active_streams }

unfoldable pub delete_found : Option (List ℕ × ℕ × ActiveStream) → Session Results
delete_found none = pure []
delete_found (some (app_name, stream_id, stream)) =
    modify (remove_stream stream_id) >> pure (finished app_name stream.current_state)

unfoldable pub handle_command_delete_stream : Values → Session Results
handle_command_delete_stream arguments = gets (target arguments) >>= delete_found

-- A new stream, and its number, which is counted.
unfoldable pub open_stream : Session ℕ
open_stream = do
  new_stream_id ← gets (λ s. s.next_stream_id)
  next ← checked_add 32 new_stream_id 1
  modify (λ s. set_stream new_stream_id created (record s { next_stream_id = next }))
  pure new_stream_id

module _ ⦃bo : ByteOrder⦄ ⦃env : Environment⦄ where
  unfoldable pub handle_command_create_stream : ℕ → Session Results
  handle_command_create_stream transaction_id = do
    new_stream_id ← open_stream
    packet ←
        create_success_response transaction_id null (cons (number (of_u32 new_stream_id)) nil) 0
    pure (outbound_response packet ∷ [])
