-- ===== src/Session/Client/Keep/Handlers.antt =====
-- What the handlers of a client session that send nothing change.
use rust_media_libs.Prelude.{
  ℕ, Bool, true, false, Option, none, some, List, ◌≡◌, refl, bytes_eq, Outcome, ok, err, panicked,
  out_of_fuel,
}
use rust_media_libs.Text.{text}
use rust_media_libs.Time.{RtmpTimestamp}
use rust_media_libs.Amf0.Value.{Value, Values, utf8_string, object, cons}
use rust_media_libs.Chunk.Deserializer.{ChunkDeserializer, ChunkDeserializationError}
use rust_media_libs.Session.Action.{◌>>=◌}
use rust_media_libs.Session.Keeps.{
  Keeps, Keeps-bind, Keeps-pure, Keeps-raise, Keeps-gets, Keeps-modify, Keeps-if, Keeps-checked_add,
}
use rust_media_libs.Session.Client.Types.{
  ClientState, OutstandingTransaction, connection_requested, create_stream, ClientSession,
  ClientSessionEvent,
}
use rust_media_libs.Session.Client.Media.{
  is_active_on, media_event, handle_video_data, handle_audio_data, handle_amf0_data_on_meta_data,
  data_on_active, handle_amf0_data, handle_window_ack_size, with_deserializer, set_peer_chunk_size,
  handle_set_chunk_size,
}
use rust_media_libs.Session.Client.Commands.{
  take_transaction, failed, play_start_from, handle_play_start, publish_start_from,
  handle_publish_start, handle_status_code, handle_status, handle_on_status_command,
}
use rust_media_libs.Session.Client.Input.{count_bytes}
use rust_media_libs.Session.Client.Keep.Sends.{Allows}

module _ {R : ClientSession → ClientSession → Type 0} (allows : Allows R) where
  pub media_event-Keeps :
      (event : ClientSessionEvent) (active : Bool) (state : ClientState)
      → Keeps R (media_event event active state)
  media_event-Keeps event true ClientState.play_requested = Keeps-pure allows.order
  media_event-Keeps event true ClientState.playing = Keeps-pure allows.order
  media_event-Keeps event false ClientState.play_requested = Keeps-pure allows.order
  media_event-Keeps event false ClientState.playing = Keeps-pure allows.order
  media_event-Keeps event true ClientState.disconnected = Keeps-raise allows.order
  media_event-Keeps event true ClientState.connected = Keeps-raise allows.order
  media_event-Keeps event true ClientState.publish_requested = Keeps-raise allows.order
  media_event-Keeps event true ClientState.publishing = Keeps-raise allows.order
  media_event-Keeps event false ClientState.disconnected = Keeps-raise allows.order
  media_event-Keeps event false ClientState.connected = Keeps-raise allows.order
  media_event-Keeps event false ClientState.publish_requested = Keeps-raise allows.order
  media_event-Keeps event false ClientState.publishing = Keeps-raise allows.order

  pub handle_video_data-Keeps :
      (id : ℕ) (bytes : List ℕ) (time : RtmpTimestamp) → Keeps R (handle_video_data id bytes time)
  unfolding handle_video_data
  handle_video_data-Keeps id bytes time = record {
    holds = λ s. (media_event-Keeps _ (is_active_on id s.active_stream_id) s.current_state).holds s;
  }

  pub handle_audio_data-Keeps :
      (id : ℕ) (bytes : List ℕ) (time : RtmpTimestamp) → Keeps R (handle_audio_data id bytes time)
  unfolding handle_audio_data
  handle_audio_data-Keeps id bytes time = record {
    holds = λ s. (media_event-Keeps _ (is_active_on id s.active_stream_id) s.current_state).holds s;
  }

  pub handle_amf0_data_on_meta_data-Keeps :
      (values : Values) → Keeps R (handle_amf0_data_on_meta_data values)
  unfolding handle_amf0_data_on_meta_data
  handle_amf0_data_on_meta_data-Keeps (cons (object properties) rest) = Keeps-pure allows.order
  handle_amf0_data_on_meta_data-Keeps _ = Keeps-pure allows.order

  pub data_on_active-Keeps : (values : Values) → Keeps R (data_on_active values)
  data_on_active-Keeps (cons (utf8_string value) rest) =
      Keeps-if allows.order (bytes_eq value (text "onMetaData"))
        (handle_amf0_data_on_meta_data-Keeps rest) (Keeps-pure allows.order)
  data_on_active-Keeps _ = Keeps-pure allows.order

  pub handle_amf0_data-Keeps : (values : Values) (id : ℕ) → Keeps R (handle_amf0_data values id)
  unfolding handle_amf0_data
  handle_amf0_data-Keeps values id = record {
    holds = λ s.
        (Keeps-if allows.order (is_active_on id s.active_stream_id) (data_on_active-Keeps values)
            (Keeps-pure allows.order)).holds
          s;
  }

  pub handle_window_ack_size-Keeps : (size : ℕ) → Keeps R (handle_window_ack_size size)
  unfolding handle_window_ack_size
  handle_window_ack_size-Keeps size =
      Keeps-bind allows.order (Keeps-modify allows.order λ s. allows.window s size)
        λ u. Keeps-pure allows.order

  pub with_deserializer-Keeps :
      (r : Outcome ChunkDeserializationError ChunkDeserializer) → Keeps R (with_deserializer r)
  with_deserializer-Keeps (ok d) = record { holds = λ s. allows.reader s d }
  with_deserializer-Keeps (err e) = record { holds = allows.order.same }
  with_deserializer-Keeps panicked = record { holds = allows.order.same }
  with_deserializer-Keeps out_of_fuel = record { holds = allows.order.same }

  pub handle_set_chunk_size-Keeps : (size : ℕ) → Keeps R (handle_set_chunk_size size)
  unfolding handle_set_chunk_size set_peer_chunk_size
  handle_set_chunk_size-Keeps size =
      Keeps-bind allows.order (record { holds = λ s. (with_deserializer-Keeps _).holds s })
        λ u. Keeps-pure allows.order

  pub take_transaction-Keeps : (id : ℕ) → Keeps R (take_transaction id)
  unfolding take_transaction
  take_transaction-Keeps id = Keeps-bind allows.order (Keeps-gets allows.order) λ transaction.
      Keeps-bind allows.order (Keeps-modify allows.order λ s. allows.transactions s _)
        λ u. Keeps-pure allows.order

  pub failed-Keeps :
      (id : ℕ) (value : Value) (arguments : Values) (transaction : Option OutstandingTransaction)
      → Keeps R (failed id value arguments transaction)
  unfolding failed
  failed-Keeps id value arguments none = Keeps-pure allows.order
  failed-Keeps id value arguments (some (connection_requested app_name)) = Keeps-pure allows.order
  failed-Keeps id value arguments (some (create_stream purpose)) = Keeps-raise allows.order

  pub play_start_from-holds :
      (s : ClientSession) (state : ClientState)
      → s.current_state ≡ state
      → R s (play_start_from state s).1
  unfolding play_start_from ◌>>=◌
  play_start_from-holds s ClientState.play_requested e = allows.play_begun s e
  play_start_from-holds s _ e = allows.order.same s

  pub publish_start_from-holds :
      (s : ClientSession) (state : ClientState)
      → s.current_state ≡ state
      → R s (publish_start_from state s).1
  unfolding publish_start_from ◌>>=◌
  publish_start_from-holds s ClientState.publish_requested e = allows.publish_begun s e
  publish_start_from-holds s _ e = allows.order.same s

  pub handle_status_code-Keeps : (code : List ℕ) → Keeps R (handle_status_code code)
  unfolding handle_status_code handle_play_start handle_publish_start ◌>>=◌
  handle_status_code-Keeps code =
      Keeps-if allows.order (bytes_eq code (text "NetStream.Play.Start"))
        (record { holds = λ s. play_start_from-holds s s.current_state refl })
        (Keeps-if allows.order (bytes_eq code (text "NetStream.Publish.Start"))
          (record { holds = λ s. publish_start_from-holds s s.current_state refl })
          (Keeps-pure allows.order))

  pub handle_status-Keeps : (code : Option Value) → Keeps R (handle_status code)
  unfolding handle_status
  handle_status-Keeps (some (utf8_string code)) = handle_status_code-Keeps code
  handle_status-Keeps _ = Keeps-raise allows.order

  pub handle_on_status_command-Keeps :
      (arguments : Values) → Keeps R (handle_on_status_command arguments)
  unfolding handle_on_status_command
  handle_on_status_command-Keeps (cons (object properties) rest) = handle_status-Keeps _
  handle_on_status_command-Keeps _ = Keeps-raise allows.order

  pub count_bytes-Keeps : (bytes : List ℕ) → Keeps R (count_bytes bytes)
  unfolding count_bytes
  count_bytes-Keeps bytes = Keeps-bind allows.order (Keeps-gets allows.order) λ received.
      Keeps-bind allows.order (Keeps-checked_add allows.order 64 received _)
        λ total. Keeps-modify allows.order λ s. allows.received s total
