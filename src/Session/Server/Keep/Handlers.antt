-- ===== src/Session/Server/Keep/Handlers.antt =====
-- What the handlers that send nothing change.
use rust_media_libs.Prelude.{
  ℕ, ◌+◌, ◌^◌, Option, none, some, Option-cases, List, ◌≡◌, refl, inl, inr, Bool-cases, bytes_eq,
  ltb, arith, Outcome, ok, err, panicked, out_of_fuel,
}
use rust_media_libs.Text.{text}
use rust_media_libs.HashMap
use rust_media_libs.Time.{RtmpTimestamp}
use rust_media_libs.Amf0.Value.{Value, Values, Properties, utf8_string, object, nil, cons}
use rust_media_libs.Chunk.Deserializer.{ChunkDeserializer, ChunkDeserializationError}
use rust_media_libs.Session.Action.{◌>>=◌}
use rust_media_libs.Session.Keeps.{
  IsPreorder, Keeps, Keeps-bind, Keeps-pure, Keeps-raise, Keeps-panic, Keeps-gets, Keeps-modify,
  Keeps-if,
}
use rust_media_libs.Session.Server.Types.{ServerSession, ActiveStream, OutstandingRequest}
use rust_media_libs.Session.Server.Send.{Results}
use rust_media_libs.Session.Server.Streams.{
  target, stream_of, stream_argument, close_found, delete_found, handle_command_close_stream,
  handle_command_delete_stream, open_stream, connected_app,
}
use rust_media_libs.Session.Server.Commands.{
  keep_request, app_name_of, connect_with, handle_command_connect,
}
use rust_media_libs.Session.Server.Media.{
  with_key, handle_audio_data, handle_video_data, metadata_event, handle_amf0_data_set_data_frame,
  handle_amf0_data, with_deserializer, set_peer_chunk_size, handle_set_chunk_size,
  handle_window_acknowledgement,
}
use rust_media_libs.Session.Server.Keep.Allows.{AllowsMessage}

-- The stream that a command is found to be about is one of the session's.
stream_of-get :
    (app : Option (List ℕ)) (argument : Option ℕ) (streams : List (ℕ × ActiveStream))
    (app_name : List ℕ) (id : ℕ) (stream : ActiveStream)
    → stream_of app argument streams ≡ some (app_name, id, stream)
    → HashMap.get id streams ≡ some stream
stream_of-get (some app) (some argument) streams app_name id stream e =
    elim (Option-cases (HashMap.get argument streams)) [
      | inl missing ↦ ground (arith, missing)
      | inr (found, known) ↦ ground (arith, known)
    ]
stream_of-get (some app) none streams app_name id stream e = cc
stream_of-get none argument streams app_name id stream e = cc

module _ {R : ServerSession → ServerSession → Type 0} (allows : AllowsMessage R) where
  abbrev pub order : IsPreorder R
  order = allows.blind.order

  pub keep_request-Keeps : (request : OutstandingRequest) → Keeps R (keep_request request)
  unfolding keep_request ◌>>=◌
  keep_request-Keeps request = record {
    holds = λ s. elim (Bool-cases (ltb (s.next_request_number + 1) (2 ^ 32))) [
      | inl e ↦ rw e (allows.asked s request)
      | inr e ↦ rw e (order.same s)
    ];
  }

  pub app_name_of-Keeps : (value : Option Value) → Keeps R (app_name_of value)
  app_name_of-Keeps (some (utf8_string app)) = Keeps-pure order
  app_name_of-Keeps _ = Keeps-raise order

  pub connect_with-Keeps : (id : ℕ) (properties : Properties) → Keeps R (connect_with id properties)
  unfolding connect_with
  connect_with-Keeps id properties = Keeps-bind order (app_name_of-Keeps _) λ app_name.
      Keeps-bind order (Keeps-modify order λ s. allows.encoding s _)
        λ u. Keeps-bind order (keep_request-Keeps _) λ n. Keeps-pure order

  pub handle_command_connect-Keeps :
      (id : ℕ) (value : Value) → Keeps R (handle_command_connect id value)
  unfolding handle_command_connect
  handle_command_connect-Keeps id (object properties) = connect_with-Keeps id properties
  handle_command_connect-Keeps id _ = Keeps-raise order

  pub open_stream-Keeps : Keeps R open_stream
  unfolding open_stream ◌>>=◌
  open_stream-Keeps = record {
    holds = λ s. elim (Bool-cases (ltb (s.next_stream_id + 1) (2 ^ 32))) [
      | inl e ↦ rw e (allows.opened s)
      | inr e ↦ rw e (order.same s)
    ];
  }

  pub close_found-Keeps :
      (s : ServerSession) (found : Option (List ℕ × ℕ × ActiveStream))
      → ((app_name : List ℕ) (id : ℕ) (stream : ActiveStream)
          → found ≡ some (app_name, id, stream)
          → HashMap.get id s.active_streams ≡ some stream)
      → R s (close_found found s).1
  unfolding close_found ◌>>=◌
  close_found-Keeps s none known = order.same s
  close_found-Keeps s (some (app_name, id, stream)) known =
      allows.closed s id stream (known app_name id stream refl)

  pub handle_command_close_stream-Keeps :
      (arguments : Values) → Keeps R (handle_command_close_stream arguments)
  unfolding handle_command_close_stream ◌>>=◌
  handle_command_close_stream-Keeps arguments = record {
    holds = λ s. close_found-Keeps s (target arguments s) λ app_name id stream e.
        stream_of-get (connected_app s) (stream_argument arguments) s.active_streams app_name id
          stream e;
  }

  pub delete_found-Keeps :
      (found : Option (List ℕ × ℕ × ActiveStream)) → Keeps R (delete_found found)
  unfolding delete_found
  delete_found-Keeps none = Keeps-pure order
  delete_found-Keeps (some (app_name, id, stream)) =
      Keeps-bind order (Keeps-modify order λ s. allows.deleted s id) λ u. Keeps-pure order

  pub handle_command_delete_stream-Keeps :
      (arguments : Values) → Keeps R (handle_command_delete_stream arguments)
  unfolding handle_command_delete_stream
  handle_command_delete_stream-Keeps arguments =
      Keeps-bind order (Keeps-gets order) delete_found-Keeps

  pub with_key-Keeps :
      (event : List ℕ → List ℕ → Results) (app key : Option (List ℕ))
      → Keeps R (with_key event app key)
  with_key-Keeps event (some app) (some key) = Keeps-pure order
  with_key-Keeps event _ _ = Keeps-pure order

  pub handle_audio_data-Keeps :
      (bytes : List ℕ) (id : ℕ) (time : RtmpTimestamp) → Keeps R (handle_audio_data bytes id time)
  unfolding handle_audio_data
  handle_audio_data-Keeps bytes id time =
      Keeps-bind order (Keeps-gets order)
        λ app. Keeps-bind order (Keeps-gets order) λ key. with_key-Keeps _ app key

  pub handle_video_data-Keeps :
      (bytes : List ℕ) (id : ℕ) (time : RtmpTimestamp) → Keeps R (handle_video_data bytes id time)
  unfolding handle_video_data
  handle_video_data-Keeps bytes id time =
      Keeps-bind order (Keeps-gets order)
        λ app. Keeps-bind order (Keeps-gets order) λ key. with_key-Keeps _ app key

  pub metadata_event-Keeps :
      (values : Values) (app key : Option (List ℕ)) → Keeps R (metadata_event values app key)
  unfolding metadata_event
  metadata_event-Keeps (cons value rest) (some app) (some key) = Keeps-pure order
  metadata_event-Keeps nil (some app) (some key) = Keeps-panic order
  metadata_event-Keeps _ _ _ = Keeps-pure order

  pub set_data_frame-Keeps :
      (values : Values) (id : ℕ) → Keeps R (handle_amf0_data_set_data_frame values id)
  unfolding handle_amf0_data_set_data_frame
  set_data_frame-Keeps nil id = Keeps-panic order
  set_data_frame-Keeps (cons (utf8_string value) rest) id =
      Keeps-if order (bytes_eq value (text "onMetaData"))
        (Keeps-bind order (Keeps-gets order)
          λ app. Keeps-bind order (Keeps-gets order) λ key. metadata_event-Keeps rest app key)
        (Keeps-pure order)
  set_data_frame-Keeps (cons _ rest) id = Keeps-pure order

  pub handle_amf0_data-Keeps : (values : Values) (id : ℕ) → Keeps R (handle_amf0_data values id)
  unfolding handle_amf0_data
  handle_amf0_data-Keeps (cons (utf8_string value) rest) id =
      Keeps-if order (bytes_eq value (text "@setDataFrame")) (set_data_frame-Keeps rest id)
        (Keeps-pure order)
  handle_amf0_data-Keeps _ id = Keeps-pure order

  pub with_deserializer-Keeps :
      (r : Outcome ChunkDeserializationError ChunkDeserializer) → Keeps R (with_deserializer r)
  with_deserializer-Keeps (ok d) = record { holds = λ s. allows.reader s d }
  with_deserializer-Keeps (err e) = record { holds = order.same }
  with_deserializer-Keeps panicked = record { holds = order.same }
  with_deserializer-Keeps out_of_fuel = record { holds = order.same }

  pub handle_set_chunk_size-Keeps : (size : ℕ) → Keeps R (handle_set_chunk_size size)
  unfolding handle_set_chunk_size set_peer_chunk_size
  handle_set_chunk_size-Keeps size =
      Keeps-bind order (record { holds = λ s. (with_deserializer-Keeps _).holds s })
        λ u. Keeps-pure order

  pub handle_window_acknowledgement-Keeps :
      (size : ℕ) → Keeps R (handle_window_acknowledgement size)
  unfolding handle_window_acknowledgement
  handle_window_acknowledgement-Keeps size =
      Keeps-bind order (Keeps-modify order λ s. allows.window s size) λ u. Keeps-pure order
