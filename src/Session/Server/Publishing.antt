-- ===== src/Session/Server/Publishing.antt =====
-- What a publisher's messages come to, from the acceptance of its request to the end of its stream.
use rust_media_libs.Prelude.{
  ℕ, ◌≡◌, refl, ◌∙◌, Option, none, some, List, [], ◌∷◌, ◌==◌, true, false, ok, arith,
}
use rust_media_libs.HashMap
use rust_media_libs.Text.{text}
use rust_media_libs.Bytes.{ByteOrder}
use rust_media_libs.Amf0.Value.{
  Values, Properties, utf8_string, object, nil, cons, get_object_properties,
}
use rust_media_libs.Message.Payload.{MessagePayload}
use rust_media_libs.Message.Types.{audio_data, video_data, amf0_data}
use rust_media_libs.Session.Action.{Environment, pure, ◌>>=◌}
use rust_media_libs.Session.Keeps.{Keeps, Keeps-bind, Keeps-pure}
use rust_media_libs.Session.Metadata.{new_metadata, apply_metadata_values}
use rust_media_libs.Session.Server.Types.{
  SessionState, PublishMode, created, publishing, ActiveStream, publish_requested, ServerSession,
  raised_event, outbound_response, stream_metadata_changed, publish_stream_finished,
}
use rust_media_libs.Session.Server.Send.{Results, send}
use rust_media_libs.Session.Server.Streams.{
  name_if_connected, connected_app, set_stream, remove_stream, stream_argument, close_found,
  delete_found, handle_command_close_stream, handle_command_delete_stream,
}
use rust_media_libs.Session.Server.Media.{
  publishing_key, audio_event, video_event, handle_audio_data, handle_video_data, handle_amf0_data,
  handle_amf0_data_set_data_frame, metadata_event,
}
use rust_media_libs.Session.Server.Requests.{
  start_stream, stream_begin_message, status_message, publish_status, accept,
  accept_publish_request, accept_request,
}
use rust_media_libs.Session.Server.Answers.{without_request, accept_request_known}
use rust_media_libs.Session.Server.Input.{handle_message}
use rust_media_libs.Session.Server.Keep.Sends.{IsBlind, send-Keeps}

-- The part of a session that the messages of a publisher are read with.
abbrev SameStreams : ServerSession → ServerSession → Type 0
SameStreams s t =
    (t.current_state ≡ s.current_state)
    × (t.connected_app_name ≡ s.connected_app_name)
    × (t.active_streams ≡ s.active_streams)

SameStreams-blind : IsBlind SameStreams
SameStreams-blind = record {
  order = record {
    same = λ s. (refl, refl, refl);
    through = λ s t u h k. (k.0 ∙ h.0, k.1 ∙ h.1, k.2 ∙ h.2);
  };
  clock = λ s n. (refl, refl, refl);
  writer = λ s c. (refl, refl, refl);
}

-- The application and the key of a stream that is being published.
abbrev pub IsPublished : ℕ → List ℕ → List ℕ → ServerSession → Type 0
IsPublished id app_name key s = (connected_app s ≡ some app_name) × (publishing_key id s ≡ some key)

IsPublished-same :
    (id : ℕ) (app_name key : List ℕ) (s t : ServerSession)
    → SameStreams s t
    → IsPublished id app_name key s
    → IsPublished id app_name key t
IsPublished-same id app_name key s t (state, name, streams) (app, known) =
    (rw (state, name) app, rw streams known)

IsPublished-set_stream :
    (id : ℕ) (app_name key : List ℕ) (mode : PublishMode) (s : ServerSession)
    → connected_app s ≡ some app_name
    → IsPublished id app_name key (set_stream id (publishing key mode) s)
IsPublished-set_stream id app_name key mode s app =
    let same : (id == id) ≡ true = ground arith in
    let at =
      HashMap.get-insert id id (record { current_state = publishing key mode }) s.active_streams in
    (app, rw (at, same) refl)

module _ ⦃bo : ByteOrder⦄ ⦃env : Environment⦄ where
  accept_publish_request-SameStreams :
      (id : ℕ) (key : List ℕ) (mode : PublishMode) (stream : ActiveStream) (s : ServerSession)
      → HashMap.get id s.active_streams ≡ some stream
      → SameStreams (set_stream id (publishing key mode) s) (accept_publish_request id key mode s).1
  unfolding accept_publish_request start_stream ◌>>=◌
  accept_publish_request-SameStreams id key mode stream s known =
      let order = SameStreams-blind.order in
      let sent : Keeps {A = Results} SameStreams (
          send (stream_begin_message id) id false >>= λ p.
          (send (status_message (publish_status key)) id false >>= λ q.
          pure (outbound_response p ∷ outbound_response q ∷ []))) =
        Keeps-bind order (send-Keeps SameStreams-blind _ id false)
          λ p. Keeps-bind order (send-Keeps SameStreams-blind _ id false) λ q. Keeps-pure order in
      rw known (sent.holds (set_stream id (publishing key mode) s))

  published_audio :
      (id : ℕ) (app_name key bytes : List ℕ) (payload : MessagePayload) (s : ServerSession)
      → payload.message_stream_id ≡ id
      → IsPublished id app_name key s
      → handle_message payload (audio_data bytes) s
        ≡ (ok (audio_event bytes payload.timestamp app_name key), s)
  unfolding handle_message handle_audio_data ◌>>=◌
  published_audio id app_name key bytes payload s same (app, known) = rw (same, app, known) refl

  pub published_video :
      (id : ℕ) (app_name key bytes : List ℕ) (payload : MessagePayload) (s : ServerSession)
      → payload.message_stream_id ≡ id
      → IsPublished id app_name key s
      → handle_message payload (video_data bytes) s
        ≡ (ok (video_event bytes payload.timestamp app_name key), s)
  unfolding handle_message handle_video_data ◌>>=◌
  published_video id app_name key bytes payload s same (app, known) = rw (same, app, known) refl

  -- The message that an encoder opens with: its properties become the stream's metadata.
  abbrev pub set_data_frame : Properties → Values
  set_data_frame properties =
      cons (utf8_string (text "@setDataFrame"))
        (cons (utf8_string (text "onMetaData")) (cons (object properties) nil))

  pub name_of_connected :
      (state : SessionState) (name : Option (List ℕ)) (app_name : List ℕ)
      → name_if_connected state name ≡ some app_name
      → name ≡ some app_name
  name_of_connected SessionState.started name app_name e = cc e
  name_of_connected SessionState.connected name app_name e = e

  published_metadata :
      (id : ℕ) (app_name key : List ℕ) (properties : Properties) (payload : MessagePayload)
      (s : ServerSession)
      → payload.message_stream_id ≡ id
      → IsPublished id app_name key s
      → handle_message payload (amf0_data (set_data_frame properties)) s ≡ (
        ok (
            raised_event
              (stream_metadata_changed app_name key (apply_metadata_values properties new_metadata))
            ∷ []),
        s,
      )
  unfolding handle_message handle_amf0_data handle_amf0_data_set_data_frame metadata_event
      get_object_properties ◌>>=◌
  published_metadata id app_name key properties payload s same (app, known) =
      let name = name_of_connected s.current_state s.connected_app_name app_name app in
      rw (same, name, known) refl

  -- What each kind of data from a publisher comes to: one event, under the application and the key,
  -- and no change of the session.
  abbrev pub IsHeard :
      MessagePayload → List ℕ → Properties → List ℕ → List ℕ → ServerSession → Type 0
  IsHeard payload bytes properties app_name key s =
      (handle_message payload (audio_data bytes) s
        ≡ (ok (audio_event bytes payload.timestamp app_name key), s))
      × (handle_message payload (video_data bytes) s
          ≡ (ok (video_event bytes payload.timestamp app_name key), s))
      × (handle_message payload (amf0_data (set_data_frame properties)) s ≡ (
        ok (
            raised_event
              (stream_metadata_changed app_name key (apply_metadata_values properties new_metadata))
            ∷ []),
        s,
      ))

  -- Once the application accepts a request to publish on a stream of a connected session, the audio,
  -- video and metadata that come in on that stream are raised as events under the application's name
  -- and the key of the request, unchanged and one each, however the answers to the client fared.
  pub handle_message-accept_request :
      (request_id : ℕ) (payload : MessagePayload) (bytes : List ℕ) (properties : Properties)
      (app_name key : List ℕ) (mode : PublishMode) (stream : ActiveStream) (s : ServerSession)
      → connected_app s ≡ some app_name
      → HashMap.get request_id s.outstanding_requests
        ≡ some (publish_requested key mode payload.message_stream_id)
      → HashMap.get payload.message_stream_id s.active_streams ≡ some stream
      → IsHeard payload bytes properties app_name key (accept_request request_id s).1
  unfolding accept
  handle_message-accept_request request_id payload bytes properties app_name key mode stream s app
        asked known =
      let id = payload.message_stream_id in
      let s₀ = without_request request_id s in
      let accepted : accept_request request_id s ≡ accept_publish_request id key mode s₀ =
        accept_request_known request_id (publish_requested key mode id) s asked in
      let published : IsPublished id app_name key (accept_request request_id s).1 = rw accepted (
        IsPublished-same id app_name key (set_stream id (publishing key mode) s₀)
          (accept_publish_request id key mode s₀).1
          (accept_publish_request-SameStreams id key mode stream s₀ known)
          (IsPublished-set_stream id app_name key mode s₀ app)) in
      (
        published_audio id app_name key bytes payload _ refl published,
        published_video id app_name key bytes payload _ refl published,
        published_metadata id app_name key properties payload _ refl published,
      )

  -- No data on the stream raises an event or changes the session.
  abbrev pub IsSilent : MessagePayload → List ℕ → Properties → ServerSession → Type 0
  IsSilent payload bytes properties s =
      (handle_message payload (audio_data bytes) s ≡ (ok [], s))
      × (handle_message payload (video_data bytes) s ≡ (ok [], s))
      × (handle_message payload (amf0_data (set_data_frame properties)) s ≡ (ok [], s))

  unpublished-IsSilent :
      (payload : MessagePayload) (bytes : List ℕ) (properties : Properties) (app_name : List ℕ)
      (s : ServerSession)
      → connected_app s ≡ some app_name
      → publishing_key payload.message_stream_id s ≡ none
      → IsSilent payload bytes properties s
  unfolding handle_message handle_audio_data handle_video_data handle_amf0_data
      handle_amf0_data_set_data_frame metadata_event ◌>>=◌
  unpublished-IsSilent payload bytes properties app_name s app unknown =
      let name = name_of_connected s.current_state s.connected_app_name app_name app in
      (rw (app, unknown) refl, rw (app, unknown) refl, rw (name, unknown) refl)

  -- A command to close or to delete the stream on which a connected client publishes raises the end
  -- of the publication once, and whatever data then comes in on that stream raises nothing.
  pub handle_message-handle_command_close_stream :
      (payload : MessagePayload) (bytes : List ℕ) (properties : Properties) (app_name key : List ℕ)
      (mode : PublishMode) (arguments : Values) (s : ServerSession)
      → connected_app s ≡ some app_name
      → stream_argument arguments ≡ some payload.message_stream_id
      → HashMap.get payload.message_stream_id s.active_streams
        ≡ some (record { current_state = publishing key mode })
      → ((handle_command_close_stream arguments s).0
          ≡ ok (raised_event (publish_stream_finished app_name key) ∷ []))
        × ((handle_command_delete_stream arguments s).0
            ≡ ok (raised_event (publish_stream_finished app_name key) ∷ []))
        × IsSilent payload bytes properties (handle_command_close_stream arguments s).1
        × IsSilent payload bytes properties (handle_command_delete_stream arguments s).1
  unfolding handle_command_close_stream handle_command_delete_stream close_found delete_found ◌>>=◌
  handle_message-handle_command_close_stream payload bytes properties app_name key mode arguments s
        app argument known =
      let id = payload.message_stream_id in
      let same : (id == id) ≡ true = ground arith in
      let closed = HashMap.get-insert id id (record { current_state = created }) s.active_streams in
      let deleted = HashMap.get-remove id id s.active_streams in
      (
        rw (app, argument, known) refl,
        rw (app, argument, known) refl,
        rw (app, argument, known)
            (unpublished-IsSilent payload bytes properties app_name (set_stream id created s) app
              (rw (closed, same) refl)),
        rw (app, argument, known)
            (unpublished-IsSilent payload bytes properties app_name (remove_stream id s) app
              (rw (deleted, same) refl)),
      )
