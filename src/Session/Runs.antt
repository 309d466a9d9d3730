-- ===== src/Session/Runs.antt =====
-- A client at work: it connects, asks to publish, and publishes; and a server hears it.
use rust_media_libs.Prelude.{
  ℕ, ◌≡◌, ◌≢◌, ◌⊎◌, refl, true, some, List, [], ◌∷◌, Outcome, ok, err, panicked, out_of_fuel, arith,
}
use rust_media_libs.HashMap
use rust_media_libs.Text.{text}
use rust_media_libs.Bytes.Endian.{endian}
use rust_media_libs.Time.{timestamp}
use rust_media_libs.Amf0.Value.{number, utf8_string, object, null, nil, cons, end, insert}
use rust_media_libs.Message.Types.{amf0_command}
use rust_media_libs.Chunk.Serializer
use rust_media_libs.Chunk.Serializer.{new_serializer, Packet, ChunkSerializer}
use rust_media_libs.Chunk.Deserializer
use rust_media_libs.Chunk.Deserializer.{ChunkDeserializer, new_deserializer}
use rust_media_libs.Chunk.RoundTrip.Sync.{IsSendable}
use rust_media_libs.Chunk.RoundTrip.Messages.{AreLinked, new-AreLinked}
use rust_media_libs.Session.Traffic.{process, bytes_of}
use rust_media_libs.Session.Server.Types.{
  SessionState, ServerSession, ActiveStream, publishing, live, initial_session,
}
use rust_media_libs.Session.Server.Types
use rust_media_libs.Session.Server.Media.{video_event}
use rust_media_libs.Session.Server.Input.{next_message, handle_payload}
use rust_media_libs.Session.Server.Publishing.{IsPublished}
use rust_media_libs.Session.Client.Types.{
  ClientState, PublishRequestType, ClientSession, ClientSessionError, new, new_config,
  outbound_response,
}
use rust_media_libs.Session.Client.Send
use rust_media_libs.Session.Client.Send.{Results}
use rust_media_libs.Session.Client.Requests
use rust_media_libs.Session.Client.Requests.{request_connection, request_publishing}
use rust_media_libs.Session.Client.Publishing.{publish_video_data}
use rust_media_libs.Session.Client.Commands
use rust_media_libs.Session.Client.Input
use rust_media_libs.Session.Client.Input.{handle_input}
use rust_media_libs.Session.Client.Reach.{
  Reach, begin, input, connection_asked, publishing_asked, IsActive, Reach-IsActive, SendOn,
  AreRefused, publish_metadata-cases,
}
use rust_media_libs.Session.Metadata.{new_metadata}
use rust_media_libs.Session.Relay.{video_payload, handle_payload-publish_video_data}

-- The server's answers: to the connection, to the stream, and to the publication.
abbrev connected_bytes : List ℕ
connected_bytes =
    bytes_of ((0, amf0_command (text "_result") 4607182418800017408 null nil) ∷ []) new_serializer

abbrev published_bytes : List ℕ
published_bytes =
    bytes_of
      ((
        0,
        amf0_command (text "_result") 4611686018427387904 null
            (cons (number 4607182418800017408) nil),
      )
        ∷ (
          1,
          amf0_command (text "onStatus") 0 null (
              cons
                (object (insert (text "code") (utf8_string (text "NetStream.Publish.Start")) end))
                nil),
        )
        ∷ [])
      new_serializer

abbrev session_of : Outcome ClientSessionError (Results × ClientSession) → ClientSession
session_of (ok (results, s)) = s
session_of _ = new new_config

abbrev results_of : Outcome ClientSessionError (Results × ClientSession) → Results
results_of (ok (results, s)) = results
results_of _ = []

abbrev c₁ : ClientSession
c₁ = (request_connection (text "live") (new new_config)).1

abbrev c₂ : ClientSession
c₂ = session_of (handle_input c₁ connected_bytes)

abbrev c₃ : ClientSession
c₃ = (request_publishing (text "key") PublishRequestType.live c₂).1

abbrev c₄ : ClientSession
c₄ = session_of (handle_input c₃ published_bytes)

abbrev IsOk : Outcome ClientSessionError (Results × ClientSession) → Type 0
IsOk (ok r) = Unit
IsOk _ = ⊥

known :
    (r : Outcome ClientSessionError (Results × ClientSession))
    → IsOk r
    → r ≡ ok (results_of r, session_of r)
known (ok (results, s)) h = refl
known (err e) h = absurd h
known panicked h = absurd h
known out_of_fuel h = absurd h

-- What the session's calls come to.
record Trace : Type 0 where
  connected : IsOk (handle_input c₁ connected_bytes)
  published : IsOk (handle_input c₃ published_bytes)
  state : c₄.current_state ≡ ClientState.publishing
  stream : c₄.active_stream_id ≡ some 1

trace : Trace
unfolding endian HashMap.get HashMap.remove HashMap.insert rust_media_libs.Amf0.Value.insert
    rust_media_libs.Amf0.Value.lookup rust_media_libs.Amf0.Serialize.serialize_number
    rust_media_libs.Amf0.Serialize.serialize_string rust_media_libs.Amf0.Serialize.serialize
    rust_media_libs.Amf0.Deserialize.from_utf8 rust_media_libs.Amf0.Deserialize.parse_number
    rust_media_libs.Amf0.Deserialize.parse_string rust_media_libs.Amf0.Deserialize.parse_object_end
    rust_media_libs.Amf0.Deserialize.parse_label rust_media_libs.Amf0.Deserialize.read_values
    rust_media_libs.Amf0.Deserialize.deserialize rust_media_libs.Message.Serialize.from_rtmp_message
    rust_media_libs.Message.Deserialize.to_rtmp_message Serializer.slices
    Serializer.get_csid_for_message_type Serializer.get_header_format Serializer.add_basic_header
    Serializer.add_initial_timestamp Serializer.add_message_length_and_type_id
    Serializer.add_message_stream_id Serializer.add_extended_timestamp Serializer.choose_format
    Serializer.write_chunk Serializer.add_chunk Serializer.add_chunks Serializer.serialize
    Serializer.set_max_chunk_size Deserializer.get_format Deserializer.get_csid
    Deserializer.take_header Deserializer.form_header Deserializer.set_timestamp
    Deserializer.get_initial_timestamp Deserializer.get_message_length
    Deserializer.get_message_stream_id Deserializer.get_extended_timestamp
    Deserializer.get_message_type_id Deserializer.chunk_length Deserializer.complete_message
    Deserializer.get_message_data Deserializer.step Deserializer.run Deserializer.get_next_message
    rust_media_libs.Session.Action.◌>>=◌ rust_media_libs.Amf0.Serialize.serialize_values
    rust_media_libs.Bytes.read_int rust_media_libs.Amf0.Deserialize.read_next_value
    rust_media_libs.Amf0.Utf8.is_utf8 rust_media_libs.Float.Defs.to_u32 Send.get_epoch
    Send.write_payload Send.send_at Send.send Requests.get_next_transaction_id
    Requests.keep_transaction Requests.connect_from Requests.request_connection Requests.create_from
    Requests.request_publishing Commands.take_transaction Commands.announce_chunk_size
    Commands.connected_as Commands.use_stream Commands.created Commands.succeeded
    Commands.handle_amf0_command_success_result Commands.publish_start_from
    Commands.handle_publish_start Commands.handle_status_code Commands.handle_status
    Commands.handle_on_status_command Commands.handle_amf0_command Input.count_bytes
    Input.next_message Input.handle_message Input.handle_payload Input.handle_found
    Input.handle_messages Input.acknowledge_if Input.acknowledge Input.input_action
    Input.handle_input
trace = record { connected = tt; published = tt; state = refl; stream = refl }

reach₄ : Reach c₄
reach₄ =
    let r₁ = connection_asked (new new_config) (text "live") (begin new_config) in
    let r₂ =
      input c₁ connected_bytes _ c₂ r₁ (known (handle_input c₁ connected_bytes) trace.connected) in
    let r₃ = publishing_asked c₂ (text "key") PublishRequestType.live r₂ in
    input c₃ published_bytes _ c₄ r₃ (known (handle_input c₃ published_bytes) trace.published)

Reach-IsActive_example : IsActive c₄
Reach-IsActive_example = Reach-IsActive reach₄

publish_metadata-cases_example :
    ((id : ℕ) × (c₄.current_state ≡ ClientState.publishing)
      × (c₄.active_stream_id ≡ some id)
      × SendOn id new_metadata (1 ∷ 2 ∷ []) (timestamp 40) true c₄)
    ⊎ ((c₄.current_state ≢ ClientState.publishing)
        × AreRefused new_metadata (1 ∷ 2 ∷ []) (timestamp 40) true c₄)
publish_metadata-cases_example =
    publish_metadata-cases new_metadata (1 ∷ 2 ∷ []) (timestamp 40) true reach₄

-- The two ends of a connection over which a stream is published.
abbrev publisher : ClientSession
publisher = record (new new_config) {
  current_state = ClientState.publishing;
  active_stream_id = some 1;
}

abbrev listener : ServerSession
listener = record (initial_session Types.new_config) {
  current_state = SessionState.connected;
  connected_app_name = some (text "live");
  active_streams = (1, record { current_state = publishing (text "key") live }) ∷ [];
}

listener-IsPublished : IsPublished 1 (text "live") (text "key") listener
unfolding HashMap.get
listener-IsPublished = (refl, refl)

video-IsSendable : IsSendable (video_payload (timestamp 40) 1 (1 ∷ 2 ∷ []))
video-IsSendable = record {
  nonempty = omega arith;
  short = omega arith;
  time = omega arith;
  stream_id = omega arith;
}

handle_payload-publish_video_data_example :
    (packet : Packet) × (next : ChunkSerializer) × (reader : ChunkDeserializer)
    × (publish_video_data (1 ∷ 2 ∷ []) (timestamp 40) true publisher
        ≡ (ok (outbound_response packet), record publisher { serializer = next }))
    × (next_message packet.bytes listener ≡ (
      ok (some (video_payload (timestamp 40) 1 (1 ∷ 2 ∷ []))),
      record listener { deserializer = reader },
    ))
    × (handle_payload
          (video_payload (timestamp 40) 1 (1 ∷ 2 ∷ []))
          (record listener { deserializer = reader })
        ≡ (
          ok (video_event (1 ∷ 2 ∷ []) (timestamp 40) (text "live") (text "key")),
          record listener { deserializer = reader },
        ))
    × AreLinked next reader
handle_payload-publish_video_data_example =
    handle_payload-publish_video_data publisher listener 1 (text "live") (text "key") (1 ∷ 2 ∷ [])
      (timestamp 40) true refl refl listener-IsPublished new-AreLinked video-IsSendable
