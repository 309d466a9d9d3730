-- ===== src/Session/Server/Runs.antt =====
-- A session at work: a client that connects, opens a stream and publishes on it.
use rust_media_libs.Prelude.{
  ℕ, ◌+◌, ◌<◌, ◌≤◌, ◌^◌, ◌≡◌, ◌⊎◌, refl, Option, none, some, List, [], ◌∷◌, ◌++◌, length, Outcome,
  ok, err, panicked, out_of_fuel, arith,
}
use rust_media_libs.Chunk.Serializer
use rust_media_libs.Chunk.Deserializer
use rust_media_libs.Session.Server.Input
use rust_media_libs.Session.Server.Requests
use rust_media_libs.Session.Server.Commands
use rust_media_libs.Session.Server.Streams
use rust_media_libs.Session.Server.Send
use mathlib.Core.List.{Mem}
use rust_media_libs.HashMap
use rust_media_libs.Text.{text}
use rust_media_libs.Bytes.Endian.{endian}
use rust_media_libs.Time.{timestamp}
use rust_media_libs.Amf0.Value.{number, utf8_string, object, null, nil, cons, end, insert}
use rust_media_libs.Message.Payload.{MessagePayload}
use rust_media_libs.Message.Types.{amf0_command, amf0_data}
use rust_media_libs.Message.Serialize.{from_rtmp_message}
use rust_media_libs.Message.Deserialize.{to_rtmp_message}
use rust_media_libs.Chunk.Serializer.{ChunkSerializer, serialize, new_serializer}
use rust_media_libs.Chunk.Deserializer.{
  ChunkDeserializationError, ChunkDeserializer, new_deserializer, get_next_message,
}
use rust_media_libs.Chunk.RoundTrip.Messages.{new-AreLinked}
use rust_media_libs.Session.Traffic.{process, bytes_of}
use rust_media_libs.Session.Server.Types.{
  ServerSession, ServerSessionError, created, publishing, live, publish_requested, new_config,
  initial_session, raised_event, publish_stream_finished, invalid_request_id,
}
use rust_media_libs.Session.Server.Send.{Results}
use rust_media_libs.Session.Server.Streams.{
  connected_app, stream_argument, handle_command_close_stream, handle_command_delete_stream,
}
use rust_media_libs.Session.Server.Media.{publishing_key}
use rust_media_libs.Session.Server.Requests.{accept_request}
use rust_media_libs.Session.Server.Input.{new, input_action, handle_input}
use rust_media_libs.Session.Server.Invariant.{IsNumbered, get-input_action}
use rust_media_libs.Session.Server.Safety.{playing_key, input_action-Unconsented}
use rust_media_libs.Session.Server.Answers.{without_request, accept_request_twice}
use rust_media_libs.Session.Server.Reach.{grants, Reach, begin, input, accepted}
use rust_media_libs.Session.Server.Consent.{Reach-IsNumbered, Reach-consented}
use rust_media_libs.Session.Server.Publishing.{
  IsHeard, IsSilent, handle_message-accept_request, handle_message-handle_command_close_stream,
}
use rust_media_libs.Session.Server.Window.{HasAcknowledged, input_action-acknowledge}
use rust_media_libs.Session.Server.Panics.{cut_off, handle_input-panicked}

abbrev connecting : List ℕ
connecting =
    bytes_of
      ((
        0,
        amf0_command (text "connect") 0
            (object (insert (text "app") (utf8_string (text "live")) end)) nil,
      )
        ∷ [])
      new_serializer

abbrev publishing_bytes : List ℕ
publishing_bytes =
    bytes_of
      ((0, amf0_command (text "createStream") 0 null nil)
        ∷ (
          1,
          amf0_command (text "publish") 0 null
              (cons (utf8_string (text "key")) (cons (utf8_string (text "live")) nil)),
        )
        ∷ [])
      new_serializer

abbrev session_of : Outcome ServerSessionError (Results × ServerSession) → ServerSession
session_of (ok (results, s)) = s
session_of _ = initial_session new_config

abbrev s₀ : ServerSession
s₀ = session_of (new new_config)

abbrev s₁ : ServerSession
s₁ = session_of (handle_input s₀ connecting)

abbrev s₂ : ServerSession
s₂ = (accept_request 0 s₁).1

abbrev s₃ : ServerSession
s₃ = session_of (handle_input s₂ publishing_bytes)

abbrev s₄ : ServerSession
s₄ = (accept_request 1 s₃).1

abbrev results_of : Outcome ServerSessionError (Results × ServerSession) → Results
results_of (ok (results, s)) = results
results_of _ = []

abbrev IsOk : Outcome ServerSessionError (Results × ServerSession) → Type 0
IsOk (ok r) = Unit
IsOk _ = ⊥

known :
    (r : Outcome ServerSessionError (Results × ServerSession))
    → IsOk r
    → r ≡ ok (results_of r, session_of r)
known (ok (results, s)) h = refl
known (err e) h = absurd h
known panicked h = absurd h
known out_of_fuel h = absurd h

-- A message of a data frame that ends after its name.
abbrev cut_off_bytes : List ℕ
cut_off_bytes = bytes_of ((0, amf0_data cut_off) ∷ []) new_serializer

abbrev cut_off_payload : MessagePayload
cut_off_payload = record {
  timestamp = timestamp 0;
  type_id = 18;
  message_stream_id = 0;
  bytes = 2 ∷ 0 ∷ 13 ∷ text "@setDataFrame";
}

abbrev deserializer_of :
    Outcome ChunkDeserializationError (Option MessagePayload × ChunkDeserializer)
    → ChunkDeserializer
deserializer_of (ok (message, d)) = d
deserializer_of _ = new_deserializer

abbrev d₁ : ChunkDeserializer
d₁ = deserializer_of (get_next_message new_deserializer cut_off_bytes)

-- A session whose client wants to hear after every sixteen bytes, and has sent nine.
abbrev impatient : ServerSession
impatient = record (initial_session new_config) {
  peer_window_ack_size = some 16;
  bytes_received_since_last_ack = 9;
}

-- What the session's calls come to.
record Trace : Type 0 where
  opened : IsOk (new new_config)
  connected : IsOk (handle_input s₀ connecting)
  requested : IsOk (handle_input s₂ publishing_bytes)
  name : connected_app s₃ ≡ some (text "live")
  asked : HashMap.get 1 s₃.outstanding_requests ≡ some (publish_requested (text "key") live 1)
  stream : HashMap.get 1 s₃.active_streams ≡ some (record { current_state = created })
  name_published : connected_app s₄ ≡ some (text "live")
  stream_published :
      HashMap.get 1 s₄.active_streams
      ≡ some (record { current_state = publishing (text "key") live })
  published : publishing_key 1 s₄ ≡ some (text "key")
  cut : get_next_message s₀.deserializer cut_off_bytes ≡ ok (some cut_off_payload, d₁)
  read : to_rtmp_message cut_off_payload ≡ ok (amf0_data cut_off)
  window : s₀.peer_window_ack_size ≡ none
  counted : s₀.bytes_received + length cut_off_bytes < 2 ^ 64
  acknowledged : IsOk (handle_input impatient connecting)
  short : impatient.bytes_received + length connecting < 2 ^ 64
  short_since : impatient.bytes_received_since_last_ack + length connecting < 2 ^ 32
  argument : stream_argument (cons (number 4607182418800017408) nil) ≡ some 1

trace : Trace
unfolding endian HashMap.get HashMap.remove HashMap.insert rust_media_libs.Amf0.Value.insert
    rust_media_libs.Amf0.Value.lookup rust_media_libs.Amf0.Serialize.serialize_number
    rust_media_libs.Amf0.Serialize.serialize_string rust_media_libs.Amf0.Serialize.serialize
    rust_media_libs.Amf0.Deserialize.from_utf8 rust_media_libs.Amf0.Deserialize.parse_number
    rust_media_libs.Amf0.Deserialize.parse_string rust_media_libs.Amf0.Deserialize.parse_object_end
    rust_media_libs.Amf0.Deserialize.parse_label rust_media_libs.Amf0.Deserialize.read_values
    rust_media_libs.Amf0.Deserialize.deserialize rust_media_libs.Message.Serialize.from_rtmp_message
    rust_media_libs.Message.Deserialize.to_rtmp_message Serializer.slices
    Serializer.get_csid_for_message_type Serializer.get_header_format Serializer.add_basic_header
    Serializer.add_initial_timestamp Serializer.add_message_length_and_type_id
    Serializer.add_message_stream_id Serializer.add_extended_timestamp Serializer.choose_format
    Serializer.write_chunk Serializer.add_chunk Serializer.add_chunks Serializer.serialize
    Serializer.set_max_chunk_size Deserializer.get_format Deserializer.get_csid
    Deserializer.take_header Deserializer.form_header Deserializer.set_timestamp
    Deserializer.get_initial_timestamp Deserializer.get_message_length
    Deserializer.get_message_stream_id Deserializer.get_extended_timestamp
    Deserializer.get_message_type_id Deserializer.chunk_length Deserializer.complete_message
    Deserializer.get_message_data Deserializer.step Deserializer.run Deserializer.get_next_message
    rust_media_libs.Session.Action.◌>>=◌ Send.get_epoch Send.write_payload Send.send_at Send.send
    Send.create_success_response Streams.open_stream Streams.handle_command_create_stream
    Commands.keep_request Commands.connect_with Commands.handle_command_connect Commands.publish_as
    Commands.publish_connected Commands.handle_command_publish Commands.handle_amf0_command
    Requests.start_stream Requests.take_request Requests.accept_connection_request
    Requests.accept_publish_request Requests.accept Requests.accept_request Input.count_bytes
    Input.next_message Input.handle_message Input.handle_payload Input.handle_found
    Input.handle_messages Input.acknowledge_if Input.acknowledge Input.input_action
    Input.handle_input Input.send_bw_done Input.announce Input.new
    rust_media_libs.Amf0.Serialize.serialize_values rust_media_libs.Bytes.read_int
    rust_media_libs.Amf0.Deserialize.read_next_value rust_media_libs.Amf0.Utf8.is_utf8
    rust_media_libs.Time.set rust_media_libs.Float.Defs.to_u32 Input.acknowledge_window
    Input.acknowledge_full
trace = record {
  opened = tt;
  connected = tt;
  requested = tt;
  name = refl;
  asked = refl;
  stream = refl;
  name_published = refl;
  stream_published = refl;
  published = refl;
  cut = refl;
  read = refl;
  window = refl;
  counted = omega arith;
  acknowledged = tt;
  short = omega arith;
  short_since = omega arith;
  argument = refl;
}

abbrev log₃ : List (ℕ × List ℕ)
log₃ = grants (HashMap.get 0 s₁.outstanding_requests) ++ []

reach₃ : Reach log₃ s₃
reach₃ =
    let r₀ =
      begin new_config (results_of (new new_config)) s₀ (known (new new_config) trace.opened) in
    let r₁ = input [] s₀ connecting _ s₁ r₀ (known (handle_input s₀ connecting) trace.connected) in
    let r₂ = accepted [] s₁ 0 r₁ in
    input _ s₂ publishing_bytes _ s₃ r₂ (known (handle_input s₂ publishing_bytes) trace.requested)

abbrev log : List (ℕ × List ℕ)
log = grants (HashMap.get 1 s₃.outstanding_requests) ++ log₃

reach₄ : Reach log s₄
reach₄ = accepted log₃ s₃ 1 reach₃

Reach-consented_example : Mem (1, text "key") log
Reach-consented_example = Reach-consented 1 (text "key") reach₄ trace.published

Reach-IsNumbered_example : IsNumbered s₄
Reach-IsNumbered_example = Reach-IsNumbered reach₄

get-input_action_example :
    HashMap.get 1 (input_action connecting s₃).1.outstanding_requests
    ≡ some (publish_requested (text "key") live 1)
get-input_action_example =
    get-input_action s₃ connecting 1 (publish_requested (text "key") live 1)
      (Reach-IsNumbered reach₃) trace.asked

input_action-Unconsented_example :
    ((input_action connecting s₄).1.current_state ≡ s₄.current_state)
    × ((input_action connecting s₄).1.connected_app_name ≡ s₄.connected_app_name)
    × ((publishing_key 1 (input_action connecting s₄).1 ≡ none)
        ⊎ (publishing_key 1 (input_action connecting s₄).1 ≡ publishing_key 1 s₄))
    × ((playing_key 1 (input_action connecting s₄).1 ≡ none)
        ⊎ (playing_key 1 (input_action connecting s₄).1 ≡ playing_key 1 s₄))
input_action-Unconsented_example = input_action-Unconsented s₄ connecting 1

accept_request_twice_example : accept_request 1 s₄ ≡ (err invalid_request_id, without_request 1 s₄)
accept_request_twice_example = accept_request_twice 1 s₃

abbrev frame : MessagePayload
frame = record { timestamp = timestamp 40; type_id = 9; message_stream_id = 1; bytes = 1 ∷ 2 ∷ [] }

handle_message-accept_request_example : IsHeard frame (1 ∷ 2 ∷ []) end (text "live") (text "key") s₄
handle_message-accept_request_example =
    handle_message-accept_request 1 frame (1 ∷ 2 ∷ []) end (text "live") (text "key") live
      (record { current_state = created }) s₃ trace.name trace.asked trace.stream

handle_message-handle_command_close_stream_example :
    ((handle_command_close_stream (cons (number 4607182418800017408) nil) s₄).0
      ≡ ok (raised_event (publish_stream_finished (text "live") (text "key")) ∷ []))
    × ((handle_command_delete_stream (cons (number 4607182418800017408) nil) s₄).0
        ≡ ok (raised_event (publish_stream_finished (text "live") (text "key")) ∷ []))
    × IsSilent frame
        (1 ∷ 2 ∷ [])
        end
        (handle_command_close_stream (cons (number 4607182418800017408) nil) s₄).1
    × IsSilent frame
        (1 ∷ 2 ∷ [])
        end
        (handle_command_delete_stream (cons (number 4607182418800017408) nil) s₄).1
handle_message-handle_command_close_stream_example =
    handle_message-handle_command_close_stream frame (1 ∷ 2 ∷ []) end (text "live") (text "key")
      live (cons (number 4607182418800017408) nil) s₄ trace.name_published trace.argument
      trace.stream_published

handle_input-panicked_example : handle_input s₀ cut_off_bytes ≡ panicked
handle_input-panicked_example =
    handle_input-panicked s₀ cut_off_bytes cut_off_payload d₁ trace.window trace.counted trace.cut
      trace.read

input_action-acknowledge_example :
    ((9 + length connecting < 16)
      × ((input_action connecting impatient).1.bytes_received_since_last_ack
          ≡ 9 + length connecting))
    ⊎ ((16 ≤ 9 + length connecting)
        × ((input_action connecting impatient).1.bytes_received_since_last_ack ≡ 0)
        × HasAcknowledged
            (9 + length connecting)
            new_deserializer
            (input_action connecting impatient).0)
input_action-acknowledge_example =
    input_action-acknowledge impatient connecting 16 new_deserializer refl trace.short
      trace.short_since new-AreLinked
