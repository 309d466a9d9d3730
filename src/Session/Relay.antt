-- ===== src/Session/Relay.antt =====
-- A client that publishes and the server at the other end of its connection.
use rust_media_libs.Prelude.{
  ℕ, ◌<◌, ◌≡◌, refl, ap, ◌∙◌, sym, Bool, false, some, List, [], ◌++◌, append-nil, ok,
}
use rust_media_libs.Bytes.{ByteOrder}
use rust_media_libs.Time.{RtmpTimestamp}
use rust_media_libs.Message.Payload.{MessagePayload}
use rust_media_libs.Message.Types.{video_data, get_message_type_id}
use rust_media_libs.Message.Serialize.{from_rtmp_message, message_bytes, serialize_video_data}
use rust_media_libs.Message.Deserialize.{to_rtmp_message, deserialize_video_data}
use rust_media_libs.Chunk.Serializer.{ChunkSerializer, Packet, serialize}
use rust_media_libs.Chunk.Deserializer.{ChunkDeserializer}
use rust_media_libs.Chunk.RoundTrip.Sync.{IsSendable}
use rust_media_libs.Chunk.RoundTrip.Messages.{AreLinked, get_next_message-serialize_anywhere}
use rust_media_libs.Session.Action.{Environment, ◌>>=◌}
use rust_media_libs.Session.Server.Types.{ServerSession}
use rust_media_libs.Session.Server.Media.{video_event}
use rust_media_libs.Session.Server.Input.{next_message, handle_payload}
use rust_media_libs.Session.Server.Publishing.{IsPublished, published_video}
use rust_media_libs.Session.Client.Types.{ClientState, ClientSession, outbound_response}
use rust_media_libs.Session.Client.Send.{send_at, write_payload}
use rust_media_libs.Session.Client.Publishing.{active_publishing_stream, publish_video_data}

abbrev pub video_payload : RtmpTimestamp → ℕ → List ℕ → MessagePayload
video_payload time stream_id bytes = record {
  timestamp = time;
  type_id = 9;
  message_stream_id = stream_id;
  bytes = bytes;
}

module _ ⦃bo : ByteOrder⦄ ⦃env : Environment⦄ where
  published_payload :
      (bytes : List ℕ) (time : RtmpTimestamp) (drop : Bool) (id : ℕ) (c : ClientSession)
      (packet : Packet) (next : ChunkSerializer)
      → c.current_state ≡ ClientState.publishing
      → c.active_stream_id ≡ some id
      → serialize c.serializer (video_payload time id bytes) false drop ≡ ok (packet, next)
      → publish_video_data bytes time drop c
        ≡ (ok (outbound_response packet), record c { serializer = next })
  unfolding publish_video_data active_publishing_stream send_at write_payload from_rtmp_message
      message_bytes serialize_video_data get_message_type_id ◌>>=◌
  published_payload bytes time drop id c packet next state active sent =
      rw (state, active, sent) refl

  read_video :
      (bytes : List ℕ) (time : RtmpTimestamp) (id : ℕ)
      → to_rtmp_message (video_payload time id bytes) ≡ ok (video_data bytes)
  unfolding to_rtmp_message deserialize_video_data
  read_video bytes time id = refl

  -- A client that publishes on a stream sends video; its serializer agrees with the deserializer of a
  -- server at which the same stream is published, the data is not empty and fits a message. Then a
  -- packet comes out; the server, given its bytes, finds one message, raises one event with the very
  -- bytes and timestamp under the name of the application and the key, and changes only its reader;
  -- and the two ends agree again.
  pub handle_payload-publish_video_data :
      (c : ClientSession) (s : ServerSession) (id : ℕ) (app_name key bytes : List ℕ)
      (time : RtmpTimestamp) (drop : Bool)
      → c.current_state ≡ ClientState.publishing
      → c.active_stream_id ≡ some id
      → IsPublished id app_name key s
      → AreLinked c.serializer s.deserializer
      → IsSendable (video_payload time id bytes)
      → (packet : Packet) × (next : ChunkSerializer) × (reader : ChunkDeserializer)
        × (publish_video_data bytes time drop c
            ≡ (ok (outbound_response packet), record c { serializer = next }))
        × (next_message packet.bytes s
            ≡ (ok (some (video_payload time id bytes)), record s { deserializer = reader }))
        × (handle_payload (video_payload time id bytes) (record s { deserializer = reader })
            ≡ (ok (video_event bytes time app_name key), record s { deserializer = reader }))
        × AreLinked next reader
  unfolding next_message handle_payload ◌>>=◌
  handle_payload-publish_video_data c s id app_name key bytes time drop state active published
        linked sendable =
      let (p, next, d, valid, size, reads) =
        get_next_message-serialize_anywhere (video_payload time id bytes) false drop c.serializer
          s.deserializer sendable linked.positive linked.valid linked.sync linked.idle in
      let (reader, got, sync, idle, left) =
        reads p.bytes [] (ap (λ b. b ++ p.bytes) linked.no_bytes ∙ sym (append-nil p.bytes)) in
      let positive : 0 < next.max_chunk_size = rw size linked.positive in
      (
        p,
        next,
        reader,
        published_payload bytes time drop id c p next state active d,
        rw got refl,
        rw (read_video bytes time id) (
            published_video id app_name key bytes (video_payload time id bytes)
              (record s { deserializer = reader }) refl published),
        record { positive = positive; valid = valid; sync = sync; idle = idle; no_bytes = left },
      )
