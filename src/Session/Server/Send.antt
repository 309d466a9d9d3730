-- ===== src/Session/Server/Send.antt =====
-- What the session writes: the clock, the way of a message through the payload and the serializer
-- into a packet, and the responses that several handlers share.
use rust_media_libs.Prelude.{
  ℕ, suc, ◌+◌, ◌*◌, ◌/◌, ◌%◌, ◌^◌, Bool, false, Option, none, some, List, [], ◌∷◌, map_err, Outcome,
}
use rust_media_libs.Text.{text}
use rust_media_libs.Bytes.{ByteOrder}
use rust_media_libs.Time.{RtmpTimestamp, timestamp}
use rust_media_libs.Amf0.Value.{
  Value, Values, Properties, utf8_string, object, null, nil, cons, end, insert,
}
use rust_media_libs.Message.Payload.{MessagePayload}
use rust_media_libs.Message.Types.{RtmpMessage, amf0_command}
use rust_media_libs.Message.Serialize.{from_rtmp_message}
use rust_media_libs.Chunk.Serializer.{ChunkSerializer, SerializerResult, Packet, serialize}
use rust_media_libs.Session.Action.{Action, pure, lift, ◌>>=◌, Environment}
use rust_media_libs.Session.Server.Types.{
  ServerSession, ServerSessionError, ServerSessionResult, outbound_response,
  chunk_serialization_error, message_serialization_error,
}

abbrev pub Session {ℓ} : Type ℓ → Type ℓ
Session A = Action ServerSession ServerSessionError A

abbrev pub Results : Type 0
Results = List ServerSessionResult

abbrev pub milliseconds : Option (ℕ × ℕ) → ℕ
milliseconds none = 0
milliseconds (some (seconds, nanos)) = (seconds * 1000 + nanos / 1_000_000) % 2 ^ 32

-- The serializer's answer, and the session with the serializer that it left. An error leaves the
-- serializer as it was: it is raised before anything is written.
abbrev pub with_serializer {ℓ} : {A : Type ℓ} → SerializerResult (A × ChunkSerializer) → Session A
with_serializer (Outcome.ok (a, serializer)) s =
    (Outcome.ok a, record s { serializer = serializer })
with_serializer (Outcome.err e) s = (Outcome.err (chunk_serialization_error e), s)
with_serializer Outcome.panicked s = (Outcome.panicked, s)
with_serializer Outcome.out_of_fuel s = (Outcome.out_of_fuel, s)

-- `create_status_object`
abbrev pub create_status_object : List ℕ → List ℕ → List ℕ → Properties
create_status_object level code description =
    insert (text "description") (utf8_string description)
      (insert (text "code") (utf8_string code) (insert (text "level") (utf8_string level) end))

module _ ⦃bo : ByteOrder⦄ ⦃env : Environment⦄ where
  unfoldable pub get_epoch : Session RtmpTimestamp
  get_epoch s = (
    Outcome.ok (timestamp (milliseconds (env.elapsed s.clock_reads))),
    record s { clock_reads = suc s.clock_reads },
  )

  abbrev pub into_message_payload : RtmpMessage → RtmpTimestamp → ℕ → Session MessagePayload
  into_message_payload message time stream_id = lift (
      map_err message_serialization_error
        (from_rtmp_message env.debug_assertions message time stream_id))

  unfoldable pub write_payload : MessagePayload → Bool → Bool → Session Packet
  write_payload payload force_uncompressed can_be_dropped s =
      with_serializer (serialize s.serializer payload force_uncompressed can_be_dropped) s

  -- The three lines that put a message on its way: payload, packet, result.
  unfoldable pub send_at : RtmpTimestamp → RtmpMessage → ℕ → Bool → Bool → Session Packet
  send_at time message stream_id force_uncompressed can_be_dropped = do
    payload ← into_message_payload message time stream_id
    write_payload payload force_uncompressed can_be_dropped

  unfoldable pub send : RtmpMessage → ℕ → Bool → Session Packet
  send message stream_id force_uncompressed = do
    time ← get_epoch
    send_at time message stream_id force_uncompressed false

  unfoldable pub create_success_response : ℕ → Value → Values → ℕ → Session Packet
  create_success_response transaction_id command_object additional_arguments stream_id =
      send (amf0_command (text "_result") transaction_id command_object additional_arguments)
        stream_id false

  unfoldable pub create_error_response : ℕ → Value → Values → ℕ → Session Packet
  create_error_response transaction_id command_object additional_arguments stream_id =
      send (amf0_command (text "_error") transaction_id command_object additional_arguments)
        stream_id false

  unfoldable pub create_error_packet : List ℕ → List ℕ → ℕ → ℕ → Session Packet
  create_error_packet code description transaction_id stream_id =
      create_error_response transaction_id null
        (cons (object (create_status_object (text "_error") code description)) nil) stream_id

  -- An error packet as the only result.
  unfoldable pub refuse : List ℕ → List ℕ → ℕ → ℕ → Session Results
  refuse code description transaction_id stream_id = do
    packet ← create_error_packet code description transaction_id stream_id
    pure (outbound_response packet ∷ [])
