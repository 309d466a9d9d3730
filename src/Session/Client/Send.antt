-- ===== src/Session/Client/Send.antt =====
-- What a client session writes: the clock, and the way of a message into a packet.
use rust_media_libs.Prelude.{ℕ, suc, Bool, false, List, map_err, Outcome}
use rust_media_libs.Bytes.{ByteOrder}
use rust_media_libs.Time.{RtmpTimestamp, timestamp}
use rust_media_libs.Message.Payload.{MessagePayload}
use rust_media_libs.Message.Types.{RtmpMessage}
use rust_media_libs.Message.Serialize.{from_rtmp_message}
use rust_media_libs.Chunk.Serializer.{ChunkSerializer, SerializerResult, Packet, serialize}
use rust_media_libs.Session.Action.{Action, lift, ◌>>=◌, Environment}
use rust_media_libs.Session.Server.Send.{milliseconds}
use rust_media_libs.Session.Client.Types.{
  ClientSession, ClientSessionError, ClientSessionResult, chunk_serialization_error,
  message_serialization_error,
}

abbrev pub Session {ℓ} : Type ℓ → Type ℓ
Session A = Action ClientSession ClientSessionError A

abbrev pub Results : Type 0
Results = List ClientSessionResult

-- An error of the serializer is raised before anything is written.
abbrev pub with_serializer {ℓ} : {A : Type ℓ} → SerializerResult (A × ChunkSerializer) → Session A
with_serializer (Outcome.ok (a, serializer)) s =
    (Outcome.ok a, record s { serializer = serializer })
with_serializer (Outcome.err e) s = (Outcome.err (chunk_serialization_error e), s)
with_serializer Outcome.panicked s = (Outcome.panicked, s)
with_serializer Outcome.out_of_fuel s = (Outcome.out_of_fuel, s)

module _ ⦃bo : ByteOrder⦄ ⦃env : Environment⦄ where
  unfoldable pub get_epoch : Session RtmpTimestamp
  get_epoch s = (
    Outcome.ok (timestamp (milliseconds (env.elapsed s.clock_reads))),
    record s { clock_reads = suc s.clock_reads },
  )

  unfoldable pub write_payload : MessagePayload → Bool → Session Packet
  write_payload payload can_be_dropped s =
      with_serializer (serialize s.serializer payload false can_be_dropped) s

  -- The two lines that put a message on its way: payload and packet.
  unfoldable pub send_at : RtmpTimestamp → RtmpMessage → ℕ → Bool → Session Packet
  send_at time message stream_id can_be_dropped = do
    payload ← lift (
        map_err message_serialization_error
          (from_rtmp_message env.debug_assertions message time stream_id))
    write_payload payload can_be_dropped

  unfoldable pub send : RtmpMessage → ℕ → Session Packet
  send message stream_id = do time ← get_epoch; send_at time message stream_id false
