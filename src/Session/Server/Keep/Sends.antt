-- ===== src/Session/Server/Keep/Sends.antt =====
-- What is sent changes the clock and the serializer alone.
use rust_media_libs.Prelude.{ℕ, Bool, false, List, ok, err, panicked, out_of_fuel}
use rust_media_libs.Bytes.{ByteOrder}
use rust_media_libs.Time.{RtmpTimestamp}
use rust_media_libs.Amf0.Value.{Value, Values}
use rust_media_libs.Message.Payload.{MessagePayload}
use rust_media_libs.Message.Types.{RtmpMessage}
use rust_media_libs.Chunk.Serializer.{ChunkSerializer, SerializerResult, serialize}
use rust_media_libs.Session.Action.{Environment}
use rust_media_libs.Session.Keeps.{IsPreorder, Keeps, Keeps-bind, Keeps-lift, Keeps-pure}
use rust_media_libs.Session.Server.Types.{ServerSession}
use rust_media_libs.Session.Server.Send.{
  with_serializer, get_epoch, write_payload, send_at, send, create_success_response,
  create_error_response, create_error_packet, refuse,
}

-- A relation that does not look at the clock and the serializer.
pub record IsBlind (R : ServerSession → ServerSession → Type 0) : Type 0 where
  pub order : IsPreorder R
  pub clock : (s : ServerSession) (n : ℕ) → R s (record s { clock_reads = n })
  pub writer : (s : ServerSession) (c : ChunkSerializer) → R s (record s { serializer = c })

module _ {R : ServerSession → ServerSession → Type 0} (blind : IsBlind R) where
  pub with_serializer-Keeps {ℓ} :
      {A : Type ℓ} (r : SerializerResult (A × ChunkSerializer)) → Keeps R (with_serializer r)
  with_serializer-Keeps (ok (a, c)) = record { holds = λ s. blind.writer s c }
  with_serializer-Keeps (err e) = record { holds = blind.order.same }
  with_serializer-Keeps panicked = record { holds = blind.order.same }
  with_serializer-Keeps out_of_fuel = record { holds = blind.order.same }

module _ ⦃bo : ByteOrder⦄ ⦃env : Environment⦄ {R : ServerSession → ServerSession → Type 0}
    (blind : IsBlind R) where
  pub write_payload-Keeps :
      (payload : MessagePayload) (force drop : Bool) → Keeps R (write_payload payload force drop)
  unfolding write_payload
  write_payload-Keeps payload force drop = record {
    holds = λ s. (with_serializer-Keeps blind (serialize s.serializer payload force drop)).holds s;
  }

  pub get_epoch-Keeps : Keeps R get_epoch
  unfolding get_epoch
  get_epoch-Keeps = record { holds = λ s. blind.clock s _ }

  pub send_at-Keeps :
      (time : RtmpTimestamp) (message : RtmpMessage) (stream_id : ℕ) (force drop : Bool)
      → Keeps R (send_at time message stream_id force drop)
  unfolding send_at
  send_at-Keeps time message stream_id force drop =
      Keeps-bind blind.order (Keeps-lift blind.order)
        λ payload. write_payload-Keeps payload force drop

  pub send-Keeps :
      (message : RtmpMessage) (stream_id : ℕ) (force : Bool)
      → Keeps R (send message stream_id force)
  unfolding send
  send-Keeps message stream_id force =
      Keeps-bind blind.order get_epoch-Keeps
        λ time. send_at-Keeps time message stream_id force false

  pub create_success_response-Keeps :
      (transaction_id : ℕ) (command_object : Value) (arguments : Values) (stream_id : ℕ)
      → Keeps R (create_success_response transaction_id command_object arguments stream_id)
  unfolding create_success_response
  create_success_response-Keeps transaction_id command_object arguments stream_id =
      send-Keeps _ stream_id false

  pub create_error_response-Keeps :
      (transaction_id : ℕ) (command_object : Value) (arguments : Values) (stream_id : ℕ)
      → Keeps R (create_error_response transaction_id command_object arguments stream_id)
  unfolding create_error_response
  create_error_response-Keeps transaction_id command_object arguments stream_id =
      send-Keeps _ stream_id false

  pub create_error_packet-Keeps :
      (code description : List ℕ) (transaction_id stream_id : ℕ)
      → Keeps R (create_error_packet code description transaction_id stream_id)
  unfolding create_error_packet
  create_error_packet-Keeps code description transaction_id stream_id =
      create_error_response-Keeps transaction_id _ _ stream_id

  pub refuse-Keeps :
      (code description : List ℕ) (transaction_id stream_id : ℕ)
      → Keeps R (refuse code description transaction_id stream_id)
  unfolding refuse
  refuse-Keeps code description transaction_id stream_id =
      Keeps-bind blind.order (create_error_packet-Keeps code description transaction_id stream_id)
        λ p. Keeps-pure blind.order
