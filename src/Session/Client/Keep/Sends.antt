-- ===== src/Session/Client/Keep/Sends.antt =====
-- What is sent changes the clock and the serializer alone; and what a relation has to allow.
use rust_media_libs.Prelude.{ℕ, Bool, false, none, some, List, ◌≡◌, ok, err, panicked, out_of_fuel}
use rust_media_libs.Bytes.{ByteOrder}
use rust_media_libs.Time.{RtmpTimestamp}
use rust_media_libs.Message.Payload.{MessagePayload}
use rust_media_libs.Message.Types.{RtmpMessage}
use rust_media_libs.Chunk.Serializer.{ChunkSerializer, SerializerResult, serialize}
use rust_media_libs.Chunk.Deserializer.{ChunkDeserializer}
use rust_media_libs.Session.Action.{Environment}
use rust_media_libs.Session.Keeps.{IsPreorder, Keeps, Keeps-bind, Keeps-lift}
use rust_media_libs.Session.Client.Types.{ClientState, OutstandingTransaction, ClientSession}
use rust_media_libs.Session.Client.Send.{with_serializer, get_epoch, write_payload, send_at, send}

-- Each change of the state that a client session can make.
pub record Allows (R : ClientSession → ClientSession → Type 0) : Type 0 where
  pub order : IsPreorder R
  pub clock : (s : ClientSession) (n : ℕ) → R s (record s { clock_reads = n })
  pub writer : (s : ClientSession) (c : ChunkSerializer) → R s (record s { serializer = c })
  pub reader : (s : ClientSession) (d : ChunkDeserializer) → R s (record s { deserializer = d })
  pub received : (s : ClientSession) (n : ℕ) → R s (record s { bytes_received = n })
  pub since_ack : (s : ClientSession) (n : ℕ) → R s (record s { bytes_received_since_last_ack = n })
  pub window : (s : ClientSession) (n : ℕ) → R s (record s { peer_window_ack_size = some n })
  pub counted : (s : ClientSession) (n : ℕ) → R s (record s { next_transaction_id = n })
  pub transactions :
      (s : ClientSession) (m : List (ℕ × OutstandingTransaction))
      → R s (record s { outstanding_transactions = m })
  pub joined :
      (s : ClientSession) (app_name : List ℕ)
      → R s (record s { current_state = ClientState.connected; connected_app_name = some app_name })
  pub play_asked :
      (s : ClientSession) (id : ℕ)
      → R s (record s { current_state = ClientState.play_requested; active_stream_id = some id })
  pub publish_asked :
      (s : ClientSession) (id : ℕ)
      → R s (record s { current_state = ClientState.publish_requested; active_stream_id = some id })
  pub play_begun :
      (s : ClientSession)
      → s.current_state ≡ ClientState.play_requested
      → R s (record s { current_state = ClientState.playing })
  pub publish_begun :
      (s : ClientSession)
      → s.current_state ≡ ClientState.publish_requested
      → R s (record s { current_state = ClientState.publishing })
  pub stopped :
      (s : ClientSession)
      → R s (record s { current_state = ClientState.connected; active_stream_id = none })

module _ {R : ClientSession → ClientSession → Type 0} (allows : Allows R) where
  pub with_serializer-Keeps {ℓ} :
      {A : Type ℓ} (r : SerializerResult (A × ChunkSerializer)) → Keeps R (with_serializer r)
  with_serializer-Keeps (ok (a, c)) = record { holds = λ s. allows.writer s c }
  with_serializer-Keeps (err e) = record { holds = allows.order.same }
  with_serializer-Keeps panicked = record { holds = allows.order.same }
  with_serializer-Keeps out_of_fuel = record { holds = allows.order.same }

module _ ⦃bo : ByteOrder⦄ ⦃env : Environment⦄ {R : ClientSession → ClientSession → Type 0}
    (allows : Allows R) where
  write_payload-Keeps :
      (payload : MessagePayload) (drop : Bool) → Keeps R (write_payload payload drop)
  unfolding write_payload
  write_payload-Keeps payload drop = record {
    holds = λ s. (with_serializer-Keeps allows (serialize s.serializer payload false drop)).holds s;
  }

  pub get_epoch-Keeps : Keeps R get_epoch
  unfolding get_epoch
  get_epoch-Keeps = record { holds = λ s. allows.clock s _ }

  pub send_at-Keeps :
      (time : RtmpTimestamp) (message : RtmpMessage) (stream_id : ℕ) (drop : Bool)
      → Keeps R (send_at time message stream_id drop)
  unfolding send_at
  send_at-Keeps time message stream_id drop =
      Keeps-bind allows.order (Keeps-lift allows.order) λ payload. write_payload-Keeps payload drop

  pub send-Keeps : (message : RtmpMessage) (stream_id : ℕ) → Keeps R (send message stream_id)
  unfolding send
  send-Keeps message stream_id =
      Keeps-bind allows.order get_epoch-Keeps λ time. send_at-Keeps time message stream_id false
