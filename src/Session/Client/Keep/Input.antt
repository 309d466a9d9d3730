-- ===== src/Session/Client/Keep/Input.antt =====
-- What an input to a client session changes.
use rust_media_libs.Prelude.{
  ℕ, zero, suc, Option, none, some, List, [], leb, Outcome, ok, err, panicked, out_of_fuel,
}
use rust_media_libs.Bytes.{ByteOrder}
use rust_media_libs.Message.Payload.{MessagePayload}
use rust_media_libs.Chunk.Deserializer.{ChunkDeserializer, ChunkDeserializationError}
use rust_media_libs.Session.Action.{Environment}
use rust_media_libs.Session.Keeps.{
  Keeps, Keeps-bind, Keeps-pure, Keeps-gets, Keeps-lift, Keeps-modify, Keeps-if, Keeps-checked_add,
}
use rust_media_libs.Session.Client.Types.{ClientSession}
use rust_media_libs.Session.Client.Send.{Session, Results}
use rust_media_libs.Session.Client.Input.{
  with_message, next_message, handle_payload, handle_found, handle_messages, acknowledge_full,
  acknowledge_window, acknowledge_if, acknowledge, input_action,
}
use rust_media_libs.Session.Client.Keep.Sends.{Allows, send-Keeps}
use rust_media_libs.Session.Client.Keep.Handlers.{count_bytes-Keeps}
use rust_media_libs.Session.Client.Keep.Commands.{handle_message-Keeps}

module _ ⦃bo : ByteOrder⦄ ⦃env : Environment⦄ {R : ClientSession → ClientSession → Type 0}
    (allows : Allows R) where
  handle_payload-Keeps : (payload : MessagePayload) → Keeps R (handle_payload payload)
  unfolding handle_payload
  handle_payload-Keeps payload =
      Keeps-bind allows.order (Keeps-lift allows.order) (handle_message-Keeps allows payload)

  with_message-Keeps :
      (r : Outcome ChunkDeserializationError (Option MessagePayload × ChunkDeserializer))
      → Keeps R (with_message r)
  with_message-Keeps (ok (m, d)) = record { holds = λ s. allows.reader s d }
  with_message-Keeps (err e) = record { holds = allows.order.same }
  with_message-Keeps panicked = record { holds = allows.order.same }
  with_message-Keeps out_of_fuel = record { holds = allows.order.same }

  next_message-Keeps : (bytes : List ℕ) → Keeps R (next_message bytes)
  unfolding next_message
  next_message-Keeps bytes = record { holds = λ s. (with_message-Keeps _).holds s }

  handle_found-Keeps :
      {rest : Session Results} (found : Option MessagePayload)
      → Keeps R rest
      → Keeps R (handle_found rest found)
  unfolding handle_found
  handle_found-Keeps none h = Keeps-pure allows.order
  handle_found-Keeps (some payload) h =
      Keeps-bind allows.order (handle_payload-Keeps payload)
        λ results. Keeps-bind allows.order h λ more. Keeps-pure allows.order

  handle_messages-Keeps : (fuel : ℕ) (bytes : List ℕ) → Keeps R (handle_messages fuel bytes)
  unfolding handle_messages
  handle_messages-Keeps zero bytes = Keeps-lift allows.order
  handle_messages-Keeps (suc fuel) bytes =
      Keeps-bind allows.order (next_message-Keeps bytes)
        λ found. handle_found-Keeps found (handle_messages-Keeps fuel [])

  acknowledge_full-Keeps : (count : ℕ) → Keeps R (acknowledge_full count)
  unfolding acknowledge_full
  acknowledge_full-Keeps count = Keeps-bind allows.order (send-Keeps allows _ 0) λ p.
      Keeps-bind allows.order (Keeps-modify allows.order λ s. allows.since_ack s 0)
        λ u. Keeps-pure allows.order

  acknowledge_if-Keeps :
      (bytes : List ℕ) (window : Option ℕ) → Keeps R (acknowledge_if bytes window)
  unfolding acknowledge_if acknowledge_window
  acknowledge_if-Keeps bytes none = Keeps-pure allows.order
  acknowledge_if-Keeps bytes (some size) =
      Keeps-bind allows.order (Keeps-gets allows.order) λ since.
        Keeps-bind allows.order (Keeps-checked_add allows.order 32 since _) λ count.
          Keeps-bind allows.order (Keeps-modify allows.order λ s. allows.since_ack s count) λ u.
            Keeps-if allows.order (leb size count) (acknowledge_full-Keeps count)
              (Keeps-pure allows.order)

  pub input_action-Keeps : (bytes : List ℕ) → Keeps R (input_action bytes)
  unfolding input_action acknowledge
  input_action-Keeps bytes = Keeps-bind allows.order (count_bytes-Keeps allows bytes) λ u.
      Keeps-bind allows.order
        (Keeps-bind allows.order (Keeps-gets allows.order) (acknowledge_if-Keeps bytes))
        λ acks. Keeps-bind allows.order (Keeps-gets allows.order) λ fuel.
          Keeps-bind allows.order (handle_messages-Keeps fuel bytes)
            λ results. Keeps-pure allows.order
