-- ===== src/Session/Server/Keep/Input.antt =====
-- A relation that the operations of the session's state respect, step by step, is respected by what
-- the session does with an input.
use rust_media_libs.Prelude.{
  ℕ, suc, zero, false, Option, none, some, List, [], leb, length, Outcome, ok, err, panicked,
  out_of_fuel,
}
use rust_media_libs.Bytes.{ByteOrder}
use rust_media_libs.Message.Payload.{MessagePayload}
use rust_media_libs.Chunk.Deserializer.{ChunkDeserializer, ChunkDeserializationError}
use rust_media_libs.Session.Action.{Environment}
use rust_media_libs.Session.Keeps.{
  Keeps, Keeps-bind, Keeps-pure, Keeps-gets, Keeps-lift, Keeps-modify, Keeps-if, Keeps-checked_add,
}
use rust_media_libs.Session.Server.Types.{ServerSession}
use rust_media_libs.Session.Server.Send.{Session, Results}
use rust_media_libs.Session.Server.Input.{
  with_message, next_message, handle_payload, handle_found, handle_messages, count_bytes,
  acknowledge_full, acknowledge_window, acknowledge_if, acknowledge, input_action,
}
use rust_media_libs.Session.Server.Keep.Sends.{send-Keeps}
use rust_media_libs.Session.Server.Keep.Allows.{AllowsMessage, AllowsInput}
use rust_media_libs.Session.Server.Keep.Handlers.{order}
use rust_media_libs.Session.Server.Keep.Commands.{handle_message-Keeps}

module _ ⦃bo : ByteOrder⦄ ⦃env : Environment⦄ {R : ServerSession → ServerSession → Type 0}
    (allows : AllowsMessage R) where
  handle_payload-Keeps : (payload : MessagePayload) → Keeps R (handle_payload payload)
  unfolding handle_payload
  handle_payload-Keeps payload =
      Keeps-bind (order allows) (Keeps-lift (order allows)) (handle_message-Keeps allows payload)

  with_message-Keeps :
      (r : Outcome ChunkDeserializationError (Option MessagePayload × ChunkDeserializer))
      → Keeps R (with_message r)
  with_message-Keeps (ok (m, d)) = record { holds = λ s. allows.reader s d }
  with_message-Keeps (err e) = record { holds = (order allows).same }
  with_message-Keeps panicked = record { holds = (order allows).same }
  with_message-Keeps out_of_fuel = record { holds = (order allows).same }

  next_message-Keeps : (bytes : List ℕ) → Keeps R (next_message bytes)
  unfolding next_message
  next_message-Keeps bytes = record { holds = λ s. (with_message-Keeps _).holds s }

  handle_found-Keeps :
      {rest : Session Results} (found : Option MessagePayload)
      → Keeps R rest
      → Keeps R (handle_found rest found)
  unfolding handle_found
  handle_found-Keeps none h = Keeps-pure (order allows)
  handle_found-Keeps (some payload) h =
      Keeps-bind (order allows) (handle_payload-Keeps payload)
        λ results. Keeps-bind (order allows) h λ more. Keeps-pure (order allows)

  pub handle_messages-Keeps : (fuel : ℕ) (bytes : List ℕ) → Keeps R (handle_messages fuel bytes)
  unfolding handle_messages
  handle_messages-Keeps zero bytes = Keeps-lift (order allows)
  handle_messages-Keeps (suc fuel) bytes =
      Keeps-bind (order allows) (next_message-Keeps bytes)
        λ found. handle_found-Keeps found (handle_messages-Keeps fuel [])

module _ {R : ServerSession → ServerSession → Type 0} (allows : AllowsInput R) where
  count_bytes-Keeps : (bytes : List ℕ) → Keeps R (count_bytes bytes)
  unfolding count_bytes
  count_bytes-Keeps bytes =
      Keeps-bind allows.messages.blind.order (Keeps-gets allows.messages.blind.order) λ received.
        Keeps-bind allows.messages.blind.order
          (Keeps-checked_add allows.messages.blind.order 64 received (length bytes))
          λ total. Keeps-modify allows.messages.blind.order λ s. allows.received s total

module _ ⦃bo : ByteOrder⦄ ⦃env : Environment⦄ {R : ServerSession → ServerSession → Type 0}
    (allows : AllowsInput R) where
  acknowledge_full-Keeps : (count : ℕ) → Keeps R (acknowledge_full count)
  unfolding acknowledge_full
  acknowledge_full-Keeps count =
      Keeps-bind (order allows.messages) (send-Keeps allows.messages.blind _ 0 false) λ p.
        Keeps-bind (order allows.messages)
          (Keeps-modify (order allows.messages) λ s. allows.since_ack s 0)
          λ u. Keeps-pure (order allows.messages)

  acknowledge_if-Keeps :
      (bytes : List ℕ) (window : Option ℕ) → Keeps R (acknowledge_if bytes window)
  unfolding acknowledge_if acknowledge_window
  acknowledge_if-Keeps bytes none = Keeps-pure (order allows.messages)
  acknowledge_if-Keeps bytes (some size) =
      Keeps-bind (order allows.messages) (Keeps-gets (order allows.messages)) λ since.
        Keeps-bind (order allows.messages) (Keeps-checked_add (order allows.messages) 32 since _)
          λ count.
            Keeps-bind (order allows.messages)
              (Keeps-modify (order allows.messages) λ s. allows.since_ack s count)
              λ u.
                Keeps-if (order allows.messages) (leb size count) (acknowledge_full-Keeps count)
                  (Keeps-pure (order allows.messages))

  acknowledge-Keeps : (bytes : List ℕ) → Keeps R (acknowledge bytes)
  unfolding acknowledge
  acknowledge-Keeps bytes =
      Keeps-bind (order allows.messages) (Keeps-gets (order allows.messages))
        (acknowledge_if-Keeps bytes)

  pub input_action-Keeps : (bytes : List ℕ) → Keeps R (input_action bytes)
  unfolding input_action
  input_action-Keeps bytes =
      Keeps-bind (order allows.messages) (count_bytes-Keeps allows bytes) λ u.
        Keeps-bind (order allows.messages) (acknowledge-Keeps bytes) λ acks.
          Keeps-bind (order allows.messages) (Keeps-gets (order allows.messages)) λ fuel.
            Keeps-bind (order allows.messages) (handle_messages-Keeps allows.messages fuel bytes)
              λ results. Keeps-pure (order allows.messages)
