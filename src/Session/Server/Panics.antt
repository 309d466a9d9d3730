-- ===== src/Session/Server/Panics.antt =====
-- Bytes from a client that make the server panic.
use rust_media_libs.Prelude.{
  ℕ, suc, ◌+◌, ◌*◌, ◌^◌, ◌<◌, ◌++◌, length, ltb, true, arith, ◌≡◌, refl, none, some, List, ok,
  panicked,
}
use rust_media_libs.Text.{text}
use rust_media_libs.Bytes.{ByteOrder}
use rust_media_libs.Amf0.Value.{Values, utf8_string, nil, cons}
use rust_media_libs.Message.Payload.{MessagePayload}
use rust_media_libs.Message.Types.{amf0_data}
use rust_media_libs.Message.Deserialize.{to_rtmp_message}
use rust_media_libs.Session.Action.{Environment, ◌>>=◌}
use rust_media_libs.Session.Server.Types.{ServerSession}
use rust_media_libs.Session.Server.Media.{handle_amf0_data, handle_amf0_data_set_data_frame}
use rust_media_libs.Session.Server.Input.{
  handle_message, handle_payload, handle_input, input_action, count_bytes, acknowledge,
  acknowledge_if, handle_messages, next_message, handle_found,
}
use rust_media_libs.Chunk.Deserializer.{ChunkDeserializer, get_next_message}

-- A message that announces a data frame and ends there.
abbrev pub cut_off : Values
cut_off = cons (utf8_string (text "@setDataFrame")) nil

module _ ⦃bo : ByteOrder⦄ ⦃env : Environment⦄ where
  handle_payload-panicked :
      (payload : MessagePayload) (s : ServerSession)
      → to_rtmp_message payload ≡ ok (amf0_data cut_off)
      → handle_payload payload s ≡ (panicked, s)
  unfolding handle_payload handle_message handle_amf0_data handle_amf0_data_set_data_frame ◌>>=◌
  handle_payload-panicked payload s read = rw read refl

  -- Bytes whose first complete message is the data message `@setDataFrame` with nothing behind it
  -- make `handle_input` panic, in a session that is not connected too. The client has not set a
  -- window here, and the count of the bytes does not overflow.
  pub handle_input-panicked :
      (s : ServerSession) (bytes : List ℕ) (payload : MessagePayload) (d : ChunkDeserializer)
      → s.peer_window_ack_size ≡ none
      → s.bytes_received + length bytes < 2 ^ 64
      → get_next_message s.deserializer bytes ≡ ok (some payload, d)
      → to_rtmp_message payload ≡ ok (amf0_data cut_off)
      → handle_input s bytes ≡ panicked
  unfolding handle_input input_action count_bytes acknowledge acknowledge_if handle_messages
      next_message handle_found ◌>>=◌
  handle_input-panicked s bytes payload d window counted next read =
      let fits : ltb (s.bytes_received + length bytes) (2 ^ 64) ≡ true = ground (arith, counted) in
      let fuel : 7 * length (s.deserializer.buffer ++ bytes) + 9
          ≡ suc (7 * length (s.deserializer.buffer ++ bytes) + 8) =
        omega arith in
      let reached : ServerSession = record s {
        deserializer = d;
        peer_window_ack_size = none;
        bytes_received = s.bytes_received + length bytes;
      } in
      rw (fits, window, fuel, next, handle_payload-panicked payload reached read) refl
