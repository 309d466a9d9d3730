-- ===== src/Message/Payload.antt =====
-- rtmp/src/messages/message_payload.rs: the raw message that chunks carry. `Bytes` is a list.
use rust_media_libs.Prelude.{ℕ, List, []}
use rust_media_libs.Time.{RtmpTimestamp, timestamp}

pub record MessagePayload : Type 0 where
  pub timestamp : RtmpTimestamp
  pub type_id : ℕ
  pub message_stream_id : ℕ
  pub bytes : List ℕ

-- `MessagePayload::new`.
abbrev pub new_payload : MessagePayload
new_payload = record { timestamp = timestamp 0; type_id = 0; message_stream_id = 0; bytes = [] }
