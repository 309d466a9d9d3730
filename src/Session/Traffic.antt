-- ===== src/Session/Traffic.antt =====
-- The bytes of a peer's messages, for the tests of the sessions.
use rust_media_libs.Prelude.{ℕ, true, false, some, List, [], ◌∷◌, ◌++◌, ok}
use rust_media_libs.Bytes.Endian.{endian}
use rust_media_libs.Time.{timestamp}
use rust_media_libs.Message.Types.{RtmpMessage}
use rust_media_libs.Message.Serialize.{from_rtmp_message}
use rust_media_libs.Chunk.Serializer.{ChunkSerializer, serialize}
use rust_media_libs.Session.Action.{Environment}

instance pub process : Environment
process = record { elapsed = λ n. some (n, 0); debug_assertions = true }

-- The bytes of messages, each on its stream.
abbrev pub bytes_of : List (ℕ × RtmpMessage) → ChunkSerializer → List ℕ
bytes_of [] serializer = []
bytes_of ((stream_id, message) ∷ rest) serializer =
    elim (from_rtmp_message true message (timestamp 0) stream_id) [
      | ok payload ↦ elim (serialize serializer payload true false) [
        | ok (packet, next) ↦ packet.bytes ++ bytes_of rest next
        | _ ↦ []
      ]
      | _ ↦ []
    ]
