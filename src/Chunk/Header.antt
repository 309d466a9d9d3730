-- ===== src/Chunk/Header.antt =====
-- rtmp/src/chunk_io/chunk_header.rs
use rust_media_libs.Prelude.{ℕ, Bool, true, false}
use rust_media_libs.Time.{RtmpTimestamp, timestamp}

pub data ChunkHeaderFormat : Type 0 where
  full time_delta_without_message_stream_id time_delta_only empty : ChunkHeaderFormat

pub record ChunkHeader : Type 0 where
  pub chunk_stream_id : ℕ
  pub timestamp : RtmpTimestamp
  pub timestamp_field : ℕ
  pub message_length : ℕ
  pub message_type_id : ℕ
  pub message_stream_id : ℕ
  pub can_be_dropped : Bool

-- `ChunkHeader::new`.
abbrev pub new_header : ChunkHeader
new_header = record {
  chunk_stream_id = 0;
  timestamp = timestamp 0;
  timestamp_field = 0;
  message_length = 0;
  message_type_id = 0;
  message_stream_id = 0;
  can_be_dropped = false;
}

-- `==` on header formats, derived by `PartialEq`.
abbrev pub is_full : ChunkHeaderFormat → Bool
is_full full = true
is_full _ = false

abbrev pub is_empty : ChunkHeaderFormat → Bool
is_empty empty = true
is_empty _ = false

abbrev pub is_time_delta_only : ChunkHeaderFormat → Bool
is_time_delta_only time_delta_only = true
is_time_delta_only _ = false

abbrev pub max_initial_timestamp : ℕ
max_initial_timestamp = 16777215

abbrev pub initial_max_chunk_size : ℕ
initial_max_chunk_size = 128
