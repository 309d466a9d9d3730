-- ===== src/Chunk/RoundTrip/Resize.antt =====
-- The chunk size changes at both ends of a connection.
use rust_media_libs.Prelude.{
  [], ℕ, ◌<◌, ◌≤◌, ◌≡◌, refl, Bool, true, false, some, List, ◌++◌, le→ltb_false, arith, ok,
}
use rust_media_libs.Bytes.{ByteOrder, IsU32}
use rust_media_libs.Time.{RtmpTimestamp}
use rust_media_libs.Message.Payload.{MessagePayload}
use rust_media_libs.Message.Types.{set_chunk_size}
use rust_media_libs.Message.Serialize.{from_rtmp_message}
use rust_media_libs.Message.Deserialize.{to_rtmp_message}
use rust_media_libs.Message.RoundTrip.{read_int-encode_all}
use rust_media_libs.Chunk.Serializer
use rust_media_libs.Chunk.Serializer.{ChunkSerializer, Packet, serialize}
use rust_media_libs.Chunk.Deserializer
use rust_media_libs.Chunk.Deserializer.{ChunkDeserializer, get_next_message}
use rust_media_libs.Chunk.RoundTrip.Sync.{IsValid, Sync, IsSendable}
use rust_media_libs.Chunk.RoundTrip.Messages.{IsIdle, get_next_message-serialize}

module _ ⦃bo : ByteOrder⦄ (size : ℕ) (time : RtmpTimestamp) (small : size ≤ 2147483647) where
  abbrev announcement : MessagePayload
  announcement = record {
    timestamp = time;
    type_id = 1;
    message_stream_id = 0;
    bytes = bo.u32_be.encode size;
  }

  from_rtmp_message-set_chunk_size :
      (debug_assertions : Bool)
      → from_rtmp_message debug_assertions (set_chunk_size size) time 0 ≡ ok announcement
  unfolding from_rtmp_message
  from_rtmp_message-set_chunk_size debug_assertions = rw (le→ltb_false 2147483647 size small)

  to_rtmp_message-announcement : to_rtmp_message announcement ≡ ok (set_chunk_size size)
  unfolding to_rtmp_message
  to_rtmp_message-announcement = rw (
    read_int-encode_all bo.u32_be size (omega (arith, small)),
    le→ltb_false 2147483647 size small,
  )

  announcement-IsSendable : IsU32 time.value → IsSendable announcement
  announcement-IsSendable h = record {
    nonempty = omega (arith, bo.u32_be.length-encode size);
    short = omega (arith, bo.u32_be.length-encode size);
    time = h;
    stream_id = omega arith;
  }

module _ ⦃bo : ByteOrder⦄ where
  -- A serializer whose chunk size is not 0 is told a new one, greater than 0 and less than 2147483647,
  -- at a 32-bit timestamp, and writes a packet. A deserializer that is in step with it, between two
  -- messages and without bytes left, given the packet's bytes and any bytes behind them, reads a
  -- `SetChunkSize` message with that size and keeps the bytes behind; and once it has been told the
  -- size, it accepts it and both ends are in step at the new size.
  pub set_max_chunk_size-Sync :
      (debug_assertions : Bool) (new_size : ℕ) (time : RtmpTimestamp) (s : ChunkSerializer)
      (d : ChunkDeserializer) (rest : List ℕ)
      → 0 < new_size
      → new_size < 2147483647
      → IsU32 time.value
      → 0 < s.max_chunk_size
      → IsValid s
      → Sync s d
      → IsIdle d
      → d.buffer ≡ []
      → (p : Packet) × (s' : ChunkSerializer) × (m : MessagePayload) × (d₁ d₂ : ChunkDeserializer)
        × (Serializer.set_max_chunk_size debug_assertions s new_size time ≡ ok (p, s'))
        × IsValid s'
        × (s'.max_chunk_size ≡ new_size)
        × (get_next_message d (p.bytes ++ rest) ≡ ok (some m, d₁))
        × (to_rtmp_message m ≡ ok (set_chunk_size new_size))
        × (Deserializer.set_max_chunk_size d₁ new_size ≡ ok d₂)
        × Sync s' d₂
        × IsIdle d₂
        × (d₂.buffer ≡ rest)
  unfolding Serializer.set_max_chunk_size Deserializer.set_max_chunk_size
  set_max_chunk_size-Sync debug_assertions new_size time s d rest some_size below h positive v a
        idle no_bytes =
      let small : new_size ≤ 2147483647 = omega (arith, below) in
      let within = le→ltb_false 2147483647 new_size small in
      let (p, s₁, d₁, sent, v₁, got, a₁, idle₁, left) =
        get_next_message-serialize (announcement new_size time small) true false s d rest
          (announcement-IsSendable new_size time small h) positive v a idle no_bytes in
      (
        p,
        record s₁ { max_chunk_size = new_size },
        announcement new_size time small,
        d₁,
        record d₁ { max_chunk_size = new_size },
        rw (within, from_rtmp_message-set_chunk_size new_size time small debug_assertions, sent),
        record { kept = v₁.kept },
        refl,
        got,
        to_rtmp_message-announcement new_size time small,
        rw within,
        record { same_size = refl; same_headers = a₁.same_headers },
        record { stage = idle₁.stage; no_payload = idle₁.no_payload },
        left,
      )
