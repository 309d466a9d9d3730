-- ===== src/Chunk/Runs.antt =====
-- Chunks at concrete messages: two ends of a connection at their start.
use rust_media_libs.Prelude.{
  ℕ, ◌*◌, ◌≤◌, ◌≡◌, ◌≢◌, refl, true, false, some, List, [], ◌∷◌, ◌++◌, drop, arith, ok, out_of_fuel,
}
use rust_media_libs.Bytes.Endian.{endian}
use rust_media_libs.HashMap
use rust_media_libs.Time.{timestamp}
use rust_media_libs.Message.Payload.{MessagePayload}
use rust_media_libs.Chunk.Serializer.{
  set_max_chunk_size, new_serializer, Packet, ChunkSerializer, slices, serialize,
  get_csid_for_message_type,
}
use rust_media_libs.Message.Types.{set_chunk_size}
use rust_media_libs.Message.Deserialize.{to_rtmp_message}
use rust_media_libs.Chunk.RoundTrip.Resize.{set_max_chunk_size-Sync}
use rust_media_libs.Chunk.Deserializer
use rust_media_libs.Chunk.Deserializer.{ChunkDeserializer, new_deserializer, get_next_message}
use rust_media_libs.Chunk.Slices.{IsSplit, slices-IsSplit, slices-out_of_fuel}
use rust_media_libs.Chunk.Total.{get_next_message-ne-out_of_fuel}
use rust_media_libs.Chunk.RoundTrip.Basic.{get_csid_for_message_type_bounds}
use rust_media_libs.Chunk.RoundTrip.Sync.{IsValid, Sync, Agrees, IsSendable}
use rust_media_libs.Chunk.RoundTrip.Messages.{IsIdle, get_next_message-serialize}
use rust_media_libs.Chunk.RoundTrip.Stream.{Sending, AreFair, transmit, receive, receive-transmit}

abbrev hello : MessagePayload
hello = record {
  timestamp = timestamp 72;
  type_id = 50;
  message_stream_id = 12;
  bytes = 1 ∷ 2 ∷ 3 ∷ [];
}

abbrev goodbye : MessagePayload
goodbye = record { timestamp = timestamp 82; type_id = 50; message_stream_id = 12; bytes = 4 ∷ [] }

abbrev sendings : List Sending
sendings =
    record { message = hello; force_uncompressed = false; can_be_dropped = false; is_lost = false }
    ∷ record {
      message = goodbye;
      force_uncompressed = false;
      can_be_dropped = true;
      is_lost = true;
    }
    ∷ record { message = hello; force_uncompressed = true; can_be_dropped = true; is_lost = false }
    ∷ []

hello-IsSendable : IsSendable hello
hello-IsSendable = record {
  nonempty = omega arith;
  short = omega arith;
  time = omega arith;
  stream_id = omega arith;
}

goodbye-IsSendable : IsSendable goodbye
goodbye-IsSendable = record {
  nonempty = omega arith;
  short = omega arith;
  time = omega arith;
  stream_id = omega arith;
}

new_serializer-IsValid : IsValid new_serializer
unfolding HashMap.get
new_serializer-IsValid = record { kept = λ id h e. cc }

new-Agrees : Agrees new_serializer 128 []
unfolding HashMap.get
new-Agrees = record { same_size = refl; same_headers = λ id h e reliable. cc }

sendings-AreFair : AreFair sendings
sendings-AreFair = (
  record { sendable = hello-IsSendable; marked = λ e. cc },
  (
    record { sendable = goodbye-IsSendable; marked = λ e. refl },
    (record { sendable = hello-IsSendable; marked = λ e. refl }, tt),
  ),
)

receive-transmit_example :
    (bytes : List ℕ) × (s' : ChunkSerializer) × (d' : ChunkDeserializer) × (transmit new_serializer
        sendings
      ≡ ok (bytes, s'))
    × (receive 4 new_deserializer bytes ≡ ok (hello ∷ hello ∷ [], d'))
    × Sync s' d'
    × IsIdle d'
receive-transmit_example =
    receive-transmit sendings new_serializer new_deserializer sendings-AreFair (omega arith)
      new_serializer-IsValid new-Agrees (record { stage = refl; no_payload = refl }) refl

get_next_message-serialize_example :
    (p : Packet) × (s' : ChunkSerializer) × (d' : ChunkDeserializer) × (serialize new_serializer
        hello false false
      ≡ ok (p, s'))
    × IsValid s'
    × (get_next_message new_deserializer (p.bytes ++ (3 ∷ 4 ∷ [])) ≡ ok (some hello, d'))
    × Sync s' d'
    × IsIdle d'
    × (d'.buffer ≡ 3 ∷ 4 ∷ [])
get_next_message-serialize_example =
    get_next_message-serialize hello false false new_serializer new_deserializer (3 ∷ 4 ∷ [])
      hello-IsSendable (omega arith) new_serializer-IsValid new-Agrees
      (record { stage = refl; no_payload = refl }) refl

get_next_message-ne-out_of_fuel_example :
    get_next_message new_deserializer (3 ∷ 0 ∷ 0 ∷ []) ≢ out_of_fuel
get_next_message-ne-out_of_fuel_example =
    get_next_message-ne-out_of_fuel new_deserializer (3 ∷ 0 ∷ 0 ∷ [])

slices-IsSplit_example :
    (pieces : List (List ℕ)) × (slices 4 2 (1 ∷ 2 ∷ 3 ∷ []) 0 ≡ ok pieces)
    × IsSplit 2 (drop (0 * 2) (1 ∷ 2 ∷ 3 ∷ [])) pieces
slices-IsSplit_example = slices-IsSplit 4 2 (1 ∷ 2 ∷ 3 ∷ []) 0 (omega arith) (omega arith)

get_csid_for_message_type_bounds_example :
    (2 ≤ get_csid_for_message_type 255) × (get_csid_for_message_type 255 ≤ 6)
get_csid_for_message_type_bounds_example = get_csid_for_message_type_bounds 255

set_max_chunk_size-Sync_example :
    (p : Packet) × (s' : ChunkSerializer) × (m : MessagePayload) × (d₁ d₂ : ChunkDeserializer)
    × (set_max_chunk_size true new_serializer 4096 (timestamp 0) ≡ ok (p, s'))
    × IsValid s'
    × (s'.max_chunk_size ≡ 4096)
    × (get_next_message new_deserializer (p.bytes ++ (3 ∷ [])) ≡ ok (some m, d₁))
    × (to_rtmp_message m ≡ ok (set_chunk_size 4096))
    × (Deserializer.set_max_chunk_size d₁ 4096 ≡ ok d₂)
    × Sync s' d₂
    × IsIdle d₂
    × (d₂.buffer ≡ 3 ∷ [])
set_max_chunk_size-Sync_example =
    set_max_chunk_size-Sync true 4096 (timestamp 0) new_serializer new_deserializer (3 ∷ [])
      (omega arith) (omega arith) (omega arith) (omega arith) new_serializer-IsValid new-Agrees
      (record { stage = refl; no_payload = refl }) refl

slices-out_of_fuel_example : slices 1000 0 (1 ∷ 2 ∷ []) 0 ≡ out_of_fuel
slices-out_of_fuel_example = slices-out_of_fuel 1000 (1 ∷ 2 ∷ []) 0 (omega arith)
