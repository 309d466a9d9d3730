-- ===== src/Chunk/RoundTrip/Messages.antt =====
-- A message sent by `ChunkSerializer::serialize` and read by `ChunkDeserializer::get_next_message`.
use rust_media_libs.Prelude.{
  ℕ, suc, ◌+◌, ◌*◌, ◌<◌, ◌≡◌, refl, ap, ◌∙◌, Bool, some, List, [], ◌∷◌, ◌++◌, length, length-append,
  le→ltb_false, arith, ok, inr,
}
use rust_media_libs.Bytes.{ByteOrder}
use rust_media_libs.HashMap
use rust_media_libs.Message.Payload.{MessagePayload}
use rust_media_libs.Chunk.Header.{new_header}
use rust_media_libs.Chunk.Serializer.{ChunkSerializer, Packet, slices, serialize, new_serializer}
use rust_media_libs.Chunk.Deserializer.{
  ChunkDeserializer, csid, run, get_next_message, new_deserializer,
}
use rust_media_libs.Chunk.Slices.{IsSplit, slices-IsSplit}
use rust_media_libs.Chunk.RoundTrip.Stages.{at}
use rust_media_libs.Chunk.RoundTrip.Sync.{IsValid, Sync, IsSendable, chosen_first}
use rust_media_libs.Chunk.RoundTrip.Deliver.{Delivers, deliver, chunk_length-piece}

-- Between two messages.
pub record IsIdle (d : ChunkDeserializer) : Type 0 where
  pub stage : d.current_stage ≡ csid
  pub no_payload : d.current_payload_data ≡ []

-- The serializer and the deserializer at the two ends of a connection agree, between two messages.
pub record AreLinked (s : ChunkSerializer) (d : ChunkDeserializer) : Type 0 where
  pub positive : 0 < s.max_chunk_size
  pub valid : IsValid s
  pub sync : Sync s d
  pub idle : IsIdle d
  pub no_bytes : d.buffer ≡ []

-- They agree before the first message.
pub new-AreLinked : AreLinked new_serializer new_deserializer
unfolding HashMap.get
new-AreLinked = record {
  positive = omega arith;
  valid = record { kept = λ id h e. cc };
  sync = record { same_size = refl; same_headers = λ id h e. cc };
  idle = record { stage = refl; no_payload = refl };
  no_bytes = refl;
}

module _ ⦃bo : ByteOrder⦄ where
  -- All the pieces of a message are delivered.
  pub Delivers-message :
      (message : MessagePayload) (droppable force : Bool) (s : ChunkSerializer)
      (d : ChunkDeserializer)
      → IsSendable message
      → 0 < s.max_chunk_size
      → IsValid s
      → Sync s d
      → d.current_payload_data ≡ []
      → (pieces : List (List ℕ)) × (slices
            (suc (length message.bytes))
            s.max_chunk_size
            message.bytes
            0
          ≡ ok pieces)
        × Delivers message droppable force 0 pieces s d
  Delivers-message message droppable force s d m positive v a idle =
      let (pieces, cut, split) =
        slices-IsSplit (suc (length message.bytes)) s.max_chunk_size message.bytes 0 positive
          (omega arith) in
      let start : 0 * s.max_chunk_size ≡ 0 = omega arith in
      let whole : IsSplit d.max_chunk_size message.bytes pieces =
        rw (a.same_size) (rw start at split) in
      (pieces, cut, from_split pieces whole)
    where
      from_split :
          (pieces : List (List ℕ))
          → IsSplit d.max_chunk_size message.bytes pieces
          → Delivers message droppable force 0 pieces s d
      from_split [] split = absurd (omega (arith, m.nonempty))
      from_split (piece ∷ pieces) split =
          deliver message droppable force m pieces piece 0 s d message.bytes
            (rw a.same_size positive) v a
            (chosen_first message droppable d m s force v a (ap length idle)) (rw idle) split
            (chunk_length-piece d.max_chunk_size d.current_payload_data message.bytes piece
              message.bytes (rw idle) split.1 (inr idle))

  pub start_run :
      (d : ChunkDeserializer) (input all : List ℕ)
      → d.current_stage ≡ csid
      → d.buffer ++ input ≡ all
      → get_next_message d input
        ≡ run (7 * length all + 8) (at d csid d.current_header_format d.current_header all)
  unfolding get_next_message
  start_run d input all stage e =
      λ i. run (7 * length (e i) + 8) (record d { buffer = e i; current_stage = stage i })

  -- A sendable message is serialized into one packet; and a deserializer that is between two
  -- messages and agrees with the serializer, once it is given the packet's bytes, in its buffer or
  -- as input, returns that very message and keeps the bytes that follow. Both ends agree again.
  pub get_next_message-serialize_anywhere :
      (message : MessagePayload) (force_uncompressed can_be_dropped : Bool) (s : ChunkSerializer)
      (d : ChunkDeserializer)
      → IsSendable message
      → 0 < s.max_chunk_size
      → IsValid s
      → Sync s d
      → IsIdle d
      → (p : Packet) × (s' : ChunkSerializer) × (serialize s message force_uncompressed
            can_be_dropped
          ≡ ok (p, s'))
        × IsValid s'
        × (s'.max_chunk_size ≡ s.max_chunk_size)
        × ((input rest : List ℕ)
            → d.buffer ++ input ≡ p.bytes ++ rest
            → (d' : ChunkDeserializer) × (get_next_message d input ≡ ok (some message, d'))
              × Sync s' d'
              × IsIdle d'
              × (d'.buffer ≡ rest))
  unfolding serialize
  get_next_message-serialize_anywhere message force can_be_dropped s d m positive v a idle =
      let (pieces, cut, sent) =
        Delivers-message message can_be_dropped force s d m positive v a idle.no_payload in
      (
        record { bytes = sent.bytes; can_be_dropped = can_be_dropped },
        sent.sender,
        rw (le→ltb_false 16777215 (length message.bytes) m.short, cut, sent.added),
        sent.valid,
        sent.same_size,
        λ input rest e. (
          at sent.receiver csid sent.format new_header rest,
          start_run d input (sent.bytes ++ rest) idle.stage e
              ∙ (sent.read (7 * length (sent.bytes ++ rest) + 8) d.current_header_format
                  d.current_header rest (omega (arith, sent.long, length-append sent.bytes rest))),
          sent.sync,
          record { stage = refl; no_payload = sent.no_payload },
          refl,
        ),
      )

  -- A sendable message is serialized into one packet. A deserializer that is between two messages, has
  -- no bytes left and agrees with the serializer, given the packet's bytes and any bytes behind them,
  -- returns that very message and keeps the bytes behind. Both ends agree again.
  pub get_next_message-serialize :
      (message : MessagePayload) (force_uncompressed can_be_dropped : Bool) (s : ChunkSerializer)
      (d : ChunkDeserializer) (rest : List ℕ)
      → IsSendable message
      → 0 < s.max_chunk_size
      → IsValid s
      → Sync s d
      → IsIdle d
      → d.buffer ≡ []
      → (p : Packet) × (s' : ChunkSerializer) × (d' : ChunkDeserializer) × (serialize s message
            force_uncompressed can_be_dropped
          ≡ ok (p, s'))
        × IsValid s'
        × (get_next_message d (p.bytes ++ rest) ≡ ok (some message, d'))
        × Sync s' d'
        × IsIdle d'
        × (d'.buffer ≡ rest)
  get_next_message-serialize message force can_be_dropped s d rest m positive v a idle no_bytes =
      let (p, s', sent, v', size, reads) =
        get_next_message-serialize_anywhere message force can_be_dropped s d m positive v a idle in
      let (d', got, a', idle', left) =
        reads (p.bytes ++ rest) rest (ap (λ b. b ++ (p.bytes ++ rest)) no_bytes) in
      (p, s', d', sent, v', got, a', idle', left)
