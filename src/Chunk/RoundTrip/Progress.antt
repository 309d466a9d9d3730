-- ===== src/Chunk/RoundTrip/Progress.antt =====
-- One chunk sent by the serializer and read by the deserializer keeps the two ends in agreement.
use rust_media_libs.Prelude.{
  ℕ, suc, ◌<◌, ◌≡◌, Bool, some, List, ◌++◌, length, ◌==◌, if◌then◌else◌, Bool-cases, inl, inr,
  arith, ok,
}
use rust_media_libs.Bytes.{ByteOrder}
use rust_media_libs.HashMap
use rust_media_libs.Message.Payload.{MessagePayload}
use rust_media_libs.Chunk.Header.{ChunkHeaderFormat, ChunkHeader}
use rust_media_libs.Chunk.Serializer.{ChunkSerializer, add_chunk, get_csid_for_message_type}
use rust_media_libs.Chunk.Deserializer.{ChunkDeserializer, csid, run, chunk_length}
use rust_media_libs.Chunk.RoundTrip.Stages.{at}
use rust_media_libs.Chunk.RoundTrip.Headers.{wire_header}
use rust_media_libs.Chunk.RoundTrip.Chunks.{land, run_chunk}
use rust_media_libs.Chunk.RoundTrip.Sync.{
  IsValid, Agrees, Sync, IsSendable, Describes, Describes-Fits, Good, chosen,
}

abbrev pub id_of : MessagePayload → ℕ
id_of message = get_csid_for_message_type message.type_id

-- Both ends, after a chunk of `message` with the header `w`.
pub record Midway (message : MessagePayload) (droppable : Bool) (s : ChunkSerializer) (size : ℕ)
    (headers : List (ℕ × ChunkHeader)) (w : ChunkHeader) : Type 0 where
  pub valid : IsValid s
  pub agrees : Agrees s size headers
  pub sent : HashMap.get (id_of message) s.previous_headers ≡ some w
  pub received : HashMap.get (id_of message) headers ≡ some (wire_header w)
  pub describes : Describes message droppable w

abbrev pub with_header : ChunkSerializer → ChunkHeader → ChunkSerializer
with_header s w = record s {
  previous_headers = HashMap.insert w.chunk_stream_id w s.previous_headers;
}

with_header-IsValid :
    (message : MessagePayload) (droppable : Bool) (s : ChunkSerializer) (w : ChunkHeader)
    → IsSendable message
    → Describes message droppable w
    → IsValid s
    → IsValid (with_header s w)
with_header-IsValid message droppable s w m c v = record {
  kept = λ id h e. elim (Bool-cases (w.chunk_stream_id == id)) [
    | inl same ↦
        let is_new : h ≡ w =
          ground (arith, HashMap.get-insert w.chunk_stream_id id w s.previous_headers) in
        rw is_new
          (record { same_id = ground arith; field = c.6; time = ground (arith, c.1, m.time) })
    | inr other ↦
        v.kept id h (ground (arith, HashMap.get-insert w.chunk_stream_id id w s.previous_headers))
  ];
}

Midway-of :
    (message : MessagePayload) (droppable : Bool) (s : ChunkSerializer) (size : ℕ)
    (headers headers' : List (ℕ × ChunkHeader)) (w : ChunkHeader)
    → IsSendable message
    → IsValid s
    → Agrees s size headers
    → Describes message droppable w
    → ((j : ℕ)
        → HashMap.get j headers'
          ≡ (if w.chunk_stream_id == j then some (wire_header w) else HashMap.get j headers))
    → Midway message droppable (with_header s w) size headers' w
Midway-of message droppable s size headers headers' w m v a c law = record {
  valid = with_header-IsValid message droppable s w m c v;
  agrees = record {
    same_size = a.same_size;
    same_headers = λ id h e reliable. elim (Bool-cases (w.chunk_stream_id == id)) [
      | inl same ↦
          let is_new : h ≡ w =
            ground (arith, HashMap.get-insert w.chunk_stream_id id w s.previous_headers) in
          rw is_new (ground (arith, law id))
      | inr other ↦
          let kept : HashMap.get id s.previous_headers ≡ some h =
            ground (arith, HashMap.get-insert w.chunk_stream_id id w s.previous_headers) in
          ground (arith, law id, a.same_headers id h kept reliable)
    ];
  };
  sent =
      ground
        (arith, c.0, HashMap.get-insert w.chunk_stream_id (id_of message) w s.previous_headers);
  received = ground (arith, c.0, law (id_of message));
  describes = c;
}

module _ ⦃bo : ByteOrder⦄ where
  -- A chunk whose header is `Good`: the serializer's next state, the bytes, and where the
  -- deserializer lands.
  pub progress :
      (message : MessagePayload) (droppable force continued : Bool) (s : ChunkSerializer)
      (d : ChunkDeserializer) (slice : List ℕ) (m : IsSendable message)
      → IsValid s
      → Sync s d
      → (let c =
            chosen force continued message droppable
              (HashMap.get (id_of message) s.previous_headers) in
          Good message droppable d m c
          → chunk_length d.max_chunk_size (length message.bytes) (length d.current_payload_data)
            ≡ some (length slice)
          → (bytes : List ℕ) × (headers : List (ℕ × ChunkHeader)) × (add_chunk s force message
                continued slice droppable
              ≡ ok (bytes, with_header s c.1))
            × (0 < length bytes)
            × Midway message droppable (with_header s c.1) d.max_chunk_size headers c.1
            × ((f : ℕ) (f₀ : ChunkHeaderFormat) (h₀ : ChunkHeader) (rest : List ℕ)
                → run (suc (suc (suc (suc (suc (suc (suc f))))))) (at d csid f₀ h₀ (bytes ++ rest))
                  ≡ land f
                      (record d { previous_headers = headers })
                      c.0
                      (wire_header c.1)
                      slice
                      rest))
  unfolding add_chunk
  progress message droppable force continued s d slice m v a (c, p) el =
      let chosen' =
        chosen force continued message droppable (HashMap.get (id_of message) s.previous_headers) in
      let w = chosen'.1 in
      let (bytes, headers, written, some_bytes, law, read) =
        run_chunk d chosen'.0 w slice (Describes-Fits message droppable w m c) p (rw c.2 el) in
      (
        bytes,
        headers,
        rw written,
        some_bytes,
        Midway-of message droppable s d.max_chunk_size d.previous_headers headers w m v a c law,
        read,
      )
