-- ===== src/Chunk/RoundTrip/Loss.antt =====
-- Packets that may be dropped, and are: the deserializer does not miss them.
use rust_media_libs.Prelude.{
  ℕ, suc, ◌+◌, ◌≡◌, subst, Bool, true, Option, List, [], ◌∷◌, length, ltb, ◌==◌, Bool-cases, arith,
  ok, ◌>>=◌, >>=-eq-ok, inl, inr,
}
use rust_media_libs.Bytes.{ByteOrder}
use rust_media_libs.HashMap
use rust_media_libs.Message.Payload.{MessagePayload}
use rust_media_libs.Chunk.Header.{ChunkHeader}
use rust_media_libs.Chunk.Serializer.{
  ChunkSerializer, SerializerResult, Packet, choose_format, get_header_format, slices, add_chunk,
  add_chunks, serialize,
}
use rust_media_libs.Chunk.RoundTrip.Sync.{Agrees, chosen}
use rust_media_libs.Chunk.RoundTrip.Progress.{id_of, with_header}

-- The flag of the message goes into the header.
chosen-can_be_dropped :
    (force continued : Bool) (message : MessagePayload) (droppable : Bool)
    (previous : Option ChunkHeader)
    → (chosen force continued message droppable previous).1.can_be_dropped ≡ droppable
unfolding choose_format get_header_format
chosen-can_be_dropped force continued message droppable previous = ground arith

with_header-Agrees :
    (s : ChunkSerializer) (w : ChunkHeader) (size : ℕ) (headers : List (ℕ × ChunkHeader))
    → w.can_be_dropped ≡ true
    → Agrees s size headers
    → Agrees (with_header s w) size headers
with_header-Agrees s w size headers dropped a = record {
  same_size = a.same_size;
  same_headers = λ id h e reliable.
      let law = HashMap.get-insert w.chunk_stream_id id w s.previous_headers in
      elim (Bool-cases (w.chunk_stream_id == id)) [
        | inl same ↦ absurd (ground (arith, law))
        | inr other ↦ a.same_headers id h (ground (arith, law)) reliable
      ];
}

module _ ⦃bo : ByteOrder⦄ (message : MessagePayload) (force : Bool) (size : ℕ)
    (headers : List (ℕ × ChunkHeader)) where
  add_chunk-Agrees :
      (s : ChunkSerializer) (continued : Bool) (slice : List ℕ) {bytes : List ℕ}
      {s' : ChunkSerializer}
      → add_chunk s force message continued slice true ≡ ok (bytes, s')
      → Agrees s size headers
      → Agrees s' size headers
  unfolding add_chunk
  add_chunk-Agrees s continued slice {bytes} {s'} e a =
      let previous = HashMap.get (id_of message) s.previous_headers in
      let w = (chosen force continued message true previous).1 in
      let sender : s' ≡ with_header s w = ground arith in
      rw sender (
        with_header-Agrees s w size headers
          (chosen-can_be_dropped force continued message true previous) a)

  add_chunks-Agrees :
      (pieces : List (List ℕ)) (s : ChunkSerializer) (idx : ℕ) {bytes : List ℕ}
      {s' : ChunkSerializer}
      → add_chunks s force message true idx pieces ≡ ok (bytes, s')
      → Agrees s size headers
      → Agrees s' size headers
  unfolding add_chunks
  add_chunks-Agrees [] s idx e a = subst (λ t. Agrees t size headers) (cc) a
  add_chunks-Agrees (piece ∷ pieces) s idx e a =
      let ((b, s₁), first, rest) = >>=-eq-ok _ _ e in
      let ((b₂, s₂), second, same) = >>=-eq-ok _ _ rest in
      subst (λ t. Agrees t size headers) (cc same)
        (add_chunks-Agrees pieces s₁ (idx + 1) second
          (add_chunk-Agrees s (ltb 0 idx) piece first a))

  -- A serializer that has written a message as one that may be dropped still agrees with every chunk
  -- size and map of headers that it agreed with before: a peer need not see the packet.
  pub serialize-Agrees :
      (s : ChunkSerializer) {p : Packet} {s' : ChunkSerializer}
      → serialize s message force true ≡ ok (p, s')
      → Agrees s size headers
      → Agrees s' size headers
  unfolding serialize
  serialize-Agrees s {p} {s'} e a = elim (Bool-cases (ltb 16777215 (length message.bytes))) [
    | inl long ↦ cc (rw long at e)
    | inr short ↦
        let finish : List ℕ × ChunkSerializer → SerializerResult (Packet × ChunkSerializer) =
          λ x. ok (record { bytes = x.0; can_be_dropped = true }, x.1) in
        let (pieces, cut, rest) =
          >>=-eq-ok (slices (suc (length message.bytes)) s.max_chunk_size message.bytes 0)
            (λ pieces. add_chunks s force message true 0 pieces >>= finish) (rw short at e) in
        let ((b, s₁), added, same) =
          >>=-eq-ok (add_chunks s force message true 0 pieces) finish rest in
        let sender : s₁ ≡ s' = ground (arith, same) in
        rw (← sender) (add_chunks-Agrees pieces s 0 added a)
  ]
