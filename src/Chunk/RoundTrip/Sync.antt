-- ===== src/Chunk/RoundTrip/Sync.antt =====
-- When the two ends of a connection agree, and that the header chosen for the next chunk is one
-- that the other end can complete.
use rust_media_libs.Prelude.{
  ℕ, ◌<◌, ◌≤◌, ◌≡◌, refl, Bool, true, false, Option, some, Option-cases, List, length, ◌==◌, not,
  ◌||◌, Bool-cases, inl, inr, arith,
}
use rust_media_libs.Bytes.{IsU32}
use rust_media_libs.HashMap
use rust_media_libs.Time.{sub}
use rust_media_libs.Time.Laws.{add_u32-sub}
use rust_media_libs.Message.Payload.{MessagePayload}
use rust_media_libs.Chunk.Header.{ChunkHeaderFormat, full, ChunkHeader}
use rust_media_libs.Chunk.Serializer.{
  ChunkSerializer, choose_format, fill_timestamp, start_header, get_csid_for_message_type,
  get_header_format,
}
use rust_media_libs.Chunk.Deserializer.{ChunkDeserializer}
use rust_media_libs.Chunk.RoundTrip.Basic.{get_csid_for_message_type_bounds}
use rust_media_libs.Chunk.RoundTrip.Headers.{wire_header}
use rust_media_libs.Chunk.RoundTrip.Chunks.{Fits, Prepared}

-- What the serializer keeps of each chunk stream.
pub record IsKept (id : ℕ) (h : ChunkHeader) : Type 0 where
  pub same_id : h.chunk_stream_id ≡ id
  pub field : IsU32 h.timestamp_field
  pub time : IsU32 h.timestamp.value

pub record IsValid (s : ChunkSerializer) : Type 0 where
  pub kept : (id : ℕ) (h : ChunkHeader) → HashMap.get id s.previous_headers ≡ some h → IsKept id h

-- The peer uses the same chunk size, and has the header of every chunk stream whose last packet
-- cannot be dropped.
pub record Agrees (s : ChunkSerializer) (size : ℕ) (headers : List (ℕ × ChunkHeader)) : Type 0 where
  pub same_size : size ≡ s.max_chunk_size
  pub same_headers :
      (id : ℕ) (h : ChunkHeader)
      → HashMap.get id s.previous_headers ≡ some h
      → h.can_be_dropped ≡ false
      → HashMap.get id headers ≡ some (wire_header h)

abbrev pub Sync : ChunkSerializer → ChunkDeserializer → Type 0
Sync s d = Agrees s d.max_chunk_size d.previous_headers

-- A message that a peer can be sent: it has a byte at least, and its fields fit their widths.
pub record IsSendable (message : MessagePayload) : Type 0 where
  pub nonempty : 0 < length message.bytes
  pub short : length message.bytes ≤ 16777215
  pub time : IsU32 message.timestamp.value
  pub stream_id : IsU32 message.message_stream_id

-- The header carries the message's own fields.
abbrev pub Describes : MessagePayload → Bool → ChunkHeader → Type 0
Describes message droppable w =
    (w.chunk_stream_id ≡ get_csid_for_message_type message.type_id)
    × (w.timestamp ≡ message.timestamp)
    × (w.message_length ≡ length message.bytes)
    × (w.message_type_id ≡ message.type_id)
    × (w.message_stream_id ≡ message.message_stream_id)
    × (w.can_be_dropped ≡ droppable)
    × IsU32 w.timestamp_field

abbrev pub chosen :
    Bool → Bool → MessagePayload → Bool → Option ChunkHeader → ChunkHeaderFormat × ChunkHeader
chosen force continued message droppable previous =
    fill_timestamp (choose_format force continued (start_header message droppable) previous)

pub Describes-Fits :
    (message : MessagePayload) (droppable : Bool) (w : ChunkHeader)
    → IsSendable message
    → Describes message droppable w
    → Fits w
Describes-Fits message droppable w m c =
    let (lo, hi) = get_csid_for_message_type_bounds message.type_id in
    record {
      id_low = ground arith;
      id_high = ground arith;
      len = ground arith;
      stream_id = ground arith;
      field = c.6;
    }

module _ (message : MessagePayload) (droppable : Bool) (d : ChunkDeserializer)
    (m : IsSendable message) where
  -- What `add_chunk` needs of its choice.
  abbrev pub Good : ChunkHeaderFormat × ChunkHeader → Type 0
  Good c = Describes message droppable c.1 × Prepared c.0 d c.1

  Good-full : Good (fill_timestamp (full, start_header message droppable))
  Good-full = ((refl, refl, refl, refl, refl, refl, m.time), refl)

  abbrev with_delta : ChunkHeader → ChunkHeader
  with_delta h = record (start_header message droppable) {
    timestamp_field = (sub message.timestamp h.timestamp).value;
  }

  with_delta-Describes : (h : ChunkHeader) → Describes message droppable (with_delta h)
  unfolding sub
  with_delta-Describes h = (refl, refl, refl, refl, refl, refl, omega arith)

  -- The first chunk of a message behind a header that the deserializer has.
  Good-delta :
      (h : ChunkHeader)
      → IsKept (get_csid_for_message_type message.type_id) h
      → length d.current_payload_data ≡ 0
      → HashMap.get (get_csid_for_message_type message.type_id) d.previous_headers
        ≡ some (wire_header h)
      → Good (fill_timestamp (get_header_format (with_delta h) h, with_delta h))
  unfolding get_header_format
  Good-delta h k first known =
      let moved = add_u32-sub h.timestamp message.timestamp k.time m.time in
      let is_first : (length d.current_payload_data == 0) ≡ true = ground arith in
      elim (Bool-cases (message.message_stream_id == h.message_stream_id)) [
        | inr e ↦ rw e Good-full
        | inl e ↦
            elim (Bool-cases (
              not (message.type_id == h.message_type_id)
              || not (length message.bytes == h.message_length))) [
                | inl e₁ ↦
                    rw (e, e₁)
                      (
                        with_delta-Describes h,
                        (
                          wire_header h,
                          known,
                          (ground (arith, k.same_id), refl, ground (arith, e), is_first, moved),
                        ),
                      )
                | inr e₁ ↦
                    elim (Bool-cases
                      ((sub message.timestamp h.timestamp).value == h.timestamp_field)) [
                        | inr e₂ ↦
                            rw (e, e₁, e₂)
                              (
                                with_delta-Describes h,
                                (
                                  wire_header h,
                                  known,
                                  (
                                    ground (arith, k.same_id),
                                    refl,
                                    ground (arith, e),
                                    is_first,
                                    moved,
                                    ground (arith, e₁),
                                    ground (arith, e₁),
                                  ),
                                ),
                              )
                        | inl e₂ ↦
                            rw (e, e₁, e₂)
                              (
                                with_delta-Describes h,
                                (
                                  wire_header h,
                                  known,
                                  (
                                    ground (arith, k.same_id),
                                    refl,
                                    ground (arith, e),
                                    ground (arith, e₁),
                                    ground (arith, e₁),
                                    ground (arith, e₂),
                                    ground (arith, moved, is_first),
                                  ),
                                ),
                              )
                      ]
              ]
      ]

  pub chosen_first :
      (s : ChunkSerializer) (force : Bool)
      → IsValid s
      → Sync s d
      → length d.current_payload_data ≡ 0
      → Good (
          chosen force false message droppable
            (HashMap.get (get_csid_for_message_type message.type_id) s.previous_headers))
  unfolding choose_format
  chosen_first s true v sync first = Good-full
  chosen_first s false v sync first =
      let id = get_csid_for_message_type message.type_id in
      elim (Option-cases (HashMap.get id s.previous_headers)) [
        | inl e ↦ rw e Good-full
        | inr (h, e) ↦ elim (Bool-cases h.can_be_dropped) [
          | inl dropped ↦ rw (e, dropped) Good-full
          | inr reliable ↦ rw e (
              simp reliable
                (Good-delta h (v.kept id h e) first (sync.same_headers id h e reliable)))
        ]
      ]

  -- A further chunk of a message that has brought some bytes.
  pub chosen_continued :
      (force : Bool) (w : ChunkHeader)
      → Describes message droppable w
      → 0 < length d.current_payload_data
      → HashMap.get (get_csid_for_message_type message.type_id) d.previous_headers
        ≡ some (wire_header w)
      → Good (chosen force true message droppable (some w))
  unfolding choose_format
  chosen_continued true w c started known = Good-full
  chosen_continued false w c started known = (
    (refl, refl, refl, refl, refl, refl, c.6),
    (wire_header w, known, (c.0, refl, c.4, c.3, c.2, refl, ground arith)),
  )
