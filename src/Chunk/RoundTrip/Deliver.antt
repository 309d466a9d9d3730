-- ===== src/Chunk/RoundTrip/Deliver.antt =====
-- All chunks of a message, in order: the deserializer gives the message back.
use rust_media_libs.Prelude.{
  ℕ, suc, ◌+◌, ◌-◌, ◌*◌, ◌<◌, ◌≤◌, ◌≡◌, refl, ap, sym, ◌∙◌, Bool, some, List, [], ◌∷◌, ◌++◌, length,
  take, drop, length-append, length-take, length-drop, take-append-drop, take-length, lt→ltb,
  append_assoc, append-nil, ltb, arith, ok, ◌⊎◌, inl,
}
use rust_media_libs.Bytes.{ByteOrder}
use rust_media_libs.HashMap
use rust_media_libs.Message.Payload.{MessagePayload, new_payload}
use rust_media_libs.Chunk.Header.{ChunkHeaderFormat, ChunkHeader, new_header}
use rust_media_libs.Chunk.Serializer.{ChunkSerializer, add_chunk, add_chunks}
use rust_media_libs.Chunk.Deserializer.{ChunkDeserializer, csid, run, chunk_length}
use rust_media_libs.Chunk.Slices.{IsSplit}
use rust_media_libs.Chunk.RoundTrip.Stages.{at}
use rust_media_libs.Chunk.RoundTrip.Headers.{wire_header}
use rust_media_libs.Chunk.RoundTrip.Chunks.{land, partial_message}
use rust_media_libs.Chunk.RoundTrip.Sync.{
  IsValid, Sync, IsSendable, Describes, Good, chosen, chosen_continued,
}
use rust_media_libs.Chunk.RoundTrip.Progress.{id_of, with_header, progress}

-- The last piece completes the message.
last_piece :
    (size : ℕ) (done remaining piece whole : List ℕ)
    → whole ≡ done ++ remaining
    → IsSplit size remaining (piece ∷ [])
    → done ++ piece ≡ whole
last_piece size done remaining piece whole e (some_left, is_take, none_left) =
    let all : length remaining ≤ size = omega (arith, length-drop size remaining) in
    rw is_take (ap (λ r. done ++ r) (take-length remaining size all) ∙ sym e)

-- Any other one leaves a shorter rest.
inner_piece :
    (size : ℕ) (done remaining piece next : List ℕ) (pieces : List (List ℕ)) (whole : List ℕ)
    → whole ≡ done ++ remaining
    → IsSplit size remaining (piece ∷ next ∷ pieces)
    → (whole ≡ (done ++ piece) ++ drop size remaining)
      × (length (done ++ piece) < length whole)
      × (size < length whole)
inner_piece size done remaining piece next pieces whole e (some_left, is_take, more) =
    let sizes = ap length e in
    (
      e
          ∙ ap (λ r. done ++ r) (sym (rw is_take (take-append-drop size remaining)))
          ∙ sym (append_assoc done piece (drop size remaining)),
      omega (
        arith,
        sizes,
        ap length is_take,
        length-append done piece,
        length-append done remaining,
        length-take size remaining,
        length-drop size remaining,
        more.0,
      ),
      omega (arith, sizes, length-append done remaining, length-drop size remaining, more.0),
    )

inner_started :
    (size : ℕ) (done remaining piece : List ℕ)
    → 0 < size
    → 0 < length remaining
    → piece ≡ take size remaining
    → 0 < length (done ++ piece)
inner_started size done remaining piece positive some_left is_take =
    omega (arith, ap length is_take, length-append done piece, length-take size remaining)

-- The chunk length that the deserializer expects of a further piece.
pub chunk_length-piece :
    (size : ℕ) (done remaining piece : List ℕ) (whole : List ℕ)
    → whole ≡ done ++ remaining
    → piece ≡ take size remaining
    → (size < length whole) ⊎ (done ≡ [])
    → chunk_length size (length whole) (length done) ≡ some (length piece)
unfolding chunk_length
chunk_length-piece size done remaining piece whole e is_take h = ground (
  arith,
  ap length e,
  ap length is_take,
  length-append done remaining,
  length-take size remaining,
)

module _ ⦃bo : ByteOrder⦄ where
  -- The serializer writes `pieces` as `bytes`; the deserializer, at the start of a chunk, returns
  -- the message, keeps `rest`, and agrees with the serializer again.
  pub record Delivers (message : MessagePayload) (droppable force : Bool) (idx : ℕ)
      (pieces : List (List ℕ)) (s : ChunkSerializer) (d : ChunkDeserializer) : Type 0 where
    pub bytes : List ℕ
    pub sender : ChunkSerializer
    pub receiver : ChunkDeserializer
    pub format : ChunkHeaderFormat
    pub added : add_chunks s force message droppable idx pieces ≡ ok (bytes, sender)
    pub long : length pieces ≤ length bytes
    pub same_size : sender.max_chunk_size ≡ s.max_chunk_size
    pub valid : IsValid sender
    pub sync : Sync sender receiver
    pub no_payload : receiver.current_payload_data ≡ []
    pub read :
        (fuel : ℕ) (f₀ : ChunkHeaderFormat) (h₀ : ChunkHeader) (rest : List ℕ)
        → 7 * length pieces ≤ fuel
        → run fuel (at d csid f₀ h₀ (bytes ++ rest))
          ≡ ok (some message, at receiver csid format new_header rest)

  -- The message that the header and all the payload make is the one that was sent.
  partial_message_eq :
      (message : MessagePayload) (droppable : Bool) (d : ChunkDeserializer) (w : ChunkHeader)
      (piece : List ℕ)
      → Describes message droppable w
      → d.current_payload_data ++ piece ≡ message.bytes
      → partial_message d (wire_header w) piece ≡ message
  partial_message_eq message droppable d w piece c e = ground arith

  seven :
      (n fuel : ℕ) → 7 * suc n ≤ fuel → fuel ≡ suc (suc (suc (suc (suc (suc (suc (fuel - 7)))))))
  seven n fuel h = omega arith

  land_last :
      (message : MessagePayload) (droppable : Bool) (d : ChunkDeserializer) (f : ℕ)
      (format : ChunkHeaderFormat) (w : ChunkHeader) (piece rest : List ℕ)
      → Describes message droppable w
      → d.current_payload_data ++ piece ≡ message.bytes
      → land f d format (wire_header w) piece rest
        ≡ ok (
          some message,
          at
              (record d { current_payload = new_payload; current_payload_data = [] })
              csid
              format
              new_header
              rest,
        )
  land_last message droppable d f format w piece rest c e =
      ground (arith, c.2, ap length e, partial_message_eq message droppable d w piece c e)

  -- The deserializer behind a chunk that leaves its message incomplete.
  abbrev inner_state : ChunkDeserializer → ChunkHeader → List ℕ → ChunkDeserializer
  inner_state d w piece = record d {
    current_payload = record (partial_message d (wire_header w) piece) {
      bytes = d.current_payload.bytes;
    };
    current_payload_data = d.current_payload_data ++ piece;
  }

  land_inner :
      (message : MessagePayload) (droppable : Bool) (d : ChunkDeserializer) (f : ℕ)
      (format : ChunkHeaderFormat) (w : ChunkHeader) (piece rest : List ℕ)
      → Describes message droppable w
      → length (d.current_payload_data ++ piece) < length message.bytes
      → land f d format (wire_header w) piece rest
        ≡ run f (at (inner_state d w piece) csid format new_header rest)
  land_inner message droppable d f format w piece rest c h = ground (arith, c.2)

  Good-next :
      (message : MessagePayload) (droppable force : Bool) (m : IsSendable message) (idx : ℕ)
      (s : ChunkSerializer) (d : ChunkDeserializer) (w : ChunkHeader)
      → HashMap.get (id_of message) s.previous_headers ≡ some w
      → HashMap.get (id_of message) d.previous_headers ≡ some (wire_header w)
      → Describes message droppable w
      → 0 < length d.current_payload_data
      → Good message droppable d m (
          chosen force
            (ltb 0 (idx + 1))
            message
            droppable
            (HashMap.get (id_of message) s.previous_headers))
  Good-next message droppable force m idx s d w sent received describes started =
      rw (lt→ltb 0 (idx + 1) (omega arith), sent)
        (chosen_continued message droppable d m force w describes started received)

  -- One chunk before the chunks that are delivered.
  Delivers-cons :
      (message : MessagePayload) (droppable force : Bool) (idx : ℕ) (piece : List ℕ)
      (pieces : List (List ℕ)) (s : ChunkSerializer) (d : ChunkDeserializer)
      (headers : List (ℕ × ChunkHeader)) (format : ChunkHeaderFormat) (w : ChunkHeader)
      (bytes : List ℕ)
      → Describes message droppable w
      → add_chunk s force message (ltb 0 idx) piece droppable ≡ ok (bytes, with_header s w)
      → 0 < length bytes
      → length (d.current_payload_data ++ piece) < length message.bytes
      → ((f : ℕ) (f₀ : ChunkHeaderFormat) (h₀ : ChunkHeader) (rest : List ℕ)
          → run (suc (suc (suc (suc (suc (suc (suc f))))))) (at d csid f₀ h₀ (bytes ++ rest))
            ≡ land f (record d { previous_headers = headers }) format (wire_header w) piece rest)
      → Delivers message droppable force
          (idx + 1)
          pieces
          (with_header s w)
          (inner_state (record d { previous_headers = headers }) w piece)
      → Delivers message droppable force idx (piece ∷ pieces) s d
  unfolding add_chunks
  Delivers-cons message droppable force idx piece pieces s d headers format w bytes c added
        some_bytes shorter read more =
      record {
        bytes = bytes ++ more.bytes;
        sender = more.sender;
        receiver = more.receiver;
        format = more.format;
        added = rw (added, more.added);
        long = omega (arith, length-append bytes more.bytes, more.long);
        same_size = more.same_size;
        valid = more.valid;
        sync = more.sync;
        no_payload = more.no_payload;
        read = λ fuel f₀ h₀ rest hf.
            rw (seven (length pieces) fuel hf, append_assoc)
              (read (fuel - 7) f₀ h₀ (more.bytes ++ rest)
                ∙ land_inner message droppable (record d { previous_headers = headers }) (fuel - 7)
                    format w piece (more.bytes ++ rest) c shorter
                ∙ more.read (fuel - 7) format new_header rest (omega arith));
      }

  pub deliver :
      (message : MessagePayload) (droppable force : Bool) (m : IsSendable message)
      (pieces : List (List ℕ)) (piece : List ℕ) (idx : ℕ) (s : ChunkSerializer)
      (d : ChunkDeserializer) (remaining : List ℕ)
      → 0 < d.max_chunk_size
      → IsValid s
      → Sync s d
      → Good message droppable d m (
          chosen force
            (ltb 0 idx)
            message
            droppable
            (HashMap.get (id_of message) s.previous_headers))
      → message.bytes ≡ d.current_payload_data ++ remaining
      → IsSplit d.max_chunk_size remaining (piece ∷ pieces)
      → chunk_length d.max_chunk_size (length message.bytes) (length d.current_payload_data)
        ≡ some (length piece)
      → Delivers message droppable force idx (piece ∷ pieces) s d
  unfolding add_chunks
  deliver message droppable force m [] piece idx s d remaining positive v a good e split el =
      let c =
        chosen force (ltb 0 idx) message droppable
          (HashMap.get (id_of message) s.previous_headers) in
      let whole =
        last_piece d.max_chunk_size d.current_payload_data remaining piece message.bytes e split in
      let (bytes, headers, added, some_bytes, mid, read) =
        progress message droppable force (ltb 0 idx) s d piece m v a good el in
      record {
        bytes = bytes ++ [];
        sender = with_header s c.1;
        receiver = record d {
          previous_headers = headers;
          current_payload = new_payload;
          current_payload_data = [];
        };
        format = c.0;
        added = rw added;
        long = omega (arith, length-append bytes []);
        same_size = refl;
        valid = mid.valid;
        sync = mid.agrees;
        no_payload = refl;
        read = λ fuel f₀ h₀ rest hf.
            rw (seven 0 fuel hf, append-nil)
              (read (fuel - 7) f₀ h₀ rest
                ∙ land_last message droppable (record d { previous_headers = headers }) (fuel - 7)
                    c.0 c.1 piece rest good.0 whole);
      }
  deliver message droppable force m (next ∷ pieces) piece idx s d remaining positive v a good e
        split el =
      let c =
        chosen force (ltb 0 idx) message droppable
          (HashMap.get (id_of message) s.previous_headers) in
      let (bytes, headers, added, some_bytes, mid, read) =
        progress message droppable force (ltb 0 idx) s d piece m v a good el in
      let (e', shorter, small) =
        inner_piece d.max_chunk_size d.current_payload_data remaining piece next pieces
          message.bytes e split in
      let d' = inner_state (record d { previous_headers = headers }) c.1 piece in
      let started =
        inner_started d.max_chunk_size d.current_payload_data remaining piece positive split.0
          split.1 in
      Delivers-cons message droppable force idx piece (next ∷ pieces) s d headers c.0 c.1 bytes
        good.0 added some_bytes shorter read
        (deliver message droppable force m pieces next (idx + 1) (with_header s c.1) d'
          (drop d.max_chunk_size remaining) positive mid.valid mid.agrees
          (Good-next message droppable force m idx (with_header s c.1) d' c.1 mid.sent mid.received
            mid.describes started)
          e' split.2
          (chunk_length-piece d.max_chunk_size d'.current_payload_data
            (drop d.max_chunk_size remaining) next message.bytes e' split.2.1 (inl small)))
