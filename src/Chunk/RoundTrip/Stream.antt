-- ===== src/Chunk/RoundTrip/Stream.antt =====
-- A whole connection: many messages, some of whose packets are dropped on the way.
use rust_media_libs.Prelude.{
  ℕ, suc, zero, ◌<◌, ◌≡◌, refl, ap, sym, subst, ◌∙◌, Bool, true, false, none, some, List, [], ◌∷◌,
  ◌++◌, length, if◌then◌else◌, Bool-cases, arith, Outcome, ok, out_of_fuel, ◌>>=◌, inl, inr,
  append-nil,
}
use rust_media_libs.Bytes.{ByteOrder}
use rust_media_libs.Message.Payload.{MessagePayload}
use rust_media_libs.HashMap
use rust_media_libs.Chunk.Header.{ChunkHeader}
use rust_media_libs.Chunk.Serializer.{ChunkSerializer, SerializerResult, Packet, serialize}
use rust_media_libs.Chunk.Deserializer.{
  ChunkDeserializer, ChunkDeserializationError, new_deserializer, csid, step, form_header, run,
  get_next_message,
}
use rust_media_libs.Chunk.RoundTrip.Stages.{at}
use rust_media_libs.Chunk.RoundTrip.Headers.{wire_header}
use rust_media_libs.Chunk.RoundTrip.Sync.{IsValid, Sync, IsSendable}
use rust_media_libs.Chunk.RoundTrip.Messages.{
  IsIdle, start_run, get_next_message-serialize_anywhere,
}
use rust_media_libs.Chunk.RoundTrip.Loss.{serialize-Agrees}

-- A message to send, how it is sent, and whether its packet is dropped on the way.
pub record Sending : Type 0 where
  pub message : MessagePayload
  pub force_uncompressed : Bool
  pub can_be_dropped : Bool
  pub is_lost : Bool

-- Only a packet that is marked so is dropped.
pub record IsFair (x : Sending) : Type 0 where
  pub sendable : IsSendable x.message
  pub marked : x.is_lost ≡ true → x.can_be_dropped ≡ true

abbrev pub AreFair : List Sending → Type 0
AreFair [] = Unit
AreFair (x ∷ xs) = IsFair x × AreFair xs

-- The messages whose packets arrive.
abbrev pub delivered : List Sending → List MessagePayload
delivered [] = []
delivered (x ∷ xs) = if x.is_lost then delivered xs else x.message ∷ delivered xs

module _ ⦃bo : ByteOrder⦄ where
  -- What arrives of a series of packets.
  pub transmit : ChunkSerializer → List Sending → SerializerResult (List ℕ × ChunkSerializer)
  transmit s [] = ok ([], s)
  transmit s (x ∷ xs) = serialize s x.message x.force_uncompressed x.can_be_dropped >>= λ (p, s').
      transmit s' xs >>= λ (more, s''). ok (if x.is_lost then more else p.bytes ++ more, s'')

  -- The use of `get_next_message` that its documentation asks for: in a loop, until it has no
  -- message, with no new bytes after the first call.
  pub receive :
      ℕ
      → ChunkDeserializer
      → List ℕ
      → Outcome ChunkDeserializationError (List MessagePayload × ChunkDeserializer)
  receive zero d input = out_of_fuel
  receive (suc fuel) d input = get_next_message d input >>= λ (m, d'). elim m [
    | none ↦ ok ([], d')
    | some message ↦ (receive fuel d' [] >>= λ (messages, d''). ok (message ∷ messages, d''))
  ]

  get_next_message_empty :
      (d : ChunkDeserializer) (input : List ℕ)
      → d.current_stage ≡ csid
      → d.buffer ++ input ≡ []
      → get_next_message d input ≡ ok (none, at d csid d.current_header_format d.current_header [])
  unfolding run step form_header
  get_next_message_empty d input stage e = start_run d input [] stage e

  -- A deserializer that agrees with a serializer.
  abbrev mirror_headers : List (ℕ × ChunkHeader) → List (ℕ × ChunkHeader)
  mirror_headers [] = []
  mirror_headers ((id, h) ∷ m) = (id, wire_header h) ∷ mirror_headers m

  get-mirror_headers :
      (id : ℕ) (h : ChunkHeader) (m : List (ℕ × ChunkHeader))
      → HashMap.get id m ≡ some h
      → HashMap.get id (mirror_headers m) ≡ some (wire_header h)
  unfolding HashMap.get
  get-mirror_headers id h [] e = cc
  get-mirror_headers id h ((j, k) ∷ m) e = ground (arith, get-mirror_headers id h m)

  abbrev mirror : ChunkSerializer → ChunkDeserializer
  mirror s = record new_deserializer {
    max_chunk_size = s.max_chunk_size;
    previous_headers = mirror_headers s.previous_headers;
  }

  mirror-Sync : (s : ChunkSerializer) → Sync s (mirror s)
  mirror-Sync s = record {
    same_size = refl;
    same_headers = λ id h e reliable. get-mirror_headers id h s.previous_headers e;
  }

  serialize_total :
      (message : MessagePayload) (force can_be_dropped : Bool) (s : ChunkSerializer)
      → IsSendable message
      → 0 < s.max_chunk_size
      → IsValid s
      → (p : Packet) × (s' : ChunkSerializer) × (serialize s message force can_be_dropped
          ≡ ok (p, s'))
        × IsValid s'
        × (s'.max_chunk_size ≡ s.max_chunk_size)
  serialize_total message force can_be_dropped s m positive v =
      let (p, s', e, v', size, _) =
        get_next_message-serialize_anywhere message force can_be_dropped s (mirror s) m positive v
          (mirror-Sync s) (record { stage = refl; no_payload = refl }) in
      (p, s', e, v', size)

  transmit_total :
      (items : List Sending) (s : ChunkSerializer)
      → AreFair items
      → 0 < s.max_chunk_size
      → IsValid s
      → (bytes : List ℕ) × (s' : ChunkSerializer) × (transmit s items ≡ ok (bytes, s')) × IsValid s'
  unfolding transmit
  transmit_total [] s fair positive v = ([], s, refl, v)
  transmit_total (x ∷ xs) s fair positive v =
      let (p, s₁, e, v₁, size) =
        serialize_total x.message x.force_uncompressed x.can_be_dropped s fair.0.sendable positive
          v in
      let (more, s₂, e₂, v₂) = transmit_total xs s₁ fair.1 (rw size positive) v₁ in
      (if x.is_lost then more else p.bytes ++ more, s₂, rw (e, e₂), v₂)

  abbrev Received : ℕ → List Sending → ChunkSerializer → ChunkDeserializer → List ℕ → Type 0
  Received fuel items s' d input =
      (d' : ChunkDeserializer) × (receive fuel d input ≡ ok (delivered items, d'))
      × Sync s' d'
      × IsIdle d'

  module _ (x : Sending) (xs : List Sending) (s s₁ s₂ s' : ChunkSerializer) (p : Packet)
      (more bytes : List ℕ) where
    transmit_lost :
        x.is_lost ≡ true
        → serialize s x.message x.force_uncompressed x.can_be_dropped ≡ ok (p, s₁)
        → transmit s₁ xs ≡ ok (more, s₂)
        → transmit s (x ∷ xs) ≡ ok (bytes, s')
        → (more ≡ bytes) × (s₂ ≡ s')
    unfolding transmit
    transmit_lost lost e₁ e₂ e = ground arith

    transmit_kept :
        x.is_lost ≡ false
        → serialize s x.message x.force_uncompressed x.can_be_dropped ≡ ok (p, s₁)
        → transmit s₁ xs ≡ ok (more, s₂)
        → transmit s (x ∷ xs) ≡ ok (bytes, s')
        → (p.bytes ++ more ≡ bytes) × (s₂ ≡ s')
    unfolding transmit
    transmit_kept kept e₁ e₂ e = ground arith

  serialize_lost :
      (x : Sending) (s s₁ : ChunkSerializer) (p : Packet) (d : ChunkDeserializer)
      → x.can_be_dropped ≡ true
      → serialize s x.message x.force_uncompressed x.can_be_dropped ≡ ok (p, s₁)
      → Sync s d
      → Sync s₁ d
  serialize_lost x s s₁ p d marked e a =
      serialize-Agrees x.message x.force_uncompressed d.max_chunk_size d.previous_headers s
        (ap (λ b. serialize s x.message x.force_uncompressed b) (sym marked) ∙ e) a

  Received-lost :
      (x : Sending) (xs : List Sending) (fuel : ℕ) (s' : ChunkSerializer) (d : ChunkDeserializer)
      (input : List ℕ)
      → x.is_lost ≡ true
      → Received fuel xs s' d input
      → Received fuel (x ∷ xs) s' d input
  Received-lost x xs fuel s' d input lost (d', got, a, idle) = (d', rw lost got, a, idle)

  Received-kept :
      (x : Sending) (xs : List Sending) (fuel : ℕ) (s' : ChunkSerializer) (d d₁ : ChunkDeserializer)
      (input : List ℕ)
      → x.is_lost ≡ false
      → get_next_message d input ≡ ok (some x.message, d₁)
      → Received fuel xs s' d₁ []
      → Received (suc fuel) (x ∷ xs) s' d input
  unfolding receive
  Received-kept x xs fuel s' d d₁ input kept first (d', got, a, idle) =
      (d', rw (kept, first, got), a, idle)

  receives :
      (items : List Sending) (s : ChunkSerializer) (d : ChunkDeserializer) (fuel : ℕ)
      (input bytes : List ℕ) (s' : ChunkSerializer)
      → AreFair items
      → 0 < s.max_chunk_size
      → IsValid s
      → Sync s d
      → IsIdle d
      → length items < fuel
      → transmit s items ≡ ok (bytes, s')
      → d.buffer ++ input ≡ bytes
      → Received fuel items s' d input
  unfolding transmit receive
  receives items s d zero input bytes s' fair positive v a idle h sent e = absurd (omega arith)
  receives [] s d (suc fuel) input bytes s' fair positive v a idle h sent e =
      let nothing : d.buffer ++ input ≡ [] = e ∙ cc in
      (
        at d csid d.current_header_format d.current_header [],
        rw (get_next_message_empty d input idle.stage nothing),
        subst (λ t. Sync t d) (cc) a,
        record { stage = refl; no_payload = idle.no_payload },
      )
  receives (x ∷ xs) s d (suc fuel) input bytes s' fair positive v a idle h sent e =
      let (p, s₁, e₁, v₁, size, reads) =
        get_next_message-serialize_anywhere x.message x.force_uncompressed x.can_be_dropped s d
          fair.0.sendable positive v a idle in
      let (more, s₂, e₂, v₂) = transmit_total xs s₁ fair.1 (rw size positive) v₁ in
      elim (Bool-cases x.is_lost) [
        | inl lost ↦
            let (is_more, is_last) = transmit_lost x xs s s₁ s₂ s' p more bytes lost e₁ e₂ sent in
            let a₁ = serialize_lost x s s₁ p d (fair.0.marked lost) e₁ a in
            Received-lost x xs (suc fuel) s' d input lost (
              receives xs s₁ d (suc fuel) input bytes s' fair.1 (rw size positive) v₁ a₁ idle
                (omega arith) (e₂ ∙ λ i. ok (is_more i, is_last i)) e)
        | inr kept ↦
            let (is_more, is_last) = transmit_kept x xs s s₁ s₂ s' p more bytes kept e₁ e₂ sent in
            let (d₁, first, a₁, idle₁, left) = reads input more (e ∙ sym is_more) in
            Received-kept x xs fuel s' d d₁ input kept first (
              receives xs s₁ d₁ fuel [] more s' fair.1 (rw size positive) v₁ a₁ idle₁ (omega arith)
                (e₂ ∙ λ i. ok (more, is_last i)) (append-nil d₁.buffer ∙ left))
      ]

  -- The stream of all packets that were sent and not lost can be read: transmission succeeds, and a
  -- deserializer that agrees with the serializer and is between two messages, given those bytes,
  -- returns exactly the messages of the packets that arrived, in order and unchanged, whatever
  -- packets marked as droppable are missing. Afterwards both ends agree.
  pub receive-transmit :
      (items : List Sending) (s : ChunkSerializer) (d : ChunkDeserializer)
      → AreFair items
      → 0 < s.max_chunk_size
      → IsValid s
      → Sync s d
      → IsIdle d
      → d.buffer ≡ []
      → (bytes : List ℕ) × (s' : ChunkSerializer) × (d' : ChunkDeserializer) × (transmit s items
          ≡ ok (bytes, s'))
        × (receive (suc (length items)) d bytes ≡ ok (delivered items, d'))
        × Sync s' d'
        × IsIdle d'
  receive-transmit items s d fair positive v a idle none_left =
      let (bytes, s', sent, v') = transmit_total items s fair positive v in
      let (d', got, a', idle') =
        receives items s d (suc (length items)) bytes bytes s' fair positive v a idle (omega arith)
          sent (ap (λ b. b ++ bytes) none_left) in
      (bytes, s', d', sent, got, a', idle')
