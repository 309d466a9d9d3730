-- ===== src/Session/Server/Window.antt =====
-- The window of the peer: an input after which the session owes an acknowledgement.
use rust_media_libs.Prelude.{
  ℕ, suc, ◌+◌, ◌*◌, ◌%◌, ◌^◌, ◌<◌, ◌≤◌, ◌≡◌, ◌⊎◌, refl, sym, ap, subst, ◌∙◌, Bool-cases, ltb, leb,
  true, false, Option, none, some, List, [], ◌∷◌, ◌++◌, append-nil, length, Outcome, ok, err,
  panicked, out_of_fuel, inl, inr, arith,
}
use rust_media_libs.Bytes.{ByteOrder, IsU32}
use rust_media_libs.Time.{RtmpTimestamp, timestamp}
use rust_media_libs.Message.Payload.{MessagePayload}
use rust_media_libs.Message.Types.{acknowledgement, get_message_type_id}
use rust_media_libs.Message.Serialize.{from_rtmp_message, message_bytes, serialize_acknowledgement}
use rust_media_libs.Message.Deserialize.{to_rtmp_message, deserialize_acknowledgement}
use rust_media_libs.Message.RoundTrip.{read_int-encode_all}
use rust_media_libs.Chunk.Serializer.{Packet}
use rust_media_libs.Chunk.Deserializer.{ChunkDeserializer, get_next_message}
use rust_media_libs.Chunk.RoundTrip.Sync.{IsSendable}
use rust_media_libs.Chunk.RoundTrip.Messages.{AreLinked, get_next_message-serialize_anywhere}
use rust_media_libs.Session.Action.{Environment, ◌>>=◌, gets, pure, after}
use rust_media_libs.Session.Keeps.{IsPreorder, Keeps, Keeps-bind, Keeps-gets, Keeps-pure}
use rust_media_libs.Session.Server.Types.{ServerSession, ServerSessionError, outbound_response}
use rust_media_libs.Session.Server.Send.{
  Session, Results, milliseconds, get_epoch, write_payload, send_at, send,
}
use rust_media_libs.Session.Server.Keep.Allows.{AllowsMessage}
use rust_media_libs.Session.Server.Keep.Input.{handle_messages-Keeps}
use rust_media_libs.Session.Server.Input.{
  count_bytes, acknowledge, acknowledge_if, acknowledge_window, acknowledge_full, handle_messages,
  input_action,
}

-- The first result is a packet in which a deserializer finds the acknowledgement of so many bytes.
abbrev pub Acknowledges : ⦃bo : ByteOrder⦄ → ℕ → ChunkDeserializer → Results → Type 0
Acknowledges count d results =
    (packet : Packet) × (rest : Results) × (message : MessagePayload) × (reader : ChunkDeserializer)
    × (results ≡ outbound_response packet ∷ rest)
    × (get_next_message d packet.bytes ≡ ok (some message, reader))
    × (to_rtmp_message message ≡ ok (acknowledgement count))

-- If there are results, the first is such a packet.
abbrev pub HasAcknowledged :
    ⦃bo : ByteOrder⦄ → ℕ → ChunkDeserializer → Outcome ServerSessionError Results → Type 0
HasAcknowledged count d (ok results) = Acknowledges count d results
HasAcknowledged count d (err e) = Unit
HasAcknowledged count d panicked = Unit
HasAcknowledged count d out_of_fuel = Unit

after-HasAcknowledged :
    ⦃bo : ByteOrder⦄ (count : ℕ) (d : ChunkDeserializer) (acks : Results)
    (r : Outcome ServerSessionError Results × ServerSession)
    → ((more : Results) → Acknowledges count d (acks ++ more))
    → HasAcknowledged count d (after r.0 r.1 (λ more. pure (acks ++ more))).0
after-HasAcknowledged count d acks (ok more, t) reads = reads more
after-HasAcknowledged count d acks (err e, t) reads = tt
after-HasAcknowledged count d acks (panicked, t) reads = tt
after-HasAcknowledged count d acks (out_of_fuel, t) reads = tt

-- The count of the bytes since the last acknowledgement is not a message's business.
SameCount : ServerSession → ServerSession → Type 0
SameCount s t = t.bytes_received_since_last_ack ≡ s.bytes_received_since_last_ack

SameCount-order : IsPreorder SameCount
unfolding SameCount
SameCount-order = record { same = λ s. refl; through = λ s t u p q. q ∙ p }

SameCount-AllowsMessage : AllowsMessage SameCount
unfolding SameCount
SameCount-AllowsMessage = record {
  blind = record { order = SameCount-order; clock = λ s n. refl; writer = λ s c. refl };
  reader = λ s d. refl;
  window = λ s n. refl;
  encoding = λ s n. refl;
  opened = λ s. refl;
  closed = λ s id stream e. refl;
  deleted = λ s id. refl;
  asked = λ s request. refl;
}

count_bytes-ok :
    (bytes : List ℕ) (s : ServerSession)
    → s.bytes_received + length bytes < 2 ^ 64
    → count_bytes bytes s ≡ (ok tt, record s { bytes_received = s.bytes_received + length bytes })
unfolding count_bytes ◌>>=◌
count_bytes-ok bytes s h =
    let fits : ltb (s.bytes_received + length bytes) (2 ^ 64) ≡ true = ground (arith, h) in
    rw fits refl

milliseconds-IsU32 : (elapsed : Option (ℕ × ℕ)) → IsU32 (milliseconds elapsed)
milliseconds-IsU32 none = omega arith
milliseconds-IsU32 (some (seconds, nanos)) = omega arith

module _ ⦃bo : ByteOrder⦄ where
  abbrev acknowledgement_payload : RtmpTimestamp → ℕ → MessagePayload
  acknowledgement_payload time count = record {
    timestamp = time;
    type_id = 3;
    message_stream_id = 0;
    bytes = bo.u32_be.encode count;
  }

  read_acknowledgement :
      (time : RtmpTimestamp) (count : ℕ)
      → IsU32 count
      → to_rtmp_message (acknowledgement_payload time count) ≡ ok (acknowledgement count)
  unfolding to_rtmp_message deserialize_acknowledgement
  read_acknowledgement time count h = rw (read_int-encode_all bo.u32_be count h) refl

module _ ⦃bo : ByteOrder⦄ ⦃env : Environment⦄ where
  -- The acknowledgement is sent, and the count starts anew.
  acknowledge_full-Acknowledges :
      (count : ℕ) (s : ServerSession) (d : ChunkDeserializer)
      → IsU32 count
      → AreLinked s.serializer d
      → (results : Results) × (t : ServerSession) × (acknowledge_full count s ≡ (ok results, t))
        × (t.bytes_received_since_last_ack ≡ 0)
        × ((more : Results) → Acknowledges count d (results ++ more))
  unfolding acknowledge_full send get_epoch send_at write_payload from_rtmp_message message_bytes
      serialize_acknowledgement get_message_type_id ◌>>=◌
  acknowledge_full-Acknowledges count s d h linked =
      let time : RtmpTimestamp = timestamp (milliseconds (env.elapsed s.clock_reads)) in
      let sendable : IsSendable (acknowledgement_payload time count) = record {
        nonempty = omega (arith, bo.u32_be.length-encode count);
        short = omega (arith, bo.u32_be.length-encode count);
        time = milliseconds-IsU32 (env.elapsed s.clock_reads);
        stream_id = omega arith;
      } in
      let (packet, next, sent, valid, size, reads) =
        get_next_message-serialize_anywhere (acknowledgement_payload time count) false false
          s.serializer d sendable linked.positive linked.valid linked.sync linked.idle in
      let (reader, got, sync, idle, left) =
        reads packet.bytes []
          (ap (λ b. b ++ packet.bytes) linked.no_bytes ∙ sym (append-nil packet.bytes)) in
      (
        outbound_response packet ∷ [],
        record s {
          clock_reads = suc s.clock_reads;
          serializer = next;
          bytes_received_since_last_ack = 0;
        },
        rw sent refl,
        refl,
        λ more. (packet, more, _, reader, refl, got, read_acknowledgement time count h),
      )

  -- What the check of the window comes to, when the count does not overflow.
  acknowledge-cases :
      (bytes : List ℕ) (window : ℕ) (s : ServerSession)
      → s.peer_window_ack_size ≡ some window
      → IsU32 (s.bytes_received_since_last_ack + length bytes)
      → ((s.bytes_received_since_last_ack + length bytes < window)
          × (acknowledge bytes s ≡ (
            ok [],
            record s {
              bytes_received_since_last_ack = s.bytes_received_since_last_ack + length bytes;
            },
          )))
        ⊎ ((window ≤ s.bytes_received_since_last_ack + length bytes)
            × (acknowledge bytes s
                ≡ acknowledge_full (s.bytes_received_since_last_ack + length bytes) (record s {
                  bytes_received_since_last_ack = s.bytes_received_since_last_ack + length bytes;
                })))
  unfolding acknowledge acknowledge_if acknowledge_window ◌>>=◌
  acknowledge-cases bytes window s e h =
      let count = s.bytes_received_since_last_ack + length bytes in
      let whole : length bytes % 2 ^ 32 ≡ length bytes = omega (arith, h) in
      let fits : ltb count (2 ^ 32) ≡ true = ground (arith, h) in
      elim (Bool-cases (leb window count)) [
        | inr free ↦ inl (ground (arith, free), rw (e, whole, fits, free) refl)
        | inl full ↦ inr (ground (arith, full), rw (e, whole, fits, full) refl)
      ]

  -- What is left of an input once the window is dealt with.
  abbrev answer : Results → List ℕ → Session Results
  answer acks bytes = gets (λ s. 7 * length (s.deserializer.buffer ++ bytes) + 9) >>= λ fuel.
      handle_messages fuel bytes >>= λ results. pure (acks ++ results)

  input_action-answer :
      (s : ServerSession) (bytes : List ℕ) (acks : Results) (u : ServerSession)
      → s.bytes_received + length bytes < 2 ^ 64
      → acknowledge bytes (record s { bytes_received = s.bytes_received + length bytes })
        ≡ (ok acks, u)
      → input_action bytes s ≡ answer acks bytes u
  unfolding input_action ◌>>=◌
  input_action-answer s bytes acks u h went = rw (count_bytes-ok bytes s h, went) refl

  answer-SameCount :
      (acks : Results) (bytes : List ℕ) (u : ServerSession)
      → (answer acks bytes u).1.bytes_received_since_last_ack ≡ u.bytes_received_since_last_ack
  unfolding SameCount
  answer-SameCount acks bytes u =
      let kept : Keeps SameCount (answer acks bytes) =
        Keeps-bind SameCount-order (Keeps-gets SameCount-order) λ fuel.
          Keeps-bind SameCount-order (handle_messages-Keeps SameCount-AllowsMessage fuel bytes)
            λ results. Keeps-pure SameCount-order in
      kept.holds u

  answer-HasAcknowledged :
      (count : ℕ) (d : ChunkDeserializer) (acks : Results) (bytes : List ℕ) (u : ServerSession)
      → ((more : Results) → Acknowledges count d (acks ++ more))
      → HasAcknowledged count d (answer acks bytes u).0
  unfolding ◌>>=◌
  answer-HasAcknowledged count d acks bytes u reads =
      after-HasAcknowledged count d acks
        (handle_messages (7 * length (u.deserializer.buffer ++ bytes) + 9) bytes u) reads

  -- Bytes come in, whose number does not overflow the two counts of the session; the peer has set a
  -- window, and the session's serializer agrees with a deserializer of the peer. However their handling
  -- ends: if the bytes since the last acknowledgement, these included, are fewer than the window, they
  -- are counted; otherwise the count starts anew at 0, and if there are results, the first is
  -- a packet in which the peer finds an acknowledgement of all of the bytes.
  pub input_action-acknowledge :
      (s : ServerSession) (bytes : List ℕ) (window : ℕ) (d : ChunkDeserializer)
      → s.peer_window_ack_size ≡ some window
      → s.bytes_received + length bytes < 2 ^ 64
      → s.bytes_received_since_last_ack + length bytes < 2 ^ 32
      → AreLinked s.serializer d
      → ((s.bytes_received_since_last_ack + length bytes < window)
          × ((input_action bytes s).1.bytes_received_since_last_ack
              ≡ s.bytes_received_since_last_ack + length bytes))
        ⊎ ((window ≤ s.bytes_received_since_last_ack + length bytes)
            × ((input_action bytes s).1.bytes_received_since_last_ack ≡ 0)
            × HasAcknowledged
                (s.bytes_received_since_last_ack + length bytes)
                d
                (input_action bytes s).0)
  input_action-acknowledge s bytes window d e h fits linked =
      let count = s.bytes_received_since_last_ack + length bytes in
      let counted : ServerSession = record s { bytes_received = s.bytes_received + length bytes } in
      elim (acknowledge-cases bytes window counted e fits) [
        | inl (free, went) ↦
            let same = input_action-answer s bytes [] _ h went in
            inl
              (free, ap (λ r. r.1.bytes_received_since_last_ack) same ∙ answer-SameCount [] bytes _)
        | inr (full, went) ↦
            let (acks, u, sent, zeroed, reads) =
              acknowledge_full-Acknowledges count _ d fits linked in
            let same = input_action-answer s bytes acks u h (went ∙ sent) in
            inr (
              full,
              ap (λ r. r.1.bytes_received_since_last_ack) same
                  ∙ answer-SameCount acks bytes u
                  ∙ zeroed,
              subst (λ r. HasAcknowledged count d r.0) (sym same)
                  (answer-HasAcknowledged count d acks bytes u reads),
            )
      ]
