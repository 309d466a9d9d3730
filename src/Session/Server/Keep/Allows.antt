-- ===== src/Session/Server/Keep/Allows.antt =====
-- What a relation has to allow for a message, and for an input.
use rust_media_libs.Prelude.{ℕ, ◌+◌, some, ◌≡◌}
use rust_media_libs.HashMap
use rust_media_libs.Chunk.Deserializer.{ChunkDeserializer}
use rust_media_libs.Session.Keeps.{IsPreorder}
use rust_media_libs.Session.Server.Types.{ServerSession, created, ActiveStream, OutstandingRequest}
use rust_media_libs.Session.Server.Streams.{set_stream, remove_stream}
use rust_media_libs.Session.Server.Keep.Sends.{IsBlind}

-- What a relation has to allow for a message: each change of the state that a handler can make.
pub record AllowsMessage (R : ServerSession → ServerSession → Type 0) : Type 0 where
  pub blind : IsBlind R
  pub reader : (s : ServerSession) (d : ChunkDeserializer) → R s (record s { deserializer = d })
  pub window : (s : ServerSession) (n : ℕ) → R s (record s { peer_window_ack_size = some n })
  pub encoding : (s : ServerSession) (n : ℕ) → R s (record s { object_encoding = n })
  pub opened :
      (s : ServerSession)
      → R s
          (set_stream s.next_stream_id created (record s { next_stream_id = s.next_stream_id + 1 }))
  pub closed :
      (s : ServerSession) (id : ℕ) (stream : ActiveStream)
      → HashMap.get id s.active_streams ≡ some stream
      → R s (set_stream id created s)
  pub deleted : (s : ServerSession) (id : ℕ) → R s (remove_stream id s)
  pub asked :
      (s : ServerSession) (request : OutstandingRequest)
      → R s (record s {
        next_request_number = s.next_request_number + 1;
        outstanding_requests = HashMap.insert s.next_request_number request s.outstanding_requests;
      })

-- What a relation has to allow for an input: the counts of its bytes, and the messages in it.
pub record AllowsInput (R : ServerSession → ServerSession → Type 0) : Type 0 where
  pub messages : AllowsMessage R
  pub received : (s : ServerSession) (n : ℕ) → R s (record s { bytes_received = n })
  pub since_ack : (s : ServerSession) (n : ℕ) → R s (record s { bytes_received_since_last_ack = n })

-- A relation allows what a stronger one does.
pub map-AllowsMessage :
    {R Q : ServerSession → ServerSession → Type 0}
    → AllowsMessage R
    → IsPreorder Q
    → ((s t : ServerSession) → R s t → Q s t)
    → AllowsMessage Q
map-AllowsMessage allows order weaken = record {
  blind = record {
    order = order;
    clock = λ s n. weaken s _ (allows.blind.clock s n);
    writer = λ s c. weaken s _ (allows.blind.writer s c);
  };
  reader = λ s d. weaken s _ (allows.reader s d);
  window = λ s n. weaken s _ (allows.window s n);
  encoding = λ s n. weaken s _ (allows.encoding s n);
  opened = λ s. weaken s _ (allows.opened s);
  closed = λ s id stream e. weaken s _ (allows.closed s id stream e);
  deleted = λ s id. weaken s _ (allows.deleted s id);
  asked = λ s request. weaken s _ (allows.asked s request);
}

pub map-AllowsInput :
    {R Q : ServerSession → ServerSession → Type 0}
    → AllowsInput R
    → IsPreorder Q
    → ((s t : ServerSession) → R s t → Q s t)
    → AllowsInput Q
map-AllowsInput allows order weaken = record {
  messages = map-AllowsMessage allows.messages order weaken;
  received = λ s n. weaken s _ (allows.received s n);
  since_ack = λ s n. weaken s _ (allows.since_ack s n);
}
