-- ===== src/Session/Server/Invariant.antt =====
-- The numbers of a session: what is numbered is below the next number, so no number is given twice.
use rust_media_libs.Prelude.{
  ℕ, ◌+◌, ◌<◌, ◌≤◌, ◌≡◌, ◌≢◌, refl, ◌∙◌, Option, none, some, List, leb, ◌==◌, false, Bool-cases,
  inl, inr, arith,
}
use rust_media_libs.HashMap
use rust_media_libs.Bytes.{ByteOrder}
use rust_media_libs.Session.Action.{Environment}
use rust_media_libs.Session.Keeps.{IsPreorder}
use rust_media_libs.Session.Server.Types.{
  SessionState, ActiveStream, OutstandingRequest, ServerSession,
}
use rust_media_libs.Session.Server.Input.{input_action}
use rust_media_libs.Session.Server.Keep.Allows.{AllowsMessage, AllowsInput}
use rust_media_libs.Session.Server.Keep.Input.{input_action-Keeps}

-- A session is connected only under an application's name.
abbrev pub HasName : SessionState → Option (List ℕ) → Type 0
HasName SessionState.started name = Unit
HasName SessionState.connected name = name ≢ none

-- No entry has the number or a greater one.
abbrev pub AreBelow {ℓ} : {V : Type ℓ} → ℕ → List (ℕ × V) → Type ℓ
AreBelow next m = (id : ℕ) → next ≤ id → HashMap.get id m ≡ none

pub record Numbers (requests : List (ℕ × OutstandingRequest)) (next_request : ℕ)
    (streams : List (ℕ × ActiveStream)) (next_stream : ℕ) (state : SessionState)
    (name : Option (List ℕ)) : Type 0 where
  pub requests_below : AreBelow next_request requests
  pub streams_below : AreBelow next_stream streams
  pub named : HasName state name

abbrev pub IsNumbered : ServerSession → Type 0
IsNumbered s =
    Numbers s.outstanding_requests s.next_request_number s.active_streams s.next_stream_id
      s.current_state s.connected_app_name

abbrev pub KeepsRequests : ServerSession → ServerSession → Type 0
KeepsRequests s t =
    (id : ℕ) (request : OutstandingRequest)
    → HashMap.get id s.outstanding_requests ≡ some request
    → HashMap.get id t.outstanding_requests ≡ some request

pub insert-AreBelow {ℓ} :
    {V : Type ℓ} (next id bound : ℕ) (v : V) (m : List (ℕ × V))
    → AreBelow next m
    → next ≤ bound
    → id < bound
    → AreBelow bound (HashMap.insert id v m)
insert-AreBelow next id bound v m h le lt j hj =
    HashMap.get-insert id j v m
    ∙ (let other : (id == j) ≡ false = ground (arith, lt, hj) in
        rw other (h j (omega (arith, le, hj))))

pub remove-AreBelow {ℓ} :
    {V : Type ℓ} (next id : ℕ) (m : List (ℕ × V))
    → AreBelow next m
    → AreBelow next (HashMap.remove id m)
remove-AreBelow next id m h j hj = elim (Bool-cases (id == j)) [
  | inl e ↦ HashMap.get-remove id j m ∙ rw e refl
  | inr e ↦ HashMap.get-remove id j m ∙ rw e (h j hj)
]

-- A number that an entry has is below the next one.
pub below_next {ℓ} :
    {V : Type ℓ} (next id : ℕ) (v : V) (m : List (ℕ × V))
    → AreBelow next m
    → HashMap.get id m ≡ some v
    → id < next
below_next next id v m h e = elim (Bool-cases (leb next id)) [
  | inl le ↦ cc (e, h id (ground (arith, le)))
  | inr lt ↦ ground (arith, lt)
]

-- The invariant goes on, and the requests that wait for an answer are still there.
abbrev pub Continues : ServerSession → ServerSession → Type 0
Continues s t = IsNumbered s → IsNumbered t × KeepsRequests s t

Continues-order : IsPreorder Continues
Continues-order = record {
  same = λ s v. (v, λ id request e. e);
  through = λ s t u h k v.
      let (v₁, kept₁) = h v in
      let (v₂, kept₂) = k v₁ in (v₂, λ id request e. kept₂ id request (kept₁ id request e));
}

with_streams :
    (s : ServerSession) (streams : List (ℕ × ActiveStream)) (next : ℕ)
    → (IsNumbered s → AreBelow next streams)
    → Continues s (record s { active_streams = streams; next_stream_id = next })
with_streams s streams next h v = (
  record { requests_below = v.requests_below; streams_below = h v; named = v.named },
  λ id request e. e,
)

asked_Continues :
    (s : ServerSession) (request : OutstandingRequest)
    → Continues s (record s {
      next_request_number = s.next_request_number + 1;
      outstanding_requests = HashMap.insert s.next_request_number request s.outstanding_requests;
    })
asked_Continues s request v = (
  record {
    requests_below =
        insert-AreBelow s.next_request_number s.next_request_number (s.next_request_number + 1)
          request s.outstanding_requests v.requests_below (omega arith) (omega arith);
    streams_below = v.streams_below;
    named = v.named;
  },
  λ id known e.
      let lt =
        below_next s.next_request_number id known s.outstanding_requests v.requests_below e in
      let other : (s.next_request_number == id) ≡ false = ground (arith, lt) in
      HashMap.get-insert s.next_request_number id request s.outstanding_requests ∙ rw other e,
)

Continues-AllowsMessage : AllowsMessage Continues
Continues-AllowsMessage = record {
  blind = record {
    order = Continues-order;
    clock = λ s n v. (v, λ id request e. e);
    writer = λ s c v. (v, λ id request e. e);
  };
  reader = λ s d v. (v, λ id request e. e);
  window = λ s n v. (v, λ id request e. e);
  encoding = λ s n v. (v, λ id request e. e);
  opened = λ s. with_streams s _ (s.next_stream_id + 1) λ v.
      insert-AreBelow s.next_stream_id s.next_stream_id (s.next_stream_id + 1) _ s.active_streams
        v.streams_below (omega arith) (omega arith);
  closed = λ s id stream e. with_streams s _ s.next_stream_id λ v.
      insert-AreBelow s.next_stream_id id s.next_stream_id _ s.active_streams v.streams_below
        (omega arith) (below_next s.next_stream_id id stream s.active_streams v.streams_below e);
  deleted = λ s id.
      with_streams s _ s.next_stream_id
        λ v. remove-AreBelow s.next_stream_id id s.active_streams v.streams_below;
  asked = asked_Continues;
}

pub Continues-AllowsInput : AllowsInput Continues
Continues-AllowsInput = record {
  messages = Continues-AllowsMessage;
  received = λ s n v. (v, λ id request e. e);
  since_ack = λ s n v. (v, λ id request e. e);
}

module _ ⦃bo : ByteOrder⦄ ⦃env : Environment⦄ where
  -- A request that waits for an answer in a session whose numbers are in order still waits for it,
  -- unchanged and under its number, whatever bytes come in and however their handling ends.
  pub get-input_action :
      (s : ServerSession) (bytes : List ℕ) (id : ℕ) (request : OutstandingRequest)
      → IsNumbered s
      → HashMap.get id s.outstanding_requests ≡ some request
      → HashMap.get id (input_action bytes s).1.outstanding_requests ≡ some request
  get-input_action s bytes id request v e =
      ((input_action-Keeps Continues-AllowsInput bytes).holds s v).1 id request e
