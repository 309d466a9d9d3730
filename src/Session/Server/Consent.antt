-- ===== src/Session/Server/Consent.antt =====
-- In every state that a session gets to, the numbers are in order and what is published was accepted.
use rust_media_libs.Prelude.{
  ℕ, ◌≡◌, refl, subst, Option, none, some, List, ◌∷◌, ◌++◌, ◌==◌, Bool-cases, inl, inr, arith,
}
use mathlib.Core.List.{Mem, mem-cons_self, mem-cons_of_mem}
use rust_media_libs.HashMap
use rust_media_libs.Bytes.{ByteOrder}
use rust_media_libs.Session.Action.{Environment}
use rust_media_libs.Session.Keeps.{IsPreorder}
use rust_media_libs.Session.Server.Types.{
  StreamState, completed, publishing, playing, ActiveStream, OutstandingRequest, connection_request,
  publish_requested, play_requested, ServerSession,
}
use rust_media_libs.Session.Server.Streams.{set_stream}
use rust_media_libs.Session.Server.Media.{key_published, publishing_key}
use rust_media_libs.Session.Server.Invariant.{
  IsNumbered, Continues-AllowsInput, insert-AreBelow, remove-AreBelow, below_next,
}
use rust_media_libs.Session.Server.Safety.{Unconsented-AllowsInput}
use rust_media_libs.Session.Server.Keep.Allows.{AllowsInput, map-AllowsInput}
use rust_media_libs.Session.Server.Reach.{grants, Reach, Preserves, IsStable, Reach-IsStable}

abbrev Numbered : List (ℕ × List ℕ) → ServerSession → Type 0
Numbered log s = IsNumbered s

started_stream-IsNumbered :
    (s : ServerSession) (id : ℕ) (stream : ActiveStream) (state : StreamState)
    → HashMap.get id s.active_streams ≡ some stream
    → IsNumbered s
    → IsNumbered (set_stream id state s)
started_stream-IsNumbered s id stream state e v = record {
  requests_below = v.requests_below;
  streams_below =
      insert-AreBelow s.next_stream_id id s.next_stream_id _ s.active_streams v.streams_below
        (omega arith) (below_next s.next_stream_id id stream s.active_streams v.streams_below e);
  named = v.named;
}

Numbered-AllowsInput : (log : List (ℕ × List ℕ)) → AllowsInput (Preserves Numbered log)
Numbered-AllowsInput log =
    map-AllowsInput Continues-AllowsInput
      (record { same = λ s v. v; through = λ s t u h k v. k (h v) }) (λ s t h v. (h v).0)

Numbered-IsStable : IsStable Numbered
unfolding HashMap.get
Numbered-IsStable = record {
  initial = λ config. record {
    requests_below = λ id le. refl;
    streams_below = λ id le. refl;
    named = tt;
  };
  from_input = Numbered-AllowsInput;
  granted = λ log request s v. v;
  from_answer = λ log request. record {
    blind = (Numbered-AllowsInput log).messages.blind;
    joined = λ s app_name id e v. record {
      requests_below = v.requests_below;
      streams_below = v.streams_below;
      named = λ e. cc e;
    };
    published = λ s key mode id stream e known.
        started_stream-IsNumbered s id stream (publishing key mode) known;
    played = λ s key id stream e known. started_stream-IsNumbered s id stream (playing key) known;
  };
  dropped = λ log s id v. record {
    requests_below =
        remove-AreBelow s.next_request_number id s.outstanding_requests v.requests_below;
    streams_below = v.streams_below;
    named = v.named;
  };
  ended = λ log s id stream known. started_stream-IsNumbered s id stream completed known;
}

-- Whatever is published was accepted.
abbrev Consented : List (ℕ × List ℕ) → ServerSession → Type 0
Consented log s = (id : ℕ) (key : List ℕ) → publishing_key id s ≡ some key → Mem (id, key) log

Consented-order : (log : List (ℕ × List ℕ)) → IsPreorder (Preserves Consented log)
Consented-order log = record { same = λ s v. v; through = λ s t u h k v. k (h v) }

Consented-AllowsInput : (log : List (ℕ × List ℕ)) → AllowsInput (Preserves Consented log)
Consented-AllowsInput log =
    map-AllowsInput Unconsented-AllowsInput (Consented-order log)
      (λ s t h v id key e. v id key (h.2.published id key e))

Consented-granted :
    (log : List (ℕ × List ℕ)) (request : Option OutstandingRequest) (s : ServerSession)
    → Consented log s
    → Consented (grants request ++ log) s
Consented-granted log none s v = v
Consented-granted log (some (connection_request app_name id)) s v = v
Consented-granted log (some (publish_requested key mode id)) s v =
    λ j k e. mem-cons_of_mem (id, key) (v j k e)
Consented-granted log (some (play_requested key id)) s v = v

-- A stream in another state: what it publishes is all that has to be looked at.
set_stream-Consented :
    (log : List (ℕ × List ℕ)) (s : ServerSession) (id : ℕ) (state : StreamState)
    → ((key : List ℕ) → key_published state ≡ some key → Mem (id, key) log)
    → Consented log s
    → Consented log (set_stream id state s)
set_stream-Consented log s id state h v j key e = elim (Bool-cases (id == j)) [
  | inl same ↦
      let at = HashMap.get-insert id j (record { current_state = state }) s.active_streams in
      let e₂ : key_published state ≡ some key = ground (arith, e, at, same) in
      let equal : id ≡ j = ground (arith, same) in subst (λ i. Mem (i, key) log) equal (h key e₂)
  | inr other ↦
      let at = HashMap.get-insert id j (record { current_state = state }) s.active_streams in
      let e₂ : publishing_key j s ≡ some key = ground (arith, e, at, other) in v j key e₂
]

Consented-IsStable : IsStable Consented
unfolding HashMap.get
Consented-IsStable = record {
  initial = λ config id key e. cc e;
  from_input = Consented-AllowsInput;
  granted = Consented-granted;
  from_answer = λ log request. record {
    blind = (Consented-AllowsInput (grants (some request) ++ log)).messages.blind;
    joined = λ s app_name id e v. v;
    published = λ s key mode id stream e known.
        set_stream-Consented _ s id (publishing key mode)
          λ k same. rw e (subst (λ x. Mem (id, x) ((id, key) ∷ log)) (cc same) mem-cons_self);
    played = λ s key id stream e known. set_stream-Consented _ s id (playing key) λ k same. cc same;
  };
  dropped = λ log s id v. v;
  ended = λ log s id stream known. set_stream-Consented log s id completed λ k same. cc same;
}

module _ ⦃bo : ByteOrder⦄ ⦃env : Environment⦄ where
  -- In every state that a session gets to from `new`, by any sequence of inputs that are handled and
  -- of calls of its owner, no request and no stream has a number that is still to be given, and a
  -- connected session has an application's name.
  pub Reach-IsNumbered : {log : List (ℕ × List ℕ)} {s : ServerSession} → Reach log s → IsNumbered s
  Reach-IsNumbered r = Reach-IsStable Numbered-IsStable r

  -- In every state that a session gets to, a stream that is published under a key is one for which
  -- the application accepted a request to publish with that key.
  pub Reach-consented :
      {log : List (ℕ × List ℕ)} {s : ServerSession} (id : ℕ) (key : List ℕ)
      → Reach log s
      → publishing_key id s ≡ some key
      → Mem (id, key) log
  Reach-consented {s} id key r e = Reach-IsStable Consented-IsStable r id key e
