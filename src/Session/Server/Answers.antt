-- ===== src/Session/Server/Answers.antt =====
-- What the answers to requests come to.
use rust_media_libs.Prelude.{
  ℕ, ◌≡◌, refl, ap, ◌∙◌, none, some, Option-cases, List, ◌==◌, true, inl, inr, arith, err,
}
use rust_media_libs.HashMap
use rust_media_libs.Bytes.{ByteOrder}
use rust_media_libs.Session.Action.{Environment, ◌>>=◌}
use rust_media_libs.Session.Server.Types.{OutstandingRequest, ServerSession, invalid_request_id}
use rust_media_libs.Session.Server.Requests.{take_request, accept, accept_request}
use rust_media_libs.Session.Server.Keep.Sends.{IsBlind}
use rust_media_libs.Session.Server.Keep.Answers.{AllowsAnswer, accept-Keeps}

abbrev pub without_request : ℕ → ServerSession → ServerSession
without_request id s = record s { outstanding_requests = HashMap.remove id s.outstanding_requests }

module _ ⦃bo : ByteOrder⦄ ⦃env : Environment⦄ where
  pub accept_request_unknown :
      (id : ℕ) (s : ServerSession)
      → HashMap.get id s.outstanding_requests ≡ none
      → accept_request id s ≡ (err invalid_request_id, without_request id s)
  unfolding accept_request take_request ◌>>=◌
  accept_request_unknown id s e = rw e refl

  pub accept_request_known :
      (id : ℕ) (request : OutstandingRequest) (s : ServerSession)
      → HashMap.get id s.outstanding_requests ≡ some request
      → accept_request id s ≡ accept request (without_request id s)
  unfolding accept_request take_request ◌>>=◌
  accept_request_known id request s e = rw e refl

abbrev SameRequests : ServerSession → ServerSession → Type 0
SameRequests s t = t.outstanding_requests ≡ s.outstanding_requests

SameRequests-blind : IsBlind SameRequests
SameRequests-blind = record {
  order = record { same = λ s. refl; through = λ s t u h k. k ∙ h };
  clock = λ s n. refl;
  writer = λ s c. refl;
}

SameRequests-AllowsAnswer : (request : OutstandingRequest) → AllowsAnswer SameRequests request
SameRequests-AllowsAnswer request = record {
  blind = SameRequests-blind;
  joined = λ s app_name id e. refl;
  published = λ s key mode id stream e known. refl;
  played = λ s key id stream e known. refl;
}

get-remove_same {ℓ} :
    {V : Type ℓ} (id : ℕ) (m : List (ℕ × V)) → HashMap.get id (HashMap.remove id m) ≡ none
get-remove_same id m =
    let same : (id == id) ≡ true = ground arith in HashMap.get-remove id id m ∙ rw same refl

module _ ⦃bo : ByteOrder⦄ ⦃env : Environment⦄ where
  accept_request_gone :
      (id : ℕ) (s : ServerSession)
      → HashMap.get id (accept_request id s).1.outstanding_requests ≡ none
  accept_request_gone id s = elim (Option-cases (HashMap.get id s.outstanding_requests)) [
    | inl e ↦ rw (accept_request_unknown id s e) (get-remove_same id s.outstanding_requests)
    | inr (request, e) ↦ rw (accept_request_known id request s e) (
        ap (HashMap.get id)
          ((accept-Keeps request (SameRequests-AllowsAnswer request)).holds (without_request id s))
        ∙ get-remove_same id s.outstanding_requests)
  ]

  -- A request is answered once: however the first acceptance of a request number ended, a second one
  -- is refused as an unknown request, and no stream, name or state of the session changes with it.
  pub accept_request_twice :
      (id : ℕ) (s : ServerSession)
      → accept_request id (accept_request id s).1
        ≡ (err invalid_request_id, without_request id (accept_request id s).1)
  accept_request_twice id s =
      accept_request_unknown id (accept_request id s).1 (accept_request_gone id s)
