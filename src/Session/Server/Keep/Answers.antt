-- ===== src/Session/Server/Keep/Answers.antt =====
-- What an answer to a request changes: the session if it is a connection, else the stream asked for.
use rust_media_libs.Prelude.{ℕ, some, Option-cases, List, ◌≡◌, refl, inl, inr, false}
use rust_media_libs.Bytes.{ByteOrder}
use rust_media_libs.HashMap
use rust_media_libs.Session.Action.{Environment, ◌>>=◌}
use rust_media_libs.Session.Keeps.{
  IsPreorder, Keeps, Keeps-bind, Keeps-pure, Keeps-gets, Keeps-modify,
}
use rust_media_libs.Session.Server.Types.{
  SessionState, PublishMode, StreamState, publishing, playing, ActiveStream, OutstandingRequest,
  connection_request, publish_requested, play_requested, ServerSession,
}
use rust_media_libs.Session.Server.Streams.{set_stream}
use rust_media_libs.Session.Server.Requests.{
  start_stream, accept, accept_connection_request, accept_publish_request, accept_play_request,
}
use rust_media_libs.Session.Server.Keep.Sends.{IsBlind, send-Keeps}

-- What a relation has to allow for a request to be accepted.
pub record AllowsAnswer (R : ServerSession → ServerSession → Type 0) (request : OutstandingRequest)
    : Type 0 where
  pub blind : IsBlind R
  pub joined :
      (s : ServerSession) (app_name : List ℕ) (id : ℕ)
      → request ≡ connection_request app_name id
      → R s
          (record s { connected_app_name = some app_name; current_state = SessionState.connected })
  pub published :
      (s : ServerSession) (key : List ℕ) (mode : PublishMode) (id : ℕ) (stream : ActiveStream)
      → request ≡ publish_requested key mode id
      → HashMap.get id s.active_streams ≡ some stream
      → R s (set_stream id (publishing key mode) s)
  pub played :
      (s : ServerSession) (key : List ℕ) (id : ℕ) (stream : ActiveStream)
      → request ≡ play_requested key id
      → HashMap.get id s.active_streams ≡ some stream
      → R s (set_stream id (playing key) s)

start_stream-Keeps :
    {R : ServerSession → ServerSession → Type 0} (order : IsPreorder R) (action : List ℕ) (id : ℕ)
    (state : StreamState)
    → ((s : ServerSession) (stream : ActiveStream)
        → HashMap.get id s.active_streams ≡ some stream
        → R s (set_stream id state s))
    → Keeps R (start_stream action id state)
unfolding start_stream ◌>>=◌
start_stream-Keeps order action id state h = record {
  holds = λ s. elim (Option-cases (HashMap.get id s.active_streams)) [
    | inl e ↦ rw e (order.same s)
    | inr (stream, e) ↦ rw e (h s stream e)
  ];
}

module _ ⦃bo : ByteOrder⦄ ⦃env : Environment⦄ {R : ServerSession → ServerSession → Type 0} where
  pub accept-Keeps :
      (request : OutstandingRequest) → AllowsAnswer R request → Keeps R (accept request)
  unfolding accept accept_connection_request accept_publish_request accept_play_request
  accept-Keeps (connection_request app_name id) allows =
      let order = allows.blind.order in
      Keeps-bind order (Keeps-modify order λ s. allows.joined s app_name id refl) λ u.
        Keeps-bind order (Keeps-gets order)
          λ reply. Keeps-bind order (send-Keeps allows.blind reply 0 false) λ p. Keeps-pure order
  accept-Keeps (publish_requested key mode id) allows =
      let order = allows.blind.order in
      Keeps-bind order
        (start_stream-Keeps order _ id (publishing key mode)
          λ s stream. allows.published s key mode id stream refl)
        λ u.
          Keeps-bind order (send-Keeps allows.blind _ id false)
            λ p. Keeps-bind order (send-Keeps allows.blind _ id false) λ q. Keeps-pure order
  accept-Keeps (play_requested key id) allows =
      let order = allows.blind.order in
      Keeps-bind order
        (start_stream-Keeps order _ id (playing key) λ s stream. allows.played s key id stream refl)
        λ u. Keeps-bind order (send-Keeps allows.blind _ id false) λ p₁.
          Keeps-bind order (send-Keeps allows.blind _ id false) λ p₂.
            Keeps-bind order (send-Keeps allows.blind _ id false) λ p₃.
              Keeps-bind order (send-Keeps allows.blind _ id false)
                λ p₄. Keeps-bind order (send-Keeps allows.blind _ id false) λ p₅. Keeps-pure order
