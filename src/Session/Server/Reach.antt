-- ===== src/Session/Server/Reach.antt =====
-- What the owner of a session may do with it, in any order: the states that the session gets to.
use rust_media_libs.Prelude.{ℕ, Bool, ◌≡◌, refl, subst, Option, none, some, List, [], ◌∷◌, ◌++◌, ok}
use rust_media_libs.HashMap
use rust_media_libs.Bytes.{ByteOrder}
use rust_media_libs.Time.{RtmpTimestamp}
use rust_media_libs.Session.Action.{Environment, finish-ok}
use rust_media_libs.Session.Metadata.{StreamMetadata}
use rust_media_libs.Session.Server.Types.{
  completed, ActiveStream, OutstandingRequest, publish_requested, ServerSession,
  ServerSessionConfig, initial_session,
}
use rust_media_libs.Session.Server.Send.{Results}
use rust_media_libs.Session.Server.Streams.{set_stream}
use rust_media_libs.Session.Server.Answers.{
  without_request, accept_request_unknown, accept_request_known,
}
use rust_media_libs.Session.Server.Requests.{accept_request, reject_request}
use rust_media_libs.Session.Server.Outbound.{
  send_metadata, send_video_data, send_audio_data, send_ping_request, finish_playing,
}
use rust_media_libs.Session.Server.Input.{announce, new, input_action, handle_input}
use rust_media_libs.Session.Server.Keep.Sends.{IsBlind}
use rust_media_libs.Session.Server.Keep.Allows.{AllowsInput}
use rust_media_libs.Session.Server.Keep.Input.{input_action-Keeps}
use rust_media_libs.Session.Server.Keep.Answers.{AllowsAnswer, accept-Keeps}
use rust_media_libs.Session.Server.Keep.Outbound.{
  send_metadata-Keeps, send_video_data-Keeps, send_audio_data-Keeps, send_ping_request-Keeps,
  announce-Keeps, finish_playing-Keeps, reject_request-Keeps,
}

-- The streams that a request asks to publish, with the key.
abbrev pub grants : Option OutstandingRequest → List (ℕ × List ℕ)
grants (some (publish_requested key mode id)) = (id, key) ∷ []
grants _ = []

module _ ⦃bo : ByteOrder⦄ ⦃env : Environment⦄ where
  -- A session and the streams whose publishing the application has accepted so far, the last one
  -- first. The other calls go on after an error; `handle_input` does so only after a success,
  -- because the deserializer that an error leaves is not modelled.
  pub data Reach : List (ℕ × List ℕ) → ServerSession → Type 0 where
    begin :
        (config : ServerSessionConfig) (results : Results) (s : ServerSession)
        → new config ≡ ok (results, s)
        → Reach [] s
    input :
        (log : List (ℕ × List ℕ)) (s : ServerSession) (bytes : List ℕ) (results : Results)
        (t : ServerSession)
        → Reach log s
        → handle_input s bytes ≡ ok (results, t)
        → Reach log t
    accepted :
        (log : List (ℕ × List ℕ)) (s : ServerSession) (id : ℕ)
        → Reach log s
        → Reach (grants (HashMap.get id s.outstanding_requests) ++ log) (accept_request id s).1
    rejected :
        (log : List (ℕ × List ℕ)) (s : ServerSession) (id : ℕ) (code description : List ℕ)
        → Reach log s
        → Reach log (reject_request id code description s).1
    metadata_sent :
        (log : List (ℕ × List ℕ)) (s : ServerSession) (id : ℕ) (metadata : StreamMetadata)
        → Reach log s
        → Reach log (send_metadata id metadata s).1
    video_sent :
        (log : List (ℕ × List ℕ)) (s : ServerSession) (id : ℕ) (bytes : List ℕ)
        (time : RtmpTimestamp) (drop : Bool)
        → Reach log s
        → Reach log (send_video_data id bytes time drop s).1
    audio_sent :
        (log : List (ℕ × List ℕ)) (s : ServerSession) (id : ℕ) (bytes : List ℕ)
        (time : RtmpTimestamp) (drop : Bool)
        → Reach log s
        → Reach log (send_audio_data id bytes time drop s).1
    pinged :
        (log : List (ℕ × List ℕ)) (s : ServerSession)
        → Reach log s
        → Reach log (send_ping_request s).1
    playing_finished :
        (log : List (ℕ × List ℕ)) (s : ServerSession) (id : ℕ)
        → Reach log s
        → Reach log (finish_playing id s).1

-- That a property goes on from a state to another.
abbrev pub Preserves :
    (List (ℕ × List ℕ) → ServerSession → Type 0)
    → List (ℕ × List ℕ)
    → ServerSession
    → ServerSession
    → Type 0
Preserves P log s t = P log s → P log t

-- What has to be shown for a property of every state that a session gets to, which may speak of
-- the log: each change of the state that an operation makes, one at a time.
pub record IsStable (P : List (ℕ × List ℕ) → ServerSession → Type 0) : Type 0 where
  pub initial : (config : ServerSessionConfig) → P [] (initial_session config)
  pub from_input : (log : List (ℕ × List ℕ)) → AllowsInput (Preserves P log)
  pub granted :
      (log : List (ℕ × List ℕ)) (request : Option OutstandingRequest) (s : ServerSession)
      → P log s
      → P (grants request ++ log) s
  pub from_answer :
      (log : List (ℕ × List ℕ)) (request : OutstandingRequest)
      → AllowsAnswer (Preserves P (grants (some request) ++ log)) request
  pub dropped :
      (log : List (ℕ × List ℕ)) (s : ServerSession) (id : ℕ)
      → P log s
      → P log (without_request id s)
  pub ended :
      (log : List (ℕ × List ℕ)) (s : ServerSession) (id : ℕ) (stream : ActiveStream)
      → HashMap.get id s.active_streams ≡ some stream
      → P log s
      → P log (set_stream id completed s)

module _ ⦃bo : ByteOrder⦄ ⦃env : Environment⦄ {P : List (ℕ × List ℕ) → ServerSession → Type 0}
    (stable : IsStable P) where
  blind : (log : List (ℕ × List ℕ)) → IsBlind (Preserves P log)
  blind log = (stable.from_input log).messages.blind

  accept_request-stable :
      (log : List (ℕ × List ℕ)) (s : ServerSession) (id : ℕ) (request : Option OutstandingRequest)
      → HashMap.get id s.outstanding_requests ≡ request
      → P log s
      → P (grants request ++ log) (accept_request id s).1
  accept_request-stable log s id none e p =
      rw (accept_request_unknown id s e) (stable.dropped log s id p)
  accept_request-stable log s id (some request) e p = rw (accept_request_known id request s e) (
      (accept-Keeps request (stable.from_answer log request)).holds (without_request id s)
        (stable.granted log (some request) (without_request id s) (stable.dropped log s id p)))

  -- A stable property holds of every state that a session gets to.
  pub Reach-IsStable : {log : List (ℕ × List ℕ)} {s : ServerSession} → Reach log s → P log s
  unfolding new handle_input
  Reach-IsStable (begin config results s e) =
      subst (P []) (finish-ok (announce config (initial_session config)) results s e)
        ((announce-Keeps (blind []) config).holds (initial_session config) (stable.initial config))
  Reach-IsStable (input log s bytes results t r e) =
      subst (P log) (finish-ok (input_action bytes s) results t e)
        ((input_action-Keeps (stable.from_input log) bytes).holds s (Reach-IsStable r))
  Reach-IsStable (accepted log s id r) =
      accept_request-stable log s id (HashMap.get id s.outstanding_requests) refl (Reach-IsStable r)
  Reach-IsStable (rejected log s id code description r) =
      (reject_request-Keeps (blind log) id code description (λ t. stable.dropped log t id)).holds s
        (Reach-IsStable r)
  Reach-IsStable (metadata_sent log s id metadata r) =
      (send_metadata-Keeps (blind log) id metadata).holds s (Reach-IsStable r)
  Reach-IsStable (video_sent log s id bytes time drop r) =
      (send_video_data-Keeps (blind log) id bytes time drop).holds s (Reach-IsStable r)
  Reach-IsStable (audio_sent log s id bytes time drop r) =
      (send_audio_data-Keeps (blind log) id bytes time drop).holds s (Reach-IsStable r)
  Reach-IsStable (pinged log s r) = (send_ping_request-Keeps (blind log)).holds s (Reach-IsStable r)
  Reach-IsStable (playing_finished log s id r) =
      (finish_playing-Keeps (blind log) id (λ t stream. stable.ended log t id stream)).holds s
        (Reach-IsStable r)
