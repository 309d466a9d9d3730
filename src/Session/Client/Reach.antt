-- ===== src/Session/Client/Reach.antt =====
-- The states that a client session gets to, and the stream that it is active on in them.
use rust_media_libs.Prelude.{
  ℕ, Bool, Option, none, some, List, ◌≡◌, ◌≢◌, ◌⊎◌, inl, inr, refl, subst, ok, err,
}
use rust_media_libs.Bytes.{ByteOrder}
use rust_media_libs.Time.{RtmpTimestamp}
use rust_media_libs.Message.Types.{video_data, audio_data}
use rust_media_libs.Session.Action.{Environment, pure, finish-ok, ◌>>=◌}
use rust_media_libs.Session.Metadata.{StreamMetadata}
use rust_media_libs.Session.Client.Types.{
  ClientState, PublishRequestType, ClientSession, ClientSessionConfig, new,
  session_in_invalid_state, outbound_response,
}
use rust_media_libs.Session.Client.Send.{Results, send, send_at}
use rust_media_libs.Session.Client.Requests.{
  request_connection, request_playback, request_publishing, stop_playback, stop_publishing,
}
use rust_media_libs.Session.Client.Publishing.{
  metadata_message, publishing_stream, active_publishing_stream, publish_metadata,
  publish_video_data, publish_audio_data, send_ping_request,
}
use rust_media_libs.Session.Client.Input.{input_action, handle_input}
use rust_media_libs.Session.Client.Keep.Sends.{Allows}
use rust_media_libs.Session.Client.Keep.Requests.{
  request_connection-Keeps, request_playback-Keeps, request_publishing-Keeps, stop_playback-Keeps,
  stop_publishing-Keeps, publish_metadata-Keeps, publish_video_data-Keeps, publish_audio_data-Keeps,
  send_ping_request-Keeps,
}
use rust_media_libs.Session.Client.Keep.Input.{input_action-Keeps}

module _ ⦃bo : ByteOrder⦄ ⦃env : Environment⦄ where
  -- The calls of the application go on after an error; `handle_input` does so only after a success,
  -- because the deserializer that an error leaves is not modelled.
  pub data Reach : ClientSession → Type 0 where
    begin : (config : ClientSessionConfig) → Reach (new config)
    input :
        (s : ClientSession) (bytes : List ℕ) (results : Results) (t : ClientSession)
        → Reach s
        → handle_input s bytes ≡ ok (results, t)
        → Reach t
    connection_asked :
        (s : ClientSession) (app_name : List ℕ) → Reach s → Reach (request_connection app_name s).1
    playback_asked : (s : ClientSession) (key : List ℕ) → Reach s → Reach (request_playback key s).1
    publishing_asked :
        (s : ClientSession) (key : List ℕ) (mode : PublishRequestType)
        → Reach s
        → Reach (request_publishing key mode s).1
    playback_stopped : (s : ClientSession) → Reach s → Reach (stop_playback s).1
    publishing_stopped : (s : ClientSession) → Reach s → Reach (stop_publishing s).1
    metadata_published :
        (s : ClientSession) (metadata : StreamMetadata)
        → Reach s
        → Reach (publish_metadata metadata s).1
    video_published :
        (s : ClientSession) (bytes : List ℕ) (time : RtmpTimestamp) (drop : Bool)
        → Reach s
        → Reach (publish_video_data bytes time drop s).1
    audio_published :
        (s : ClientSession) (bytes : List ℕ) (time : RtmpTimestamp) (drop : Bool)
        → Reach s
        → Reach (publish_audio_data bytes time drop s).1
    pinged : (s : ClientSession) → Reach s → Reach (send_ping_request s).1

-- A session that plays or publishes, or asks to, is active on a stream.
abbrev pub HasStream : ClientState → Option ℕ → Type 0
HasStream ClientState.disconnected active = Unit
HasStream ClientState.connected active = Unit
HasStream _ active = active ≢ none

abbrev pub IsActive : ClientSession → Type 0
IsActive s = HasStream s.current_state s.active_stream_id

Continues : ClientSession → ClientSession → Type 0
Continues s t = IsActive s → IsActive t

same_stream :
    (before after : ClientState) (active : Option ℕ)
    → before ≡ after
    → HasStream before active
    → HasStream after active
same_stream before after active e h = subst (λ state. HasStream state active) e h

Continues-Allows : Allows Continues
unfolding Continues
Continues-Allows = record {
  order = record { same = λ s v. v; through = λ s t u h k v. k (h v) };
  clock = λ s n v. v;
  writer = λ s c v. v;
  reader = λ s d v. v;
  received = λ s n v. v;
  since_ack = λ s n v. v;
  window = λ s n v. v;
  counted = λ s n v. v;
  transactions = λ s m v. v;
  joined = λ s app_name v. tt;
  play_asked = λ s id v e. cc e;
  publish_asked = λ s id v e. cc e;
  play_begun =
      λ s e v. same_stream s.current_state ClientState.play_requested s.active_stream_id e v;
  publish_begun =
      λ s e v. same_stream s.current_state ClientState.publish_requested s.active_stream_id e v;
  stopped = λ s v. tt;
}

module _ ⦃bo : ByteOrder⦄ ⦃env : Environment⦄ where
  -- In every state that a client session gets to from `new`, by any sequence of inputs that are
  -- handled and of calls of its owner: a session that plays or publishes, or asks to, has a stream
  -- that it is active on.
  pub Reach-IsActive : {s : ClientSession} → Reach s → IsActive s
  unfolding Continues handle_input
  Reach-IsActive (begin config) = tt
  Reach-IsActive (input s bytes results t r e) =
      subst IsActive (finish-ok (input_action bytes s) results t e)
        ((input_action-Keeps Continues-Allows bytes).holds s (Reach-IsActive r))
  Reach-IsActive (connection_asked s app_name r) =
      (request_connection-Keeps Continues-Allows app_name).holds s (Reach-IsActive r)
  Reach-IsActive (playback_asked s key r) =
      (request_playback-Keeps Continues-Allows key).holds s (Reach-IsActive r)
  Reach-IsActive (publishing_asked s key mode r) =
      (request_publishing-Keeps Continues-Allows key mode).holds s (Reach-IsActive r)
  Reach-IsActive (playback_stopped s r) =
      (stop_playback-Keeps Continues-Allows).holds s (Reach-IsActive r)
  Reach-IsActive (publishing_stopped s r) =
      (stop_publishing-Keeps Continues-Allows).holds s (Reach-IsActive r)
  Reach-IsActive (metadata_published s metadata r) =
      (publish_metadata-Keeps Continues-Allows metadata).holds s (Reach-IsActive r)
  Reach-IsActive (video_published s bytes time drop r) =
      (publish_video_data-Keeps Continues-Allows bytes time drop).holds s (Reach-IsActive r)
  Reach-IsActive (audio_published s bytes time drop r) =
      (publish_audio_data-Keeps Continues-Allows bytes time drop).holds s (Reach-IsActive r)
  Reach-IsActive (pinged s r) =
      (send_ping_request-Keeps Continues-Allows).holds s (Reach-IsActive r)

-- How the guard of the publishing calls ends, with the session that it leaves.
active_stream_cases :
    (state : ClientState) (active : Option ℕ) (s : ClientSession)
    → HasStream state active
    → ((id : ℕ) × (state ≡ ClientState.publishing)
        × (active ≡ some id)
        × (publishing_stream state active s ≡ (ok id, s)))
      ⊎ ((state ≢ ClientState.publishing)
          × (publishing_stream state active s ≡ (err (session_in_invalid_state state), s)))
active_stream_cases ClientState.publishing (some id) s h = inl (id, refl, refl, refl)
active_stream_cases ClientState.publishing none s h = absurd (h refl)
active_stream_cases ClientState.disconnected active s h = inr (λ e. cc e, refl)
active_stream_cases ClientState.connected active s h = inr (λ e. cc e, refl)
active_stream_cases ClientState.play_requested active s h = inr (λ e. cc e, refl)
active_stream_cases ClientState.playing active s h = inr (λ e. cc e, refl)
active_stream_cases ClientState.publish_requested active s h = inr (λ e. cc e, refl)

module _ ⦃bo : ByteOrder⦄ ⦃env : Environment⦄ where
  -- The three publishing calls send their message on the stream.
  abbrev pub SendOn : ℕ → StreamMetadata → List ℕ → RtmpTimestamp → Bool → ClientSession → Type 0
  SendOn id metadata bytes time drop s =
      (publish_metadata metadata s
        ≡ (send (metadata_message metadata) id >>= λ packet. pure (outbound_response packet)) s)
      × (publish_video_data bytes time drop s
          ≡ (send_at time (video_data bytes) id drop >>= λ packet. pure (outbound_response packet))
              s)
      × (publish_audio_data bytes time drop s
          ≡ (send_at time (audio_data bytes) id drop >>= λ packet. pure (outbound_response packet))
              s)

  -- The three publishing calls name the state that forbids them, and change nothing.
  abbrev pub AreRefused : StreamMetadata → List ℕ → RtmpTimestamp → Bool → ClientSession → Type 0
  AreRefused metadata bytes time drop s =
      (publish_metadata metadata s ≡ (err (session_in_invalid_state s.current_state), s))
      × (publish_video_data bytes time drop s ≡ (err (session_in_invalid_state s.current_state), s))
      × (publish_audio_data bytes time drop s ≡ (err (session_in_invalid_state s.current_state), s))

  -- In every state that a client session gets to: either it publishes, and the three publishing calls
  -- send their message on the stream that it is active on; or it does not publish, and they are
  -- refused with the session's state and change nothing. That no stream is known never comes up.
  pub publish_metadata-cases :
      (metadata : StreamMetadata) (bytes : List ℕ) (time : RtmpTimestamp) (drop : Bool)
      {s : ClientSession}
      → Reach s
      → ((id : ℕ) × (s.current_state ≡ ClientState.publishing)
          × (s.active_stream_id ≡ some id)
          × SendOn id metadata bytes time drop s)
        ⊎ ((s.current_state ≢ ClientState.publishing) × AreRefused metadata bytes time drop s)
  unfolding active_publishing_stream publish_metadata publish_video_data publish_audio_data ◌>>=◌
  publish_metadata-cases metadata bytes time drop {s} r =
      elim (active_stream_cases s.current_state s.active_stream_id s (Reach-IsActive r)) [
        | inl (id, state, active, given) ↦
            inl (id, state, active, (rw given refl, rw given refl, rw given refl))
        | inr (state, refused) ↦ inr (state, (rw refused refl, rw refused refl, rw refused refl))
      ]
