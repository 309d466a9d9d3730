-- ===== src/Session/Server/Keep/Outbound.antt =====
-- What the application sends, a rejection and the end of a playback change of the session.
use rust_media_libs.Prelude.{ℕ, Bool, true, false, Option, none, some, List, ◌≡◌, refl}
use rust_media_libs.Bytes.{ByteOrder}
use rust_media_libs.HashMap
use rust_media_libs.Time.{RtmpTimestamp}
use rust_media_libs.Session.Action.{Environment, ◌>>=◌}
use rust_media_libs.Session.Keeps.{
  Keeps, Keeps-bind, Keeps-pure, Keeps-raise, Keeps-gets, Keeps-modify,
}
use rust_media_libs.Session.Metadata.{StreamMetadata}
use rust_media_libs.Session.Server.Types.{
  StreamState, created, publishing, playing, completed, ActiveStream, OutstandingRequest,
  ServerSession, ServerSessionConfig,
}
use rust_media_libs.Session.Server.Streams.{set_stream}
use rust_media_libs.Session.Server.Requests.{found_request, take_request, reject_request}
use rust_media_libs.Session.Server.Outbound.{
  complete, key_played, played_key, send_metadata, send_video_data, send_audio_data,
  send_ping_request, finish_playing,
}
use rust_media_libs.Session.Server.Input.{send_bw_done, announce}
use rust_media_libs.Session.Server.Keep.Sends.{
  IsBlind, with_serializer-Keeps, get_epoch-Keeps, send_at-Keeps, send-Keeps,
  create_error_packet-Keeps,
}

module _ ⦃bo : ByteOrder⦄ ⦃env : Environment⦄ {R : ServerSession → ServerSession → Type 0}
    (blind : IsBlind R) where
  pub send_metadata-Keeps :
      (id : ℕ) (metadata : StreamMetadata) → Keeps R (send_metadata id metadata)
  unfolding send_metadata
  send_metadata-Keeps id metadata = send-Keeps blind _ id false

  pub send_video_data-Keeps :
      (id : ℕ) (bytes : List ℕ) (time : RtmpTimestamp) (drop : Bool)
      → Keeps R (send_video_data id bytes time drop)
  unfolding send_video_data
  send_video_data-Keeps id bytes time drop = send_at-Keeps blind time _ id false drop

  pub send_audio_data-Keeps :
      (id : ℕ) (bytes : List ℕ) (time : RtmpTimestamp) (drop : Bool)
      → Keeps R (send_audio_data id bytes time drop)
  unfolding send_audio_data
  send_audio_data-Keeps id bytes time drop = send_at-Keeps blind time _ id false drop

  pub send_ping_request-Keeps : Keeps R send_ping_request
  unfolding send_ping_request
  send_ping_request-Keeps = Keeps-bind blind.order (get_epoch-Keeps blind) λ epoch.
      Keeps-bind blind.order (send_at-Keeps blind epoch _ 0 false false) λ p. Keeps-pure blind.order

  pub announce-Keeps : (config : ServerSessionConfig) → Keeps R (announce config)
  unfolding announce send_bw_done
  announce-Keeps config =
      Keeps-bind blind.order (record { holds = λ s. (with_serializer-Keeps blind _).holds s })
        λ p₁. Keeps-bind blind.order (send-Keeps blind _ 0 true) λ p₂.
          Keeps-bind blind.order (send-Keeps blind _ 0 true) λ p₃.
            Keeps-bind blind.order (send-Keeps blind _ 0 true) λ p₄.
              Keeps-bind blind.order (bw_done config.send_on_bw_done_message_on_start)
                λ p₅. Keeps-pure blind.order
    where
      bw_done : (flag : Bool) → Keeps R (send_bw_done flag)
      bw_done false = Keeps-pure blind.order
      bw_done true = Keeps-bind blind.order (send-Keeps blind _ 0 true) λ p. Keeps-pure blind.order

  pub finish_playing-Keeps :
      (id : ℕ)
      → ((s : ServerSession) (stream : ActiveStream)
          → HashMap.get id s.active_streams ≡ some stream
          → R s (set_stream id completed s))
      → Keeps R (finish_playing id)
  unfolding finish_playing ◌>>=◌
  finish_playing-Keeps id h = record {
    holds = λ s. completed_holds s (HashMap.get id s.active_streams) refl;
  }
    where
      ended :
          (s : ServerSession) (state : StreamState)
          → R s (set_stream id completed s)
          → R s (complete id (key_played state) s).1
      ended s (playing key) r =
          blind.order.through s (set_stream id completed s) _ r
            ((send-Keeps blind _ id false).holds (set_stream id completed s))
      ended s created r = blind.order.same s
      ended s completed r = blind.order.same s
      ended s (publishing key mode) r = blind.order.same s

      completed_holds :
          (s : ServerSession) (found : Option ActiveStream)
          → HashMap.get id s.active_streams ≡ found
          → R s (complete id (played_key found) s).1
      completed_holds s none known = blind.order.same s
      completed_holds s (some stream) known = ended s stream.current_state (h s stream known)

  pub reject_request-Keeps :
      (id : ℕ) (code description : List ℕ)
      → ((s : ServerSession)
          → R s (record s { outstanding_requests = HashMap.remove id s.outstanding_requests }))
      → Keeps R (reject_request id code description)
  unfolding reject_request take_request
  reject_request-Keeps id code description dropped =
      Keeps-bind blind.order
        (Keeps-bind blind.order (Keeps-gets blind.order)
          λ request. Keeps-bind blind.order (Keeps-modify blind.order dropped) λ u. taken request)
        λ request.
          Keeps-bind blind.order (create_error_packet-Keeps blind code description _ _)
            λ p. Keeps-pure blind.order
    where
      taken : (request : Option OutstandingRequest) → Keeps R (found_request request)
      taken none = Keeps-raise blind.order
      taken (some request) = Keeps-pure blind.order
