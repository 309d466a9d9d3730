-- ===== src/Session/Client/Keep/Requests.antt =====
-- What the application's calls change.
use rust_media_libs.Prelude.{ℕ, Bool, Option, none, some, List}
use rust_media_libs.Bytes.{ByteOrder}
use rust_media_libs.Time.{RtmpTimestamp}
use rust_media_libs.Session.Action.{Environment}
use rust_media_libs.Session.Keeps.{
  Keeps, Keeps-bind, Keeps-pure, Keeps-raise, Keeps-gets, Keeps-modify, Keeps-checked_add,
}
use rust_media_libs.Session.Metadata.{StreamMetadata}
use rust_media_libs.Session.Client.Types.{
  ClientState, PublishRequestType, TransactionPurpose, play_request, publish_request,
  OutstandingTransaction, ClientSession,
}
use rust_media_libs.Session.Client.Requests.{
  get_next_transaction_id, keep_transaction, connect_from, request_connection, create_from,
  request_playback, request_publishing, delete_active, stop, stop_playback_from, stop_playback,
  stop_publishing_from, stop_publishing,
}
use rust_media_libs.Session.Client.Publishing.{
  publishing_stream, active_publishing_stream, publish_metadata, publish_video_data,
  publish_audio_data, send_ping_request,
}
use rust_media_libs.Session.Client.Keep.Sends.{Allows, get_epoch-Keeps, send_at-Keeps, send-Keeps}

module _ {R : ClientSession → ClientSession → Type 0} (allows : Allows R) where
  keep_transaction-Keeps :
      (transaction : OutstandingTransaction) → Keeps R (keep_transaction transaction)
  unfolding keep_transaction get_next_transaction_id
  keep_transaction-Keeps transaction =
      let order = allows.order in
      Keeps-bind order
        (Keeps-bind order (Keeps-gets order) λ id.
          Keeps-bind order (Keeps-checked_add order 32 id 1) λ next.
            Keeps-bind order (Keeps-modify order λ s. allows.counted s next) λ u. Keeps-pure order)
        λ id.
          Keeps-bind order (Keeps-modify order λ s. allows.transactions s _) λ u. Keeps-pure order

  publishing_stream-Keeps :
      (state : ClientState) (active : Option ℕ) → Keeps R (publishing_stream state active)
  publishing_stream-Keeps ClientState.publishing (some id) = Keeps-pure allows.order
  publishing_stream-Keeps ClientState.publishing none = Keeps-raise allows.order
  publishing_stream-Keeps ClientState.disconnected active = Keeps-raise allows.order
  publishing_stream-Keeps ClientState.connected active = Keeps-raise allows.order
  publishing_stream-Keeps ClientState.play_requested active = Keeps-raise allows.order
  publishing_stream-Keeps ClientState.playing active = Keeps-raise allows.order
  publishing_stream-Keeps ClientState.publish_requested active = Keeps-raise allows.order

  active_publishing_stream-Keeps : Keeps R active_publishing_stream
  unfolding active_publishing_stream
  active_publishing_stream-Keeps = record {
    holds = λ s. (publishing_stream-Keeps s.current_state s.active_stream_id).holds s;
  }

module _ ⦃bo : ByteOrder⦄ ⦃env : Environment⦄ {R : ClientSession → ClientSession → Type 0}
    (allows : Allows R) where
  connect_from-Keeps :
      (app_name : List ℕ) (state : ClientState) → Keeps R (connect_from app_name state)
  unfolding connect_from
  connect_from-Keeps app_name ClientState.disconnected =
      Keeps-bind allows.order (keep_transaction-Keeps allows _) λ id.
        Keeps-bind allows.order (Keeps-gets allows.order) λ message.
          Keeps-bind allows.order (send-Keeps allows message 0) λ p. Keeps-pure allows.order
  connect_from-Keeps app_name _ = Keeps-raise allows.order

  pub request_connection-Keeps : (app_name : List ℕ) → Keeps R (request_connection app_name)
  unfolding request_connection
  request_connection-Keeps app_name =
      Keeps-bind allows.order (Keeps-gets allows.order) (connect_from-Keeps app_name)

  create_from-Keeps :
      (purpose : TransactionPurpose) (state : ClientState) → Keeps R (create_from purpose state)
  unfolding create_from
  create_from-Keeps purpose ClientState.connected =
      Keeps-bind allows.order (keep_transaction-Keeps allows _)
        λ id. Keeps-bind allows.order (send-Keeps allows _ 0) λ p. Keeps-pure allows.order
  create_from-Keeps purpose _ = Keeps-raise allows.order

  pub request_playback-Keeps : (stream_key : List ℕ) → Keeps R (request_playback stream_key)
  unfolding request_playback
  request_playback-Keeps stream_key =
      Keeps-bind allows.order (Keeps-gets allows.order)
        (create_from-Keeps (play_request stream_key))

  pub request_publishing-Keeps :
      (stream_key : List ℕ) (publish_type : PublishRequestType)
      → Keeps R (request_publishing stream_key publish_type)
  unfolding request_publishing
  request_publishing-Keeps stream_key publish_type =
      Keeps-bind allows.order (Keeps-gets allows.order)
        (create_from-Keeps (publish_request stream_key publish_type))

  delete_active-Keeps : (active : Option ℕ) → Keeps R (delete_active active)
  unfolding delete_active
  delete_active-Keeps none = Keeps-pure allows.order
  delete_active-Keeps (some id) =
      Keeps-bind allows.order (send-Keeps allows _ id) λ p. Keeps-pure allows.order

  stop-Keeps : Keeps R stop
  unfolding stop
  stop-Keeps = Keeps-bind allows.order (Keeps-gets allows.order) λ active.
      Keeps-bind allows.order (Keeps-modify allows.order allows.stopped)
        λ u. delete_active-Keeps active

  stop_playback_from-Keeps : (state : ClientState) → Keeps R (stop_playback_from state)
  unfolding stop_playback_from
  stop_playback_from-Keeps ClientState.playing = stop-Keeps
  stop_playback_from-Keeps ClientState.play_requested = stop-Keeps
  stop_playback_from-Keeps _ = Keeps-pure allows.order

  pub stop_playback-Keeps : Keeps R stop_playback
  unfolding stop_playback
  stop_playback-Keeps = Keeps-bind allows.order (Keeps-gets allows.order) stop_playback_from-Keeps

  stop_publishing_from-Keeps : (state : ClientState) → Keeps R (stop_publishing_from state)
  unfolding stop_publishing_from
  stop_publishing_from-Keeps ClientState.publishing = stop-Keeps
  stop_publishing_from-Keeps ClientState.publish_requested = stop-Keeps
  stop_publishing_from-Keeps _ = Keeps-pure allows.order

  pub stop_publishing-Keeps : Keeps R stop_publishing
  unfolding stop_publishing
  stop_publishing-Keeps =
      Keeps-bind allows.order (Keeps-gets allows.order) stop_publishing_from-Keeps

  pub publish_metadata-Keeps : (metadata : StreamMetadata) → Keeps R (publish_metadata metadata)
  unfolding publish_metadata
  publish_metadata-Keeps metadata =
      Keeps-bind allows.order (active_publishing_stream-Keeps allows)
        λ id. Keeps-bind allows.order (send-Keeps allows _ id) λ p. Keeps-pure allows.order

  pub publish_video_data-Keeps :
      (bytes : List ℕ) (time : RtmpTimestamp) (drop : Bool)
      → Keeps R (publish_video_data bytes time drop)
  unfolding publish_video_data
  publish_video_data-Keeps bytes time drop =
      Keeps-bind allows.order (active_publishing_stream-Keeps allows) λ id.
        Keeps-bind allows.order (send_at-Keeps allows time _ id drop) λ p. Keeps-pure allows.order

  pub publish_audio_data-Keeps :
      (bytes : List ℕ) (time : RtmpTimestamp) (drop : Bool)
      → Keeps R (publish_audio_data bytes time drop)
  unfolding publish_audio_data
  publish_audio_data-Keeps bytes time drop =
      Keeps-bind allows.order (active_publishing_stream-Keeps allows) λ id.
        Keeps-bind allows.order (send_at-Keeps allows time _ id drop) λ p. Keeps-pure allows.order

  pub send_ping_request-Keeps : Keeps R send_ping_request
  unfolding send_ping_request
  send_ping_request-Keeps =
      Keeps-bind allows.order (get_epoch-Keeps allows)
        λ epoch. Keeps-bind allows.order (send-Keeps allows _ 0) λ p. Keeps-pure allows.order
