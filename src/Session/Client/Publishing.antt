-- ===== src/Session/Client/Publishing.antt =====
-- What the application publishes: metadata, video and audio; and pings.
use rust_media_libs.Prelude.{ℕ, Bool, Option, none, some, List}
use rust_media_libs.Text.{text}
use rust_media_libs.Bytes.{ByteOrder}
use rust_media_libs.Time.{RtmpTimestamp}
use rust_media_libs.Amf0.Value.{Properties, boolean, utf8_string, object, nil, cons, end}
use rust_media_libs.Message.Types.{
  RtmpMessage, amf0_data, audio_data, video_data, user_control, ping_request,
}
use rust_media_libs.Chunk.Serializer.{Packet}
use rust_media_libs.Session.Action.{pure, raise, ◌>>=◌, Environment}
use rust_media_libs.Session.Metadata.{StreamMetadata}
use rust_media_libs.Session.Server.Outbound.{insert_some, u32_value, f32_value}
use rust_media_libs.Session.Client.Types.{
  ClientState, ClientSessionResult, outbound_response, session_in_invalid_state,
  no_known_active_stream_id_when_required,
}
use rust_media_libs.Session.Client.Send.{Session, get_epoch, send, send_at}

-- The properties in the order in which `publish_metadata` inserts them.
unfoldable pub published_properties : StreamMetadata → Properties
published_properties m =
    let p₁ = insert_some (text "width") u32_value m.video_width end in
    let p₂ = insert_some (text "height") u32_value m.video_height p₁ in
    let p₃ = insert_some (text "videocodecid") u32_value m.video_codec_id p₂ in
    let p₄ = insert_some (text "framerate") f32_value m.video_frame_rate p₃ in
    let p₅ = insert_some (text "videodatarate") u32_value m.video_bitrate_kbps p₄ in
    let p₆ = insert_some (text "audiocodecid") u32_value m.audio_codec_id p₅ in
    let p₇ = insert_some (text "audiodatarate") u32_value m.audio_bitrate_kbps p₆ in
    let p₈ = insert_some (text "audiosamplerate") u32_value m.audio_sample_rate p₇ in
    let p₉ = insert_some (text "audiochannels") u32_value m.audio_channels p₈ in
    let p₁₀ = insert_some (text "stereo") boolean m.audio_is_stereo p₉ in
    insert_some (text "encoder") utf8_string m.encoder p₁₀

abbrev pub metadata_message : StreamMetadata → RtmpMessage
metadata_message metadata = amf0_data (
    cons (utf8_string (text "@setDataFrame"))
      (cons (utf8_string (text "onMetaData")) (cons (object (published_properties metadata)) nil)))

-- The stream to publish on, if the session publishes: the guards of the three methods.
abbrev pub publishing_stream : ClientState → Option ℕ → Session ℕ
publishing_stream ClientState.publishing (some stream_id) = pure stream_id
publishing_stream ClientState.publishing none = raise no_known_active_stream_id_when_required
publishing_stream state _ = raise (session_in_invalid_state state)

unfoldable pub active_publishing_stream : Session ℕ
active_publishing_stream s = publishing_stream s.current_state s.active_stream_id s

module _ ⦃bo : ByteOrder⦄ ⦃env : Environment⦄ where
  unfoldable pub publish_metadata : StreamMetadata → Session ClientSessionResult
  publish_metadata metadata = do
    stream_id ← active_publishing_stream
    packet ← send (metadata_message metadata) stream_id
    pure (outbound_response packet)

  unfoldable pub publish_video_data : List ℕ → RtmpTimestamp → Bool → Session ClientSessionResult
  publish_video_data bytes time can_be_dropped = do
    stream_id ← active_publishing_stream
    packet ← send_at time (video_data bytes) stream_id can_be_dropped
    pure (outbound_response packet)

  unfoldable pub publish_audio_data : List ℕ → RtmpTimestamp → Bool → Session ClientSessionResult
  publish_audio_data bytes time can_be_dropped = do
    stream_id ← active_publishing_stream
    packet ← send_at time (audio_data bytes) stream_id can_be_dropped
    pure (outbound_response packet)

  -- The message carries the first reading of the clock, its header the second.
  unfoldable pub send_ping_request : Session (Packet × RtmpTimestamp)
  send_ping_request = do
    current_epoch ← get_epoch
    packet ← send (user_control ping_request none none (some current_epoch)) 0
    pure (packet, current_epoch)
