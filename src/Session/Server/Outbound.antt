-- ===== src/Session/Server/Outbound.antt =====
-- What the application has sent to the client: metadata, media, pings and the end of a playback.
use rust_media_libs.Prelude.{ℕ, Bool, false, Option, none, some, List, ◌++◌}
use rust_media_libs.Text.{text}
use rust_media_libs.Bytes.{ByteOrder}
use rust_media_libs.HashMap
use rust_media_libs.Time.{RtmpTimestamp}
use rust_media_libs.Float.Defs.{of_u32, of_f32}
use rust_media_libs.Amf0.Value.{
  Value, Properties, number, boolean, utf8_string, object, nil, cons, end, insert,
}
use rust_media_libs.Message.Types.{amf0_data, audio_data, video_data, user_control, ping_request}
use rust_media_libs.Chunk.Serializer.{Packet}
use rust_media_libs.Session.Action.{pure, raise, gets, modify, ◌>>=◌, ◌>>◌, Environment}
use rust_media_libs.Session.Metadata.{StreamMetadata}
use rust_media_libs.Session.Server.Types.{
  StreamState, completed, playing, ActiveStream, action_attempted_on_inactive_stream,
}
use rust_media_libs.Session.Server.Send.{Session, create_status_object, get_epoch, send, send_at}
use rust_media_libs.Session.Server.Streams.{set_stream}
use rust_media_libs.Session.Server.Requests.{status_message}

-- `metadata.field.map(|x| properties.insert(name, value))`
abbrev pub insert_some : {A : Type 0} → List ℕ → (A → Value) → Option A → Properties → Properties
insert_some name value none properties = properties
insert_some name value (some x) properties = insert name (value x) properties

abbrev pub u32_value : ℕ → Value
u32_value x = number (of_u32 x)

abbrev pub f32_value : ℕ → Value
f32_value x = number (of_f32 x)

unfoldable pub metadata_properties : StreamMetadata → Properties
metadata_properties m =
    let p₁ = insert_some (text "width") u32_value m.video_width end in
    let p₂ = insert_some (text "height") u32_value m.video_height p₁ in
    let p₃ = insert_some (text "videocodecid") u32_value m.video_codec_id p₂ in
    let p₄ = insert_some (text "videodatarate") u32_value m.video_bitrate_kbps p₃ in
    let p₅ = insert_some (text "framerate") f32_value m.video_frame_rate p₄ in
    let p₆ = insert_some (text "audiocodecid") u32_value m.audio_codec_id p₅ in
    let p₇ = insert_some (text "audiodatarate") u32_value m.audio_bitrate_kbps p₆ in
    let p₈ = insert_some (text "audiosamplerate") u32_value m.audio_sample_rate p₇ in
    let p₉ = insert_some (text "audiochannels") u32_value m.audio_channels p₈ in
    let p₁₀ = insert_some (text "stereo") boolean m.audio_is_stereo p₉ in
    insert_some (text "encoder") utf8_string m.encoder p₁₀

-- The key of a stream that is being played.
abbrev pub key_played : StreamState → Option (List ℕ)
key_played (playing key) = some key
key_played _ = none

abbrev pub played_key : Option ActiveStream → Option (List ℕ)
played_key none = none
played_key (some stream) = key_played stream.current_state

abbrev pub complete_status : List ℕ → Properties
complete_status stream_key =
    create_status_object (text "status") (text "NetStream.Play.Complete")
      (text "Stream playback is completed for " ++ stream_key)

module _ ⦃bo : ByteOrder⦄ ⦃env : Environment⦄ where
  unfoldable pub send_metadata : ℕ → StreamMetadata → Session Packet
  send_metadata stream_id metadata =
      send
        (amf0_data (
          cons (utf8_string (text "onMetaData"))
            (cons (object (metadata_properties metadata)) nil)))
        stream_id false

  unfoldable pub send_video_data : ℕ → List ℕ → RtmpTimestamp → Bool → Session Packet
  send_video_data stream_id bytes time can_be_dropped =
      send_at time (video_data bytes) stream_id false can_be_dropped

  unfoldable pub send_audio_data : ℕ → List ℕ → RtmpTimestamp → Bool → Session Packet
  send_audio_data stream_id bytes time can_be_dropped =
      send_at time (audio_data bytes) stream_id false can_be_dropped

  unfoldable pub send_ping_request : Session (Packet × RtmpTimestamp)
  send_ping_request = do
    epoch ← get_epoch
    packet ← send_at epoch (user_control ping_request none none (some epoch)) 0 false false
    pure (packet, epoch)

  abbrev pub complete : ℕ → Option (List ℕ) → Session Packet
  complete stream_id none = raise (action_attempted_on_inactive_stream (text "complete") stream_id)
  complete stream_id (some stream_key) =
      modify (set_stream stream_id completed)
      >> send (status_message (complete_status stream_key)) stream_id false

  unfoldable pub finish_playing : ℕ → Session Packet
  finish_playing stream_id = do
    stream ← gets (λ s. HashMap.get stream_id s.active_streams)
    complete stream_id (played_key stream)
