-- ===== src/Session/Metadata.antt =====
-- rtmp/src/sessions/mod.rs: the metadata of a stream.
use rust_media_libs.Prelude.{ℕ, Bool, Option, none, some, List, bytes_eq, if◌then◌else◌}
use rust_media_libs.Text.{text}
use rust_media_libs.Float.Defs.{to_u32, to_f32}
use rust_media_libs.Amf0.Value.{
  Value, Properties, end, property, get_number, get_boolean, get_string,
}

pub record StreamMetadata : Type 0 where
  pub video_width : Option ℕ
  pub video_height : Option ℕ
  pub video_codec_id : Option ℕ
  pub video_frame_rate : Option ℕ
  pub video_bitrate_kbps : Option ℕ
  pub audio_codec_id : Option ℕ
  pub audio_bitrate_kbps : Option ℕ
  pub audio_sample_rate : Option ℕ
  pub audio_channels : Option ℕ
  pub audio_is_stereo : Option Bool
  pub encoder : Option (List ℕ)

-- `StreamMetadata::new`.
abbrev pub new_metadata : StreamMetadata
new_metadata = record {
  video_width = none;
  video_height = none;
  video_codec_id = none;
  video_frame_rate = none;
  video_bitrate_kbps = none;
  audio_codec_id = none;
  audio_bitrate_kbps = none;
  audio_sample_rate = none;
  audio_channels = none;
  audio_is_stereo = none;
  encoder = none;
}

-- An arm `match value.get_…() { Some(x) => self.… = Some(x), None => () }`.
abbrev pub set_field :
    {A : Type 0} → Option A → (A → StreamMetadata) → StreamMetadata → StreamMetadata
set_field none set m = m
set_field (some x) set m = set x

-- The `match` on the name of one property.
unfoldable pub apply_value : List ℕ → Value → StreamMetadata → StreamMetadata
apply_value key value m =
    if bytes_eq key (text "width")
    then set_field (get_number value) (λ x. record m { video_width = some (to_u32 x) }) m
    else if bytes_eq key (text "height")
    then set_field (get_number value) (λ x. record m { video_height = some (to_u32 x) }) m
    else if bytes_eq key (text "videocodecid")
    then set_field (get_number value) (λ x. record m { video_codec_id = some (to_u32 x) }) m
    else if bytes_eq key (text "videodatarate")
    then set_field (get_number value) (λ x. record m { video_bitrate_kbps = some (to_u32 x) }) m
    else if bytes_eq key (text "framerate")
    then set_field (get_number value) (λ x. record m { video_frame_rate = some (to_f32 x) }) m
    else if bytes_eq key (text "audiocodecid")
    then set_field (get_number value) (λ x. record m { audio_codec_id = some (to_u32 x) }) m
    else if bytes_eq key (text "audiodatarate")
    then set_field (get_number value) (λ x. record m { audio_bitrate_kbps = some (to_u32 x) }) m
    else if bytes_eq key (text "audiosamplerate")
    then set_field (get_number value) (λ x. record m { audio_sample_rate = some (to_u32 x) }) m
    else if bytes_eq key (text "audiochannels")
    then set_field (get_number value) (λ x. record m { audio_channels = some (to_u32 x) }) m
    else if bytes_eq key (text "stereo")
    then set_field (get_boolean value) (λ x. record m { audio_is_stereo = some x }) m
    else if bytes_eq key (text "encoder")
    then set_field (get_string value) (λ x. record m { encoder = some x }) m
    else m

-- `apply_metadata_values`: the loop over the entries.
unfoldable pub apply_metadata_values : Properties → StreamMetadata → StreamMetadata
unfolding apply_value
apply_metadata_values end m = m
apply_metadata_values (property key value rest) m =
    apply_metadata_values rest (apply_value key value m)
