-- ===== src/Message/RoundTrip.antt =====
-- Every message that a program can hold and that the protocol can express survives its payload.
use rust_media_libs.Prelude.{
  ℕ, ◌^◌, ◌<◌, ◌≤◌, ◌≡◌, refl, sym, ap, ◌∙◌, Bool, false, ◌||◌, ◌&&◌, Option, none, some, List, [],
  ◌∷◌, ◌++◌, append-nil, leb, le→ltb_false, ◌==◌, ok, arith,
}
use rust_media_libs.Bytes.{ByteOrder, IntCodec, IsU32, read_int, read_int-encode}
use rust_media_libs.Time.{RtmpTimestamp}
use rust_media_libs.Amf0.Value.{utf8_string, number, cons}
use rust_media_libs.Amf0.Format.{AreEncodable}
use rust_media_libs.Amf0.RoundTrip.{deserialize-serialize}
use rust_media_libs.Message.Payload.{MessagePayload}
use rust_media_libs.Message.Types.{
  PeerBandwidthLimitType, hard, soft, dynamic, UserControlEventType, stream_begin, stream_eof,
  stream_dry, set_buffer_length, stream_is_recorded, ping_request, ping_response, buffer_empty,
  buffer_ready, RtmpMessage, unknown, abort, acknowledgement, amf0_command, amf0_data, audio_data,
  set_chunk_size, set_peer_bandwidth, user_control, video_data, window_acknowledgement,
  get_message_type_id,
}
use rust_media_libs.Message.Serialize.{
  max_size, message_bytes, from_rtmp_message, serialize_user_control, limit_type_id,
}
use rust_media_libs.Message.Deserialize.{
  to_rtmp_message, deserialize_user_control, event_type_of, read_event, read_stream_event,
  read_timestamp_event, deserialize_set_peer_bandwidth,
}

-- The type ids that have a meaning.
abbrev pub is_known : ℕ → Bool
is_known type_id =
    (leb 1 type_id && leb type_id 6)
    || type_id == 8
    || type_id == 9
    || type_id == 15
    || type_id == 17
    || type_id == 18
    || type_id == 20

abbrev pub HasStream : Option ℕ → Option ℕ → Option RtmpTimestamp → Type 0
HasStream (some id) none none = IsU32 id
HasStream _ _ _ = ⊥

abbrev pub HasTime : Option ℕ → Option ℕ → Option RtmpTimestamp → Type 0
HasTime none none (some time) = IsU32 time.value
HasTime _ _ _ = ⊥

abbrev pub HasLength : Option ℕ → Option ℕ → Option RtmpTimestamp → Type 0
HasLength (some id) (some length) none = IsU32 id × IsU32 length
HasLength _ _ _ = ⊥

-- An event has the fields that are written for it, and no other.
abbrev pub HasFields : UserControlEventType → Option ℕ → Option ℕ → Option RtmpTimestamp → Type 0
HasFields set_buffer_length id length time = HasLength id length time
HasFields ping_request id length time = HasTime id length time
HasFields ping_response id length time = HasTime id length time
HasFields _ id length time = HasStream id length time

-- A message whose fields fit their widths and say nothing that its encoding drops.
abbrev pub IsExpressible : RtmpMessage → Type 0
IsExpressible (unknown type_id bytes) = is_known type_id ≡ false
IsExpressible (abort id) = IsU32 id
IsExpressible (acknowledgement n) = IsU32 n
IsExpressible (amf0_command name id command_object arguments) =
    AreEncodable (cons (utf8_string name) (cons (number id) (cons command_object arguments)))
IsExpressible (amf0_data values) = AreEncodable values
IsExpressible (audio_data bytes) = Unit
IsExpressible (set_chunk_size size) = size ≤ max_size
IsExpressible (set_peer_bandwidth size limit_type) = IsU32 size
IsExpressible (user_control event id length time) = HasFields event id length time
IsExpressible (video_data bytes) = Unit
IsExpressible (window_acknowledgement size) = IsU32 size

pub read_int-encode_all :
    {size : ℕ} (c : IntCodec size) (n : ℕ) → n < 256 ^ size → read_int c (c.encode n) ≡ some (n, [])
read_int-encode_all c n h =
    ap (read_int c) (sym (append-nil (c.encode n))) ∙ read_int-encode c n [] h

module _ ⦃bo : ByteOrder⦄ where
  read_stream :
      (event : UserControlEventType) (code id : ℕ)
      → code < 2 ^ 16
      → IsU32 id
      → event_type_of code ≡ ok event
      → ((bytes : List ℕ) → read_event event bytes ≡ read_stream_event event bytes)
      → deserialize_user_control (bo.u16_be.encode code ++ bo.u32_be.encode id)
        ≡ ok (user_control event (some id) none none)
  unfolding deserialize_user_control
  read_stream event code id small h coded arm = rw (
    read_int-encode bo.u16_be code (bo.u32_be.encode id) small,
    coded,
    arm,
    read_int-encode_all bo.u32_be id h,
  )

  read_time :
      (event : UserControlEventType) (code : ℕ) (time : RtmpTimestamp)
      → code < 2 ^ 16
      → IsU32 time.value
      → event_type_of code ≡ ok event
      → ((bytes : List ℕ) → read_event event bytes ≡ read_timestamp_event event bytes)
      → deserialize_user_control (bo.u16_be.encode code ++ bo.u32_be.encode time.value)
        ≡ ok (user_control event none none (some time))
  unfolding deserialize_user_control
  read_time event code time small h coded arm = rw (
    read_int-encode bo.u16_be code (bo.u32_be.encode time.value) small,
    coded,
    arm,
    read_int-encode_all bo.u32_be time.value h,
  )

  read_length :
      (id length : ℕ)
      → IsU32 id
      → IsU32 length
      → deserialize_user_control
          (bo.u16_be.encode 3 ++ (bo.u32_be.encode id ++ bo.u32_be.encode length))
        ≡ ok (user_control set_buffer_length (some id) (some length) none)
  unfolding deserialize_user_control
  read_length id length h k = rw (
    read_int-encode bo.u16_be 3 (bo.u32_be.encode id ++ bo.u32_be.encode length) (omega arith),
    read_int-encode bo.u32_be id (bo.u32_be.encode length) h,
    read_int-encode_all bo.u32_be length k,
  )

  limit_survives :
      (size : ℕ) (limit_type : PeerBandwidthLimitType)
      → IsU32 size
      → deserialize_set_peer_bandwidth (bo.u32_be.encode size ++ (limit_type_id limit_type ∷ []))
        ≡ ok (set_peer_bandwidth size limit_type)
  unfolding deserialize_set_peer_bandwidth
  limit_survives size hard h = rw (read_int-encode bo.u32_be size (0 ∷ []) h)
  limit_survives size soft h = rw (read_int-encode bo.u32_be size (1 ∷ []) h)
  limit_survives size dynamic h = rw (read_int-encode bo.u32_be size (2 ∷ []) h)

module _ ⦃bo : ByteOrder⦄ (debug_assertions : Bool) where
  -- The bytes of a message, and what they are read as under its type id.
  abbrev Survives : RtmpMessage → Type 0
  Survives message =
      (bytes : List ℕ) × (message_bytes debug_assertions message ≡ ok bytes)
      × ((time : RtmpTimestamp) (stream_id : ℕ)
          → to_rtmp_message (record {
            timestamp = time;
            type_id = get_message_type_id message;
            message_stream_id = stream_id;
            bytes = bytes;
          })
            ≡ ok message)

  event_survives :
      (event : UserControlEventType) (id length : Option ℕ) (time : Option RtmpTimestamp)
      → HasFields event id length time
      → (bytes : List ℕ) × (serialize_user_control debug_assertions event id length time ≡ ok bytes)
        × (deserialize_user_control bytes ≡ ok (user_control event id length time))
  unfolding serialize_user_control read_event
  event_survives stream_begin (some id) none none h =
      (_, refl, read_stream stream_begin 0 id (omega arith) h refl (λ b. refl))
  event_survives stream_eof (some id) none none h =
      (_, refl, read_stream stream_eof 1 id (omega arith) h refl (λ b. refl))
  event_survives stream_dry (some id) none none h =
      (_, refl, read_stream stream_dry 2 id (omega arith) h refl (λ b. refl))
  event_survives set_buffer_length (some id) (some length) none h =
      (_, refl, read_length id length h.0 h.1)
  event_survives stream_is_recorded (some id) none none h =
      (_, refl, read_stream stream_is_recorded 4 id (omega arith) h refl (λ b. refl))
  event_survives ping_request none none (some time) h =
      (_, refl, read_time ping_request 6 time (omega arith) h refl (λ b. refl))
  event_survives ping_response none none (some time) h =
      (_, refl, read_time ping_response 7 time (omega arith) h refl (λ b. refl))
  event_survives buffer_empty (some id) none none h =
      (_, refl, read_stream buffer_empty 31 id (omega arith) h refl (λ b. refl))
  event_survives buffer_ready (some id) none none h =
      (_, refl, read_stream buffer_ready 32 id (omega arith) h refl (λ b. refl))
  event_survives _ _ _ _ h = absurd h

  survives : (message : RtmpMessage) → IsExpressible message → Survives message
  unfolding message_bytes to_rtmp_message get_message_type_id
  survives (unknown type_id bytes) h = (bytes, refl, λ time stream_id. ground (arith, h))
  survives (abort id) h =
      (bo.u32_be.encode id, refl, λ time stream_id. rw (read_int-encode_all bo.u32_be id h))
  survives (acknowledgement n) h =
      (bo.u32_be.encode n, refl, λ time stream_id. rw (read_int-encode_all bo.u32_be n h))
  survives (amf0_command name id command_object arguments) h =
      let (bytes, written, read) =
        deserialize-serialize
          (cons (utf8_string name) (cons (number id) (cons command_object arguments))) h in
      (bytes, rw written, λ time stream_id. rw read)
  survives (amf0_data values) h =
      let (bytes, written, read) = deserialize-serialize values h in
      (bytes, rw written, λ time stream_id. rw read)
  survives (audio_data bytes) h = (bytes, refl, λ time stream_id. refl)
  survives (set_chunk_size size) h =
      let small = le→ltb_false max_size size h in
      (
        bo.u32_be.encode size,
        rw small,
        λ time stream_id. rw (read_int-encode_all bo.u32_be size (omega (arith, h)), small),
      )
  survives (set_peer_bandwidth size limit_type) h =
      (_, refl, λ time stream_id. limit_survives size limit_type h)
  survives (user_control event id length time) h =
      let (bytes, written, read) = event_survives event id length time h in
      (bytes, written, λ time stream_id. read)
  survives (video_data bytes) h = (bytes, refl, λ time stream_id. refl)
  survives (window_acknowledgement size) h =
      (bo.u32_be.encode size, refl, λ time stream_id. rw (read_int-encode_all bo.u32_be size h))

  -- A message whose fields fit their widths and the protocol becomes a payload with its type id and
  -- the given timestamp and stream id, and that payload is read as the same message, with debug
  -- assertions and without.
  pub to_rtmp_message-from_rtmp_message :
      (message : RtmpMessage) (time : RtmpTimestamp) (stream_id : ℕ)
      → IsExpressible message
      → (payload : MessagePayload) × (from_rtmp_message debug_assertions message time stream_id
          ≡ ok payload)
        × (payload.type_id ≡ get_message_type_id message)
        × (payload.timestamp ≡ time)
        × (payload.message_stream_id ≡ stream_id)
        × (to_rtmp_message payload ≡ ok message)
  unfolding from_rtmp_message
  to_rtmp_message-from_rtmp_message message time stream_id h =
      let (bytes, written, read) = survives message h in
      (_, rw written, refl, refl, refl, read time stream_id)
