-- ===== src/Message/Kinds.antt =====
-- The kind of message that a payload is read as, by its type id.
use rust_media_libs.Prelude.{
  ℕ, ◌≡◌, ◌≢◌, refl, Bool-cases, true, Option, none, some, List, ◌==◌, if◌then◌else◌, ok, err,
  panicked, out_of_fuel, map_err, ◌>>=◌, Outcome, inl, inr, arith,
}
use rust_media_libs.Bytes.{ByteOrder, read_int}
use rust_media_libs.Amf0.Value.{Value, Values, nil, cons, utf8_string, number}
use rust_media_libs.Amf0.Total.{deserialize-ne-out_of_fuel}
use rust_media_libs.Message.Payload.{MessagePayload}
use rust_media_libs.Message.Types.{RtmpMessage, UserControlEventType, get_message_type_id}
use rust_media_libs.Message.Deserialize.{
  Decoded, amf0_deserialization_error, or_io, limit_type_of, event_type_of, drain_three, string_of,
  number_of, skip_zero, read_event, to_rtmp_message, deserialize_amf0_data,
  deserialize_amf0_command, deserialize_set_chunk_size, deserialize_set_peer_bandwidth,
  deserialize_user_control, deserialize_audio_data, deserialize_video_data,
}
use rust_media_libs.Message.RoundTrip.{is_known}

-- The type id of the message that a payload holds: AMF3 data and commands are read as AMF0.
abbrev pub kind_of : ℕ → ℕ
kind_of type_id = if type_id == 15 then 18 else if type_id == 17 then 20 else type_id

-- A kind whose bytes can be ill formed.
abbrev pub CanRefuse : ℕ → Type 0
CanRefuse kind = (is_known kind ≡ true) × (kind ≢ 8) × (kind ≢ 9)

-- How the reading of a payload of a kind can end.
abbrev pub IsReading : ℕ → Decoded RtmpMessage → Type 0
IsReading kind (ok message) = get_message_type_id message ≡ kind
IsReading kind (err e) = CanRefuse kind
IsReading kind panicked = kind ≡ 20
IsReading kind out_of_fuel = ⊥

-- A first read that panics for a command only.
IsReading-after :
    {A : Type 0} (kind : ℕ) (r : Decoded A) (f : A → Decoded RtmpMessage)
    → CanRefuse kind
    → r ≢ out_of_fuel
    → (r ≡ panicked → kind ≡ 20)
    → ((a : A) → IsReading kind (f a))
    → IsReading kind (r >>= f)
IsReading-after kind (ok a) f refuses ends crash h = h a
IsReading-after kind (err e) f refuses ends crash h = refuses
IsReading-after kind panicked f refuses ends crash h = crash refl
IsReading-after kind out_of_fuel f refuses ends crash h = absurd (ends refl)

IsReading-after_io :
    {A : Type 0} (kind : ℕ) (o : Option A) (f : A → Decoded RtmpMessage)
    → CanRefuse kind
    → ((a : A) → IsReading kind (f a))
    → IsReading kind (or_io o >>= f)
IsReading-after_io kind none f refuses h = refuses
IsReading-after_io kind (some a) f refuses h = h a

-- The arm of a type id.
IsReading-at :
    (id n : ℕ) (x y : Decoded RtmpMessage)
    → IsReading (kind_of n) x
    → (id ≢ n → IsReading (kind_of id) y)
    → IsReading (kind_of id) (if id == n then x else y)
IsReading-at id n x y here there = elim (Bool-cases (id == n)) [
  | inl e ↦ let same : id ≡ n = ground (arith, e) in rw (e, same) here
  | inr e ↦ rw e (there (ground (arith, e)))
]

string_of-ends : (v : Value) → (string_of v ≢ out_of_fuel) × (string_of v ≢ panicked)
string_of-ends (utf8_string s) = ((λ p. cc), λ p. cc)
string_of-ends _ = ((λ p. cc), λ p. cc)

number_of-ends : (v : Value) → (number_of v ≢ out_of_fuel) × (number_of v ≢ panicked)
number_of-ends (number n) = ((λ p. cc), λ p. cc)
number_of-ends _ = ((λ p. cc), λ p. cc)

drain_three-ne-out_of_fuel : (vs : Values) → drain_three vs ≢ out_of_fuel
drain_three-ne-out_of_fuel nil = λ p. cc
drain_three-ne-out_of_fuel (cons a nil) = λ p. cc
drain_three-ne-out_of_fuel (cons a (cons b nil)) = λ p. cc
drain_three-ne-out_of_fuel (cons a (cons b (cons c vs))) = λ p. cc

map_err-ends :
    {E F : Type 0} {A : Type 0} (f : E → F) (m : Outcome E A)
    → (m ≢ out_of_fuel) × (m ≢ panicked)
    → (map_err f m ≢ out_of_fuel) × (map_err f m ≢ panicked)
map_err-ends f (ok a) h = ((λ p. cc), λ p. cc)
map_err-ends f (err e) h = ((λ p. cc), λ p. cc)
map_err-ends f panicked h = absurd (h.1 refl)
map_err-ends f out_of_fuel h = absurd (h.0 refl)

limit_type_of-ends : (id : ℕ) → (limit_type_of id ≢ out_of_fuel) × (limit_type_of id ≢ panicked)
limit_type_of-ends id = (ground arith, ground arith)

event_type_of-ends : (id : ℕ) → (event_type_of id ≢ out_of_fuel) × (event_type_of id ≢ panicked)
event_type_of-ends id = (ground arith, ground arith)

size-CanRefuse : CanRefuse 1
size-CanRefuse = (refl, omega arith, omega arith)

control-CanRefuse : CanRefuse 4
control-CanRefuse = (refl, omega arith, omega arith)

bandwidth-CanRefuse : CanRefuse 6
bandwidth-CanRefuse = (refl, omega arith, omega arith)

command-CanRefuse : CanRefuse 20
command-CanRefuse = (refl, omega arith, omega arith)

module _ ⦃bo : ByteOrder⦄ where
  read_command : (bytes : List ℕ) → IsReading 20 (deserialize_amf0_command bytes)
  unfolding deserialize_amf0_command get_message_type_id
  read_command bytes =
      let (ends, calm) =
        map_err-ends amf0_deserialization_error _ (deserialize-ne-out_of_fuel bytes) in
      IsReading-after 20 _ _ command-CanRefuse ends (λ p. refl)
        λ values.
          IsReading-after 20 _ _ command-CanRefuse (drain_three-ne-out_of_fuel values) (λ p. refl)
            λ (first, second, third, rest).
              IsReading-after 20 _ _ command-CanRefuse (string_of-ends first).0 (λ p. refl)
                λ name.
                  IsReading-after 20 _ _ command-CanRefuse (number_of-ends second).0 (λ p. refl)
                    λ id. refl

  read_data : (bytes : List ℕ) → IsReading 18 (deserialize_amf0_data bytes)
  unfolding deserialize_amf0_data get_message_type_id
  read_data bytes =
      let (ends, calm) =
        map_err-ends amf0_deserialization_error _ (deserialize-ne-out_of_fuel bytes) in
      IsReading-after 18 _ _ (refl, omega arith, omega arith) ends (λ p. absurd (calm p))
        λ values. refl

  read_event_fields :
      (event : UserControlEventType) (bytes : List ℕ) → IsReading 4 (read_event event bytes)
  unfolding read_event get_message_type_id
  read_event_fields UserControlEventType.set_buffer_length bytes = ground (arith, control-CanRefuse)
  read_event_fields _ bytes = ground (arith, control-CanRefuse)

  read_control : (bytes : List ℕ) → IsReading 4 (deserialize_user_control bytes)
  unfolding deserialize_user_control get_message_type_id
  read_control bytes =
      IsReading-after_io 4 (read_int bo.u16_be bytes) _ control-CanRefuse λ (id, rest).
        IsReading-after 4 _ _ control-CanRefuse (event_type_of-ends id).0
          (λ p. absurd ((event_type_of-ends id).1 p))
          λ event_type. read_event_fields event_type rest

  read_size : (bytes : List ℕ) → IsReading 1 (deserialize_set_chunk_size bytes)
  unfolding deserialize_set_chunk_size get_message_type_id
  read_size bytes = ground (arith, size-CanRefuse)

  read_bandwidth : (bytes : List ℕ) → IsReading 6 (deserialize_set_peer_bandwidth bytes)
  unfolding deserialize_set_peer_bandwidth get_message_type_id
  read_bandwidth bytes = ground (arith, bandwidth-CanRefuse)

  -- Whatever its bytes, a payload is read as a message of the kind that its type id stands for, or it is
  -- refused, or the reader panics. It is not refused if it is audio, video or of an unknown type,
  -- and the reader panics for commands only.
  pub to_rtmp_message-IsReading :
      (payload : MessagePayload) → IsReading (kind_of payload.type_id) (to_rtmp_message payload)
  unfolding to_rtmp_message get_message_type_id deserialize_audio_data deserialize_video_data
  to_rtmp_message-IsReading payload =
      let id = payload.type_id in
      IsReading-at id 1 _ _ (read_size payload.bytes) λ n₁.
        IsReading-at id 2 _ _
          (IsReading-after_io 2 (read_int bo.u32_be payload.bytes) _
            (refl, omega arith, omega arith) λ (n, rest). refl)
          λ n₂.
            IsReading-at id 3 _ _
              (IsReading-after_io 3 (read_int bo.u32_be payload.bytes) _
                (refl, omega arith, omega arith) λ (n, rest). refl)
              λ n₃. IsReading-at id 4 _ _ (read_control payload.bytes) λ n₄.
                IsReading-at id 5 _ _
                  (IsReading-after_io 5 (read_int bo.u32_be payload.bytes) _
                    (refl, omega arith, omega arith) λ (n, rest). refl)
                  λ n₅. IsReading-at id 6 _ _ (read_bandwidth payload.bytes) λ n₆.
                    IsReading-at id 8 _ _ refl λ n₈. IsReading-at id 9 _ _ refl λ n₉.
                      IsReading-at id 18 _ _ (read_data payload.bytes) λ n₁₈.
                        IsReading-at id 20 _ _ (read_command payload.bytes) λ n₂₀.
                          IsReading-at id 15 _ _ (read_data payload.bytes) λ n₁₅.
                            IsReading-at id 17 _ _ (read_command (skip_zero payload.bytes))
                              λ n₁₇. ground arith
