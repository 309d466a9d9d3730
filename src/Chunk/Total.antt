-- ===== src/Chunk/Total.antt =====
-- The loop of `ChunkDeserializer::get_next_message` ends on every input.
use rust_media_libs.Prelude.{
  ℕ, zero, suc, ◌+◌, ◌*◌, ◌<◌, ◌≤◌, ◌≡◌, ◌≢◌, refl, Option, none, some, List, [], ◌∷◌, ◌++◌, length,
  length-drop, arith, ok, err, panicked, out_of_fuel, ◌>>=◌, if◌then◌else◌,
}
use rust_media_libs.Bytes.{ByteOrder, read_int-length}
use rust_media_libs.Message.Payload.{MessagePayload}
use rust_media_libs.Chunk.Header.{full, ChunkHeaderFormat}
use rust_media_libs.Chunk.Deserializer.{
  ChunkDeserializer, ParseStage, StageOutcome, csid, initial_timestamp, message_length,
  message_type_id, message_stream_id, message_payload, extended_timestamp, success,
  not_enough_bytes, is_finished, form_header, take_header, get_csid, get_initial_timestamp,
  repeat_delta, set_timestamp, get_message_length, get_message_type_id, get_message_stream_id,
  get_extended_timestamp, get_message_data, complete_message, step, run, get_next_message,
}

-- The stages that are left in a chunk.
abbrev rank : ParseStage → ℕ
rank csid = 0
rank initial_timestamp = 6
rank message_length = 5
rank message_type_id = 4
rank message_stream_id = 3
rank extended_timestamp = 2
rank message_payload = 1

abbrev measure : ChunkDeserializer → ℕ
measure d = 7 * length d.buffer + rank d.current_stage

-- A stage that succeeds makes the measure fall.
abbrev Falls : ChunkDeserializer → StageOutcome → Type 0
Falls d (ok (success, m, d')) = measure d' < measure d
Falls d out_of_fuel = ⊥
Falls d _ = Unit

get_csid-length :
    (bytes : List ℕ) (x : ℕ × ℕ) → get_csid bytes ≡ some x → (0 < x.1) × (x.1 ≤ length bytes)
unfolding get_csid
get_csid-length [] x e = cc
get_csid-length (a ∷ []) x e = ground arith
get_csid-length (a ∷ b ∷ []) x e = ground arith
get_csid-length (a ∷ b ∷ c ∷ rest) x e = ground arith

Falls-of :
    (d : ChunkDeserializer) (r : StageOutcome)
    → ((m : Option MessagePayload) (d' : ChunkDeserializer)
        → r ≡ ok (success, m, d')
        → measure d' < measure d)
    → r ≢ out_of_fuel
    → Falls d r
Falls-of d (ok (success, m, d')) h n = h m d' refl
Falls-of d (ok (not_enough_bytes, m, d')) h n = tt
Falls-of d (err e) h n = tt
Falls-of d panicked h n = tt
Falls-of d out_of_fuel h n = n refl

take_header_keeps :
    (format : ChunkHeaderFormat) (id : ℕ) (d d' : ChunkDeserializer)
    → take_header format id d ≡ ok d'
    → d'.buffer ≡ d.buffer
unfolding take_header
take_header_keeps full id d d' h = ground arith
take_header_keeps _ id d d' h = ground arith

take_header-ne-out_of_fuel :
    (format : ChunkHeaderFormat) (id : ℕ) (d : ChunkDeserializer)
    → take_header format id d ≢ out_of_fuel
unfolding take_header
take_header-ne-out_of_fuel full id d = ground arith
take_header-ne-out_of_fuel _ id d = ground arith

-- The basic header is a byte at least.
form_header-Falls : (d : ChunkDeserializer) → d.current_stage ≡ csid → Falls d (form_header d)
unfolding form_header
form_header-Falls d e =
    Falls-of d _ (λ m d' h. grind (arith, take_header_keeps, get_csid-length, length-drop))
      (grind (arith, take_header-ne-out_of_fuel))

module _ ⦃bo : ByteOrder⦄ (d : ChunkDeserializer) where
  get_message_length-Falls : d.current_stage ≡ message_length → Falls d (get_message_length d)
  unfolding get_message_length
  get_message_length-Falls e =
      Falls-of d _ (λ m d' h. grind (arith, read_int-length (bo.u24_be) d.buffer)) (ground arith)

  get_initial_timestamp-Falls :
      d.current_stage ≡ initial_timestamp → Falls d (get_initial_timestamp d)
  unfolding get_initial_timestamp repeat_delta set_timestamp
  get_initial_timestamp-Falls e =
      Falls-of d _ (λ m d' h. grind (arith, read_int-length (bo.u24_be) d.buffer)) (ground arith)

  get_message_type_id-Falls : d.current_stage ≡ message_type_id → Falls d (get_message_type_id d)
  unfolding get_message_type_id
  get_message_type_id-Falls e = Falls-of d _ (λ m d' h. ground arith) (ground arith)

  get_message_stream_id-Falls :
      d.current_stage ≡ message_stream_id → Falls d (get_message_stream_id d)
  unfolding get_message_stream_id
  get_message_stream_id-Falls e =
      Falls-of d _ (λ m d' h. grind (arith, read_int-length (bo.u32_le) d.buffer)) (ground arith)

  get_extended_timestamp-Falls :
      d.current_stage ≡ extended_timestamp → Falls d (get_extended_timestamp d)
  unfolding get_extended_timestamp
  get_extended_timestamp-Falls e =
      Falls-of d _ (λ m d' h. grind (arith, read_int-length (bo.u32_be) d.buffer)) (ground arith)

  get_message_data-Falls : d.current_stage ≡ message_payload → Falls d (get_message_data d)
  unfolding get_message_data complete_message
  get_message_data-Falls e = Falls-of d _ (λ m d' h. grind (arith, length-drop)) (ground arith)

module _ ⦃bo : ByteOrder⦄ where
  step-Falls : (d : ChunkDeserializer) → Falls d (step d)
  unfolding step
  step-Falls d = by_stage d.current_stage refl
    where
      by_stage : (stage : ParseStage) → d.current_stage ≡ stage → Falls d (step d)
      by_stage csid e = simp (e, step) (form_header-Falls d e)
      by_stage initial_timestamp e = simp (e, step) (get_initial_timestamp-Falls d e)
      by_stage message_length e = simp (e, step) (get_message_length-Falls d e)
      by_stage message_type_id e = simp (e, step) (get_message_type_id-Falls d e)
      by_stage message_stream_id e = simp (e, step) (get_message_stream_id-Falls d e)
      by_stage extended_timestamp e = simp (e, step) (get_extended_timestamp-Falls d e)
      by_stage message_payload e = simp (e, step) (get_message_data-Falls d e)

  run-ne-out_of_fuel :
      (fuel : ℕ) (d : ChunkDeserializer) → measure d < fuel → run fuel d ≢ out_of_fuel
  unfolding run
  run-ne-out_of_fuel zero d h = absurd (omega arith)
  run-ne-out_of_fuel (suc fuel) d h =
      after (step d) (step-Falls d) (λ d' k. run-ne-out_of_fuel fuel d' (omega arith))
    where
      after :
          (r : StageOutcome)
          → Falls d r
          → ((d' : ChunkDeserializer) → measure d' < measure d → run fuel d' ≢ out_of_fuel)
          → (r >>= λ (result, message, d').
              if is_finished result message then ok (message, d') else run fuel d')
            ≢ out_of_fuel
      after (ok (success, none, d')) f k = k d' f
      after (ok (success, some m, d')) f k = λ p. cc
      after (ok (not_enough_bytes, m, d')) f k = λ p. cc
      after (err e) f k = λ p. cc
      after panicked f k = λ p. cc
      after out_of_fuel f k = absurd f

  -- From every state and on every input, `get_next_message` ends: the rounds of its loop are at most
  -- seven for each byte of the buffer, and seven more.
  pub get_next_message-ne-out_of_fuel :
      (d : ChunkDeserializer) (input : List ℕ) → get_next_message d input ≢ out_of_fuel
  unfolding get_next_message
  get_next_message-ne-out_of_fuel d input = run-ne-out_of_fuel _ _ (rank_bound d.current_stage)
    where
      rank_bound :
          (stage : ParseStage)
          → 7 * length (d.buffer ++ input) + rank stage < 7 * length (d.buffer ++ input) + 8
      rank_bound csid = omega arith
      rank_bound _ = omega arith
