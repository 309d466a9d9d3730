-- ===== src/Session/Server/Safety.antt =====
-- No client publishes, plays or connects without the application's consent.
use rust_media_libs.Prelude.{ℕ, ◌⊎◌, ◌≡◌, refl, sym, ◌∙◌, Option, none, some, List, inl, inr, arith}
use rust_media_libs.HashMap
use rust_media_libs.Bytes.{ByteOrder}
use rust_media_libs.Session.Action.{Environment}
use rust_media_libs.Session.Keeps.{IsPreorder}
use rust_media_libs.Session.Server.Types.{ActiveStream, ServerSession, created}
use rust_media_libs.Session.Server.Media.{key_of, publishing_key}
use rust_media_libs.Session.Server.Outbound.{played_key}
use rust_media_libs.Session.Server.Input.{input_action}
use rust_media_libs.Session.Server.Keep.Allows.{AllowsMessage, AllowsInput}
use rust_media_libs.Session.Server.Keep.Input.{input_action-Keeps}

-- What is published or played in the second map of streams is so in the first.
pub record NoneStarted (before after : List (ℕ × ActiveStream)) : Type 0 where
  pub published :
      (id : ℕ) (key : List ℕ)
      → key_of (HashMap.get id after) ≡ some key
      → key_of (HashMap.get id before) ≡ some key
  pub played :
      (id : ℕ) (key : List ℕ)
      → played_key (HashMap.get id after) ≡ some key
      → played_key (HashMap.get id before) ≡ some key

same_streams : (m : List (ℕ × ActiveStream)) → NoneStarted m m
same_streams m = record { published = λ id key e. e; played = λ id key e. e }

create-NoneStarted :
    (id : ℕ) (m : List (ℕ × ActiveStream))
    → NoneStarted m (HashMap.insert id (record { current_state = created }) m)
create-NoneStarted id m = record {
  published =
      λ j key e. ground (arith, e, HashMap.get-insert id j (record { current_state = created }) m);
  played =
      λ j key e. ground (arith, e, HashMap.get-insert id j (record { current_state = created }) m);
}

remove-NoneStarted : (id : ℕ) (m : List (ℕ × ActiveStream)) → NoneStarted m (HashMap.remove id m)
remove-NoneStarted id m = record {
  published = λ j key e. ground (arith, e, HashMap.get-remove id j m);
  played = λ j key e. ground (arith, e, HashMap.get-remove id j m);
}

-- The session is connected as it was, and nothing is published or played that was not.
abbrev pub Unconsented : ServerSession → ServerSession → Type 0
Unconsented s t =
    (t.current_state ≡ s.current_state)
    × (t.connected_app_name ≡ s.connected_app_name)
    × NoneStarted s.active_streams t.active_streams

with_streams :
    (s : ServerSession) (m : List (ℕ × ActiveStream))
    → NoneStarted s.active_streams m
    → Unconsented s (record s { active_streams = m })
with_streams s m h = (refl, refl, h)

same_session : (s : ServerSession) → Unconsented s s
same_session s = (refl, refl, same_streams s.active_streams)

Unconsented-order : IsPreorder Unconsented
Unconsented-order = record {
  same = same_session;
  through = λ s t u h k. (
    k.0 ∙ h.0,
    k.1 ∙ h.1,
    record {
      published = λ id key e. h.2.published id key (k.2.published id key e);
      played = λ id key e. h.2.played id key (k.2.played id key e);
    },
  );
}

Unconsented-AllowsMessage : AllowsMessage Unconsented
Unconsented-AllowsMessage = record {
  blind = record {
    order = Unconsented-order;
    clock = λ s n. same_session s;
    writer = λ s c. same_session s;
  };
  reader = λ s d. same_session s;
  window = λ s n. same_session s;
  encoding = λ s n. same_session s;
  opened = λ s. (refl, refl, create-NoneStarted s.next_stream_id s.active_streams);
  closed = λ s id stream e. (refl, refl, create-NoneStarted id s.active_streams);
  deleted = λ s id. (refl, refl, remove-NoneStarted id s.active_streams);
  asked = λ s request. same_session s;
}

pub Unconsented-AllowsInput : AllowsInput Unconsented
Unconsented-AllowsInput = record {
  messages = Unconsented-AllowsMessage;
  received = λ s n. same_session s;
  since_ack = λ s n. same_session s;
}

-- The key under which a stream is played.
abbrev pub playing_key : ℕ → ServerSession → Option (List ℕ)
playing_key stream_id s = played_key (HashMap.get stream_id s.active_streams)

same_or_none :
    {A : Type 0} (before after : Option A)
    → ((a : A) → after ≡ some a → before ≡ some a)
    → (after ≡ none) ⊎ (after ≡ before)
same_or_none before none h = inl refl
same_or_none before (some a) h = inr (sym (h a refl))

module _ ⦃bo : ByteOrder⦄ ⦃env : Environment⦄ where
  -- Whatever bytes come in, and however their handling ends, they neither connect nor disconnect the
  -- session, and what is published and what is played on a stream afterwards is nothing, or what
  -- was before.
  pub input_action-Unconsented :
      (s : ServerSession) (bytes : List ℕ) (id : ℕ)
      → ((input_action bytes s).1.current_state ≡ s.current_state)
        × ((input_action bytes s).1.connected_app_name ≡ s.connected_app_name)
        × ((publishing_key id (input_action bytes s).1 ≡ none)
            ⊎ (publishing_key id (input_action bytes s).1 ≡ publishing_key id s))
        × ((playing_key id (input_action bytes s).1 ≡ none)
            ⊎ (playing_key id (input_action bytes s).1 ≡ playing_key id s))
  input_action-Unconsented s bytes id =
      let (state, name, started) = (input_action-Keeps Unconsented-AllowsInput bytes).holds s in
      (
        state,
        name,
        same_or_none (publishing_key id s) (publishing_key id (input_action bytes s).1)
            (started.published id),
        same_or_none (playing_key id s) (playing_key id (input_action bytes s).1)
            (started.played id),
      )
