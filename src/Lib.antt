-- ===== src/Lib.antt =====
-- A verification library for rust-media-libs, the crates rml_amf0 and rml_rtmp.
--
-- An RTMP peer encodes script values as AMF0 (amf0/src), puts them and the other protocol messages
-- into typed payloads (rtmp/src/messages), and sends the payloads as chunks whose headers leave
-- out what the last chunk on the same chunk stream said (rtmp/src/chunk_io). Timestamps are 32-bit
-- numbers that wrap (rtmp/src/time.rs). A server session (rtmp/src/sessions/server) reads the chunks
-- of a client, turns commands into requests that the application accepts or rejects, and hands out
-- packets and events; a client session (rtmp/src/sessions/client) is the other end.
--
--   Prelude     shared names: Boolean tests on numbers, lemmas on lists, and Outcome, how a call
--               ends: a value, an error, a panic, or the end of the fuel of a loop.
--   Bytes       byte strings and the integers of the `byteorder` crate. The crate is a parameter:
--               ByteOrder is a record of codecs with their laws, and Bytes.Endian fills it.
--   HashMap     the map of the standard library, as an association list.
--   Text        the bytes of a text literal, and lower case.
--   Float       the casts between u32, f32 and f64, on bit patterns.
--   Amf0        Value (amf0/src/lib.rs, errors.rs), Serialize (serialization.rs), Deserialize
--               (deserialization.rs); Format is the encoding as a function of the value alone.
--   Time        Defs (rtmp/src/time.rs): RtmpTimestamp, its wrapping arithmetic and its order.
--   Message     Types (rtmp/src/messages/mod.rs), Payload, Serialize and Deserialize
--               (rtmp/src/messages/message_payload.rs and messages/types/*.rs): the functions of
--               types/abort.rs are serialize_abort and deserialize_abort, and so on.
--               `debug_assert!` is there or not by a flag.
--   Chunk       Header (rtmp/src/chunk_io/chunk_header.rs), Serializer (serializer.rs) and
--               Deserializer (deserializer.rs). A `&mut self` method takes the state and returns
--               the next one; a stage of the deserializer is a function of the same name.
--               RoundTrip relates the two: Sync says when a serializer and a deserializer agree.
--   Session     Action is a `&mut self` method that can fail: a function from the state to how it
--               ended and the state that it left; Keeps carries a relation between the two through
--               such a method. Metadata (rtmp/src/sessions/mod.rs). Server (sessions/server): Types,
--               Send (the clock, and the way of a message into a packet), Streams, Commands and
--               Media (the handlers of what comes in), Requests (accept_request, reject_request),
--               Outbound (what the application sends) and Input (new, handle_input). Client
--               (sessions/client): Types with new, Send, Requests (connect, play, publish, stop),
--               Publishing (what is published), Media and Commands (the handlers) and Input. Reach,
--               of each, is the relation of the states that a session gets to. Relay puts a client
--               and a server together.
--
-- A machine integer is a native number, with `% 2 ^ w` where the code wraps; an f64 is its pattern
-- of 64 bits; a String is its UTF-8 bytes; a HashMap of properties is the list of its entries in
-- the order of its iteration.
--
-- Loops that are not structural take fuel. The slicing loop of `serialize` is given one round more
-- than the payload has bytes, since a slice has a byte when the chunk size is not 0; the loop of
-- `get_next_message` seven rounds for each byte of its buffer and eight more, since a round takes a
-- byte or goes on to a later one of seven stages; the readers of AMF0 three calls for each byte and
-- three more, since a value takes its marker byte behind at most two other calls.
--
-- The loop of `handle_input` takes a message each round, which leaves fewer bytes or a later stage of
-- the deserializer: it is given seven rounds for each byte that is at hand and nine more.
--
-- The deserializer that a failing `handle_input` leaves is not modelled, so a session is followed only
-- through inputs that are handled. `start_time` is the count of the readings of the clock; the clock
-- itself is a parameter, Environment, like the debug assertions of the build.
--
-- Not modelled: the handshake, logging and Debug output, I/O errors of in-memory buffers (they do not
-- occur), the depth of the call stack, the example programs, tools and benchmarks.
pub mod Prelude
pub mod Bytes
pub mod HashMap
pub mod Text
pub mod Float
pub mod Amf0
pub mod Time
pub mod Message
pub mod Chunk
pub mod Session
