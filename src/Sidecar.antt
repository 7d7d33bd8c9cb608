-- ===== src/Sidecar.antt =====
-- src/sidecar_protocol.rs: the messages between the node and its backends, and the codec of their
-- frames, `u32_be(len) || cbor(message)`. The CBOR encoder and decoder are a parameter. A `Uuid` is its
-- bytes.
pub mod Message
pub mod Codec
pub mod Roundtrip
