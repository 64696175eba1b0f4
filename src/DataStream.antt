-- ===== src/DataStream.antt =====
-- protocols/airplay/layers/DataStreamChannel.ts: messages with a header of 32 bytes, and protobufs with
-- varint lengths inside their payloads.
pub mod Varint
pub mod Protobufs
pub mod RoundTrip
pub mod Messages
pub mod Channel
pub mod Header
pub mod Handle
pub mod Exchange
