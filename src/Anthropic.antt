-- ===== src/Anthropic.antt =====
-- src/adapters/anthropic/stream.rs: the stream of the Anthropic protocol.
pub mod Decoder
pub mod Encoder
mod Tests
