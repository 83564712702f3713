-- ===== src/Gemini.antt =====
-- src/adapters/gemini/stream.rs: the stream of Gemini.
pub mod Decoder
pub mod Encoder
mod Tests
