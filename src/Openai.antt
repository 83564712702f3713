-- ===== src/Openai.antt =====
-- src/adapters/openai/stream.rs: the stream of the OpenAI protocol.
pub mod Decoder
pub mod Encoder
mod Tests
