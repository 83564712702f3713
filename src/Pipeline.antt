-- ===== src/Pipeline.antt =====
-- src/core/pipeline.rs: the way of a request through the gateway.
pub mod Channel
pub mod Relay
pub mod JsonStream
pub mod Conversation
mod Tests
