-- ===== src/Privacy.antt =====
-- src/core/privacy.rs: the privacy guard, which replaces sensitive values by tokens on the way to
-- the upstream provider and puts them back on the way to the client.
pub mod Template
pub mod Search
pub mod Tokens
pub mod Engine
pub mod Vault
pub mod Session
pub mod Request
pub mod Stream
mod Tests
