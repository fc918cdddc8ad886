-- ===== src/Vault.antt =====
-- lib/security/session-vault-format.ts: what the session vault stores, and how it is read back.
pub mod Stored
pub mod Base64
pub mod Records
pub mod Slots
pub mod Validate
pub mod Sound
pub mod Tests
pub mod Oauth
pub mod Session
pub mod Legacy
pub mod Binding
