-- ===== src/Storage.antt =====
-- internal/storage/sqlite.
pub mod Persisted
pub mod Unmarshal
pub mod Decode
pub mod Encode
pub mod Tables
pub mod Database
pub mod Ledger
