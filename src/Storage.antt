-- ===== src/Storage.antt =====
-- src/storage.rs
pub mod Server
pub mod Client
pub mod Files
pub mod Tests
