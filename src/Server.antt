-- ===== src/Server.antt =====
-- src/server.rs and src/message.rs
pub mod Failure
pub mod Quorum
pub mod Message
pub mod Peer
pub mod Sound
pub mod Cluster
mod Tests
