-- ===== src/Crdt.antt =====
-- src/crdt.rs: the replicated data types.
pub mod GCounter
pub mod PnCounter
pub mod LwwReg
pub mod Item
pub mod AworMap
pub mod Tests
