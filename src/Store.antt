-- ===== src/Store.antt =====
-- internal/store: the in-memory backend, the write stream, and the facade over both.
pub mod Memory
pub mod Watch
pub mod Facade
pub mod Reads
pub mod Tx
pub mod Direct
pub mod Replica
mod Tests
