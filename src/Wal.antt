-- ===== src/Wal.antt =====
-- src/wal.rs.
pub mod Crc
pub mod Bytes
pub mod Record
pub mod Log
pub mod Replay
mod Tests
pub mod Resume
