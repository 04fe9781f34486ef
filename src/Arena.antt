-- ===== src/Arena.antt =====
-- The pre-allocated arenas of src/book.rs and the intrusive queue of a price level.
pub mod Nodes
pub mod Orders
pub mod Levels
pub mod Pool
pub mod Queue
pub mod Chain
pub mod Fifo
