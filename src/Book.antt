-- ===== src/Book.antt =====
-- `OrderBook` of src/book.rs.
pub mod State
pub mod Ladder
pub mod Matching
pub mod Cancel
pub mod Process
pub mod View
pub mod Anonymous
pub mod Buffer
pub mod Full
mod BufferTests
