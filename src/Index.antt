-- ===== src/Index.antt =====
-- The three indices of src/book.rs as layouts of the open-addressing table.
pub mod Orders
pub mod Prices
pub mod Clients
mod Hash
mod Tests
