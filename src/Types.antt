-- ===== src/Types.antt =====
-- src/types.rs: the enums, the order message, the server message and their wire form.
mod Enums
mod Request
mod Outcome
pub mod Message
unfoldable pub use Enums.*
unfoldable pub use Request.*
pub use Outcome.*
