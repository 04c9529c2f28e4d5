-- ===== src/Data.antt =====
-- The records of the store (src/engine/db/mod.rs), with the fields of the source.
mod Accounts
mod Channels
mod Networks
pub mod Profiles
pub use Accounts.*
unfoldable pub use Channels.*
pub use Networks.*
