-- ===== src/Dict.antt =====
-- A Python dict as an association list in insertion order, over a Boolean equality of keys.
mod Defs
pub mod Laws
pub mod Sums
pub use Defs.*
