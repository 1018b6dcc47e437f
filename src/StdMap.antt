-- ===== src/StdMap.antt =====
-- std::map as a list of its entries in the order of iteration, that of the keys.
mod Defs
mod Lookup
mod Sorted
pub mod Keys
unfoldable pub use Defs.*
pub use Lookup.*
pub use Sorted.*
