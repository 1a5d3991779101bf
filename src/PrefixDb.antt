-- ===== src/PrefixDb.antt =====
-- internal/prefixdb: the table of address ranges with country and AS number, and its queries.
-- An address is its 32-bit value; a map from a country or an AS number to row numbers is the list
-- of its entries, in the order in which the rows gave rise to them.
pub mod Cidrs
pub mod Merge
pub mod Index
pub mod Resolve
pub mod Lines
pub mod Load
pub mod Normalize
pub mod Overrides
pub mod Sync
pub mod Search
mod Runs
pub use Index.{Entry, Db, Selector}
unfoldable pub use Index.{rebuild_index}
unfoldable pub use Resolve.{candidates, resolve, preview}
