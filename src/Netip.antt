-- ===== src/Netip.antt =====
-- What the program uses of Go's net/netip and net: addresses, prefixes, and their texts.
-- An IPv4 address is its value as a big-endian 32-bit number, an IPv6 one its 128-bit number and
-- its zone. `bits` of a prefix is the count that `Bits()` returns.
mod Defs
mod V6
mod Reading
mod Runs
pub mod Octets
pub mod Bounds
pub mod Overlap
unfoldable pub use Defs.*
unfoldable pub use V6.{parse_ipv6}
unfoldable pub use Reading.*
