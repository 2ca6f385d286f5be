-- ===== src/Group.antt =====
-- groupcache.go: a group over any cache that has the methods of the interface `Cache`. What the world
-- does in a call is an argument: the clock, the random number, what the getter, the peer and the
-- incrementer answer. `none` is a store that ran out of fuel.
mod State
mod Reads
mod Writes
pub mod Maintenance
pub mod Ttl
pub mod Caches
pub mod Keeps
pub mod Loads
pub mod Rereads
pub mod LruStores
pub mod Stale
pub mod Looks
pub mod Waits
pub mod Accounts
unfoldable pub use State.*
unfoldable pub use Reads.*
unfoldable pub use Writes.*
