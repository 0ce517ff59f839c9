-- ===== src/Cache.antt =====
-- internal/cache/cache.go: the response cache. `Defs` has the state and the operations, `Links`
-- the list of elements behind the index, `Valid` the invariant, `Spec` the cache as a list of
-- entries and the refinement, `Ttl` the lifetimes, `Key` the keys.
mod Defs
mod Links
pub mod Valid
pub mod Spec
pub mod Put
mod Ttl
pub mod Serve
mod Key
mod Examples
unfoldable pub use Defs.*
