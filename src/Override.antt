-- ===== src/Override.antt =====
-- internal/override/override.go: the table of addresses from hosts files. `Defs` has the table and
-- its operations, `Hosts` laws of one source's map, `Lookups` of the whole,
-- `Load` the loading of several sources.
mod Defs
mod Hosts
mod Names
mod Lookups
mod Load
mod Examples
unfoldable pub use Defs.*
pub use Hosts.*
pub use Lookups.*
unfoldable pub use Load.*
