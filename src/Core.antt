-- ===== src/Core.antt =====
-- internal/core: the engine that answers queries. `Library` is what it uses of the DNS package,
-- `Outgoing` the query sent upstream, `Upstreams` the strategies over the DoH upstreams, `Answer`
-- the answers made from the override table and reshaped by probing, with `Synthesis` on what the
-- former hold and `Reshape` on what reshaping keeps, `Engine` the handler, `Routing` which upstreams
-- it consults, `Total` that it answers, `Again` what it answers to a question that is asked again, `Build` how it is built and
-- reloaded, `Refresh` the loop that refreshes the override table and `Shutdown` its end, `Server`
-- the form of a listen address.
mod Library
mod Outgoing
mod Upstreams
mod Answer
mod Synthesis
mod Reshape
pub mod Build
mod Server
mod Engine
mod Routing
mod Total
mod Again
mod Refresh
mod Shutdown
mod Examples
