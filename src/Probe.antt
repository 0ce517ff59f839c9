-- ===== src/Probe.antt =====
-- internal/probe/probe.go: reachability of candidate addresses. `Filter` has the reshaping of an
-- answer's addresses, with the result of a check as an argument; `Order` and `Drop` its laws in the
-- two modes. `Store` has the cache behind `Check`, `Bound` its size.
mod Filter
pub mod Store
mod Bound
mod Order
mod Drop
mod Examples
unfoldable pub use Filter.*
pub use Order.*
pub use Drop.*
