-- ===== src/Matcher.antt =====
-- internal/matcher/matcher.go: suffix matching of domain names against the configured patterns.
-- `Defs` has the state and the operations, `Walk` the loop of `Match`, `Patterns` what `Reset`
-- makes of its patterns, `Laws` the two together.
mod Defs
mod Walk
mod Patterns
mod Sets
mod Laws
mod Examples
unfoldable pub use Defs.*
pub use Walk.{Under, member_iff}
pub use Patterns.{Covers, IsMalformed}
pub use Sets.{Covered}
pub use Laws.*
