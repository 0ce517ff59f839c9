-- ===== src/Text.antt =====
-- Text: the functions of Go's `strings` package that the program calls, and laws about them.
mod Defs
mod Laws
unfoldable pub use Defs.*
pub use Laws.*
pub mod Lines
