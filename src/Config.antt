-- ===== src/Config.antt =====
-- internal/config/config.go: the configuration. `Defs` has the record, `Default` and `Validate`,
-- `Ranges` what `Validate` accepts.
pub mod Defs
mod Ranges
mod Examples
