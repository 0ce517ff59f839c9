-- ===== src/Schema.antt =====
-- internal/config/schema.go: the version of the configuration file. `Detect` has the detection of
-- the version and the migration of the text, `Stamp` what a migration changes, `Write` how a file
-- is replaced, `Ensure` the chain of migrations, `Lock` the lock file that keeps two processes
-- apart.
pub mod Detect
mod Stamp
pub mod Write
pub mod Ensure
mod Lock
mod Examples
