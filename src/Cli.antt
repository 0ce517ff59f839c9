-- ===== src/Cli.antt =====
-- cmd/truedns/main.go: the tail of the log in `Logs`, the loading of the configuration with its
-- migration in `Load`.
mod Logs
mod Load
mod Examples
