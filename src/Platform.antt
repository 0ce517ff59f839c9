-- ===== src/Platform.antt =====
-- internal/platform, and the commands of cmd/truedns/main.go that take over the system's DNS and
-- give it back. `State` is the record of a takeover and its file, `Interface` what a platform does,
-- `Commands` the commands over it, `Sessions` the commands one after another, `Linux` and `Windows`
-- the two platforms, `Effects` what a takeover does on Linux, `Undo` and `Adapters` that the two
-- undo it, `Taken` and `Again` the resolver's file during a takeover and at a second one, `Address`
-- the addresses that may be asked, `Normal` which these are, `Discover` where they are taken from.
mod State
mod Interface
mod Commands
mod Sessions
mod Linux
mod Effects
mod Undo
mod Address
mod Normal
mod Discover
mod Taken
mod Again
mod Windows
mod Adapters
mod Frames
mod Examples
