-- ===== src/Lib.antt =====
-- true-dns, a local DNS proxy: it answers from a cache, from a table of hosts files, from DNS over
-- HTTPS for the names on a list (or for all names), and from the system's DNS servers otherwise.
--
-- The parts and how they interact. `Engine.ServeDNS` (internal/core/engine.go) takes a query, looks
-- it up in the cache (internal/cache), then in the override table (internal/override), asks the
-- matcher (internal/matcher) whether the name is listed, rewrites the query's EDNS state, and sends
-- it to DoH or plain upstreams (internal/resolver). The addresses of an answer to a listed name may
-- be reshaped by reachability (internal/probe, internal/core/probe.go). The response is stored in
-- the cache and written.
--
-- The files:
--   Base, Text: lists over native numbers, integers, results, permutations; the functions of
--     `strings` that the program uses, on byte strings.
--   Dns, Net, Core/Library: the DNS message's fields, and the functions of `net` and of
--     github.com/miekg/dns that the program calls, as parameters with documented facts about them.
--   Matcher: internal/matcher/matcher.go. `reset` is `Reset`, `match_name` is `Match`. Walk,
--     Patterns, Sets and Laws have the proofs.
--   Cache: internal/cache/cache.go. A list element is known by a number, and the index maps a key to
--     one; following a stale pointer is a fault, `none`. `Spec` says what `Get` and `Put` do to the
--     list of entries; Links, Valid, Put, Serve, Ttl and Key have the proofs.
--   Resolver: internal/resolver. Address is `WithPort` and `NewPlain`, Validate `ValidateAgainst`,
--     Doh `DoH.Exchange` with what HTTP gives as an argument, Plain `Plain.Exchange` with the
--     servers' answers and the order in which they arrive as arguments.
--   Probe: internal/probe/probe.go. Filter is `Prober.Filter` over the results of the checks, Store
--     the cache behind `Check`, as its two critical sections.
--   Override: internal/override/override.go. Defs is the table, `loadSource` and `Lookup`; Load is
--     `LoadFiles` and `LoadURLs`.
--   Config: internal/config/config.go. Defs is the configuration, `Default` and `Validate`; the
--     engine reads a record of its own, with the fields that the handler uses.
--   Schema: internal/config/schema.go. Detect has `detectSchemaVersion` and the text of
--     `migrateV0toV1`, Write `atomicWrite` and `inPlaceReplace`, with the outcomes of the system's
--     calls as arguments, Ensure `ensureSchemaLocked`, Lock `withConfigLock` for two
--     processes, call by call.
--   Platform: internal/platform and the takeover in cmd/truedns/main.go. State is the recorded
--     takeover and its file, Interface `Platform`, which Linux and Windows fill with `SetSystemDNS`
--     and `RestoreSystemDNS` over the files and the registry keys that they change, Commands
--     `cmdSetup`, `cmdRestore` and `cmdRun`, whose takeover is two steps, Address
--     `normalizeAddrs`, Discover (and Windows)
--     `DiscoverSystemDNS`. What each call of the system does is an argument. encoding/json is a
--     parameter. Effects, Undo, Adapters, Sessions, Normal, Taken and Again have the proofs.
--   Api: internal/api/api.go. Handlers has the endpoints behind `auth`, Ports `Start` and the port
--     file, Clients `apiBaseCandidates` and `firstReachableAPI` of cmd/truedns/main.go, Guard and
--     Found have the proofs. net.Listen and strconv are parameters.
--   Cli: cmd/truedns/main.go. Load is `loadConfig` with `EnsureSchema`, whose lock is an argument,
--     Logs the tail of `cmdLogs`.
--   Core: internal/core. Outgoing is `prepareOutgoing` and `finalizeEDNS`, Upstreams `exchangeDoH`,
--     Server `NormalizeAddr`, Build `NewDoH`, `New`, `buildFrom`, `Reload` and `Shutdown`,
--     Answer `synthesizeOverride` and `filterAnswerIPs`, Engine `ServeDNS`, a function from what the
--     outside does during a request to the new state and the message written. Synthesis, Reshape,
--     Routing, Total and Again have proofs about them. Refresh is the loop of the override manager
--     (internal/core/override.go), which takes one event at a time, and Shutdown has the proof of its
--     end.
--
-- Bounds and fuel. A counter of 64 bits wraps around at 2 ^ 64. `match_parents` takes the length
-- of the name as fuel, and each round drops a label; `evict_expired` takes the length of the list,
-- and each round removes an element; `ensure_loop` has two rounds, for the one migration and the
-- test after it, and `retry_rename` the six of the code; the loop of the failover strategy counts
-- the upstreams. Times and durations are integers of nanoseconds. Their sums do not wrap around
-- here: a lifetime is at most a configured one.
--
-- Not modelled: letters outside ASCII in `ToLower`, `TrimSpace` and `EqualFold`; the locks, since
-- each operation holds its lock from start to end, and a reload in the middle of a query; the
-- sockets, HTTP, TOML, elevation, the flags and the output of the commands, and the tray icon.
pub mod Base
pub mod Text
pub mod Matcher
pub mod Dns
pub mod Cache
pub mod Net
pub mod Resolver
pub mod Probe
pub mod Override
pub mod Core
pub mod Config
pub mod Schema
pub mod Platform
pub mod Api
pub mod Cli
