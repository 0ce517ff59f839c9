-- ===== src/Api.antt =====
-- internal/api/api.go, and its clients in cmd/truedns/main.go. `Handlers` has the endpoints,
-- `Guard` what their guard keeps out, `Ports` the start of the server with its fallback ports and
-- the port file, `Clients` how the commands find the server again, `Found` that they do.
mod Handlers
mod Guard
mod Ports
mod Clients
mod Found
mod Examples
