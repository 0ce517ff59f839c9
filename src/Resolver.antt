-- ===== src/Resolver.antt =====
-- internal/resolver: the upstream clients. `Address` has the normalisation of server addresses,
-- `Validate` the check of a response against its query, `Doh` and `Plain` the two clients.
pub mod Address
mod Validate
mod Doh
mod Plain
mod Examples
