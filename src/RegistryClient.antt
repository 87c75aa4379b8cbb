-- ===== src/RegistryClient.antt =====
-- crates/rustmote-core/src/registry_client.rs: the client of the container registry, which answers
-- from a cache while its entries are fresh.
pub mod Http
pub mod Hub
pub mod Cache
pub mod Client
