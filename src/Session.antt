-- ===== src/Session.antt =====
-- crates/rustmote-core/src/session/mod.rs.
pub mod HostKeyHandler
pub mod Exec
pub mod Auth
pub mod Open
pub mod Forward
