-- ===== src/Relay.antt =====
-- crates/rustmote-core/src/relay_lifecycle/: the relay that the program installs on a server and
-- keeps up to date, by commands over SSH.
pub mod Commands
pub mod Paths
pub mod State
pub mod Semver
pub mod Remote
pub mod Backups
pub mod Steps
pub mod Health
pub mod Host
pub mod Lifecycle
pub mod Compose
pub mod ComposePs
pub mod OsRelease
