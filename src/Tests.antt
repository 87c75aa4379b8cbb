-- ===== src/Tests.antt =====
-- Runs on concrete inputs, and the theorems applied to them.
mod Scan
mod Gc
mod Forward
mod Disk
mod Session
mod Discovery
mod Connect
mod Edits
mod Client
mod Trust
mod Registry
mod Credentials
mod Commands
mod Lifecycle
mod HostFiles
mod Rollback
mod Install
mod Live
