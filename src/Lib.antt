-- ===== src/Lib.antt =====
-- rustmote keeps a list of relay servers and of the machines reached through them, opens SSH sessions
-- to the servers, installs a relay on a server and keeps it up to date. This library models the core
-- crate, crates/rustmote-core/src, and a part of the command line, crates/rustmote-cli/src, and states
-- what they promise.
--
-- The parts, and the files that model them:
--
-- - error.rs: Error.antt has the error type and results; a message is not modelled.
-- - registry.rs and target.rs: Server.antt, Target.antt and Registry.antt. A method with `&mut self` is
--   an operation on the configuration that gives back its result and the configuration.
-- - config.rs: Config.antt has the data and `viewer_override`, Places.antt the paths, Config/Store.antt
--   loading and saving. What the configuration, the pins and the cache of the registry have in common
--   in this is in Disk.antt: the record `Disk` has the calls of the file system, `Format` those of the
--   TOML crate; Disk/Atomic.antt says what is asked of them.
-- - credentials.rs: CredentialMode.antt has the modes and their names, Credentials.antt the stores and
--   the permission check. Their parameter is the record `Vault`: the keyring crate, the terminal, the
--   file system and the TOML format.
-- - session/known_hosts.rs: KnownHosts.antt has the pinned keys and `verify_or_pin`,
--   KnownHosts/Store.antt loading and saving.
-- - session/mod.rs: Session/Exec.antt has `ExecOutput::ok_for` and the loop of `exec`,
--   Session/HostKeyHandler.antt the decision about a server's key, which calls `verify_or_pin` on the
--   store it shares with the session, Session/Auth.antt `authenticate`, and Session/Open.antt
--   `Session::open`, which runs the two. The SSH crate is the records `Ssh`, `Network` and `Channels`.
--   Session/Forward.antt has the loop of the port forwarder and `proxy_one`, whose two directions take
--   their turns by a schedule; what a stream answers to its calls is a list.
-- - registry_client.rs: RegistryClient/Cache.antt has the `CacheStore`, RegistryClient/Client.antt the
--   client over a transport, RegistryClient/Http.antt the transport over HTTP, and
--   RegistryClient/Hub.antt `RegistryClient::new`, which joins them. A call looks in the cache, and
--   asks the transport and writes the answer through where that has nothing fresh.
-- - viewer.rs: Viewer.antt has `TargetId`, the detection as on Linux and the command that is launched.
-- - discovery.rs: Discovery.antt has the merging of what the sweeps find and the choice of the network,
--   Discovery/Arp.antt the parser of the ARP table. The hosts of the `BTreeMap` are a list in order.
-- - crates/rustmote-cli/src/commands/connect.rs: Cli/Connect.antt has `resolve_target`, which looks in
--   the registry and makes the `TargetId`, and `resolve_via_name`; Cli/Connect/Run.antt has `run`, which
--   loads the configuration and the pins, opens the session, saves the pins if there is a new one and
--   the configuration, and launches the viewer. Its parameter `Desk` has a world for the files, one for
--   the stores of passwords and one for the network and the processes, so that what acts on one
--   leaves the others.
-- - crates/rustmote-cli/src/commands/config.rs: Cli/ConfigMode.antt has the change of the credential
--   mode. Cli.antt has the errors of `anyhow`, Cli/Flow.antt commands that fail with them.
-- - crates/rustmote-cli/src/commands/server.rs and target.rs: Cli/Registry.antt has the commands that
--   add and remove servers and targets: what they check first, and the load, the operation on the
--   registry and the save. Cli/Scan.antt has the scan for hosts, which hands the registered servers to
--   the discovery.
-- - relay_lifecycle/commands.rs: Relay/Commands.antt has every validator and command.
-- - relay_lifecycle/state.rs: Relay/State.antt.
-- - relay_lifecycle/mod.rs: Relay/Paths, Semver, OsRelease, Compose, ComposePs and Backups have its pure
--   functions, Relay/Steps the internals that run a command or two, Relay/Health the health check, and
--   Relay/Lifecycle with its children `bootstrap`, `check_updates`, `update` with backup, rollback and
--   the collection of old backups, and `status`.
--
-- An operation that runs commands is a function from a world to a result and a world (Effect.antt), so
-- what was done before a failure stays done. The world and all that acts on it is a parameter, the
-- record `Remote` of Relay/Remote.antt: the SSH transport, the clocks, the container registry, and the
-- functions of other crates and of the standard library that are called on the way (TOML, base64,
-- lossy UTF-8, time formats). Effect/Keeps.antt and Effect/Hoare.antt have the rules by which the
-- proofs follow an operation, Effect/Fails.antt those for the errors that it can end with. Relay/Host.antt
-- says what is asked of a host where its files matter: which command changes which of them, and
-- Relay/Host/Stored.antt what it shows of them.
--
-- A text is the list of its characters' code points; what the source does on bytes is done on the
-- encoded text. Numbers are unbounded; where the source parses into 64 bits, the parser has the bound.
-- A path is a text. A time is a number of nanoseconds.
--
-- The health check of the source loops until its deadline. Here it has a bound on its polls, a field of
-- `Settings`, and Relay/Health/Bound.antt gives a number of polls that is enough.
--
-- The expiry of the cache is the source's signed difference of times; which spans `chrono` can
-- represent is a parameter. Calls do not overlap, so the mutexes have no counterpart.
--
-- Not modelled: the listener and the tasks of the forwarder, what a `write_all` that is dropped has
-- written already, the mDNS and ICMP sweeps of discovery, and of the command line the commands that list
-- and show, status and the relay commands, with the parsing of arguments and the printing.
pub mod Prelude
pub mod Text
pub mod Error
pub mod Effect
pub mod Time
pub mod Net
pub mod CredentialMode
pub mod Credentials
pub mod Keyed
pub mod Target
pub mod Server
pub mod Places
pub mod Disk
pub mod Config
pub mod Registry
pub mod RegistryClient
pub mod Dict
pub mod KnownHosts
pub mod Session
pub mod Viewer
pub mod Discovery
pub mod Cli
pub mod Relay
pub mod Tests
