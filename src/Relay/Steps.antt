-- ===== src/Relay/Steps.antt =====
-- crates/rustmote-core/src/relay_lifecycle/mod.rs, the internals that run one command or a few.
use rustmote.Prelude.{Bool, false, not, Option, none, some, ◌==◌, if◌then◌else◌}
use rustmote.Text.{Text, str, trim}
use rustmote.Error.{
  Result, ok, err, relay_not_installed, relay_unsupported_os, docker_engine_not_installed,
  docker_compose_v1_detected,
}
use rustmote.Effect.{Io, pure, raise, lift, ◌>>=◌}
use rustmote.Session.Exec.{ExecOutput, ok_for}
use rustmote.Relay.State.{RelayState}
use rustmote.Relay.OsRelease.{OsKind, parse_os_release}
use rustmote.Relay.Commands.{
  read_os_release, check_docker_present, check_docker_compose_v2, check_docker_compose_v1,
  test_dir_exists, test_file_exists, cat_file,
}
use rustmote.Relay.Paths.{posix_join, data_path, state_path}
use rustmote.Relay.Remote.{Remote}

module _ (R : Remote) where
  open R use {World, exec, lossy, to_lowercase, from_toml}

  unfoldable pub exec_ok : Text → Io World ExecOutput
  exec_ok command = do out ← exec command; lift (ok_for lossy out command)

  -- `self.exec_ok(builder?)`, with the builder's result.
  abbrev pub exec_built : Result Text → Io World ExecOutput
  exec_built built = do command ← lift built; exec_ok command

  -- `self.transport.exec(&builder?)`.
  abbrev pub exec_raw : Result Text → Io World ExecOutput
  exec_raw built = do command ← lift built; exec command

  unfoldable pub path_exists : Text → (directory : Bool) → Io World Bool
  path_exists path directory = do
    out ← exec_raw (if directory then test_dir_exists path else test_file_exists path)
    pure (out.exit_code == 0)

  unfoldable pub read_file : Text → Io World ExecOutput
  read_file path = exec_built (cat_file path)

  unfoldable pub read_public_key : Text → Io World Text
  read_public_key install_path = do
    out ← read_file (posix_join (data_path install_path) (str "id_ed25519.pub"))
    pure (trim (lossy out.stdout))

  unfoldable pub load_state : Text → Io World RelayState
  load_state install_path = do
    let p = state_path install_path
    installed ← path_exists p false
    if not installed
        then raise (relay_not_installed install_path)
        else do out ← read_file p; lift (from_toml (lossy out.stdout) p)

  abbrev or_unsupported : Option OsKind → Result OsKind
  or_unsupported (some k) = ok k
  or_unsupported none = err (relay_unsupported_os (str "no recognized ID in /etc/os-release"))

  unfoldable pub detect_os : Io World OsKind
  detect_os = do
    out ← exec_ok read_os_release
    lift (or_unsupported (parse_os_release to_lowercase (lossy out.stdout)))

  unfoldable pub ensure_docker_stack : Io World (Unit {0})
  ensure_docker_stack = do
    docker_present ← exec check_docker_present
    if not (docker_present.exit_code == 0) then raise docker_engine_not_installed else do
      v2 ← exec check_docker_compose_v2
      if v2.exit_code == 0 then pure tt else do
        v1 ← exec check_docker_compose_v1
        raise
            (if v1.exit_code == 0 then docker_compose_v1_detected else docker_engine_not_installed)
