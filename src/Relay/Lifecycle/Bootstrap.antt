-- ===== src/Relay/Lifecycle/Bootstrap.antt =====
-- `RelayLifecycle::bootstrap`.
pub mod Existing
pub mod Loads
use rustmote.Prelude.{true, false, not, Option, none, some, List, [], ◌∷◌, if◌then◌else◌}
use rustmote.Text.{Text, bytes}
use rustmote.Time.{DateTime}
use rustmote.Error.{relay_foreign_install}
use rustmote.Effect.{Io, pure, raise, lift, gets, attempt, ◌>>=◌, ◌>>◌}
use rustmote.Relay.Commands.{mkdir_p, write_file, compose_up}
use rustmote.Relay.Paths.{data_path, backups_path, compose_path, env_path, state_path}
use rustmote.Relay.State.{ImagePin, new_bootstrap}
use rustmote.Relay.OsRelease.{OsKind}
use rustmote.Relay.Compose.{render_compose_with_pins}
use rustmote.Relay.Remote.{Remote}
use rustmote.Relay.Steps.{
  exec_built, path_exists, read_file, read_public_key, detect_os, ensure_docker_stack,
}
use rustmote.Relay.Health.{Settings, health_check, hbbs_port, hbbr_port}
use rustmote.Relay.Lifecycle.{BootstrapOptions, BootstrapReport}
use rustmote.Relay.Lifecycle.Status.{to_option}

module _ (R : Remote) (settings : Settings) where
  open R use {World, now, lossy, encode, resolve_digest, from_toml, to_toml}

  unfoldable pub hinted_os : Option OsKind → Io World OsKind
  hinted_os (some o) = pure o
  hinted_os none = detect_os R

  -- The digests, one query for each service.
  unfoldable pub resolve_pins : BootstrapOptions → DateTime → List Text → Io World (List ImagePin)
  resolve_pins opts at [] = pure []
  resolve_pins opts at (service ∷ services) = do
    digest ← resolve_digest opts.repo opts.tag
    pins ← resolve_pins opts at services
    pure (
        record {
          service = service;
          repo = opts.repo;
          tag = opts.tag;
          digest = digest;
          pinned_at = at;
        }
        ∷ pins)

  -- The install path is there: an install of the program, or something else.
  unfoldable pub existing : BootstrapOptions → OsKind → Io World BootstrapReport
  existing opts os = do
    let p = state_path opts.install_path
    state_exists ← path_exists R p false
    if not state_exists then raise (relay_foreign_install opts.install_path) else do
      out ← read_file R p
      state ← lift (from_toml (lossy out.stdout) p)
      key ← attempt (read_public_key R opts.install_path)
      pure (record {
        install_path = opts.install_path;
        state = state;
        relay_public_key = to_option key;
        already_installed = true;
        detected_os = os;
      })

  unfoldable pub fresh : BootstrapOptions → OsKind → Io World BootstrapReport
  fresh opts os = do
    at ← gets now
    pins ← resolve_pins opts at opts.services
    compose ← lift (render_compose_with_pins opts.compose_template pins)
    let state = new_bootstrap at opts.rustmote_version pins
    exec_built R (mkdir_p opts.install_path)
    exec_built R (mkdir_p (data_path opts.install_path))
    exec_built R (mkdir_p (backups_path opts.install_path))
    exec_built R (write_file encode (compose_path opts.install_path) (bytes compose))
    exec_built R (write_file encode (env_path opts.install_path) (bytes opts.env_contents))
    toml ← lift (to_toml state)
    exec_built R (write_file encode (state_path opts.install_path) (bytes toml))
    exec_built R (compose_up opts.install_path)
    health_check R settings (hbbs_port ∷ hbbr_port ∷ [])
    key ← attempt (read_public_key R opts.install_path)
    pure (record {
      install_path = opts.install_path;
      state = state;
      relay_public_key = to_option key;
      already_installed = false;
      detected_os = os;
    })

  unfoldable pub bootstrap : BootstrapOptions → Io World BootstrapReport
  bootstrap opts = do
    os ← hinted_os opts.os_hint
    ensure_docker_stack R
    install_exists ← path_exists R opts.install_path true
    if install_exists then existing opts os else fresh opts os
