-- ===== src/Relay/Lifecycle/Rollback.antt =====
-- `RelayLifecycle::rollback`.
use rustmote.Prelude.{[], ◌∷◌}
use rustmote.Text.{Text, str}
use rustmote.Effect.{Io, ◌>>◌}
use rustmote.Relay.Commands.{copy_file, compose_up}
use rustmote.Relay.Paths.{posix_join, compose_path, state_path}
use rustmote.Relay.Remote.{Remote}
use rustmote.Relay.Steps.{exec_built}
use rustmote.Relay.Health.{Settings, health_check, hbbs_port, hbbr_port}

module _ (R : Remote) (settings : Settings) where
  open R use {World}

  unfoldable pub rollback : Text → (backup_dir : Text) → Io World (Unit {0})
  rollback install_path backup_dir = do
    exec_built R
        (copy_file (posix_join backup_dir (str "docker-compose.yml")) (compose_path install_path))
    exec_built R
        (copy_file (posix_join backup_dir (str ".rustmote-state.toml")) (state_path install_path))
    exec_built R (compose_up install_path)
    health_check R settings (hbbs_port ∷ hbbr_port ∷ [])
