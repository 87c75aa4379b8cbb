-- ===== src/Relay/Lifecycle/Update.antt =====
-- `RelayLifecycle::update`, in the steps of its comments.
pub mod Refused
pub mod Restored
pub mod BackedUp
use rustmote.Prelude.{
  Bool, true, false, not, ◌&&◌, Option, none, some, List, [], ◌∷◌, map, ◌==◌, if◌then◌else◌,
}
use rustmote.Text.{Text, str, bytes}
use rustmote.Time.{DateTime}
use rustmote.Error.{
  RustmoteError, Result, ok, err, relay_update_not_confirmed, relay_health_check_failed,
}
use rustmote.Effect.{Io, pure, raise, lift, gets, attempt, ◌>>=◌, ◌>>◌}
use rustmote.Relay.Commands.{
  mkdir_p, copy_file, write_file, compose_config, compose_pull, compose_up,
}
use rustmote.Relay.Paths.{posix_join, compose_path, state_path, backup_dir_for}
use rustmote.Relay.State.{ImagePin, RelayState, apply_update}
use rustmote.Relay.Compose.{render_compose_with_pins}
use rustmote.Relay.Remote.{Remote}
use rustmote.Relay.Steps.{exec_built, exec_raw, load_state}
use rustmote.Relay.Health.{Settings, health_check, hbbs_port, hbbr_port}
use rustmote.Relay.Lifecycle.{
  ImageUpdate, CheckUpdatesReport, any_update_available, UpdateOptions, UpdateReport,
}
use rustmote.Relay.Lifecycle.Check.{check_updates}
use rustmote.Relay.Lifecycle.Gc.{gc_backups}
use rustmote.Relay.Lifecycle.Rollback.{rollback}

-- The pin that step 3 makes for a row of the report.
abbrev pub new_pin : DateTime → ImageUpdate → ImagePin
new_pin now u = record {
  service = u.service;
  repo = u.repo;
  tag = u.latest_tag;
  digest = u.latest_digest;
  pinned_at = now;
}

module _ (R : Remote) (settings : Settings) where
  open R use {World, now, encode, format, to_toml}

  -- The snapshot of `docker compose config`, which may fail.
  unfoldable pub snapshot_config : Text → (dir : Text) → Io World (Unit {0})
  snapshot_config install_path dir = do
    cfg ← exec_raw R (compose_config install_path)
    let write =
        exec_built R (write_file encode (posix_join dir (str "compose-config.yml")) cfg.stdout)
    if cfg.exit_code == 0 then (write >> pure tt) else pure tt

  -- Step 2.
  unfoldable pub backup : UpdateOptions → DateTime → Io World (Option Text)
  backup opts at = do
    let dir = backup_dir_for opts.install_path (format at)
    let make = do
      exec_built R (mkdir_p dir)
      exec_built R
          (copy_file (compose_path opts.install_path) (posix_join dir (str "docker-compose.yml")))
      exec_built R
          (copy_file (state_path opts.install_path) (posix_join dir (str ".rustmote-state.toml")))
      snapshot_config opts.install_path dir
      pure (some dir)
    if opts.skip_backup then pure none else make

  -- Step 3: the state that it writes is returned.
  unfoldable pub deploy : UpdateOptions → DateTime → List ImagePin → Io World RelayState
  deploy opts at new_pins = do
    state ← load_state R opts.install_path
    let new_state = apply_update new_pins at state
    new_compose ← lift (render_compose_with_pins opts.compose_template new_pins)
    exec_built R (write_file encode (compose_path opts.install_path) (bytes new_compose))
    toml ← lift (to_toml new_state)
    exec_built R (write_file encode (state_path opts.install_path) (bytes toml))
    exec_built R (compose_pull opts.install_path)
    exec_built R (compose_up opts.install_path)
    pure new_state

  -- The failure of step 4: with a backup the failure is the same after the rollback.
  unfoldable pub recover : Text → Option Text → RustmoteError → Io World (Unit {0})
  recover install_path none e = raise e
  recover install_path (some dir) e = do
    rollback R settings install_path dir
    raise relay_health_check_failed

  -- Step 4.
  unfoldable pub verify : Text → Option Text → Io World (Unit {0})
  verify install_path backup_dir = do
    healthy ← attempt (health_check R settings (hbbs_port ∷ hbbr_port ∷ []))
    elim healthy [ ok u ↦ pure tt | err e ↦ recover install_path backup_dir e ]

  -- Steps 2 to 5.
  unfoldable pub perform : UpdateOptions → CheckUpdatesReport → Io World UpdateReport
  perform opts report = do
    at ← gets now
    backup_dir ← backup opts at
    new_state ← deploy opts at (map (new_pin at) report.images)
    verify opts.install_path backup_dir
    gc_deleted ← gc_backups R opts.install_path at
    pure (record {
      install_path = opts.install_path;
      changed = true;
      new_state = new_state;
      backup_dir = backup_dir;
      rolled_back = false;
      gc_deleted = gc_deleted;
    })

  -- Nothing to do.
  unfoldable pub unchanged : UpdateOptions → Io World UpdateReport
  unchanged opts = do
    state ← load_state R opts.install_path
    pure (record {
      install_path = opts.install_path;
      changed = false;
      new_state = state;
      backup_dir = none;
      rolled_back = false;
      gc_deleted = [];
    })

  unfoldable pub update : UpdateOptions → Io World UpdateReport
  update opts = do
    let confirmed = do
      report ← check_updates R opts.install_path
      if any_update_available report then perform opts report else unchanged opts
    if not opts.assume_yes && not opts.is_tty then raise relay_update_not_confirmed else confirmed
