-- ===== src/Relay/Lifecycle/Update/BackedUp.antt =====
-- Steps 2 and 3 of `update`: the backup holds the files that were there, and the new ones are written
-- beside it.
use rustmote.Prelude.{◌≡◌, ◌≢◌, refl, sym, ℕ, false, Option, some, List, ◌==◌}
use rustmote.Text.{Text, str, bytes}
use rustmote.Time.{DateTime}
use rustmote.Effect.Keeps.{Keeps, Keeps-bind, Keeps-both, Keeps-if, Keeps-lift, Keeps-pure}
use rustmote.Effect.Hoare.{Hoare, Hoare-bind, Hoare-kept, Hoare-pure, Hoare-weaken}
use rustmote.Effect.Fails.{Fails, Fails-bind, Fails-if, Fails-lift, Fails-pure, Hoare-Fails}
use rustmote.Relay.Commands.{write_file, compose_config, compose_pull, compose_up}
use rustmote.Relay.Paths.{posix_join, compose_path, state_path, backup_dir_for}
use rustmote.Relay.State.{ImagePin}
use rustmote.Relay.Remote.{Remote}
use rustmote.Relay.Steps.{exec_built}
use rustmote.Relay.Health.{Settings}
use rustmote.Relay.Lifecycle.{UpdateOptions}
use rustmote.Relay.Lifecycle.Check.Readonly.{Keeps-built, Keeps-load_state}
use rustmote.Relay.Lifecycle.Update.{snapshot_config, backup, deploy}
use rustmote.Relay.Host.{IsHost, IsOther, makes_dir, shows, pulls, backed_up}
use rustmote.Relay.Host.Apart.{
  compose-ne-state, config-ne-compose, config-ne-state, tmp-ne-compose, tmp-ne-state,
  install-ne-backup,
}
use rustmote.Relay.Host.Refused.{
  Refuses-mkdir_p, Refuses-write_file, Refuses-compose_config, Refuses-compose_pull,
  Refuses-compose_up, Refuses-render,
}
use rustmote.Relay.Host.Steps.{
  Pair, host-IsSteady, Fails-exec_built, Fails-exec_raw, Fails-load_state, Hoare-kept_by,
  Keeps-exec_built, Hoare-copied,
}

module _ (R : Remote) (settings : Settings) (host : IsHost R) (c s : Option (List ℕ)) where
  abbrev World : Type 0
  World = Remote.World R

  -- The compose file and the state file of a folder.
  abbrev pub Holds : (dir : Text) → World → Type 0
  Holds dir =
      Pair R host (posix_join dir (str "docker-compose.yml"))
        (posix_join dir (str ".rustmote-state.toml")) c s

  Keeps-write :
      (dst dir : Text) (content : List ℕ)
      → dst ≢ posix_join dir (str "docker-compose.yml")
      → dst ≢ posix_join dir (str ".rustmote-state.toml")
      → Keeps (Holds dir) (exec_built R (write_file R.encode dst content))
  Keeps-write dst dir content ne ne' = Keeps-exec_built R host _ _ c s _ (λ command e.
      Keeps-both _ (host.write_keeps dst content command _ c e ne (tmp-ne-compose dst dir))
        (host.write_keeps dst content command _ s e ne' (tmp-ne-state dst dir)))

  Keeps-snapshot_config :
      (install_path dir : Text) → Keeps (Holds dir) (snapshot_config R settings install_path dir)
  unfolding snapshot_config
  Keeps-snapshot_config install_path dir =
      Keeps-bind _ _
        (Keeps-built R (host-IsSteady R host _ _ c s) (compose_config install_path) _ (λ command e.
          Keeps-both _ (host.calm_keeps command _ c (shows install_path e))
            (host.calm_keeps command _ s (shows install_path e))))
        (λ cfg.
          Keeps-if (cfg.exit_code == 0) _ _
            (Keeps-bind _ _
              (Keeps-write _ dir cfg.stdout (config-ne-compose dir dir) (config-ne-state dir dir))
              (λ out. Keeps-pure tt))
            (Keeps-pure tt))

  Fails-snapshot_config :
      (install_path dir : Text) → Fails IsOther (snapshot_config R settings install_path dir)
  unfolding snapshot_config
  Fails-snapshot_config install_path dir =
      Fails-bind _ _ (Fails-exec_raw R host _ (Refuses-compose_config install_path)) (λ cfg.
        Fails-if (cfg.exit_code == 0) _ _
          (Fails-bind _ _ (Fails-exec_built R host _ (Refuses-write_file R.encode _ cfg.stdout))
            (λ out. Fails-pure tt))
          (Fails-pure tt))

  -- A backup that is made holds the two files.
  pub Hoare-backup :
      (opts : UpdateOptions) (at : DateTime)
      → opts.skip_backup ≡ false
      → Hoare
          (Holds opts.install_path)
          (backup R settings opts at)
          (λ dir w.
            (dir ≡ some (backup_dir_for opts.install_path (R.format at)))
            × Holds (backup_dir_for opts.install_path (R.format at)) w)
          (λ e w. IsOther e)
  unfolding backup compose_path state_path
  Hoare-backup opts at wanted =
      let from = opts.install_path in
      let dir = backup_dir_for from (R.format at) in
      rw wanted (
        Hoare-bind _ _
          (Hoare-kept_by R host _ _ c s _ (Refuses-mkdir_p dir) (λ command e.
            Keeps-both _ (host.calm_keeps command _ c (makes_dir dir e))
              (host.calm_keeps command _ s (makes_dir dir e))))
          (λ out. Hoare-bind _ _ (Hoare-copied R host _ _ _ c s (compose-ne-state dir from)) (λ out.
            Hoare-bind _ _
              (Hoare-weaken _
                (Hoare-copied R host _ _ _ s c (λ same. compose-ne-state dir dir (sym same)))
                (λ w both. (both.1, both.0)) (λ out w both. (both.1, both.0)) (λ e w other. other))
              (λ out.
                Hoare-bind _ _
                  (Hoare-Fails _ (Hoare-kept _ (Keeps-snapshot_config from dir))
                    (Fails-snapshot_config from dir))
                  (λ u. Hoare-pure _ (λ w saved. (refl, saved)))))))

  -- Deploying new files leaves the backup as it is.
  Keeps-deploy :
      (opts : UpdateOptions) (at : DateTime) (new_pins : List ImagePin) (suffix : Text)
      → Keeps (Holds (backup_dir_for opts.install_path suffix)) (deploy R settings opts at new_pins)
  unfolding deploy compose_path state_path
  Keeps-deploy opts at new_pins suffix =
      let from = opts.install_path in
      let dir = backup_dir_for from suffix in
      Keeps-bind _ _ (Keeps-load_state R (host-IsSteady R host _ _ c s) from) (λ state.
        Keeps-bind _ _ (Keeps-lift _) (λ new_compose.
          Keeps-bind _ _
            (Keeps-write _ dir (bytes new_compose) (install-ne-backup from suffix _)
              (compose-ne-state from dir))
            (λ out. Keeps-bind _ _ (Keeps-lift _) (λ toml.
              Keeps-bind _ _
                (Keeps-write _ dir (bytes toml) (λ same. compose-ne-state dir from (sym same))
                  (install-ne-backup from suffix _))
                (λ out.
                  Keeps-bind _ _
                    (Keeps-exec_built R host _ _ c s (compose_pull from) (λ command e.
                      Keeps-both _ (host.calm_keeps command _ c (pulls from e))
                        (host.calm_keeps command _ s (pulls from e))))
                    (λ out.
                      Keeps-bind _ _
                        (Keeps-exec_built R host _ _ c s (compose_up from) (λ command e.
                          Keeps-both _ (host.up_keeps from command _ c e (backed_up suffix _))
                            (host.up_keeps from command _ s e (backed_up suffix _))))
                        (λ out. Keeps-pure _)))))))

  Fails-deploy :
      (opts : UpdateOptions) (at : DateTime) (new_pins : List ImagePin)
      → Fails IsOther (deploy R settings opts at new_pins)
  unfolding deploy
  Fails-deploy opts at new_pins =
      let from = opts.install_path in
      let run = Fails-exec_built R host in
      Fails-bind _ _ (Fails-load_state R host from) (λ state.
        Fails-bind _ _ (Fails-lift _ (Refuses-render opts.compose_template new_pins))
          (λ new_compose.
            Fails-bind _ _ (run _ (Refuses-write_file R.encode _ (bytes new_compose))) (λ out.
              Fails-bind _ _ (Fails-lift _ (host.to_toml_refuses _)) (λ toml.
                Fails-bind _ _ (run _ (Refuses-write_file R.encode _ (bytes toml))) (λ out.
                  Fails-bind _ _ (run _ (Refuses-compose_pull from)) (λ out.
                    Fails-bind _ _ (run _ (Refuses-compose_up from)) (λ out. Fails-pure _)))))))

  pub Hoare-deploy :
      (opts : UpdateOptions) (at : DateTime) (new_pins : List ImagePin) (suffix : Text)
      → let dir = backup_dir_for opts.install_path suffix in
        Hoare
          (Holds dir)
          (deploy R settings opts at new_pins)
          (λ state w. Holds dir w)
          (λ e w. IsOther e)
  Hoare-deploy opts at new_pins suffix =
      Hoare-Fails _ (Hoare-kept _ (Keeps-deploy opts at new_pins suffix))
        (Fails-deploy opts at new_pins)
