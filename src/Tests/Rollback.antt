-- ===== src/Tests/Rollback.antt =====
-- An update that is rolled back, on a host on which no port answers.
use rustmote.Prelude.{◌≡◌, refl, true, false, [], ◌∷◌, none, some, if◌then◌else◌}
use rustmote.Text.{
  parse_u64, trim_end_matches, byte_len, bytes, decimal, strip_prefix, str, split, starts_with,
  text_eq,
}
use rustmote.Error.{ok, err, relay_health_check_failed}
use rustmote.Effect.Fails.{Refuses-ok}
use rustmote.Relay.Commands.{
  pinned_image_ref, validate_digest, validate_repo, validate_tag, validate_remote_path, copy_file,
  write_file, mkdir_p, compose_up, compose_pull, compose_config, tcp_probe, test_file_exists,
  cat_file,
}
use rustmote.Relay.Remote.{Remote}
use rustmote.Relay.Health.{health_check, health_loop, probe_all, Settings}
use rustmote.Relay.Lifecycle.{any_update_available, update_available, UpdateOptions}
use rustmote.Relay.Lifecycle.Update.{
  backup, deploy, perform, recover, snapshot_config, verify, update,
}
use rustmote.Relay.Lifecycle.Update.Restored.{update-restores}
use rustmote.Effect.{attempt, ◌>>=◌}
use rustmote.Relay.Lifecycle.Check.{check_updates, check_pins, check_pin}
use rustmote.Relay.Steps.{load_state, path_exists, read_file, exec_ok}
use rustmote.Relay.Paths.{state_path, posix_join, backup_dir_for, backups_path, compose_path}
use rustmote.Session.Exec.{ok_for}
use rustmote.Relay.Compose.{render_compose_with_pins, render_from, replace_from}
use rustmote.Relay.Lifecycle.Rollback.{rollback}
use rustmote.Relay.Semver.{parse_dotted_numeric, pick_latest_semver}
use rustmote.Relay.State.{apply_update}
use rustmote.Tests.Disk.{Files}
use rustmote.Tests.HostFiles.{host, host-IsHost}
use rustmote.Tests.Lifecycle.{installed}

abbrev settings : Settings
settings = record { health_check_timeout = 0; health_check_interval = 1; polls = 3 }

abbrev options : UpdateOptions
options = record {
  install_path = str "/r";
  compose_template = str "image";
  services = str "hbbs" ∷ [];
  repo = str "rustdesk/rustdesk-server";
  assume_yes = true;
  is_tty = false;
  skip_backup = false;
  rustmote_version = str "0.1.0";
}

-- A compose file and a state file, and no other files.
abbrev running : Files
running path =
    if text_eq path (str "/r/docker-compose.yml")
    then some (str "compose")
    else if text_eq path (str "/r/.rustmote-state.toml")
    then some (str "state")
    else none

abbrev silent_host : Remote
silent_host = host 1 (λ raw. ok installed) (λ s. ok (str "new"))

abbrev end : Files
end = (update silent_host settings options running).1

rolled_back : update silent_host settings options running ≡ (err relay_health_check_failed, end)
unfolding update ◌>>=◌ check_updates load_state path_exists state_path posix_join trim_end_matches
    read_file exec_ok ok_for check_pins check_pin attempt pinned_image_ref validate_digest
    validate_repo validate_tag render_compose_with_pins render_from replace_from health_check
    health_loop probe_all rollback backup deploy perform recover snapshot_config verify
    any_update_available update_available backup_dir_for backups_path compose_path
    pick_latest_semver apply_update byte_len bytes decimal strip_prefix test_file_exists
    validate_remote_path starts_with split text_eq cat_file compose_config compose_pull compose_up
    copy_file mkdir_p tcp_probe write_file parse_dotted_numeric parse_u64
rolled_back = refl

update-restores_example :
    (end (compose_path (str "/r")) ≡ running (compose_path (str "/r")))
    × (end (state_path (str "/r")) ≡ running (state_path (str "/r")))
unfolding host-IsHost
update-restores_example =
    update-restores silent_host settings
      (host-IsHost 1 (λ raw. ok installed) (λ s. ok (str "new")) (λ raw. Refuses-ok _)
        (λ s. Refuses-ok _))
      options running end refl rolled_back
