-- ===== src/Tests/Lifecycle.antt =====
-- The lifecycle on a host that answers every command, and notes that something was done once it is
-- given another command than those that only look.
use rustmote.Prelude.{
  ◌≡◌, refl, ℕ, suc, Bool, true, false, ◌||◌, ◌+◌, ◌≤◌, none, some, List, [], ◌∷◌, arith,
  if◌then◌else◌, ap, Bool-cases, inl, inr,
}
use rustmote.Prelude.Int.{pos, ◌≤ℤ◌}
use rustmote.Text.{Text, str, join, text_eq, split, starts_with, trim_end_matches, trim}
use rustmote.Error.{ok}
use rustmote.Effect.Keeps.{Keeps}
use rustmote.Session.Exec.{ExecOutput, ok_for}
use rustmote.Effect.{◌>>=◌, attempt}
use rustmote.Relay.Steps.{
  ensure_docker_stack, read_public_key, load_state, path_exists, read_file, exec_ok,
}
use rustmote.Relay.Paths.{state_path, data_path, posix_join}
use rustmote.Relay.Semver.{pick_latest_semver}
use rustmote.Relay.Commands.{test_dir_exists, test_file_exists, cat_file, validate_remote_path}
use rustmote.Relay.Commands.Argv.{Request, argv-build}
use rustmote.Relay.State.{RelayState}
use rustmote.Relay.Remote.{Remote}
use rustmote.Relay.Backups.{Entry, insert_entry, sort_entries}
use rustmote.Relay.Backups.Retention.{here, there, doomed_below_kept}
use rustmote.Relay.Health.{Settings, health_check}
use rustmote.Relay.Health.Bound.{IsClock, health_check-enough}
use rustmote.Relay.OsRelease.{debian}
use rustmote.Relay.Lifecycle.Bootstrap.{bootstrap, existing, hinted_os}
use rustmote.Relay.Lifecycle.Bootstrap.Existing.{bootstrap-already_installed}
use rustmote.Relay.Lifecycle.{
  BootstrapOptions, BootstrapReport, UpdateOptions, UpdateReport, any_update_available,
  update_available,
}
use rustmote.Relay.Lifecycle.Check.{check_updates, check_pin, check_pins}
use rustmote.Relay.Lifecycle.Check.Readonly.{
  IsLook, test_dir, test_file, cat, os_release, docker, compose_v2, compose_v1, IsSteady,
  check_updates-steady,
}
use rustmote.Relay.Lifecycle.Update.{update, unchanged}
use rustmote.Relay.Lifecycle.Update.Refused.{update-unchanged}

record Host : Type 0 where
  touched : Bool
  clock : ℕ

-- The words of a command that only looks.
abbrev is_look : List Text → Bool
is_look [] = false
is_look (w ∷ ws) =
    text_eq w (str "test")
    || text_eq w (str "cat")
    || text_eq w (str "command")
    || text_eq (join (str " ") ws) (str "compose version")
    || text_eq w (str "docker-compose")

abbrev pub answer : ExecOutput
answer = record { exit_code = 0; stdout = []; stderr = [] }

abbrev pub installed : RelayState
installed = record {
  install = record {
    bootstrapped_at = 0;
    bootstrapped_by_rustmote_version = str "0.1.0";
    last_updated_at = none;
  };
  images =
      record {
        service = str "hbbs";
        repo = str "rustdesk/rustdesk-server";
        tag = str "1.1.11";
        digest = str "sha256:00";
        pinned_at = 0;
      }
      ∷ [];
}

abbrev host : Remote
host = record {
  World = Host;
  exec = λ command w. (
    ok answer,
    if is_look (split command b' ') then w else record { touched = true; clock = w.clock },
  );
  now = λ w. w.clock;
  instant = λ w. w.clock;
  sleep = λ d w. record { touched = w.touched; clock = w.clock + d };
  list_tags = λ repo w. (ok (str "1.1.11" ∷ []), w);
  resolve_digest = λ repo tag w. (ok (str "sha256:00"), w);
  lossy = λ bytes. bytes;
  encode = λ bytes. bytes;
  to_lowercase = λ s. s;
  format = λ t. str "now";
  timestamp = pos;
  from_toml = λ raw hint. ok installed;
  to_toml = λ s. ok [];
}

abbrev IsUntouched : Host → Type 0
IsUntouched w = w.touched ≡ false

-- A command whose words begin with `test` or `cat` leaves the host alone.
Keeps-look :
    (command : Text) → is_look (split command b' ') ≡ true → Keeps IsUntouched (host.exec command)
Keeps-look command look = record { at = λ w untouched. rw look untouched }

look_of : (command : Text) → IsLook command → is_look (split command b' ') ≡ true
unfolding text_eq split join
look_of command (test_dir p e) = ap is_look (argv-build (Request.test_dir p) command e).0
look_of command (test_file p e) = ap is_look (argv-build (Request.test_file p) command e).0
look_of command (cat p e) = ap is_look (argv-build (Request.cat p) command e).0
look_of _ os_release = refl
look_of _ docker = refl
look_of _ compose_v2 = refl
look_of _ compose_v1 = refl

host-IsSteady : IsSteady host IsUntouched
host-IsSteady = record {
  look = λ command look. Keeps-look command (look_of command look);
  list_tags = λ repo. record { at = λ w untouched. untouched };
  resolve_digest = λ repo tag. record { at = λ w untouched. untouched };
}

abbrev fresh_host : Host
fresh_host = record { touched = false; clock = 5 }

check_updates-steady_example :
    IsUntouched (check_updates host (str "/opt/rustmote-relay") fresh_host).1
check_updates-steady_example =
    check_updates-steady host host-IsSteady (str "/opt/rustmote-relay") fresh_host refl

abbrev settings : Settings
settings = record { health_check_timeout = 30; health_check_interval = 1; polls = 31 }

abbrev options : Bool → UpdateOptions
options sure = record {
  install_path = str "/opt/rustmote-relay";
  compose_template = [];
  services = str "hbbs" ∷ [];
  repo = str "rustdesk/rustdesk-server";
  assume_yes = sure;
  is_tty = false;
  skip_backup = false;
  rustmote_version = str "0.1.0";
}

abbrev nothing_new : UpdateReport
nothing_new = record {
  install_path = str "/opt/rustmote-relay";
  changed = false;
  new_state = installed;
  backup_dir = none;
  rolled_back = false;
  gc_deleted = [];
}

nothing_new-update : update host settings (options true) fresh_host ≡ (ok nothing_new, fresh_host)
unfolding update ◌>>=◌ check_updates load_state path_exists test_file_exists validate_remote_path
    starts_with state_path posix_join trim_end_matches split join text_eq read_file cat_file exec_ok
    ok_for check_pins check_pin pick_latest_semver any_update_available update_available unchanged
nothing_new-update = refl

update-unchanged_example : IsUntouched fresh_host
update-unchanged_example =
    update-unchanged host settings host-IsSteady (options true) nothing_new fresh_host fresh_host
      refl nothing_new-update refl

-- A command takes no time on this host.
later_exec : (t : ℕ) (command : Text) (w : Host) → t ≤ w.clock → t ≤ (host.exec command w).1.clock
later_exec t command w later = elim (Bool-cases (is_look (split command b' '))) [
  | inl look ↦ rw look later
  | inr other ↦ rw other later
]

host-IsClock : IsClock host
host-IsClock = record {
  exec_later = λ t command. record { at = λ w later. later_exec t command w later };
  sleep_later = λ d w. ground arith;
}

health_check-enough_example :
    health_check host
      (record { health_check_timeout = 30; health_check_interval = 1; polls = suc 500 })
      (21116 ∷ 21117 ∷ [])
      fresh_host
    ≡ health_check host
        (record { health_check_timeout = 30; health_check_interval = 1; polls = suc 30 })
        (21116 ∷ 21117 ∷ [])
        fresh_host
health_check-enough_example =
    health_check-enough host host-IsClock 30 1 30 500 (21116 ∷ 21117 ∷ []) fresh_host (omega arith)
      (omega arith)

abbrev backup_at : ℕ → Entry
backup_at t = (pos t, str "/opt/rustmote-relay/backups/pre-update")

abbrev listing : List Entry
listing = backup_at 3 ∷ backup_at 9 ∷ backup_at 5 ∷ backup_at 7 ∷ []

-- The oldest of four goes, the newest stays.
doomed_below_kept_example : (pos 3 ≤ℤ pos 9) × (3 ≤ 3)
unfolding sort_entries insert_entry
doomed_below_kept_example =
    doomed_below_kept (pos 4) listing {i = 0} {j = 3} {e = backup_at 9} {f = backup_at 3} here
      (there (there (there here))) refl refl

abbrev bootstrap_options : BootstrapOptions
bootstrap_options = record {
  install_path = str "/opt/rustmote-relay";
  os_hint = some debian;
  services = str "hbbs" ∷ [];
  repo = str "rustdesk/rustdesk-server";
  tag = str "1.1.11";
  compose_template = [];
  env_contents = [];
  rustmote_version = str "0.1.0";
}

abbrev already_there : BootstrapReport
already_there = record {
  install_path = str "/opt/rustmote-relay";
  state = installed;
  relay_public_key = some [];
  already_installed = true;
  detected_os = debian;
}

bootstrap-runs :
    bootstrap host settings bootstrap_options fresh_host ≡ (ok already_there, fresh_host)
unfolding bootstrap existing hinted_os attempt ensure_docker_stack read_public_key ◌>>=◌ path_exists
    test_dir_exists test_file_exists validate_remote_path starts_with state_path data_path
    posix_join trim_end_matches trim split join text_eq read_file cat_file exec_ok ok_for
bootstrap-runs = refl

bootstrap-already_installed_example : IsUntouched fresh_host
bootstrap-already_installed_example =
    bootstrap-already_installed host settings host-IsSteady bootstrap_options already_there
      fresh_host fresh_host refl bootstrap-runs refl
