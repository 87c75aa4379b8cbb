-- ===== src/Tests/Install.antt =====
-- A bootstrap of an empty host.
use rustmote.Prelude.{
  ℕ, ◌≡◌, refl, ap, ◌∙◌, Bool, false, Option, none, some, List, [], ◌∷◌, ltb, all, arith,
  if◌then◌else◌, Bool-cases, inl, inr,
}
use rustmote.Text.{
  starts_with, split, text_eq, strip_prefix, decimal, encode_utf8, trim_end_matches, Text, str,
  bytes,
}
use rustmote.Text.Utf8.{IsAsciiTest, bytes_of_all}
use rustmote.Error.{Result, ok, err, config_serialize}
use rustmote.Effect.{attempt, ◌>>=◌}
use rustmote.Effect.Fails.{Refuses, Refuses-ok, Refuses-err}
use rustmote.Relay.Remote.{Remote}
use rustmote.Relay.State.{ImagePin, RelayState, new_bootstrap}
use rustmote.Relay.OsRelease.{debian}
use rustmote.Relay.Health.{health_check, health_loop, probe_all, Settings}
use rustmote.Relay.Host.{IsOther}
use rustmote.Relay.Steps.{
  ensure_docker_stack, path_exists, exec_ok, read_file, read_public_key, load_state,
}
use rustmote.Relay.Lifecycle.{BootstrapOptions, BootstrapReport}
use rustmote.Relay.Lifecycle.Bootstrap.{hinted_os, fresh, resolve_pins, bootstrap}
use rustmote.Relay.Lifecycle.Bootstrap.Loads.{bootstrap-loads}
use rustmote.Relay.Commands.{
  test_dir_exists, validate_remote_path, mkdir_p, cat_file, compose_up, tcp_probe, write_file,
}
use rustmote.Relay.Compose.{render_compose_with_pins, render_from}
use rustmote.Session.Exec.{ok_for}
use rustmote.Relay.Paths.{data_path, backups_path, compose_path, env_path, posix_join, state_path}
use rustmote.Tests.Disk.{Files, empty_disk}
use rustmote.Tests.HostFiles.{host, host-IsHost, host-IsStore}

abbrev is_ascii : ℕ → Bool
is_ascii c = ltb c 128

is_ascii_ascii : IsAsciiTest is_ascii
is_ascii_ascii c h = ground arith

-- A format for the states without pins of an install that was never updated.
abbrev to_toml_from : List ImagePin → Option ℕ → ℕ → Text → Result Text
to_toml_from (pin ∷ pins) updated at version = err (config_serialize [])
to_toml_from [] (some t) at version = err (config_serialize [])
to_toml_from [] none at version =
    if all is_ascii (at ∷ version) then ok (at ∷ version) else err (config_serialize [])

abbrev to_toml : RelayState → Result Text
to_toml s =
    to_toml_from s.images s.install.last_updated_at s.install.bootstrapped_at
      s.install.bootstrapped_by_rustmote_version

abbrev from_toml : Text → Result RelayState
from_toml [] = err (config_serialize [])
from_toml (at ∷ version) = ok (new_bootstrap at version [])

Refuses-from_toml : (raw : Text) → Refuses IsOther (from_toml raw)
Refuses-from_toml [] = Refuses-err _ (λ same. cc)
Refuses-from_toml (at ∷ version) = Refuses-ok _

Refuses-to_toml_from :
    (pins : List ImagePin) (updated : Option ℕ) (at : ℕ) (version : Text)
    → Refuses IsOther (to_toml_from pins updated at version)
Refuses-to_toml_from (pin ∷ pins) updated at version = Refuses-err _ (λ same. cc)
Refuses-to_toml_from [] (some t) at version = Refuses-err _ (λ same. cc)
Refuses-to_toml_from [] none at version = elim (Bool-cases (all is_ascii (at ∷ version))) [
  | inl fits ↦ rw fits (Refuses-ok _)
  | inr other ↦ rw other (Refuses-err _ (λ same. cc))
]

Refuses-to_toml : (s : RelayState) → Refuses IsOther (to_toml s)
Refuses-to_toml s = Refuses-to_toml_from s.images _ _ _

back_from :
    (pins : List ImagePin) (updated : Option ℕ) (at : ℕ) (version raw : Text)
    → to_toml_from pins updated at version ≡ ok raw
    → from_toml (bytes raw)
      ≡ ok (record {
        install = record {
          bootstrapped_at = at;
          bootstrapped_by_rustmote_version = version;
          last_updated_at = updated;
        };
        images = pins;
      })
unfolding new_bootstrap
back_from (pin ∷ pins) updated at version raw e = absurd cc
back_from [] (some t) at version raw e = absurd cc
back_from [] none at version raw e = elim (Bool-cases (all is_ascii (at ∷ version))) [
  | inl fits ↦
      let same : raw ≡ at ∷ version = ground (arith, fits) in
      ap (λ r. from_toml (bytes r)) same
      ∙ ap from_toml (bytes_of_all is_ascii is_ascii_ascii (at ∷ version) fits)
  | inr other ↦ absurd (ground (arith, other))
]

abbrev blank : Remote
blank = host 0 from_toml to_toml

abbrev settings : Settings
settings = record { health_check_timeout = 30; health_check_interval = 1; polls = 31 }

abbrev options : BootstrapOptions
options = record {
  install_path = str "/r";
  compose_template = str "services:";
  env_contents = str "RELAY=1";
  repo = str "rustdesk/rustdesk-server";
  tag = str "1.1.11";
  services = [];
  rustmote_version = str "0.1.0";
  os_hint = some debian;
}

abbrev report : BootstrapReport
report = record {
  install_path = str "/r";
  state = new_bootstrap 0 (str "0.1.0") [];
  relay_public_key = none;
  already_installed = false;
  detected_os = debian;
}

abbrev end : Files
end = (bootstrap blank settings options empty_disk).1

installed : bootstrap blank settings options empty_disk ≡ (ok report, end)
unfolding bootstrap ◌>>=◌ new_bootstrap bytes hinted_os ensure_docker_stack starts_with path_exists
    test_dir_exists validate_remote_path split text_eq strip_prefix fresh resolve_pins
    render_compose_with_pins mkdir_p exec_ok ok_for data_path attempt cat_file compose_up tcp_probe
    write_file render_from health_check health_loop probe_all backups_path compose_path env_path
    posix_join state_path read_file read_public_key decimal encode_utf8 trim_end_matches
installed = refl

bootstrap-loads_example : (v : Files) × (load_state blank (str "/r") end ≡ (ok report.state, v))
bootstrap-loads_example =
    bootstrap-loads blank settings
      (host-IsHost 0 from_toml to_toml Refuses-from_toml Refuses-to_toml)
      (host-IsStore 0 from_toml to_toml Refuses-from_toml Refuses-to_toml
        (λ s raw e. back_from s.images _ _ _ raw e))
      options report empty_disk end installed refl
