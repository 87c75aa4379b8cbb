-- ===== src/Relay/Paths.antt =====
-- crates/rustmote-core/src/relay_lifecycle/mod.rs, the path helpers. `backup_dir_for` takes the time
-- as the text that the `chrono` crate formats it to.
pub mod Valid
use rustmote.Prelude.{ℕ, ◌==◌, ◌∷◌, ◌++◌}
use rustmote.Text.{Text, str, trim_end_matches}

unfoldable pub posix_join : Text → Text → Text
posix_join base component = trim_end_matches (λ c. c == b'/') base ++ (b'/' ∷ component)

unfoldable pub compose_path : Text → Text
compose_path install_path = posix_join install_path (str "docker-compose.yml")

unfoldable pub env_path : Text → Text
env_path install_path = posix_join install_path (str ".env")

unfoldable pub state_path : Text → Text
state_path install_path = posix_join install_path (str ".rustmote-state.toml")

unfoldable pub data_path : Text → Text
data_path install_path = posix_join install_path (str "data")

unfoldable pub backups_path : Text → Text
backups_path install_path = posix_join install_path (str "backups")

unfoldable pub backup_dir_for : Text → Text → Text
backup_dir_for install_path suffix =
    posix_join (backups_path install_path) (str "pre-update-" ++ suffix)
