-- ===== src/Places.antt =====
-- Where the program keeps its files: the environment and the `directories` crate are parameters.
use rustmote.Prelude.{Option, none, some}
use rustmote.Text.{Text, str}
use rustmote.Error.{Result, ok, err, no_config_dir, ◌>>=◌}

pub record Places : Type 0 where
  -- `var_os` at `RUSTMOTE_CONFIG_DIR` and at `RUSTMOTE_CACHE_DIR`
  pub config_override : Option Text
  pub cache_override : Option Text
  -- `config_dir` and `cache_dir` of `ProjectDirs::from`, and `env::home_dir`
  pub project_config_dir : Option Text
  pub project_cache_dir : Option Text
  pub home_dir : Option Text
  -- `Path::join`
  pub join : Text → Text → Text

-- The override, or else the folder of the platform.
abbrev choose : Option Text → Option Text → Result Text
choose (some dir) project = ok dir
choose none (some dir) = ok dir
choose none none = err no_config_dir

abbrev pub config_file_name : Text
config_file_name = str "config.toml"

abbrev pub credentials_file_name : Text
credentials_file_name = str "credentials.toml"

abbrev pub known_hosts_file_name : Text
known_hosts_file_name = str "known_hosts.toml"

abbrev pub cache_file_name : Text
cache_file_name = str "docker-hub-cache.toml"

module _ (P : Places) where
  unfoldable pub config_dir : Result Text
  config_dir = choose P.config_override P.project_config_dir

  unfoldable pub config_path : Result Text
  config_path = do dir ← config_dir; ok (P.join dir config_file_name)

  unfoldable pub credentials_path : Result Text
  credentials_path = do dir ← config_dir; ok (P.join dir credentials_file_name)

  unfoldable pub known_hosts_path : Result Text
  known_hosts_path = do dir ← config_dir; ok (P.join dir known_hosts_file_name)

  unfoldable pub cache_dir : Result Text
  cache_dir = choose P.cache_override P.project_cache_dir

  unfoldable pub cache_path : Result Text
  cache_path = do dir ← cache_dir; ok (P.join dir cache_file_name)
