-- ===== src/Relay/Lifecycle.antt =====
-- crates/rustmote-core/src/relay_lifecycle/mod.rs: what the operations of the lifecycle take and
-- return, and the operations in the modules below.
pub mod Check
pub mod Gc
pub mod Rollback
pub mod Update
pub mod Bootstrap
pub mod Status
use rustmote.Prelude.{Bool, not, Option, none, some, List, [], ◌∷◌, any}
use rustmote.Text.{Text, str, text_eq}
use rustmote.Relay.State.{RelayState}
use rustmote.Relay.OsRelease.{OsKind}

abbrev pub default_install_path : Text
default_install_path = str "/opt/rustmote-relay"

abbrev pub default_repo : Text
default_repo = str "rustdesk/rustdesk-server"

abbrev pub default_tag : Text
default_tag = str "1.1.11"

abbrev pub default_services : List Text
default_services = str "hbbs" ∷ str "hbbr" ∷ []

pub record BootstrapOptions : Type 0 where
  pub install_path : Text
  pub compose_template : Text
  pub env_contents : Text
  pub repo : Text
  pub tag : Text
  pub services : List Text
  pub rustmote_version : Text
  pub os_hint : Option OsKind

-- `BootstrapOptions::new`.
unfoldable pub new_bootstrap_options : Text → Text → Text → BootstrapOptions
new_bootstrap_options compose_template env_contents rustmote_version = record {
  install_path = default_install_path;
  compose_template = compose_template;
  env_contents = env_contents;
  repo = default_repo;
  tag = default_tag;
  services = default_services;
  rustmote_version = rustmote_version;
  os_hint = none;
}

pub record BootstrapReport : Type 0 where
  pub install_path : Text
  pub state : RelayState
  pub relay_public_key : Option Text
  pub already_installed : Bool
  pub detected_os : OsKind

pub record ImageUpdate : Type 0 where
  pub service : Text
  pub repo : Text
  pub current_tag : Text
  pub current_digest : Text
  pub latest_tag : Text
  pub latest_digest : Text

unfoldable pub update_available : ImageUpdate → Bool
update_available u = not (text_eq u.current_digest u.latest_digest)

pub record CheckUpdatesReport : Type 0 where
  pub install_path : Text
  pub images : List ImageUpdate

unfoldable pub any_update_available : CheckUpdatesReport → Bool
unfolding update_available
any_update_available r = any update_available r.images

pub record UpdateOptions : Type 0 where
  pub install_path : Text
  pub compose_template : Text
  pub services : List Text
  pub repo : Text
  pub assume_yes : Bool
  pub is_tty : Bool
  pub skip_backup : Bool
  pub rustmote_version : Text

pub record UpdateReport : Type 0 where
  pub install_path : Text
  pub changed : Bool
  pub new_state : RelayState
  pub backup_dir : Option Text
  pub rolled_back : Bool
  pub gc_deleted : List Text

pub record ContainerStatus : Type 0 where
  pub service : Text
  pub state : Text
  pub image : Option Text

pub record StatusReport : Type 0 where
  pub install_path : Text
  pub state : RelayState
  pub containers : List ContainerStatus
  pub relay_public_key : Option Text
