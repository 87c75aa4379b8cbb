-- ===== src/Relay/State.antt =====
-- crates/rustmote-core/src/relay_lifecycle/state.rs: what is installed on a relay. The TOML form is
-- made and read by the `toml` crate, which `Relay/Remote.antt` takes as a parameter.
use rustmote.Prelude.{Option, none, some, List, find}
use rustmote.Text.{Text, text_eq}
use rustmote.Time.{DateTime}

pub record InstallMetadata : Type 0 where
  pub bootstrapped_at : DateTime
  pub bootstrapped_by_rustmote_version : Text
  pub last_updated_at : Option DateTime

pub record ImagePin : Type 0 where
  pub service : Text
  pub repo : Text
  pub tag : Text
  pub digest : Text
  pub pinned_at : DateTime

pub record RelayState : Type 0 where
  pub install : InstallMetadata
  pub images : List ImagePin

unfoldable pub new_bootstrap : DateTime → Text → List ImagePin → RelayState
new_bootstrap at rustmote_version images = record {
  install = record {
    bootstrapped_at = at;
    bootstrapped_by_rustmote_version = rustmote_version;
    last_updated_at = none;
  };
  images = images;
}

unfoldable pub apply_update : List ImagePin → DateTime → RelayState → RelayState
apply_update new_images at s = record {
  install = record {
    bootstrapped_at = s.install.bootstrapped_at;
    bootstrapped_by_rustmote_version = s.install.bootstrapped_by_rustmote_version;
    last_updated_at = some at;
  };
  images = new_images;
}

unfoldable pub pin_for : RelayState → Text → Option ImagePin
pin_for s service = find (λ p. text_eq p.service service) s.images
