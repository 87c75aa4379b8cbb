-- ===== src/Config.antt =====
-- crates/rustmote-core/src/config.rs: the configuration that is kept on disk.
pub mod Store
use rustmote.Prelude.{Option, none, some, List, [], ◌∷◌}
use rustmote.Text.{Text}
use rustmote.CredentialMode.{CredentialMode, prompt}
use rustmote.Server.{RemoteServer}
use rustmote.Target.{Target}

pub record GeneralConfig : Type 0 where
  pub credential_mode : CredentialMode
  pub default_server : Option Text
  pub viewer_path : Text

pub record Config : Type 0 where
  pub general : GeneralConfig
  pub servers : List RemoteServer
  pub targets : List Target

-- `Default`.
abbrev pub default_config : Config
default_config = record {
  general = record { credential_mode = prompt; default_server = none; viewer_path = [] };
  servers = [];
  targets = [];
}

-- An empty `viewer_path` means that there is no override.
unfoldable pub viewer_override : GeneralConfig → Option Text
viewer_override g = elim g.viewer_path [ [] ↦ none | c ∷ rest ↦ some (c ∷ rest) ]
