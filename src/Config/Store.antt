-- ===== src/Config/Store.antt =====
-- crates/rustmote-core/src/config.rs, `Config::load` and `Config::save`.
pub mod Saved
use rustmote.Prelude.{◌++◌}
use rustmote.Text.{Text, str}
use rustmote.Effect.{Io, lift, ◌>>=◌, ◌>>◌}
use rustmote.Places.{Places, config_path}
use rustmote.Disk
use rustmote.Disk.{Disk, Format, make_parent, replace}
use rustmote.Config.{Config, default_config}

unfoldable pub tmp_path : Text → Text
tmp_path path = path ++ str ".tmp"

module _ (D : Disk) (F : Format Config) where
  unfoldable pub load_from : Text → Io (Disk.World D) Config
  load_from path = Disk.load_from D F default_config path

  unfoldable pub save_to : Config → Text → Io (Disk.World D) (Unit {0})
  save_to cfg path = do
    serialized ← lift (Format.to_toml F cfg)
    make_parent D (D.parent path)
    replace D (tmp_path path) path serialized

  unfoldable pub load : Places → Io (Disk.World D) Config
  load places = do path ← lift (config_path places); load_from path

  unfoldable pub save : Places → Config → Io (Disk.World D) (Unit {0})
  save places cfg = do path ← lift (config_path places); save_to cfg path
