-- ===== src/KnownHosts/Store.antt =====
-- crates/rustmote-core/src/session/known_hosts.rs, `KnownHosts::load` and `KnownHosts::save`.
pub mod Saved
use rustmote.Prelude.{[]}
use rustmote.Text.{Text}
use rustmote.Effect.{Io, lift, ◌>>=◌}
use rustmote.Places.{Places, known_hosts_path}
use rustmote.Disk
use rustmote.Disk.{Disk, Format}
use rustmote.KnownHosts.{KnownHosts}

-- `Default`.
abbrev pub no_known_hosts : KnownHosts
no_known_hosts = record { entries = [] }

module _ (D : Disk) (F : Format KnownHosts) where
  unfoldable pub load_from : Text → Io (Disk.World D) KnownHosts
  load_from path = Disk.load_from D F no_known_hosts path

  unfoldable pub save_to : KnownHosts → Text → Io (Disk.World D) (Unit {0})
  save_to kh path = Disk.save_beside D F kh path

  unfoldable pub load : Places → Io (Disk.World D) KnownHosts
  load places = do path ← lift (known_hosts_path places); load_from path

  unfoldable pub save : Places → KnownHosts → Io (Disk.World D) (Unit {0})
  save places kh = do path ← lift (known_hosts_path places); save_to kh path
