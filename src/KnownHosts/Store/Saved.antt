-- ===== src/KnownHosts/Store/Saved.antt =====
-- Pinned keys that are saved.
use rustmote.Prelude.{◌≡◌, ◌≢◌, refl, ℕ}
use rustmote.Text.{Text, str}
use rustmote.Disk.{Disk, Format}
use rustmote.Disk.Atomic.{IsDisk, IsFormat, Saves, Hoare-save_beside}
use rustmote.KnownHosts.{KnownHosts, get}
use rustmote.KnownHosts.Store.{no_known_hosts, save_to}

-- The format may lose the order of the entries, and keeps what every endpoint is pinned to.
abbrev pub SamePins : KnownHosts → KnownHosts → Type 0
SamePins kh kh' = (host : Text) (port : ℕ) → get kh' host port ≡ get kh host port

-- Where the temporary file has another path, saving the pinned keys either succeeds, and the next load of the file gives the same pins, or
-- fails, at whatever step, and the file is as it was before.
pub save_to-SamePins :
    (D : Disk) (disk : IsDisk D) (F : Format KnownHosts) (format : IsFormat SamePins F)
    (path : Text) (kh : KnownHosts) (w : Disk.World D)
    → D.with_extension path (str "toml.tmp") ≢ path
    → Saves D disk F format no_known_hosts path kh (disk.file w path) (save_to D F kh path w)
unfolding save_to
save_to-SamePins D disk F format path kh w apart =
    (Hoare-save_beside D disk F format no_known_hosts path kh (disk.file w path) apart).at w refl
