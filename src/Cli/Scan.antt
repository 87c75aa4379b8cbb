-- ===== src/Cli/Scan.antt =====
-- crates/rustmote-cli/src/commands/target.rs, `run_scan`: the command that looks for hosts, without its
-- output.
pub mod Known
use rustmote.Prelude.{◌⊎◌, inl, inr, ℕ, Option, none, some, List, map, ◌++◌}
use rustmote.Text.{Text, str}
use rustmote.Time.{Duration, from_secs}
use rustmote.Places.{Places}
use rustmote.Disk.{Disk, Format}
use rustmote.Config.{Config}
use rustmote.Config.Store.{load}
use rustmote.Server.{RemoteServer}
use rustmote.Discovery
use rustmote.Discovery.{
  DiscoveredHost, Ipv4Net, Lan, Discovery, with_cidr, with_timeout, with_known_servers,
  default_scan_timeout, scan,
}
use rustmote.Cli.{message, context, CliResult, done, failed}
use rustmote.Cli.Flow.{CliIo, decide, on_disk, ◌>>=◌}

-- `parse` is `Ipv4Net::from_str`: its error or the network.
unfoldable pub with_cidr_arg :
    (parse : Text → Text ⊎ Ipv4Net) → (cidr : Option Text) → Discovery → CliResult Discovery
with_cidr_arg parse none driver = done driver
with_cidr_arg parse (some c) driver = elim (parse c) [
  | inl e ↦ failed (context (str "parsing --cidr '" ++ c ++ str "'") (message e))
  | inr parsed ↦ done (with_cidr parsed driver)
]

abbrev pub budget_of : (timeout : Option ℕ) → Duration
budget_of none = default_scan_timeout
budget_of (some secs) = from_secs secs

-- The files and the network are in one world.
module _ (D : Disk) (F : Format Config) (places : Places) (L : Lan D.World)
    (parse : Text → Text ⊎ Ipv4Net) where
  unfoldable pub run_scan :
      (cidr : Option Text) (timeout : Option ℕ) → CliIo D.World (List DiscoveredHost)
  run_scan cidr timeout = do
    cfg ← on_disk (str "loading config") (load D F places)
    driver ← decide (
        with_cidr_arg parse cidr
          (with_known_servers (map (λ (s : RemoteServer). s.host) cfg.servers) Discovery.new))
    on_disk (str "running LAN discovery sweep") (scan L (with_timeout (budget_of timeout) driver))
