-- ===== src/Tests/Scan.antt =====
-- A scan of the machine's own network that finds a registered server and another host, where the ICMP
-- sweep does not end in time.
use rustmote.Prelude.{◌≡◌, refl, List, [], ◌∷◌, Option, none, some, inl, inr, ◌⊎◌, true, false}
use rustmote.Text.{Text, str, text_eq}
use rustmote.Net.{IpAddr, v4}
use rustmote.Error.{ok}
use rustmote.Effect
use rustmote.Places.{config_dir, config_path}
use rustmote.Disk
use rustmote.Disk.{Format}
use rustmote.Config.{Config, default_config}
use rustmote.Config.Store.{load, load_from}
use rustmote.Server.{new_server}
use rustmote.Discovery.{
  DiscoveredHost, MdnsFinding, Ipv4Net, Interface, Lan, network_of, first_network, auto_detect_cidr,
  or_nothing,
}
use rustmote.Discovery.Ordered.{IsOrdered, host_at}
use rustmote.Discovery.Said.{said_of}
use rustmote.Discovery.Merged.{told}
use rustmote.Cli.{done}
use rustmote.Cli.Scan.{run_scan}
use rustmote.Cli.Scan.Known.{addresses, run_scan-told}
use rustmote.Tests.Connect.{places}
use rustmote.Tests.Disk.{Files, disk, empty_disk, put}

abbrev with_relay : Config
with_relay = record default_config {
  servers = new_server 0 (str "relay") (v4 3) (str "root") 22 21116 ∷ [];
}

-- A format that knows one configuration.
abbrev format : Format Config
format = record { from_toml = λ raw. inr with_relay; to_toml = λ cfg. ok [] }

abbrev files : Files
files = put (str "/d/config.toml") (some (str "relay")) empty_disk

abbrev loopback : Interface
loopback = record { is_loopback = true; v4_addr = some (127, 8) }

abbrev wired : Interface
wired = record { is_loopback = false; v4_addr = some (1, 24) }

abbrev names : Option (List MdnsFinding)
names = some (record { ip = v4 9; hostname = some (str "voron") } ∷ [])

abbrev table : Option (List (IpAddr × Text))
table = some ((v4 3, str "00:11:22:33:44:55") ∷ [])

abbrev lan : Lan Files
lan = record {
  get_if_addrs = some (loopback ∷ wired ∷ []);
  new_net = λ addr prefix_len. some (record { addr = addr; prefix_len = prefix_len });
  trunc = λ net. record net { addr = 0 };
  sweeps = λ net budget w. ((names, none, table), w);
}

abbrev parse_cidr : Text → Text ⊎ Ipv4Net
parse_cidr c = inl c

abbrev network : Ipv4Net
network = record { addr = 0; prefix_len = 24 }

relay_loaded : load disk format places files ≡ (ok with_relay, files)
unfolding load load_from Disk.load_from Disk.parse Effect.◌>>=◌ config_path config_dir text_eq
relay_loaded = refl

detected : auto_detect_cidr lan ≡ ok network
unfolding auto_detect_cidr first_network network_of
detected = refl

run_scan-told_example :
    (hosts : List DiscoveredHost) × (run_scan disk format places lan parse_cidr none (some 5) files
      ≡ (done hosts, files))
    × IsOrdered hosts
    × ((ip : IpAddr)
        → host_at ip hosts
          ≡ told
              (addresses with_relay)
              ip
              (said_of ip (or_nothing names) (or_nothing {A = IpAddr} none) (or_nothing table)))
run_scan-told_example =
    run_scan-told disk format places lan parse_cidr none (some 5) with_relay network files files
      files names none table relay_loaded detected refl
