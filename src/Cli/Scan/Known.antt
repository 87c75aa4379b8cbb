-- ===== src/Cli/Scan/Known.antt =====
-- crates/rustmote-cli/src/commands/target.rs, `run_scan`: what a scan says of each address.
use rustmote.Prelude.{◌≡◌, refl, ap, ◌∙◌, ◌⊎◌, inr, ℕ, Option, none, some, List, map}
use rustmote.Text.{Text}
use rustmote.Net.{IpAddr}
use rustmote.Places.{Places}
use rustmote.Disk.{Disk, Format}
use rustmote.Config.{Config}
use rustmote.Config.Store.{load}
use rustmote.Server.{RemoteServer}
use rustmote.Error.{ok}
use rustmote.Effect
use rustmote.Discovery
use rustmote.Discovery.{
  DiscoveredHost, MdnsFinding, Ipv4Net, Lan, Discovery, with_cidr, with_timeout, with_known_servers,
  or_nothing, auto_detect_cidr, chosen_cidr, scan, merge_results,
}
use rustmote.Discovery.Ordered.{IsOrdered, host_at}
use rustmote.Discovery.Said.{said_of}
use rustmote.Discovery.Merged.{told, merge_results-told}
use rustmote.Cli.{done}
use rustmote.Cli.Flow.{decide-done, >>=-done, within-ok}
use rustmote.Cli.Scan.{with_cidr_arg, budget_of, run_scan}

-- The addresses of the registered servers.
abbrev pub addresses : Config → List IpAddr
addresses cfg = map (λ (s : RemoteServer). s.host) cfg.servers

-- A scan of a network that is known or found gives what its sweeps found, merged.
scan-ran :
    {World : Type 0} (L : Lan World) (d : Discovery) (net : Ipv4Net) {w w' : World}
    (mdns : Option (List MdnsFinding)) (icmp : Option (List IpAddr))
    (arp : Option (List (IpAddr × Text)))
    → chosen_cidr L d.cidr ≡ ok net
    → L.sweeps net d.timeout w ≡ ((mdns, icmp, arp), w')
    → scan L d w ≡ (
      ok (merge_results d.known_servers (or_nothing mdns) (or_nothing icmp) (or_nothing arp)),
      w',
    )
unfolding scan Effect.◌>>=◌
scan-ran L d net mdns icmp arp chosen swept = rw (chosen, swept) refl

module _ (D : Disk) (F : Format Config) (places : Places) (L : Lan D.World)
    (parse : Text → Text ⊎ Ipv4Net) where
  -- The network of the argument, or without one the network of the machine.
  abbrev pub IsScanned : Option Text → Ipv4Net → Type 0
  IsScanned none net = auto_detect_cidr L ≡ ok net
  IsScanned (some c) net = parse c ≡ inr net

  -- The argument makes the driver scan its network.
  driver-scans :
      (cidr : Option Text) (net : Ipv4Net) (known : List IpAddr)
      → IsScanned cidr net
      → (d : Discovery) × (with_cidr_arg parse cidr (with_known_servers known Discovery.new)
          ≡ done d)
        × (chosen_cidr L d.cidr ≡ ok net)
        × (d.known_servers ≡ known)
  unfolding with_cidr_arg with_known_servers with_cidr chosen_cidr Discovery.new
  driver-scans none net known chosen = (_, refl, chosen, refl)
  driver-scans (some c) net known chosen = (
    with_cidr net (with_known_servers known Discovery.new),
    rw (with_cidr_arg, chosen) refl,
    refl,
    refl,
  )

  -- Where the configuration loads and there is a network, a scan succeeds whichever of the sweeps
  -- have failed; its hosts are in the order of their addresses, and what is there for an address is
  -- what the sweeps say of it, marked as a known server exactly if a registered server has it.
  pub run_scan-told :
      (cidr : Option Text) (timeout : Option ℕ) (cfg : Config) (net : Ipv4Net) (w w' w'' : D.World)
      (mdns : Option (List MdnsFinding)) (icmp : Option (List IpAddr))
      (arp : Option (List (IpAddr × Text)))
      → load D F places w ≡ (ok cfg, w')
      → IsScanned cidr net
      → L.sweeps net (budget_of timeout) w' ≡ ((mdns, icmp, arp), w'')
      → (hosts : List DiscoveredHost) × (run_scan D F places L parse cidr timeout w
          ≡ (done hosts, w''))
        × IsOrdered hosts
        × ((ip : IpAddr)
            → host_at ip hosts
              ≡ told
                  (addresses cfg)
                  ip
                  (said_of ip (or_nothing mdns) (or_nothing icmp) (or_nothing arp)))
  unfolding run_scan with_timeout
  run_scan-told cidr timeout cfg net w w' w'' mdns icmp arp loaded chosen swept =
      let known = addresses cfg in
      let (d, driven, on, marks) = driver-scans cidr net known chosen in
      let found = scan-ran L (with_timeout (budget_of timeout) d) net mdns icmp arp on swept in
      let (ordered, tells) =
        merge_results-told known (or_nothing mdns) (or_nothing icmp) (or_nothing arp) in
      (
        merge_results known (or_nothing mdns) (or_nothing icmp) (or_nothing arp),
        >>=-done _ _ (within-ok _ _ _ _ loaded)
            ∙ decide-done _ _ w' driven
            ∙ within-ok _ _ _ _ found
            ∙ ap
                (λ k. (
                  done (merge_results k (or_nothing mdns) (or_nothing icmp) (or_nothing arp)),
                  w'',
                ))
                marks,
        ordered,
        tells,
      )
