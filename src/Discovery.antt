-- ===== src/Discovery.antt =====
-- crates/rustmote-core/src/discovery.rs: how what the sweeps find is merged, the ARP table, and the
-- choice of the network. The sweeps themselves are network I/O and parameters.
pub mod Arp
pub mod Ordered
pub mod Said
pub mod Merged
use rustmote.Prelude.{ℕ, Bool, true, false, Option, none, some, List, [], ◌∷◌, any, if◌then◌else◌}
use rustmote.Text.{Text}
use rustmote.Time.{Duration, from_secs}
use rustmote.Net.{IpAddr, ip_eq, ip_lt}
use rustmote.Error.{Result, ok, err, discovery_no_interface}
use rustmote.Effect.{Io, lift, ◌>>=◌}

pub record DiscoveredHost : Type 0 where
  pub ip : IpAddr
  pub hostname : Option Text
  pub mac : Option Text
  pub is_known_server : Bool

pub record MdnsFinding : Type 0 where
  pub ip : IpAddr
  pub hostname : Option Text

module _ (known : List IpAddr) where
  -- What `or_insert_with` makes.
  abbrev pub fresh_host : IpAddr → DiscoveredHost
  fresh_host ip = record {
    ip = ip;
    hostname = none;
    mac = none;
    is_known_server = any (ip_eq ip) known;
  }

  -- `by_ip.entry(ip).or_insert_with(..)` and the change of the host, on the hosts of the `BTreeMap`
  -- in the order of their addresses.
  unfoldable pub upsert :
      IpAddr → (DiscoveredHost → DiscoveredHost) → List DiscoveredHost → List DiscoveredHost
  upsert ip change [] = change (fresh_host ip) ∷ []
  upsert ip change (h ∷ hosts) =
      let rest = upsert ip change hosts in
      if ip_eq ip h.ip
      then change h ∷ hosts
      else if ip_lt ip h.ip
      then change (fresh_host ip) ∷ h ∷ hosts
      else h ∷ rest

-- `if host.hostname.is_none() { host.hostname = .. }`, and so for the MAC address.
abbrev pub or_else : Option Text → Option Text → Option Text
or_else none new = new
or_else (some old) new = some old

abbrev pub set_hostname : Option Text → DiscoveredHost → DiscoveredHost
set_hostname name h = record h { hostname = or_else h.hostname name }

abbrev pub set_mac : Text → DiscoveredHost → DiscoveredHost
set_mac mac h = record h { mac = or_else h.mac (some mac) }

module _ (known : List IpAddr) where
  -- A loop over what a sweep found: each finding changes the host at its address.
  unfoldable pub upsert_all :
      {F : Type 0}
      → (F → IpAddr)
      → (F → DiscoveredHost → DiscoveredHost)
      → List F
      → List DiscoveredHost
      → List DiscoveredHost
  upsert_all ip_of change [] hosts = hosts
  upsert_all ip_of change (f ∷ rest) hosts =
      upsert_all ip_of change rest (upsert known (ip_of f) (change f) hosts)

  abbrev pub merge_mdns : List MdnsFinding → List DiscoveredHost → List DiscoveredHost
  merge_mdns = upsert_all (λ f. f.ip) (λ f. set_hostname f.hostname)

  abbrev pub merge_icmp : List IpAddr → List DiscoveredHost → List DiscoveredHost
  merge_icmp = upsert_all (λ ip. ip) (λ ip h. h)

  abbrev pub merge_arp : List (IpAddr × Text) → List DiscoveredHost → List DiscoveredHost
  merge_arp = upsert_all (λ (e : IpAddr × Text). e.0) (λ (e : IpAddr × Text). set_mac e.1)

  unfoldable pub merge_results :
      List MdnsFinding → List IpAddr → List (IpAddr × Text) → List DiscoveredHost
  merge_results mdns icmp arp = merge_arp arp (merge_icmp icmp (merge_mdns mdns []))

-- `ipnet::Ipv4Net`
pub record Ipv4Net : Type 0 where
  pub addr : ℕ
  pub prefix_len : ℕ

-- An interface: whether it is a loopback, and its IPv4 address with the prefix if it has one.
pub record Interface : Type 0 where
  pub is_loopback : Bool
  pub v4_addr : Option (ℕ × ℕ)

-- The calls of the crates: the interfaces, where they can be listed; `Ipv4Net::new`, which refuses
-- some prefixes, and `trunc`; and the sweeps, each with a budget that it may exceed.
pub record Lan (World : Type 0) : Type 0 where
  pub get_if_addrs : Option (List Interface)
  pub new_net : (addr prefix_len : ℕ) → Option Ipv4Net
  pub trunc : Ipv4Net → Ipv4Net
  pub sweeps :
      Ipv4Net
      → Duration
      → World
      → (Option (List MdnsFinding) × Option (List IpAddr) × Option (List (IpAddr × Text))) × World

abbrev pub default_scan_timeout : Duration
default_scan_timeout = from_secs 9

pub record Discovery : Type 0 where
  pub cidr : Option Ipv4Net
  pub timeout : Duration
  pub known_servers : List IpAddr

unfoldable pub new : Discovery
new = record { cidr = none; timeout = default_scan_timeout; known_servers = [] }

unfoldable pub with_cidr : Ipv4Net → Discovery → Discovery
with_cidr cidr d = record d { cidr = some cidr }

unfoldable pub with_timeout : Duration → Discovery → Discovery
with_timeout timeout d = record d { timeout = timeout }

unfoldable pub with_known_servers : List IpAddr → Discovery → Discovery
with_known_servers servers d = record d { known_servers = servers }

-- `unwrap_or_default`
abbrev pub or_nothing : {A : Type 0} → Option (List A) → List A
or_nothing none = []
or_nothing (some xs) = xs

module _ {World : Type 0} (L : Lan World) where
  unfoldable pub network_of : Interface → Option Ipv4Net
  network_of iface = elim iface.v4_addr [
    | none ↦ none
    | some (addr, prefix_len) ↦ L.new_net addr prefix_len
  ]

  unfoldable pub first_network : List Interface → Result Ipv4Net
  unfolding network_of
  first_network [] = err discovery_no_interface
  first_network (iface ∷ rest) =
      let others = first_network rest in
      if iface.is_loopback
      then others
      else elim (network_of iface) [ some net ↦ ok (L.trunc net) | none ↦ others ]

  unfoldable pub auto_detect_cidr : Result Ipv4Net
  unfolding first_network
  auto_detect_cidr = elim L.get_if_addrs [
    | none ↦ err discovery_no_interface
    | some ifaces ↦ first_network ifaces
  ]

  unfoldable pub chosen_cidr : Option Ipv4Net → Result Ipv4Net
  chosen_cidr (some c) = ok c
  chosen_cidr none = auto_detect_cidr

  unfoldable pub scan : Discovery → Io World (List DiscoveredHost)
  scan d = do
    cidr ← lift (chosen_cidr d.cidr)
    λ w.
        let ((mdns, icmp, arp), w') = L.sweeps cidr d.timeout w in
        (
          ok (merge_results d.known_servers (or_nothing mdns) (or_nothing icmp) (or_nothing arp)),
          w',
        )
