-- ===== src/Discovery/Merged.antt =====
-- crates/rustmote-core/src/discovery.rs, `merge_results`: what it says of each address.
use rustmote.Prelude.{
  ◌≡◌, refl, ap, ◌∙◌, inl, inr, Option, none, some, List, [], ◌∷◌, any, Bool-cases, if◌then◌else◌,
}
use rustmote.Text.{Text}
use rustmote.Net.{IpAddr, ip_eq, ip_eq_iff}
use rustmote.Discovery.{
  DiscoveredHost, MdnsFinding, fresh_host, upsert, upsert_all, set_hostname, set_mac, merge_results,
}
use rustmote.Discovery.Said.{
  Said, or_nothing_said, said_after, by_mdns, by_icmp, by_arp, said_of, said_after_all,
}
use rustmote.Discovery.Ordered.{
  IsOrdered, KeepsIp, host_at, or_fresh, upsert-IsOrdered, host_at-upsert,
}

module _ (known : List IpAddr) (ip : IpAddr) where
  abbrev pub host_of : Said → DiscoveredHost
  host_of (hostname, mac) = record {
    ip = ip;
    hostname = hostname;
    mac = mac;
    is_known_server = any (ip_eq ip) known;
  }

  -- The host, if anything is said of it.
  abbrev pub told : Option Said → Option DiscoveredHost
  told none = none
  told (some said) = some (host_of said)

  or_fresh-told :
      (a : IpAddr) (said : Option Said)
      → a ≡ ip
      → or_fresh known a (told said) ≡ host_of (or_nothing_said said)
  or_fresh-told a none same = ap (fresh_host known) same
  or_fresh-told a (some said) same = refl

module _ (known : List IpAddr) {F : Type 0} (ip_of : F → IpAddr)
    (change : F → DiscoveredHost → DiscoveredHost) (keeps : (f : F) → KeepsIp (change f)) where
  upsert_all-IsOrdered :
      (fs : List F) (hosts : List DiscoveredHost)
      → IsOrdered hosts
      → IsOrdered (upsert_all known ip_of change fs hosts)
  unfolding upsert_all
  upsert_all-IsOrdered [] hosts ordered = ordered
  upsert_all-IsOrdered (f ∷ rest) hosts ordered =
      upsert_all-IsOrdered rest _
        (upsert-IsOrdered known (ip_of f) (change f) (keeps f) hosts ordered)

  module _ (effect : F → Said → Said) (ip : IpAddr)
      (says : (f : F) (said : Said)
        → change f (host_of known ip said) ≡ host_of known ip (effect f said)) where
    upsert-told :
        (f : F) (hosts : List DiscoveredHost) (said : Option Said)
        → IsOrdered hosts
        → host_at ip hosts ≡ told known ip said
        → host_at ip (upsert known (ip_of f) (change f) hosts)
          ≡ told known ip
              (if ip_eq (ip_of f) ip then some (effect f (or_nothing_said said)) else said)
    upsert-told f hosts said ordered is_told =
        let found = host_at-upsert known (ip_of f) (change f) (keeps f) hosts ip ordered in
        elim (Bool-cases (ip_eq (ip_of f) ip)) [
          | inl here ↦
              let same : ip_of f ≡ ip = (ip_eq_iff (ip_of f) ip).0 here in
              let before : host_at (ip_of f) hosts ≡ told known ip said =
                ap (λ a. host_at a hosts) same ∙ is_told in
              let changed =
                ap (or_fresh known (ip_of f)) before ∙ or_fresh-told known ip (ip_of f) said same in
              rw here (
                found
                ∙ rw here
                    (ap (λ h. some (change f h)) changed ∙ ap some (says f (or_nothing_said said))))
          | inr other ↦ rw (other) (found ∙ rw other is_told)
        ]

    host_at-upsert_all :
        (fs : List F) (hosts : List DiscoveredHost) (said : Option Said)
        → IsOrdered hosts
        → host_at ip hosts ≡ told known ip said
        → host_at ip (upsert_all known ip_of change fs hosts)
          ≡ told known ip (said_after ip_of effect ip fs said)
    unfolding upsert_all
    host_at-upsert_all [] hosts said ordered is_told = is_told
    host_at-upsert_all (f ∷ rest) hosts said ordered is_told =
        host_at-upsert_all rest _ _
          (upsert-IsOrdered known (ip_of f) (change f) (keeps f) hosts ordered)
          (upsert-told f hosts said ordered is_told)

-- The merged hosts are in the order of their addresses, each once, and what is there for an address
-- is what the findings say: the first name that mDNS gave it, the first MAC address of the table,
-- and whether it is a known server; no finding, no host.
pub merge_results-told :
    (known : List IpAddr) (mdns : List MdnsFinding) (icmp : List IpAddr)
    (arp : List (IpAddr × Text))
    → IsOrdered (merge_results known mdns icmp arp)
      × ((ip : IpAddr)
          → host_at ip (merge_results known mdns icmp arp)
            ≡ told known ip (said_of ip mdns icmp arp))
unfolding merge_results
merge_results-told known mdns icmp arp =
    let by_name = λ (f : MdnsFinding). f.ip in
    let names = λ (f : MdnsFinding). set_hostname f.hostname in
    let first = upsert_all-IsOrdered known by_name names (λ f h. refl) mdns [] tt in
    let second =
      upsert_all-IsOrdered known (λ (a : IpAddr). a) (λ a h. h) (λ a h. refl) icmp _ first in
    let third =
      upsert_all-IsOrdered known (λ (e : IpAddr × Text). e.0) (λ e. set_mac e.1) (λ e h. refl) arp _
        second in
    (
      third,
      λ ip.
          host_at-upsert_all known (λ (e : IpAddr × Text). e.0) (λ e. set_mac e.1) (λ e h. refl)
            by_arp ip (λ e said. refl) arp _ _ second
            (host_at-upsert_all known (λ (a : IpAddr). a) (λ a h. h) (λ a h. refl) by_icmp ip
              (λ a said. refl) icmp _ _ first
              (host_at-upsert_all known by_name names (λ f h. refl) by_mdns ip (λ f said. refl) mdns
                [] none tt refl))
          ∙ ap (told known ip) (said_after_all ip mdns icmp arp),
    )
