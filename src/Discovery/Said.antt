-- ===== src/Discovery/Said.antt =====
-- crates/rustmote-core/src/discovery.rs: what the findings of the sweeps say of one address.
use rustmote.Prelude.{
  ◌≡◌, refl, sym, ap, ◌∙◌, inl, inr, false, ◌||◌, Option, none, some, List, [], ◌∷◌, any, arith,
  Bool-cases, if◌then◌else◌,
}
use rustmote.Text.{Text}
use rustmote.Net.{IpAddr, ip_eq}
use rustmote.Discovery.{MdnsFinding, or_else}

-- What is said of a host besides its address.
abbrev pub Said : Type 0
Said = Option Text × Option Text

abbrev pub or_nothing_said : Option Said → Said
or_nothing_said none = (none, none)
or_nothing_said (some said) = said

module _ {F : Type 0} (ip_of : F → IpAddr) (effect : F → Said → Said) (ip : IpAddr) where
  -- What is said after the findings.
  abbrev pub said_after : List F → Option Said → Option Said
  said_after [] said = said
  said_after (f ∷ rest) said =
      said_after rest (if ip_eq (ip_of f) ip then some (effect f (or_nothing_said said)) else said)

-- The first name that an mDNS finding gives an address, and the first MAC address of the table.
abbrev pub hostname_of : IpAddr → List MdnsFinding → Option Text
hostname_of ip [] = none
hostname_of ip (f ∷ rest) =
    if ip_eq f.ip ip then or_else f.hostname (hostname_of ip rest) else hostname_of ip rest

abbrev pub mac_of : IpAddr → List (IpAddr × Text) → Option Text
mac_of ip [] = none
mac_of ip ((a, mac) ∷ rest) = if ip_eq a ip then some mac else mac_of ip rest

-- What the three sweeps say of an address.
abbrev pub said_of : IpAddr → List MdnsFinding → List IpAddr → List (IpAddr × Text) → Option Said
said_of ip mdns icmp arp =
    if any (λ f. ip_eq f.ip ip) mdns
      || any (λ a. ip_eq a ip) icmp
      || any (λ (e : IpAddr × Text). ip_eq e.0 ip) arp
    then some (hostname_of ip mdns, mac_of ip arp)
    else none

or_else_assoc : (a b c : Option Text) → or_else (or_else a b) c ≡ or_else a (or_else b c)
or_else_assoc none b c = refl
or_else_assoc (some x) b c = refl

or_else-none : (a : Option Text) → or_else a none ≡ a
or_else-none none = refl
or_else-none (some x) = refl

-- How each finding adds to what is said.
abbrev pub by_mdns : MdnsFinding → Said → Said
by_mdns f (hostname, mac) = (or_else hostname f.hostname, mac)

abbrev pub by_icmp : IpAddr → Said → Said
by_icmp ip said = said

abbrev pub by_arp : IpAddr × Text → Said → Said
by_arp (a, new) (hostname, mac) = (hostname, or_else mac (some new))

module _ (ip : IpAddr) where
  after_mdns-some :
      (fs : List MdnsFinding) (hostname mac : Option Text)
      → said_after (λ (f : MdnsFinding). f.ip) by_mdns ip fs (some (hostname, mac))
        ≡ some (or_else hostname (hostname_of ip fs), mac)
  after_mdns-some [] hostname mac = ap (λ n. some (n, mac)) (sym (or_else-none hostname))
  after_mdns-some (f ∷ rest) hostname mac = elim (Bool-cases (ip_eq f.ip ip)) [
    | inl here ↦ rw here (
        after_mdns-some rest (or_else hostname f.hostname) mac
        ∙ ap (λ n. some (n, mac)) (or_else_assoc hostname f.hostname (hostname_of ip rest)))
    | inr other ↦ rw other (after_mdns-some rest hostname mac)
  ]

  after_mdns-none :
      (fs : List MdnsFinding)
      → said_after (λ (f : MdnsFinding). f.ip) by_mdns ip fs none
        ≡ (if any (λ f. ip_eq f.ip ip) fs then some (hostname_of ip fs, none) else none)
  after_mdns-none [] = refl
  after_mdns-none (f ∷ rest) = elim (Bool-cases (ip_eq f.ip ip)) [
    | inl here ↦ rw here (after_mdns-some rest f.hostname none)
    | inr other ↦ rw other (after_mdns-none rest)
  ]

  after_icmp-some :
      (ips : List IpAddr) (said : Said)
      → said_after (λ (a : IpAddr). a) by_icmp ip ips (some said) ≡ some said
  after_icmp-some [] said = refl
  after_icmp-some (a ∷ rest) said = elim (Bool-cases (ip_eq a ip)) [
    | inl here ↦ rw here (after_icmp-some rest said)
    | inr other ↦ rw other (after_icmp-some rest said)
  ]

  after_icmp-none :
      (ips : List IpAddr)
      → said_after (λ (a : IpAddr). a) by_icmp ip ips none
        ≡ (if any (λ a. ip_eq a ip) ips then some (none, none) else none)
  after_icmp-none [] = refl
  after_icmp-none (a ∷ rest) = elim (Bool-cases (ip_eq a ip)) [
    | inl here ↦ rw here (after_icmp-some rest (none, none))
    | inr other ↦ rw other (after_icmp-none rest)
  ]

  after_arp-some :
      (es : List (IpAddr × Text)) (hostname mac : Option Text)
      → said_after (λ (e : IpAddr × Text). e.0) by_arp ip es (some (hostname, mac))
        ≡ some (hostname, or_else mac (mac_of ip es))
  after_arp-some [] hostname mac = ap (λ n. some (hostname, n)) (sym (or_else-none mac))
  after_arp-some ((a, new) ∷ rest) hostname mac = elim (Bool-cases (ip_eq a ip)) [
    | inl here ↦ rw here (
        after_arp-some rest hostname (or_else mac (some new))
        ∙ ap (λ n. some (hostname, n)) (or_else_assoc mac (some new) (mac_of ip rest)))
    | inr other ↦ rw other (after_arp-some rest hostname mac)
  ]

  after_arp-none :
      (es : List (IpAddr × Text))
      → said_after (λ (e : IpAddr × Text). e.0) by_arp ip es none
        ≡ (if any (λ (e : IpAddr × Text). ip_eq e.0 ip) es then some (none, mac_of ip es) else none)
  after_arp-none [] = refl
  after_arp-none ((a, new) ∷ rest) = elim (Bool-cases (ip_eq a ip)) [
    | inl here ↦ rw here (after_arp-some rest none (some new))
    | inr other ↦ rw other (after_arp-none rest)
  ]

  hostname_of-none :
      (fs : List MdnsFinding) → any (λ f. ip_eq f.ip ip) fs ≡ false → hostname_of ip fs ≡ none
  hostname_of-none [] nowhere = refl
  hostname_of-none (f ∷ rest) nowhere = elim (Bool-cases (ip_eq f.ip ip)) [
    | inl here ↦ absurd (ground (arith, here))
    | inr other ↦
        let elsewhere : any (λ f. ip_eq f.ip ip) rest ≡ false = rw other at nowhere in
        rw other (hostname_of-none rest elsewhere)
  ]

  pub said_after_all :
      (mdns : List MdnsFinding) (icmp : List IpAddr) (arp : List (IpAddr × Text))
      → said_after
          (λ (e : IpAddr × Text). e.0)
          by_arp
          ip
          arp
          (said_after
            (λ (a : IpAddr). a)
            by_icmp
            ip
            icmp
            (said_after (λ (f : MdnsFinding). f.ip) by_mdns ip mdns none))
        ≡ said_of ip mdns icmp arp
  said_after_all mdns icmp arp =
      let from_mdns = after_mdns-none mdns in
      elim (Bool-cases (any (λ f. ip_eq f.ip ip) mdns)) [
        | inl here ↦
            let named = hostname_of ip mdns in
            rw (from_mdns, here, after_icmp-some icmp (named, none)) (after_arp-some arp named none)
        | inr other ↦
            let unnamed = hostname_of-none mdns other in
            let from_icmp = after_icmp-none icmp in
            elim (Bool-cases (any (λ a. ip_eq a ip) icmp)) [
              | inl here ↦
                  rw (from_mdns, other, from_icmp, here, unnamed) (after_arp-some arp none none)
              | inr other' ↦ rw (from_mdns, other, from_icmp, other', unnamed) (after_arp-none arp)
            ]
      ]
