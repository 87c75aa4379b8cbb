-- ===== src/Discovery/Ordered.antt =====
-- The hosts in the order of their addresses, as a `BTreeMap` keeps them.
use rustmote.Prelude.{
  ◌≡◌, refl, sym, inl, inr, true, Option, none, some, List, [], ◌∷◌, find, All, arith, Bool-cases,
  if◌then◌else◌,
}
use mathlib.Core.Path.{subst}
use rustmote.Net.{IpAddr, ip_eq, ip_lt, ip_eq_iff}
use rustmote.Net.Order.{ip_lt_trans, ip_lt_total, ip_lt_ne}
use rustmote.Discovery.{DiscoveredHost, fresh_host, upsert}

-- All hosts come after an address.
abbrev pub IsBefore : IpAddr → List DiscoveredHost → Type 0
IsBefore ip = All (λ (h : DiscoveredHost). ip_lt ip h.ip ≡ true)

abbrev pub IsOrdered : List DiscoveredHost → Type 0
IsOrdered [] = Unit
IsOrdered (h ∷ hosts) = IsBefore h.ip hosts × IsOrdered hosts

abbrev pub host_at : IpAddr → List DiscoveredHost → Option DiscoveredHost
host_at ip = find (λ h. ip_eq h.ip ip)

-- A change that leaves the address.
abbrev pub KeepsIp : (DiscoveredHost → DiscoveredHost) → Type 0
KeepsIp change = (h : DiscoveredHost) → (change h).ip ≡ h.ip

IsBefore-trans :
    (a b : IpAddr) (hosts : List DiscoveredHost)
    → ip_lt a b ≡ true
    → IsBefore b hosts
    → IsBefore a hosts
IsBefore-trans a b [] lt before = tt
IsBefore-trans a b (h ∷ hosts) lt (first, rest) =
    (ip_lt_trans a b h.ip lt first, IsBefore-trans a b hosts lt rest)

-- What comes before all hosts is none of them.
host_at-none :
    (a : IpAddr) (hosts : List DiscoveredHost) → IsBefore a hosts → host_at a hosts ≡ none
host_at-none a [] before = refl
host_at-none a (h ∷ hosts) (first, rest) =
    ground
      (arith, host_at-none a hosts rest, ip_lt_ne a h.ip first, ip_eq_iff a h.ip, ip_eq_iff h.ip a)

module _ (known : List IpAddr) (ip : IpAddr) where
  -- The host that is changed: the one that is there, or a new one.
  abbrev pub or_fresh : Option DiscoveredHost → DiscoveredHost
  or_fresh none = fresh_host known ip
  or_fresh (some h) = h

module _ (known : List IpAddr) (ip : IpAddr) (change : DiscoveredHost → DiscoveredHost)
    (keeps : KeepsIp change) where
  upsert-IsBefore :
      (a : IpAddr) (hosts : List DiscoveredHost)
      → ip_lt a ip ≡ true
      → IsBefore a hosts
      → IsBefore a (upsert known ip change hosts)
  unfolding upsert
  upsert-IsBefore a [] lt before = (rw (keeps (fresh_host known ip)) lt, tt)
  upsert-IsBefore a (h ∷ hosts) lt (first, rest) = elim (Bool-cases (ip_eq ip h.ip)) [
    | inl here ↦ rw here (rw (keeps h) first, rest)
    | inr other ↦ elim (Bool-cases (ip_lt ip h.ip)) [
      | inl earlier ↦ rw (other, earlier) (rw (keeps (fresh_host known ip)) lt, (first, rest))
      | inr later ↦ rw (other, later) (first, upsert-IsBefore a hosts lt rest)
    ]
  ]

  pub upsert-IsOrdered :
      (hosts : List DiscoveredHost) → IsOrdered hosts → IsOrdered (upsert known ip change hosts)
  unfolding upsert
  upsert-IsOrdered [] ordered = (tt, tt)
  upsert-IsOrdered (h ∷ hosts) (before, ordered) = elim (Bool-cases (ip_eq ip h.ip)) [
    | inl here ↦ rw here (subst (λ a. IsBefore a hosts) (sym (keeps h)) before, ordered)
    | inr other ↦ elim (Bool-cases (ip_lt ip h.ip)) [
      | inl earlier ↦
          let first = keeps (fresh_host known ip) in
          rw (other, earlier)
            (
              subst (λ a. IsBefore a (h ∷ hosts)) (sym first)
                  (earlier, IsBefore-trans ip h.ip hosts earlier before),
              (before, ordered),
            )
      | inr later ↦
          rw (other, later)
            (
              upsert-IsBefore h.ip hosts (ip_lt_total ip h.ip other later) before,
              upsert-IsOrdered hosts ordered,
            )
    ]
  ]

  pub host_at-upsert :
      (hosts : List DiscoveredHost) (a : IpAddr)
      → IsOrdered hosts
      → host_at a (upsert known ip change hosts) ≡ (
          if ip_eq ip a
          then some (change (or_fresh known ip (host_at ip hosts)))
          else host_at a hosts)
  unfolding upsert
  host_at-upsert [] a ordered = rw (keeps (fresh_host known ip)) refl
  host_at-upsert (h ∷ hosts) a (before, ordered) = elim (Bool-cases (ip_eq ip h.ip)) [
    | inl here ↦
        ground
          (arith, keeps h, ip_eq_iff ip h.ip, ip_eq_iff h.ip ip, ip_eq_iff ip a, ip_eq_iff h.ip a)
    | inr other ↦ elim (Bool-cases (ip_lt ip h.ip)) [
      | inl earlier ↦ ground (
        arith,
        keeps (fresh_host known ip),
        ip_eq_iff ip h.ip,
        ip_eq_iff h.ip ip,
        ip_eq_iff ip a,
        ip_eq_iff h.ip a,
        host_at-none ip hosts (IsBefore-trans ip h.ip hosts earlier before),
      )
      | inr later ↦ ground (
        arith,
        host_at-upsert hosts a ordered,
        ip_eq_iff ip h.ip,
        ip_eq_iff h.ip ip,
        ip_eq_iff ip a,
        ip_eq_iff h.ip a,
      )
    ]
  ]
