-- ===== src/Discovery/Arp.antt =====
-- crates/rustmote-core/src/discovery.rs: the parser of `/proc/net/arp`. The parser of addresses is
-- of the standard library and a parameter.
use rustmote.Prelude.{
  Bool, ◌&&◌, ◌==◌, Option, none, some, List, [], ◌∷◌, all, length, drop, if◌then◌else◌,
}
use rustmote.Text.{
  Text, str, text_eq, split, split_whitespace, lines, is_ascii_hexdigit, bytes, byte_len,
}
use rustmote.Net.{IpAddr}

unfoldable pub looks_like_mac : Text → Bool
looks_like_mac s =
    let parts = split s b':' in
    length parts == 6 && all (λ p. byte_len p == 2 && all is_ascii_hexdigit (bytes p)) parts

module _ (parse_ip : Text → Option IpAddr) where
  -- The entry of a line, from its columns.
  arp_entry : List Text → Option (IpAddr × Text)
  arp_entry (ip ∷ hw_type ∷ flags ∷ mac ∷ rest) = elim (parse_ip ip) [
    | none ↦ none
    | some a ↦
        if text_eq mac (str "00:00:00:00:00:00")
        then none
        else if looks_like_mac mac
        then some (a, mac)
        else none
  ]
  arp_entry cols = none

  arp_entries : List Text → List (IpAddr × Text)
  unfolding arp_entry
  arp_entries [] = []
  arp_entries (line ∷ rest) = elim (arp_entry (split_whitespace line)) [
    | none ↦ arp_entries rest
    | some e ↦ e ∷ arp_entries rest
  ]

  unfoldable pub parse_proc_net_arp : Text → List (IpAddr × Text)
  unfolding arp_entries
  parse_proc_net_arp body = arp_entries (drop 1 (lines body))
