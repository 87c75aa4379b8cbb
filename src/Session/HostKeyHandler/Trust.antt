-- ===== src/Session/HostKeyHandler/Trust.antt =====
-- Trust on first use, over any sequence of handshakes.
use rustmote.Prelude.{
  ℕ, ◌≡◌, ◌≢◌, ◌↔◌, ◌⊎◌, inl, inr, sym, ◌∙◌, true, false, Option, none, some, List, [], ◌∷◌, ◌++◌,
  arith, Option-cases,
}
use mathlib.Core.List.{append_cancel_left}
use rustmote.Text.{Text, str, text_eq}
use rustmote.Text.Laws.{text_eq_iff, text_eq_ne}
use rustmote.Time.{DateTime}
use rustmote.Error.{ok, err, host_key_mismatch}
use rustmote.KnownHosts.{HostKey, trust_on_first_use, get, verify_or_pin}
use rustmote.KnownHosts.Pins.{pin_stays, pinned_of_accepted, verify_of_pinned}
use rustmote.Session.HostKeyHandler.{Handler, Shared, check_server_key}

-- One handshake: the handler, and what the server shows at which time.
pub record Handshake : Type 0 where
  pub handler : Handler
  pub open handler use *
  pub fingerprint : Text
  pub name : Text
  pub at : DateTime

abbrev pub shake : Handshake → Shared → Shared
shake a s = (check_server_key a.handler a.fingerprint a.name a.at s).1

abbrev pub IsAccepted : Handshake → Shared → Type 0
IsAccepted a s = (check_server_key a.handler a.fingerprint a.name a.at s).0 ≡ ok true

-- The fingerprint as it is pinned.
abbrev pub shown : Handshake → Text
shown a = str "SHA256:" ++ a.fingerprint

unfoldable pub shake_all : List Handshake → Shared → Shared
shake_all [] s = s
shake_all (a ∷ rest) s = shake_all rest (shake a s)

abbrev observed : Handshake → HostKey
observed a = record { fingerprint = shown a; key_type = a.name; first_seen = a.at }

abbrev pub pin : Shared → Text → ℕ → Option HostKey
pin s = get s.known_hosts

-- A pin, once made, is never changed by a handshake, whatever it shows.
pub pin-shake_all :
    (others : List Handshake) (s : Shared) (host : Text) (port : ℕ) (k : HostKey)
    → pin s host port ≡ some k
    → pin (shake_all others s) host port ≡ some k
unfolding shake_all check_server_key
pin-shake_all [] s host port k e = e
pin-shake_all (a ∷ rest) s host port k e =
    pin-shake_all rest (shake a s) host port k
      (pin_stays a.host a.port (observed a) a.policy s.known_hosts host port k e)

-- The key of a server is accepted exactly when the endpoint is pinned to its fingerprint, or is not
-- pinned and the policy trusts on first use.
pub IsAccepted-iff :
    (a : Handshake) (s : Shared)
    → IsAccepted a s ↔ (
        ((k : HostKey) × (pin s a.host a.port ≡ some k) × (k.fingerprint ≡ shown a))
        ⊎ ((pin s a.host a.port ≡ none) × (a.policy ≡ trust_on_first_use)))
unfolding check_server_key verify_or_pin get
IsAccepted-iff a s = elim (Option-cases (pin s a.host a.port)) [
  | inl e ↦ (
    λ h. inr (e, ground arith),
    λ o. elim o [ inl (k, p, _) ↦ absurd (ground arith) | inr (_, q) ↦ ground arith ],
  )
  | inr (k, e) ↦ (
    λ h. inl (k, e, ground (arith, text_eq_iff k.fingerprint (shown a))),
    λ o. elim o [
      | inl (j, p, q) ↦ ground (arith, text_eq_iff k.fingerprint (shown a))
      | inr (n, _) ↦ absurd (ground arith)
    ],
  )
]

-- A key that is accepted leaves its endpoint pinned to its fingerprint.
pub accepted_pin :
    (a : Handshake) (s : Shared)
    → IsAccepted a s
    → (k : HostKey) × (pin (shake a s) a.host a.port ≡ some k) × (k.fingerprint ≡ shown a)
unfolding check_server_key
accepted_pin a s e =
    pinned_of_accepted a.host a.port (observed a) a.policy s.known_hosts (ground arith)

-- After a handshake that was accepted and any others, a handshake with the same endpoint that shows
-- another fingerprint is refused with both fingerprints, and the store of pins stays as it is.
pub changed_key_refused :
    (a : Handshake) (s : Shared) (others : List Handshake) (b : Handshake)
    → IsAccepted a s
    → b.host ≡ a.host
    → b.port ≡ a.port
    → b.fingerprint ≢ a.fingerprint
    → ((check_server_key b.handler b.fingerprint b.name b.at (shake_all others (shake a s))).0
        ≡ err (host_key_mismatch b.host b.port (shown a) (shown b)))
      × ((shake b (shake_all others (shake a s))).known_hosts
          ≡ (shake_all others (shake a s)).known_hosts)
unfolding check_server_key
changed_key_refused a s others b h same_host same_port ne =
    let (k, p, f) = accepted_pin a s h in
    let t = shake_all others (shake a s) in
    let later : pin t b.host b.port ≡ some k =
      rw (same_host, same_port) (pin-shake_all others (shake a s) a.host a.port k p) in
    let differs : text_eq k.fingerprint (shown b) ≡ false =
      text_eq_ne k.fingerprint (shown b)
        (λ e. ne (sym (append_cancel_left (str "SHA256:") _ _ (sym f ∙ e)))) in
    let same = verify_of_pinned b.host b.port (observed b) b.policy t.known_hosts k later in
    ground (arith, same, differs, f)
