-- ===== src/Session/Open/Pinned.antt =====
-- crates/rustmote-core/src/session/mod.rs, `Session::open`: what a session that was opened says of
-- the pins.
use rustmote.Prelude.{
  ℕ, ◌≡◌, refl, sym, ◌∙◌, ap, ◌⊎◌, inl, inr, Bool, true, false, Option, none, some, ◌++◌, arith,
}
use mathlib.Core.Path.{subst}
use rustmote.Text.{Text, str, text_eq}
use rustmote.Text.Laws.{text_eq_iff}
use rustmote.Time.{DateTime}
use rustmote.Error.{ok}
use rustmote.Effect.{Io, >>=-eq-ok}
use rustmote.Effect.Hoare.{
  Anything, Hoare, Hoare-bind, Hoare-kept, Hoare-gets, Hoare-pure, Hoare_ran,
}
use rustmote.Effect.Keeps.{Keeps}
use rustmote.KnownHosts.{HostKey, KnownHosts, TofuPolicy, trust_on_first_use, get, verify_or_pin}
use rustmote.Server.{RemoteServer}
use rustmote.Session.HostKeyHandler.Trust.{
  Handshake, IsAccepted, IsAccepted-iff, accepted_pin, pin, shake, shown,
}
use rustmote.Session.HostKeyHandler.{Handler, Shared, check_server_key}
use rustmote.Session.Auth.{AuthMaterial, Ssh, authenticate}
use rustmote.Session.Open.{
  Network, Session, is_newly_pinned, in_world, opened, handler_for, open_session,
}

-- How an endpoint came to be trusted: it was pinned before and the store is as it was, or it was
-- not, the policy trusts on first use, and it is pinned now.
abbrev pub HowTrusted : TofuPolicy → KnownHosts → Option HostKey → KnownHosts → Bool → Type 0
HowTrusted policy before pin after newly =
    ((newly ≡ false) × ((k : HostKey) × (pin ≡ some k)) × (after ≡ before))
    ⊎ ((newly ≡ true) × (pin ≡ none) × (policy ≡ trust_on_first_use))

-- The endpoint of the handler is pinned to the fingerprint.
abbrev pub IsPinnedTo : Handler → Text → KnownHosts → Type 0
IsPinnedTo h fingerprint kh =
    (k : HostKey) × (get kh h.host h.port ≡ some k) × (k.fingerprint ≡ str "SHA256:" ++ fingerprint)

accepted_how :
    (a : Handshake) (s : Shared)
    → IsAccepted a s
    → HowTrusted a.policy s.known_hosts
        (pin s a.host a.port)
        (shake a s).known_hosts
        (is_newly_pinned (shake a s).outcome_slot)
unfolding check_server_key verify_or_pin get is_newly_pinned
accepted_how a s accepted = elim ((IsAccepted-iff a s).0 accepted) [
  | inl (k, was, same) ↦
      let itself : text_eq k.fingerprint (shown a) ≡ true =
        (text_eq_iff k.fingerprint (shown a)).1 same in
      inl (ground (arith, itself), (k, was), ground (arith, itself))
  | inr (unpinned, trusts) ↦ inr (ground arith, unpinned, trusts)
]

-- A handshake that succeeds has asked the callback about a key that the server presented, and was
-- told to go on.
pub record IsNetwork {World : Type 0} (N : Network World) : Type 1 where
  pub Presents : World → (host : Text) → (port : ℕ) → (fingerprint : Text) → Type 0
  pub asked :
      (host : Text) (port : ℕ) (callback : (fingerprint name : Text) → DateTime → Io Shared Bool)
      (w w' : World) (s s' : Shared)
      → N.connect host port callback (w, s) ≡ (ok tt, (w', s'))
      → (fingerprint name : Text) × (at : DateTime) × Presents w host port fingerprint
        × (callback fingerprint name at s ≡ (ok true, s'))

Keeps-in_world :
    {World A : Type 0} (m : Io World A) (P : Shared → Type 0) → Keeps (λ s. P s.1) (in_world m)
unfolding in_world
Keeps-in_world m P = record { at = λ s before. before }

module _ {World : Type 0} (S : Ssh World) (N : Network World) where
  -- After the handshake the pins stay, and the session carries the server's name and the verdict.
  Hoare-opened :
      (server : RemoteServer) (auth : AuthMaterial) (shared : Shared)
      → Hoare
          (λ s. s.1 ≡ shared)
          (opened S N server auth)
          (λ r s.
            (s.1 ≡ shared)
            × (r.1 ≡ is_newly_pinned shared.outcome_slot)
            × (r.0.server_name ≡ server.name)
            × (r.0.forwards_to ≡ server.relay_port))
          Anything
  unfolding opened
  Hoare-opened server auth shared =
      Hoare-bind {M = λ u s. s.1 ≡ shared} _ _
        (Hoare-kept _ (Keeps-in_world (authenticate S server auth) (λ s. s ≡ shared)))
        (λ u.
          Hoare-bind {M = λ b s. (s.1 ≡ shared) × (b ≡ is_newly_pinned shared.outcome_slot)} _ _
            (Hoare-gets _
              (λ s same. (same, ap (λ (t : Shared). is_newly_pinned t.outcome_slot) same)))
            (λ newly.
              Hoare-bind {M = λ p s. (s.1 ≡ shared) × (newly ≡ is_newly_pinned shared.outcome_slot)}
                _ _
                (Hoare-kept _ (
                  Keeps-in_world N.bind_local
                    (λ s. (s ≡ shared) × (newly ≡ is_newly_pinned shared.outcome_slot))))
                (λ port. Hoare-pure _ (λ s known. (known.0, known.1, refl, refl)))))

  -- Where the SSH crate shows the callback only keys that the server presented, and asks it in every
  -- handshake that succeeds: a session that was opened is one with a server that presented the key to which its endpoint is
  -- pinned now; the flag says whether that is new, which the policy must have allowed, and
  -- otherwise the store of pins is as it was.
  pub open_session-IsPinnedTo :
      (network : IsNetwork N) (server : RemoteServer) (auth : AuthMaterial) (kh : KnownHosts)
      (policy : TofuPolicy) (w w' : World) (session : Session) (newly : Bool) (after : Shared)
      → open_session S N server auth kh policy w ≡ (ok (session, newly), (w', after))
      → let h = handler_for S N server policy in
        (session.server_name ≡ server.name)
        × (session.forwards_to ≡ server.relay_port)
        × ((fingerprint : Text) × network.Presents w h.host h.port fingerprint
            × IsPinnedTo h fingerprint after.known_hosts)
        × HowTrusted policy kh (get kh h.host h.port) after.known_hosts newly
  unfolding open_session handler_for
  open_session-IsPinnedTo network server auth kh policy w w' session newly after succeeded =
      let h = handler_for S N server policy in
      let start : Shared = record { known_hosts = kh; outcome_slot = none } in
      let (u, (w1, shared), connected, then_opened) = >>=-eq-ok _ _ succeeded in
      let (fingerprint, name, at, presented, told_on) =
        network.asked h.host h.port (check_server_key h) w w1 start shared connected in
      let (same, verdict, named, forwards) =
        Hoare_ran (Hoare-opened server auth shared) refl then_opened in
      let a : Handshake = record { handler = h; fingerprint = fingerprint; name = name; at = at } in
      let accepted : IsAccepted a start = ap (λ x. x.0) told_on in
      let left : shake a start ≡ after = ap (λ x. x.1) told_on ∙ sym same in
      let pinned_now : IsPinnedTo h fingerprint after.known_hosts =
        subst (λ (t : Shared). IsPinnedTo h fingerprint t.known_hosts) left
          (accepted_pin a start accepted) in
      let was = get kh h.host h.port in
      let how : HowTrusted policy kh was after.known_hosts (is_newly_pinned after.outcome_slot) =
        subst
          (λ (t : Shared). HowTrusted policy kh was t.known_hosts (is_newly_pinned t.outcome_slot))
          left (accepted_how a start accepted) in
      let flag : newly ≡ is_newly_pinned after.outcome_slot =
        verdict ∙ ap (λ (t : Shared). is_newly_pinned t.outcome_slot) (sym same) in
      (
        named,
        forwards,
        (fingerprint, presented, pinned_now),
        subst (HowTrusted policy kh was after.known_hosts) (sym flag) how,
      )
