-- ===== src/Session/Open.antt =====
-- crates/rustmote-core/src/session/mod.rs, `Session::open`: the handshake with the check of the
-- host key, the authentication, and the local end of the forwarder.
pub mod Pinned
use rustmote.Prelude.{ℕ, Bool, true, false, Option, none, some}
use rustmote.Text.{Text}
use rustmote.Time.{DateTime}
use rustmote.Error.{Result}
use rustmote.Effect.{Io, pure, gets, ◌>>=◌, ◌>>◌}
use rustmote.KnownHosts.{
  KnownHosts, TofuOutcome, pinned, matched, mismatch, unknown_rejected, TofuPolicy,
}
use rustmote.Server.{RemoteServer}
use rustmote.Session.HostKeyHandler.{Handler, Shared, check_server_key}
use rustmote.Session.Auth.{AuthMaterial, Ssh, authenticate}

-- `client::connect` with the callback of a handler, and the listener on 127.0.0.1:0 with its port.
pub record Network (World : Type 0) : Type 1 where
  pub connect :
      (host : Text) (port : ℕ)
      → (callback : (fingerprint name : Text) → DateTime → Io Shared Bool)
      → Io (World × Shared) (Unit {0})
  pub bind_local : Io World ℕ

-- What the caller gets of the session, and the port to which its forwarder sends.
pub record Session : Type 0 where
  pub local_port : ℕ
  pub server_name : Text
  pub forwards_to : ℕ

-- `matches!(.., Some(TofuOutcome::Pinned))`
unfoldable pub is_newly_pinned : Option TofuOutcome → Bool
is_newly_pinned none = false
is_newly_pinned (some pinned) = true
is_newly_pinned (some matched) = false
is_newly_pinned (some (mismatch expected actual)) = false
is_newly_pinned (some unknown_rejected) = false

-- An operation on the world alone.
unfoldable pub in_world : {World A : Type 0} → Io World A → Io (World × Shared) A
in_world m s = let (r, w) = m s.0 in (r, (w, s.1))

module _ {World : Type 0} (S : Ssh World) (N : Network World) where
  -- What follows the handshake.
  unfoldable pub opened : RemoteServer → AuthMaterial → Io (World × Shared) (Session × Bool)
  opened server auth = do
    in_world (authenticate S server auth)
    was_newly_pinned ← gets (λ s. is_newly_pinned s.1.outcome_slot)
    local_port ← in_world N.bind_local
    pure (
      record {
        local_port = local_port;
        server_name = server.name;
        forwards_to = server.relay_port;
      },
      was_newly_pinned,
    )

  unfoldable pub handler_for : RemoteServer → TofuPolicy → Handler
  handler_for server policy = record {
    host = S.show_ip server.host;
    port = server.ssh_port;
    policy = policy;
  }

  -- `known_hosts` is the store that the caller shares; the slot starts out empty.
  unfoldable pub open_session :
      RemoteServer
      → AuthMaterial
      → KnownHosts
      → TofuPolicy
      → World
      → Result (Session × Bool) × (World × Shared)
  unfolding opened
  open_session server auth known_hosts policy w =
      let h = handler_for server policy in
      let start : Shared = record { known_hosts = known_hosts; outcome_slot = none } in
      (do N.connect h.host h.port (check_server_key h); opened server auth) (w, start)
