-- ===== src/Session/HostKeyHandler.antt =====
-- crates/rustmote-core/src/session/mod.rs, `HostKeyHandler`: the decision about a server's key
-- during the handshake.
pub mod Trust
use rustmote.Prelude.{ℕ, Bool, true, Option, none, some, ◌++◌}
use rustmote.Text.{Text, str}
use rustmote.Time.{DateTime}
use rustmote.Error.{Result, ok, err, host_key_mismatch, host_key_unknown}
use rustmote.Effect.{Io}
use rustmote.KnownHosts.{
  HostKey, KnownHosts, TofuOutcome, pinned, matched, mismatch, unknown_rejected, TofuPolicy,
  verify_or_pin,
}

-- The handler's own fields, and the two slots that it shares with the caller.
pub record Handler : Type 0 where
  pub host : Text
  pub port : ℕ
  pub policy : TofuPolicy

pub record Shared : Type 0 where
  pub known_hosts : KnownHosts
  pub outcome_slot : Option TofuOutcome

-- What the handler answers to the library for an outcome.
answer : Handler → TofuOutcome → Result Bool
answer h pinned = ok true
answer h matched = ok true
answer h (mismatch expected actual) =
    err (host_key_mismatch h.host h.port expected.fingerprint actual)
answer h unknown_rejected = err (host_key_unknown h.host h.port)

-- `fingerprint` and `name` are those of the server's public key, `now` is the current time.
unfoldable pub check_server_key : Handler → (fingerprint name : Text) → DateTime → Io Shared Bool
unfolding answer
check_server_key h fingerprint name now s =
    let observed : HostKey = record {
      fingerprint = str "SHA256:" ++ fingerprint;
      key_type = name;
      first_seen = now;
    } in
    let (outcome, kh) = verify_or_pin h.host h.port observed h.policy s.known_hosts in
    (answer h outcome, record { known_hosts = kh; outcome_slot = some outcome })
